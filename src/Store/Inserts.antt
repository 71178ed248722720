-- ===== src/Store/Inserts.antt =====
-- internal/store/settings.go: what a run of inserts into model_prices leaves.
use xpay_server.Base.{
  ℕ, ◌≡◌, ◌≢◌, ◌⊎◌, Bool, List, [], ◌∷◌, arith, Memᴰ, All, some, ok, lookup, Str, str_eq, insert,
  none, inl, Bool-cases, inr, lookup-insert, ◌==◌, str_beq_iff, Option-cases, suc, refl,
}
use xpay_server.Pricing.Price.{ModelPriceEntry}
use xpay_server.Store.Db.{PriceRow}
use xpay_server.Store.Prices.{row_of, insert_all, Rows, insert_missing}

-- Where a row comes from.
abbrev pub FromEntries : List ModelPriceEntry → Str → PriceRow → Type 0
FromEntries entries k r = (e : ModelPriceEntry) × Memᴰ e entries × (e.model ≡ k) × (row_of e ≡ r)

FromEntries-tail :
    (x : ModelPriceEntry) (entries : List ModelPriceEntry) (k : Str) (r : PriceRow)
    → FromEntries entries k r
    → FromEntries (x ∷ entries) k r
FromEntries-tail x entries k r (e, m, named, same) = (e, Memᴰ.tail m, named, same)

FromEntries-insert :
    (x : ModelPriceEntry) (entries : List ModelPriceEntry) (rows : Rows) (k : Str) (r : PriceRow)
    → (lookup k (insert x.model (row_of x) rows) ≡ some r) ⊎ FromEntries entries k r
    → (lookup k rows ≡ some r) ⊎ FromEntries (x ∷ entries) k r
FromEntries-insert x entries rows k r (inr s) = inr (FromEntries-tail x entries k r s)
FromEntries-insert x entries rows k r (inl h) = elim (Bool-cases (x.model == k)) [
  | inl same ↦ inr (
    x,
    Memᴰ.head refl,
    (str_beq_iff x.model k).0 same,
    ground (arith, lookup-insert x.model k (row_of x) rows),
  )
  | inr other ↦ inl (ground (arith, lookup-insert x.model k (row_of x) rows))
]

insert_missing_row :
    (k : Str) (x : PriceRow) (rows : Rows) (j : Str) (r : PriceRow)
    → lookup k rows ≡ none
    → lookup j rows ≡ some r
    → lookup j (insert k x rows) ≡ some r
insert_missing_row k x rows j r missing found =
    ground (arith, lookup-insert k j x rows, str_beq_iff k j)

-- What a run of inserts leaves: the old rows, and rows that come from the entries.
pub record Extends (entries : List ModelPriceEntry) (rows rows' : Rows) : Type 0 where
  pub kept : (k : Str) (r : PriceRow) → lookup k rows ≡ some r → lookup k rows' ≡ some r
  pub origin :
      (k : Str) (r : PriceRow)
      → lookup k rows' ≡ some r
      → (lookup k rows ≡ some r) ⊎ FromEntries entries k r

pub insert_all-Extends :
    (faults : ℕ → Bool) (i : ℕ) (entries : List ModelPriceEntry) (rows : Rows) {rows' : Rows}
    → insert_all faults i entries rows ≡ (ok tt, rows')
    → Extends entries rows rows' × All (λ e. lookup e.model rows' ≡ some (row_of e)) entries
unfolding insert_all
insert_all-Extends faults i [] rows {rows'} e =
    let same : rows ≡ rows' = cc in
    (rw (← same) (record { kept = λ k r h. h; origin = λ k r h. inl h }), tt)
insert_all-Extends faults i (x ∷ entries) rows {rows'} e = elim (Bool-cases (faults i)) [
  | inl fails ↦ absurd (ground arith)
  | inr goes ↦ elim (Option-cases (lookup x.model rows)) [
    | inr (r, taken) ↦ absurd (ground arith)
    | inl free ↦
        let (rest, present) =
          insert_all-Extends faults (suc i) entries (insert x.model (row_of x) rows) {rows' = rows'}
            (ground arith) in
        (
          record {
            kept = λ k r h. rest.kept k r (insert_missing_row x.model (row_of x) rows k r free h);
            origin = λ k r h. FromEntries-insert x entries rows k r (rest.origin k r h);
          },
          (
            rest.kept x.model (row_of x) (
                ground (
                  arith,
                  lookup-insert x.model x.model (row_of x) rows,
                  str_beq_iff x.model x.model,
                )),
            present,
          ),
        )
  ]
]

pub insert_missing-Extends :
    (faults : ℕ → Bool) (i : ℕ) (entries : List ModelPriceEntry) (rows : Rows) {rows' : Rows}
    → insert_missing faults i entries rows ≡ (ok tt, rows')
    → Extends entries rows rows' × All (λ e. lookup e.model rows' ≢ none) entries
unfolding insert_missing
insert_missing-Extends faults i [] rows {rows'} e =
    let same : rows ≡ rows' = cc in
    (rw (← same) (record { kept = λ k r h. h; origin = λ k r h. inl h }), tt)
insert_missing-Extends faults i (x ∷ entries) rows {rows'} e = elim (Bool-cases (faults i)) [
  | inl fails ↦ absurd (ground arith)
  | inr goes ↦ elim (Option-cases (lookup x.model rows)) [
    | inr (r, taken) ↦
        let (rest, present) =
          insert_missing-Extends faults (suc i) entries rows {rows' = rows'} (ground arith) in
        (
          record {
            kept = rest.kept;
            origin = λ k s h. elim (rest.origin k s h) [
              | inl old ↦ inl old
              | inr new ↦ inr (FromEntries-tail x entries k s new)
            ];
          },
          (λ gone. cc (rest.kept x.model r taken), present),
        )
    | inl free ↦
        let (rest, present) =
          insert_missing-Extends faults (suc i) entries (insert x.model (row_of x) rows)
            {rows' = rows'} (ground arith) in
        let here = rest.kept x.model (row_of x) (
          ground
            (arith, lookup-insert x.model x.model (row_of x) rows, str_beq_iff x.model x.model)) in
        (
          record {
            kept = λ k r h. rest.kept k r (insert_missing_row x.model (row_of x) rows k r free h);
            origin = λ k r h. FromEntries-insert x entries rows k r (rest.origin k r h);
          },
          (λ gone. cc here, present),
        )
  ]
]
