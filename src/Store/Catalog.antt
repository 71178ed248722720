-- ===== src/Store/Catalog.antt =====
-- internal/store/settings.go: what the tables of prices and settings guarantee.
use xpay_server.Base.{
  ℕ, ◌≡◌, ◌≢◌, ◌⊎◌, Bool, List, [], ◌∷◌, arith, Memᴰ, All, some, ok, lookup, Result, Str, str_eq,
  insert, none, inl, Bool-cases, inr, lookup-insert, Result-cases, ◌==◌, map, str_beq_iff, ap,
  false, sym, is_empty, mem-sort_by, true, sort_by, Option-cases,
}
use xpay_server.Pricing.Price.{ModelPriceEntry}
use xpay_server.Store.Db.{Db, PriceRow, DbError}
use xpay_server.Store.Prices.{
  row_of, insert_all, transaction, replace_model_prices, Rows, insert_missing,
  bootstrap_default_prices, entry_of_row, upsert_model_price, list_model_prices, exec_tx,
  delete_and_insert, begin_tx, rollback_tx, commit_tx, seen_rows,
}
use xpay_server.Pricing.Table.{model_before}
use xpay_server.Store.Inserts.{FromEntries, Extends, insert_all-Extends, insert_missing-Extends}

-- A transaction that succeeds has kept what its statements did.
transaction-ok :
    (begin_fault commit_fault : Bool) (body : Rows → Result DbError (Unit {0}) × Rows) (d : Db)
    → (transaction begin_fault commit_fault body d).0 ≡ ok tt
    → (body d.model_prices ≡ (ok tt, (transaction begin_fault commit_fault body d).1.model_prices))
unfolding transaction exec_tx begin_tx commit_tx rollback_tx seen_rows
transaction-ok true cf body d h = cc
transaction-ok false cf body d h = elim (Result-cases (body d.model_prices).0) [
  | inr (e, failed) ↦ absurd (ground arith)
  | inl (_, fine) ↦ ground arith
]

-- A replacement that succeeds leaves exactly the rows of its entries: each entry has its row, and
-- any model `k` has none or that of an entry.
pub replace_model_prices_exact :
    (begin_fault commit_fault : Bool) (faults : ℕ → Bool) (entries : List ModelPriceEntry) (d : Db)
    (k : Str)
    → (replace_model_prices begin_fault commit_fault faults entries d).0 ≡ ok tt
    → let rows = (replace_model_prices begin_fault commit_fault faults entries d).1.model_prices in
      All (λ e. lookup e.model rows ≡ some (row_of e)) entries
      × ((lookup k rows ≡ none)
          ⊎ ((r : PriceRow) × (lookup k rows ≡ some r) × FromEntries entries k r))
unfolding replace_model_prices delete_and_insert lookup
replace_model_prices_exact bf cf faults entries d k h =
    let rows = (replace_model_prices bf cf faults entries d).1.model_prices in
    let done = transaction-ok bf cf (delete_and_insert bf cf faults entries) d h in
    let inserted : insert_all faults 1 entries [] ≡ (ok tt, rows) = ground arith in
    let (x, present) = insert_all-Extends faults 1 entries [] inserted in
    (
      present,
      elim (Option-cases (lookup k rows)) [
        | inl missing ↦ inl missing
        | inr (r, found) ↦
            inr (r, found, elim (x.origin k r found) [ inl old ↦ cc | inr new ↦ new ])
      ],
    )

-- The defaults that a start adds never replace a price that is there: every row stays, every
-- default's model has a row, and a new row is a default's.
pub bootstrap_default_prices-keeps :
    (begin_fault commit_fault : Bool) (faults : ℕ → Bool) (entries : List ModelPriceEntry) (d : Db)
    → (bootstrap_default_prices begin_fault commit_fault faults entries d).0 ≡ ok tt
    → let rows =
        (bootstrap_default_prices begin_fault commit_fault faults entries d).1.model_prices in
      Extends entries d.model_prices rows × All (λ e. lookup e.model rows ≢ none) entries
unfolding bootstrap_default_prices
bootstrap_default_prices-keeps bf cf faults entries d h =
    insert_missing-Extends faults 0 entries d.model_prices
      (transaction-ok bf cf (insert_missing faults 0 entries) d h)

lookup-mem : (k : Str) (rows : Rows) (r : PriceRow) → lookup k rows ≡ some r → Memᴰ (k, r) rows
unfolding lookup
lookup-mem k [] r e = cc
lookup-mem k ((j, w) ∷ rows) r e = elim (Bool-cases (j == k)) [
  | inl same ↦
      let key : j ≡ k = (str_beq_iff j k).0 same in
      let row : w ≡ r = ground arith in Memᴰ.head (λ i. (sym key i, sym row i))
  | inr other ↦ Memᴰ.tail (lookup-mem k rows r (ground arith))
]

mem-entries :
    (e : Str × PriceRow) (rows : Rows) → Memᴰ e rows → Memᴰ (entry_of_row e) (map entry_of_row rows)
mem-entries e (x ∷ rows) (Memᴰ.head h) = Memᴰ.head (ap entry_of_row h)
mem-entries e (x ∷ rows) (Memᴰ.tail m) = Memᴰ.tail (mem-entries e rows m)
mem-entries e [] m = elim m [ ]

entry_of_row-row_of : (entry : ModelPriceEntry) → entry_of_row (entry.model, row_of entry) ≡ entry
entry_of_row-row_of entry = ground arith

-- A saved price is listed, as it was saved, and the row of any other model stays.
pub list_model_prices-upsert :
    (entry : ModelPriceEntry) (d : Db) (k : Str) {out : List ModelPriceEntry}
    → (upsert_model_price false entry d).0 ≡ ok tt
    → list_model_prices false (upsert_model_price false entry d).1 ≡ ok out
    → k ≢ entry.model
    → Memᴰ entry out
      × (lookup k (upsert_model_price false entry d).1.model_prices ≡ lookup k d.model_prices)
unfolding upsert_model_price list_model_prices
list_model_prices-upsert entry d k {out} e listed other = elim (Bool-cases (is_empty entry.model)) [
  | inl empty ↦ absurd (ground arith)
  | inr named ↦
      let rows = insert entry.model (row_of entry) d.model_prices in
      let found : lookup entry.model rows ≡ some (row_of entry) = ground (
        arith,
        lookup-insert entry.model entry.model (row_of entry) d.model_prices,
        str_beq_iff entry.model entry.model,
      ) in
      let m =
        mem-sort_by model_before (map entry_of_row rows)
          (mem-entries (entry.model, row_of entry) rows (lookup-mem entry.model rows _ found)) in
      let same : sort_by model_before (map entry_of_row rows) ≡ out = ground arith in
      (
        rw (← same) (rw (entry_of_row-row_of entry) at m),
        ground (
          arith,
          lookup-insert entry.model k (row_of entry) d.model_prices,
          str_beq_iff entry.model k,
        ),
      )
]
