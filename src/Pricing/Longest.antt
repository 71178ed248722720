-- ===== src/Pricing/Longest.antt =====
-- internal/pricing/pricing.go: the lookup of a price, against its description: the exact model id
-- first, then the longest configured id that begins the model's, then the default.

use xpay_server.Base.{
  ◌≤◌, ◌≡◌, ◌≢◌, refl, sym, subst, inl, inr, true, false, Option, none, some, List, [], ◌∷◌, ◌++◌,
  arith, Memᴰ, Bool-cases, Option-cases, length, is_empty, All, All-append, All-mem, All-weaken,
  mem-append_left, mem-append_right, ok, >>=-eq-ok, wrap_err, wrap_err-eq-ok, Str, str_eq,
  str_beq_iff, has_prefix, lookup, insert, lookup-insert, Rat, sort_by, place, mem-sort_by,
  All-place, All-sort_by,
}
use xpay_server.Pricing.Price.{ModelPrice, CompiledPrice, in_model, normalize_model, compile_price}
use xpay_server.Pricing.Table.{
  Table, empty_table, compile_default, longer_first, add_model, add_models, new_table, first_prefix,
  price_of_key,
}

-- Longest first, as the sort leaves the prefixes.
abbrev pub LongestFirst : List Str → Type 0
LongestFirst [] = Unit
LongestFirst (k ∷ ks) = All (λ j. length j ≤ length k) ks × LongestFirst ks

-- The prefixes are the ids of the map, longest first.
pub record IsWellFormed (t : Table) : Type 0 where
  pub sorted : LongestFirst t.prefixes
  pub listed : (k : Str) → lookup k t.models ≢ none → Memᴰ k t.prefixes
  pub priced : All (λ k. lookup k t.models ≢ none) t.prefixes

-- What the lookup of a normalized id should give.
pub data IsBestMatch (t : Table) (key : Str) (p : CompiledPrice) : Type 0 where
  exact : lookup key t.models ≡ some p → IsBestMatch t key p
  longest :
      (k : Str)
      → lookup key t.models ≡ none
      → lookup k t.models ≡ some p
      → has_prefix key k ≡ true
      → ((j : Str) → lookup j t.models ≢ none → has_prefix key j ≡ true → length j ≤ length k)
      → IsBestMatch t key p
  fallback :
      lookup key t.models ≡ none
      → ((j : Str) → lookup j t.models ≢ none → has_prefix key j ≡ false)
      → p ≡ t.default_price
      → IsBestMatch t key p

first_prefix_found :
    (key : Str) (ps : List Str) {p : Str}
    → first_prefix key ps ≡ some p
    → LongestFirst ps
    → (has_prefix key p ≡ true)
      × Memᴰ p ps
      × ((j : Str) → Memᴰ j ps → has_prefix key j ≡ true → length j ≤ length p)
unfolding first_prefix
first_prefix_found key [] e s = cc
first_prefix_found key (q ∷ ps) {p} e s = elim (Bool-cases (has_prefix key q)) [
  | inl h ↦
      let same : q ≡ p = ground arith in
      (rw (← same) h, Memᴰ.head (sym same), λ j m k. rw (← same) (bound j m))
  | inr h ↦
      let (starts, found, best) = first_prefix_found key ps (ground arith) s.1 in
      (starts, Memᴰ.tail found, λ j m k. skip h best j m k)
]
  where
    bound : (j : Str) → Memᴰ j (q ∷ ps) → length j ≤ length q
    bound j (Memᴰ.head e) = rw e (omega arith)
    bound j (Memᴰ.tail m) = All-mem (λ i. length i ≤ length q) ps s.0 m

    skip :
        has_prefix key q ≡ false
        → ((j : Str) → Memᴰ j ps → has_prefix key j ≡ true → length j ≤ length p)
        → (j : Str) → Memᴰ j (q ∷ ps)
        → has_prefix key j ≡ true
        → length j ≤ length p
    skip h best j (Memᴰ.head e) k = absurd (cc)
    skip h best j (Memᴰ.tail m) k = best j m k

first_prefix_missing :
    (key : Str) (ps : List Str)
    → first_prefix key ps ≡ none
    → (j : Str) → Memᴰ j ps
    → has_prefix key j ≡ false
unfolding first_prefix
first_prefix_missing key [] e j m = elim m [ ]
first_prefix_missing key (q ∷ ps) e j (Memᴰ.head h) = rw h (ground arith)
first_prefix_missing key (q ∷ ps) e j (Memᴰ.tail m) = first_prefix_missing key ps (ground arith) j m

-- In a well-formed table the lookup gives the best match.
pub price_of_key_lem :
    (t : Table) (key : Str) → IsWellFormed t → IsBestMatch t key (price_of_key t key)
unfolding price_of_key
price_of_key_lem t key w = elim (Option-cases (lookup key t.models)) [
  | inr (p, found) ↦ exact (ground arith)
  | inl missing ↦ elim (Option-cases (first_prefix key t.prefixes)) [
    | inl nowhere ↦
        fallback missing (λ j h. first_prefix_missing key t.prefixes nowhere j (w.listed j h))
          (ground arith)
    | inr (k, first) ↦
        let (starts, m, best) = first_prefix_found key t.prefixes first w.sorted in
        elim (Option-cases (lookup k t.models)) [
          | inl unpriced ↦
              absurd (All-mem (λ i. lookup i t.models ≢ none) t.prefixes w.priced m unpriced)
          | inr (p, found) ↦ longest k missing (ground arith) starts (λ j h. best j (w.listed j h))
        ]
  ]
]

-- The sort leaves the longest prefix first.
place-LongestFirst :
    (x : Str) (ys : List Str) → LongestFirst ys → LongestFirst (place longer_first x ys)
unfolding place
place-LongestFirst x [] h = (tt, tt)
place-LongestFirst x (y ∷ ys) h = elim (Bool-cases (longer_first x y)) [
  | inl e ↦
      let lt : length y ≤ length x = ground arith in
      rw e ((lt, All-weaken (λ j. length j ≤ length y) _ (λ j k. omega arith) ys h.0), h)
  | inr e ↦ rw e (
    All-place longer_first (λ j. length j ≤ length y) x ys (ground arith) h.0,
    place-LongestFirst x ys h.1,
  )
]

sort_by-LongestFirst : (xs : List Str) → LongestFirst (sort_by longer_first xs)
unfolding sort_by
sort_by-LongestFirst [] = tt
sort_by-LongestFirst (x ∷ xs) =
    place-LongestFirst x (sort_by longer_first xs) (sort_by-LongestFirst xs)

-- The map and the list of prefixes hold the same ids, in the order in which they came.
record IsListed (t : Table) : Type 0 where
  listed : (k : Str) → lookup k t.models ≢ none → Memᴰ k t.prefixes
  priced : All (λ k. lookup k t.models ≢ none) t.prefixes

empty_table-IsListed : (d : CompiledPrice) → IsListed (empty_table d)
unfolding lookup
empty_table-IsListed d = record { listed = λ k h. absurd (h refl); priced = tt }

abbrev with_model : Str → CompiledPrice → Table → Table
with_model key compiled t = record t {
  models = insert key compiled t.models;
  prefixes = t.prefixes ++ key ∷ [];
}

module _ (rat_of : Str → Option Rat) where
  pub add_model-eq-ok :
      (model : Str) (price : ModelPrice) (t : Table) {t' : Table}
      → add_model rat_of model price t ≡ ok t'
      → (p : CompiledPrice) × (compile_price rat_of price ≡ ok p)
        × (is_empty (normalize_model model) ≡ false)
        × (t' ≡ with_model (normalize_model model) p t)
  unfolding add_model
  add_model-eq-ok model price t e = elim (Bool-cases (is_empty (normalize_model model))) [
    | inl h ↦ absurd (ground arith)
    | inr h ↦
        let (p, compiled, made) =
          >>=-eq-ok (wrap_err (in_model model) (compile_price rat_of price)) _ (rw h at e) in
        (p, wrap_err-eq-ok (in_model model) _ compiled, h, cc)
  ]

lookup-insert_kept :
    (key : Str) (p : CompiledPrice) (t : Table) (k : Str)
    → lookup k t.models ≢ none
    → lookup k (insert key p t.models) ≢ none
lookup-insert_kept key p t k h = ground (arith, lookup-insert key k p t.models)

with_model-IsListed :
    (key : Str) (p : CompiledPrice) (t : Table) → IsListed t → IsListed (with_model key p t)
with_model-IsListed key p t l = record {
  listed = λ k h. elim (Bool-cases (str_eq.same key k)) [
    | inl same ↦ mem-append_right t.prefixes (Memᴰ.head (sym ((str_beq_iff key k).0 same)))
    | inr other ↦
        mem-append_left (key ∷ []) (l.listed k (ground (arith, lookup-insert key k p t.models)))
  ];
  priced =
      All-append _ t.prefixes (key ∷ [])
        (All-weaken (λ k. lookup k t.models ≢ none) _ (lookup-insert_kept key p t) t.prefixes
          l.priced)
        (ground (arith, lookup-insert key key p t.models, str_beq_iff key key), tt);
}

module _ (rat_of : Str → Option Rat) where
  add_models-IsListed :
      (models : List (Str × ModelPrice)) (t : Table) {t' : Table}
      → add_models rat_of models t ≡ ok t'
      → IsListed t
      → IsListed t'
  unfolding add_models
  add_models-IsListed [] t e l = subst IsListed (cc) l
  add_models-IsListed ((model, price) ∷ rest) t e l =
      let (next, added, more) = >>=-eq-ok (add_model rat_of model price t) _ e in
      let (p, compiled, named, made) = add_model-eq-ok rat_of model price t added in
      add_models-IsListed rest next more
        (subst IsListed (sym made) (with_model-IsListed (normalize_model model) p t l))

  -- Every table that `NewTable` returns is well formed.
  pub new_table-IsWellFormed :
      (dflt : ModelPrice) (models : List (Str × ModelPrice)) {t : Table}
      → new_table rat_of dflt models ≡ ok t
      → IsWellFormed t
  unfolding new_table
  new_table-IsWellFormed dflt models {t} e =
      let (d, compiled, rest) = >>=-eq-ok (compile_default rat_of dflt) _ e in
      let (t', added, made) = >>=-eq-ok (add_models rat_of models (empty_table d)) _ rest in
      let l = add_models-IsListed models (empty_table d) added (empty_table-IsListed d) in
      let whole : (record t' { prefixes = sort_by longer_first t'.prefixes }) ≡ t = cc in
      subst IsWellFormed whole (record {
        sorted = sort_by-LongestFirst t'.prefixes;
        listed = λ k h. mem-sort_by longer_first t'.prefixes (l.listed k h);
        priced = All-sort_by longer_first _ t'.prefixes l.priced;
      })

  -- A table that `NewTable` returns gives every model the price of its best match: its own if
  -- its id is configured, else that of the longest configured id that begins it, else the default.
  pub price_of_key-best :
      (dflt : ModelPrice) (models : List (Str × ModelPrice)) (t : Table) (model : Str)
      → new_table rat_of dflt models ≡ ok t
      → IsBestMatch t (normalize_model model) (price_of_key t (normalize_model model))
  price_of_key-best dflt models t model e =
      price_of_key_lem t (normalize_model model) (new_table-IsWellFormed dflt models e)
