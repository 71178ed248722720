-- ===== src/Pricing/Order.antt =====
-- internal/pricing/pricing.go: Go walks a map in no fixed order, and `NewTable` builds its table in
-- that walk. The prices that the table gives do not depend on the order.
use xpay_server.Base.{
  sym, ◌↔◌, ap, ◌∙◌, ◌≡◌, ◌≢◌, refl, ◌⊎◌, inl, inr, true, Option, none, some, List, [], ◌∷◌, arith,
  Memᴰ, Bool-cases, length, ok, >>=-eq-ok, Str, str_eq, str_beq_iff, has_prefix, lookup,
  lookup-insert, Rat, Option-cases,
}
use xpay_server.Pricing.Price.{ModelPrice, CompiledPrice, normalize_model, compile_price}
use xpay_server.Pricing.Table.{
  Table, add_model, add_models, new_table, compile_default, empty_table, price_of_key,
}
use xpay_server.Pricing.Longest.{
  IsBestMatch, exact, longest, fallback, add_model-eq-ok, price_of_key-best,
}

-- Two prefixes of one id that are equally long are the same.
has_prefix_unique :
    (key j k : Str)
    → has_prefix key j ≡ true
    → has_prefix key k ≡ true
    → length j ≡ length k
    → j ≡ k
unfolding has_prefix
has_prefix_unique key [] [] h k e = refl
has_prefix_unique key [] (y ∷ ys) h k e = absurd (omega arith)
has_prefix_unique key (x ∷ xs) [] h k e = absurd (omega arith)
has_prefix_unique [] (x ∷ xs) (y ∷ ys) h k e = cc
has_prefix_unique (c ∷ cs) (x ∷ xs) (y ∷ ys) h k e = ground (arith, has_prefix_unique cs xs ys)

module _ (t t' : Table) (key : Str) {p q : CompiledPrice} where
  -- The best match is determined by what the ids are priced at and by the default.
  pub IsBestMatch-unique :
      t.default_price ≡ t'.default_price
      → ((k : Str) → lookup k t.models ≡ lookup k t'.models)
      → IsBestMatch t key p
      → IsBestMatch t' key q
      → p ≡ q
  IsBestMatch-unique d same (exact e) (exact e') = cc (same key)
  IsBestMatch-unique d same (exact e) (longest k m e' s b) = cc (same key)
  IsBestMatch-unique d same (exact e) (fallback m b e') = cc (same key)
  IsBestMatch-unique d same (longest k m e s b) (exact e') = cc (same key)
  IsBestMatch-unique d same (longest k m e s b) (longest k' m' e' s' b') =
      let le = b k' (λ h. cc (same k')) s' in
      let ge = b' k (λ h. cc (same k)) s in
      let eq = has_prefix_unique key k k' s s' (omega arith) in cc (same k)
  IsBestMatch-unique d same (longest k m e s b) (fallback m' b' e') = cc (b' k (λ h. cc (same k)))
  IsBestMatch-unique d same (fallback m b e) (exact e') = cc (same key)
  IsBestMatch-unique d same (fallback m b e) (longest k m' e' s b') = cc (b k (λ h. cc (same k)))
  IsBestMatch-unique d same (fallback m b e) (fallback m' b' e') = cc

-- Where a price in the table comes from.
abbrev Source : (Str → Option Rat) → List (Str × ModelPrice) → Str → CompiledPrice → Type 0
Source rat_of models k p =
    (model : Str) × (price : ModelPrice) × Memᴰ (model, price) models
    × (normalize_model model ≡ k)
    × (compile_price rat_of price ≡ ok p)

-- Entries whose ids agree once normalized have one price.
abbrev pub IsConsistent : List (Str × ModelPrice) → Type 0
IsConsistent models =
    (m m' : Str) (p p' : ModelPrice)
    → Memᴰ (m, p) models
    → Memᴰ (m', p') models
    → normalize_model m ≡ normalize_model m'
    → p ≡ p'

-- The same entries, in whatever order.
abbrev pub SameEntries : List (Str × ModelPrice) → List (Str × ModelPrice) → Type 0
SameEntries models models' = (e : Str × ModelPrice) → Memᴰ e models ↔ Memᴰ e models'

module _ (rat_of : Str → Option Rat) where
  abbrev Priced : List (Str × ModelPrice) → Table → Str → CompiledPrice → Type 0
  Priced models t k p = (lookup k t.models ≡ some p) ⊎ Source rat_of models k p

  later-Source :
      (e : Str × ModelPrice) (models : List (Str × ModelPrice)) (k : Str) (p : CompiledPrice)
      → Source rat_of models k p
      → Source rat_of (e ∷ models) k p
  later-Source e models k p (model, price, m, n, c) = (model, price, Memᴰ.tail m, n, c)

  add_models-Priced :
      (models : List (Str × ModelPrice)) (t : Table) {t' : Table} (k : Str) (p : CompiledPrice)
      → add_models rat_of models t ≡ ok t'
      → lookup k t'.models ≡ some p
      → Priced models t k p
  unfolding add_models
  add_models-Priced [] t k p e h = inl (cc)
  add_models-Priced ((model, price) ∷ rest) t k p e h =
      let (next, added, more) = >>=-eq-ok (add_model rat_of model price t) _ e in
      let (c, compiled, named, made) = add_model-eq-ok rat_of model price t added in
      elim (add_models-Priced rest next k p more h) [
        | inr s ↦ inr (later-Source (model, price) rest k p s)
        | inl found ↦ elim (Bool-cases (str_eq.same (normalize_model model) k)) [
          | inl same ↦ inr (
            model,
            price,
            Memᴰ.head refl,
            (str_beq_iff _ k).0 same,
            compiled ∙ ap ok (ground (arith, lookup-insert (normalize_model model) k c t.models)),
          )
          | inr other ↦ inl (ground (arith, lookup-insert (normalize_model model) k c t.models))
        ]
      ]

  add_models-kept :
      (models : List (Str × ModelPrice)) (t : Table) {t' : Table} (k : Str)
      → add_models rat_of models t ≡ ok t'
      → lookup k t.models ≢ none
      → lookup k t'.models ≢ none
  unfolding add_models
  add_models-kept [] t {t'} k e h = let same : t ≡ t' = cc in rw (← same) h
  add_models-kept ((model, price) ∷ rest) t k e h =
      let (next, added, more) = >>=-eq-ok (add_model rat_of model price t) _ e in
      let (c, compiled, named, made) = add_model-eq-ok rat_of model price t added in
      add_models-kept rest next k more
        (ground (arith, lookup-insert (normalize_model model) k c t.models))

  add_models-mem :
      (models : List (Str × ModelPrice)) (t : Table) {t' : Table} (m : Str) (q : ModelPrice)
      → add_models rat_of models t ≡ ok t'
      → Memᴰ (m, q) models
      → lookup (normalize_model m) t'.models ≢ none
  unfolding add_models
  add_models-mem [] t m q e h = elim h [ ]
  add_models-mem ((model, price) ∷ rest) t m q e (Memᴰ.head h) =
      let (next, added, more) = >>=-eq-ok (add_model rat_of model price t) _ e in
      let (c, compiled, named, made) = add_model-eq-ok rat_of model price t added in
      let key = normalize_model model in
      let same : m ≡ model = ap (λ x. x.0) h in
      rw same (
        add_models-kept rest next key more
          (ground (arith, lookup-insert key key c t.models, str_beq_iff key key)))
  add_models-mem ((model, price) ∷ rest) t m q e (Memᴰ.tail h) =
      let (next, added, more) = >>=-eq-ok (add_model rat_of model price t) _ e in
      add_models-mem rest next m q more h

  new_table-eq-ok :
      (dflt : ModelPrice) (models : List (Str × ModelPrice)) {t : Table}
      → new_table rat_of dflt models ≡ ok t
      → (d : CompiledPrice) × (t₀ : Table) × (compile_default rat_of dflt ≡ ok d)
        × (add_models rat_of models (empty_table d) ≡ ok t₀)
        × (t.models ≡ t₀.models)
        × (t.default_price ≡ t₀.default_price)
  unfolding new_table
  new_table-eq-ok dflt models e =
      let (d, compiled, rest) = >>=-eq-ok (compile_default rat_of dflt) _ e in
      let (t₀, added, made) = >>=-eq-ok (add_models rat_of models (empty_table d)) _ rest in
      (d, t₀, compiled, added, cc, cc)

  add_models-default :
      (models : List (Str × ModelPrice)) (t : Table) {t' : Table}
      → add_models rat_of models t ≡ ok t'
      → t'.default_price ≡ t.default_price
  unfolding add_models
  add_models-default [] t e = cc
  add_models-default ((model, price) ∷ rest) t e =
      let (next, added, more) = >>=-eq-ok (add_model rat_of model price t) _ e in
      let (c, compiled, named, made) = add_model-eq-ok rat_of model price t added in
      add_models-default rest next more ∙ ap (λ (s : Table). s.default_price) made

  -- Each configured model is priced as its entry says.
  pub new_table-Source :
      (dflt : ModelPrice) (models : List (Str × ModelPrice)) {t : Table} (k : Str)
      (p : CompiledPrice)
      → new_table rat_of dflt models ≡ ok t
      → lookup k t.models ≡ some p
      → Source rat_of models k p
  unfolding lookup
  new_table-Source dflt models k p e h =
      let (d, t₀, compiled, added, same, _) = new_table-eq-ok dflt models e in
      elim (add_models-Priced models (empty_table d) k p added (rw (← same) h)) [
        | inl found ↦ cc
        | inr s ↦ s
      ]

  pub new_table-mem :
      (dflt : ModelPrice) (models : List (Str × ModelPrice)) {t : Table} (m : Str) (q : ModelPrice)
      → new_table rat_of dflt models ≡ ok t
      → Memᴰ (m, q) models
      → lookup (normalize_model m) t.models ≢ none
  new_table-mem dflt models m q e h =
      let (d, t₀, compiled, added, same, _) = new_table-eq-ok dflt models e in
      rw same (add_models-mem models (empty_table d) m q added h)

module _ (rat_of : Str → Option Rat) (dflt : ModelPrice) (models models' : List (Str × ModelPrice))
    (one : IsConsistent models) (same : SameEntries models models') where
  same_price :
      {t t' : Table} (k : Str)
      → new_table rat_of dflt models ≡ ok t
      → new_table rat_of dflt models' ≡ ok t'
      → lookup k t.models ≡ lookup k t'.models
  same_price {t} {t'} k e e' = elim (Option-cases (lookup k t.models)) [
    | inl missing ↦ elim (Option-cases (lookup k t'.models)) [
      | inl also ↦ cc
      | inr (q, found) ↦
          let (m, price, at_m, named, _) = new_table-Source rat_of dflt models' k q e' found in
          absurd (
            new_table-mem rat_of dflt models m price e ((same (m, price)).1 at_m)
              (rw named missing))
    ]
    | inr (p, found) ↦
        let (m, price, at_m, named, c) = new_table-Source rat_of dflt models k p e found in
        elim (Option-cases (lookup k t'.models)) [
          | inl missing ↦ absurd (
              new_table-mem rat_of dflt models' m price e' ((same (m, price)).0 at_m)
                (rw named missing))
          | inr (q, found') ↦
              let (m', price', at_m', named', c') =
                new_table-Source rat_of dflt models' k q e' found' in
              cc (one m m' price price' at_m ((same (m', price')).1 at_m') (named ∙ sym named'))
        ]
  ]

  -- Two walks over the same entries, of which those with one normalized id agree, give tables
  -- that price every model alike.
  pub price_of_key-order :
      (t t' : Table) (model : Str)
      → new_table rat_of dflt models ≡ ok t
      → new_table rat_of dflt models' ≡ ok t'
      → price_of_key t (normalize_model model) ≡ price_of_key t' (normalize_model model)
  price_of_key-order t t' model e e' =
      let (d, t₀, c, added, _, default) = new_table-eq-ok rat_of dflt models e in
      let (d', t₁, c', added', _, default') = new_table-eq-ok rat_of dflt models' e' in
      IsBestMatch-unique t t' (normalize_model model)
        (cc (
          add_models-default rat_of models (empty_table d) added,
          add_models-default rat_of models' (empty_table d') added',
        ))
        (λ k. same_price k e e') (price_of_key-best rat_of dflt models t model e)
        (price_of_key-best rat_of dflt models' t' model e')
