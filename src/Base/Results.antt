-- ===== src/Base/Results.antt =====
-- A Go result with an error: `(value, err)` of which one is meant.
use mathlib.Core.Path.{◌≡◌, refl}
use mathlib.Core.Logic.{◌⊎◌, inl, inr}
use mathlib.Core.Bool.{Bool, true, false}
use mathlib.Core.Option.{Option, none, some}

pub data Result {ℓ κ} (E : Type ℓ) (A : Type κ) : Type (ℓ ⊔ κ) where
  ok : A → Result E A
  err : E → Result E A

infixl 5 ◌>>◌ ◌>>=◌
-- `if err != nil { return err }` after a call
abbrev pub ◌>>=◌ {ℓ κ μ} :
    {E : Type ℓ} {B : Type κ} {A : Type μ} → Result E B → (B → Result E A) → Result E A
err e >>= next = err e
ok b >>= next = next b

-- the same after a call that has no value
abbrev pub ◌>>◌ {ℓ μ} : {E : Type ℓ} {A : Type μ} → Result E (Unit {0}) → Result E A → Result E A
done >> next = done >>= λ _. next

module _ {ℓ} {E : Type ℓ} where
  -- `if bad { return err }`
  abbrev pub fail_if : Bool → E → Result E (Unit {0})
  fail_if true e = err e
  fail_if false e = ok tt

  -- a parse or a lookup that may fail
  abbrev pub or_fail {κ} : {A : Type κ} → Option A → E → Result E A
  or_fail none e = err e
  or_fail (some a) e = ok a

  -- `fmt.Errorf("…: %w", err)`
  abbrev pub wrap_err {κ μ} : {D : Type μ} {A : Type κ} → (D → E) → Result D A → Result E A
  wrap_err f (ok a) = ok a
  wrap_err f (err d) = err (f d)

  -- The call had no error, and the rest was run on its value.
  pub >>=-eq-ok {κ μ} :
      {B : Type κ} {C : Type μ} (call : Result E B) (rest : B → Result E C) {c : C}
      → (call >>= rest) ≡ ok c
      → (x : B) × (call ≡ ok x) × (rest x ≡ ok c)
  >>=-eq-ok (err bad) rest e = cc
  >>=-eq-ok (ok x) rest e = (x, refl, e)

  -- The guard did not fire.
  pub fail_if-eq-ok {μ} :
      {B : Type μ} (c : Bool) (e : E) (k : Result E B) {b : B}
      → (fail_if c e >> k) ≡ ok b
      → (c ≡ false) × (k ≡ ok b)
  fail_if-eq-ok true e k h = cc
  fail_if-eq-ok false e k h = (refl, h)

  pub or_fail-eq-ok {κ μ} :
      {A : Type κ} {B : Type μ} (o : Option A) (e : E) (f : A → Result E B) {b : B}
      → (or_fail o e >>= f) ≡ ok b
      → (a : A) × (o ≡ some a) × (f a ≡ ok b)
  or_fail-eq-ok none e f h = cc
  or_fail-eq-ok (some a) e f h = (a, refl, h)

  pub wrap_err-eq-ok {κ μ} :
      {D : Type μ} {A : Type κ} (f : D → E) (m : Result D A) {a : A}
      → wrap_err f m ≡ ok a
      → m ≡ ok a
  wrap_err-eq-ok f (ok a) h = cc
  wrap_err-eq-ok f (err d) h = cc

  pub Result-cases {κ} :
      {A : Type κ} (m : Result E A) → ((a : A) × (m ≡ ok a)) ⊎ ((e : E) × (m ≡ err e))
  Result-cases (ok a) = inl (a, refl)
  Result-cases (err e) = inr (e, refl)
