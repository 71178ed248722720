-- ===== src/Base/Sort.antt =====
-- `sort.Slice`. Go promises no order among elements that the test does not tell apart; this is one
-- order that it may give, and the theorems on sorted results do not depend on which.
use mathlib.Core.Logic.{inl, inr}
use mathlib.Core.Bool.{Bool}
use mathlib.Core.List.{List, [], ◌∷◌, Memᴰ}
use xpay_server.Base.Tests.{if◌then◌else◌, Bool-cases}
use xpay_server.Base.Lists.{All}

module _ {ℓ} {A : Type ℓ} (before : A → A → Bool) where
  unfoldable pub place : A → List A → List A
  place x [] = x ∷ []
  place x (y ∷ ys) = if before x y then x ∷ y ∷ ys else y ∷ place x ys

  unfoldable pub sort_by : List A → List A
  sort_by [] = []
  sort_by (x ∷ xs) = place x (sort_by xs)

  mem-place_self : (x : A) (ys : List A) → Memᴰ x (place x ys)
  unfolding place
  mem-place_self x [] = Memᴰ.head λ i. x
  mem-place_self x (y ∷ ys) = elim (Bool-cases (before x y)) [
    | inl h ↦ rw h (Memᴰ.head λ i. x)
    | inr h ↦ rw h (Memᴰ.tail (mem-place_self x ys))
  ]

  mem-place : {a : A} (x : A) (ys : List A) → Memᴰ a ys → Memᴰ a (place x ys)
  unfolding place
  mem-place x [] m = elim m [ ]
  mem-place x (y ∷ ys) (Memᴰ.head e) = elim (Bool-cases (before x y)) [
    | inl h ↦ rw h (Memᴰ.tail (Memᴰ.head e))
    | inr h ↦ rw h (Memᴰ.head e)
  ]
  mem-place x (y ∷ ys) (Memᴰ.tail m) = elim (Bool-cases (before x y)) [
    | inl h ↦ rw h (Memᴰ.tail (Memᴰ.tail m))
    | inr h ↦ rw h (Memᴰ.tail (mem-place x ys m))
  ]

  -- Sorting loses no element.
  pub mem-sort_by : {a : A} (xs : List A) → Memᴰ a xs → Memᴰ a (sort_by xs)
  unfolding sort_by
  mem-sort_by [] m = m
  mem-sort_by (x ∷ xs) (Memᴰ.head e) = rw e (mem-place_self x (sort_by xs))
  mem-sort_by (x ∷ xs) (Memᴰ.tail m) = mem-place x (sort_by xs) (mem-sort_by xs m)

  pub All-place {κ} : (P : A → Type κ) (x : A) (ys : List A) → P x → All P ys → All P (place x ys)
  unfolding place
  All-place P x [] p h = (p, tt)
  All-place P x (y ∷ ys) p h = elim (Bool-cases (before x y)) [
    | inl e ↦ rw e (p, h)
    | inr e ↦ rw e (h.0, All-place P x ys p h.1)
  ]

  -- Sorting adds no element.
  pub All-sort_by {κ} : (P : A → Type κ) (xs : List A) → All P xs → All P (sort_by xs)
  unfolding sort_by
  All-sort_by P [] h = tt
  All-sort_by P (x ∷ xs) h = All-place P x (sort_by xs) h.0 (All-sort_by P xs h.1)
