-- ===== src/Base/Descending.antt =====
-- Lists sorted by a key, the greatest first, and their prefixes: `ORDER BY … DESC LIMIT …`.
use Prim.Native.Nat.{ℕ, zero, suc}
use mathlib.Core.Logic.{inl, inr}
use mathlib.Core.Bool.{Bool}
use mathlib.Core.List.{List, [], ◌∷◌}
use native.Mathlib.Omega.{arith}
use xpay_server.Base.Tests.{Bool-cases}
use xpay_server.Base.Lists.{All, All-weaken, take, drop, All-take, All-drop}
use xpay_server.Base.Int.{ℤ, ltb_ℤ, ◌≤ℤ◌}
use xpay_server.Base.Sort.{place, sort_by, All-place}

module _ {ℓ} {A : Type ℓ} (key : A → ℤ) where
  abbrev pub greater_first : A → A → Bool
  greater_first x y = ltb_ℤ (key y) (key x)

  abbrev pub IsDescending : List A → Type 0
  IsDescending [] = Unit
  IsDescending (x ∷ xs) = All (λ y. key y ≤ℤ key x) xs × IsDescending xs

  place-IsDescending :
      (x : A) (ys : List A) → IsDescending ys → IsDescending (place greater_first x ys)
  unfolding place
  place-IsDescending x [] h = (tt, tt)
  place-IsDescending x (y ∷ ys) h = elim (Bool-cases (greater_first x y)) [
    | inl e ↦
        let lt : key y ≤ℤ key x = ground arith in
        rw e ((lt, All-weaken (λ z. key z ≤ℤ key y) _ (λ z k. omega arith) ys h.0), h)
    | inr e ↦ rw e (
      All-place greater_first (λ z. key z ≤ℤ key y) x ys (ground arith) h.0,
      place-IsDescending x ys h.1,
    )
  ]

  pub sort_by-IsDescending : (xs : List A) → IsDescending (sort_by greater_first xs)
  unfolding sort_by
  sort_by-IsDescending [] = tt
  sort_by-IsDescending (x ∷ xs) =
      place-IsDescending x (sort_by greater_first xs) (sort_by-IsDescending xs)

  pub take-IsDescending : (n : ℕ) (xs : List A) → IsDescending xs → IsDescending (take n xs)
  take-IsDescending zero xs h = tt
  take-IsDescending (suc n) [] h = tt
  take-IsDescending (suc n) (x ∷ xs) h =
      (All-take (λ y. key y ≤ℤ key x) n xs h.0, take-IsDescending n xs h.1)

  -- What is left out comes after what is kept.
  pub drop-le-take :
      (n : ℕ) (xs : List A)
      → IsDescending xs
      → All (λ x. All (λ y. key y ≤ℤ key x) (drop n xs)) (take n xs)
  drop-le-take zero xs h = tt
  drop-le-take (suc n) [] h = tt
  drop-le-take (suc n) (x ∷ xs) h = (All-drop (λ y. key y ≤ℤ key x) n xs h.0, drop-le-take n xs h.1)
