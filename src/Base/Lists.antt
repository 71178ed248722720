-- ===== src/Base/Lists.antt =====
-- Lists measured by native numbers, and predicates on lists by recursion.
use Prim.Native.Nat.{ℕ, ◌≤◌, zero, suc, ◌+◌, ◌-◌}
use mathlib.Core.Path.{◌≡◌, refl, ap, sym, subst}
use mathlib.Core.Logic.{◌⊎◌, inl, inr}
use mathlib.Core.Bool.{Bool, true, false, ◌||◌}
use mathlib.Core.List.{List, [], ◌∷◌, ◌++◌, Memᴰ}
use native.Mathlib.Omega.{arith}
use xpay_server.Base.Tests.{Comparable, ◌==◌}

module _ {ℓ} {A : Type ℓ} where
  abbrev pub length : List A → ℕ
  length [] = 0
  length (x ∷ xs) = suc (length xs)

  abbrev pub is_empty : List A → Bool
  is_empty [] = true
  is_empty (x ∷ xs) = false

  abbrev pub take : ℕ → List A → List A
  take zero xs = []
  take (suc n) [] = []
  take (suc n) (x ∷ xs) = x ∷ take n xs

  abbrev pub drop : ℕ → List A → List A
  drop zero xs = xs
  drop (suc n) [] = []
  drop (suc n) (x ∷ xs) = drop n xs

  pub length-append : (xs ys : List A) → length (xs ++ ys) ≡ length xs + length ys
  length-append [] ys = omega arith
  length-append (x ∷ xs) ys = omega (arith, length-append xs ys)

module _ {ℓ κ} {A : Type ℓ} (P : A → Type κ) where
  abbrev pub All : List A → Type κ
  All [] = Unit
  All (x ∷ xs) = P x × All xs

  pub All-append : (xs ys : List A) → All xs → All ys → All (xs ++ ys)
  All-append [] ys hx hy = hy
  All-append (x ∷ xs) ys hx hy = (hx.0, All-append xs ys hx.1 hy)

pub All-weaken {ℓ κ μ} :
    {A : Type ℓ} (P : A → Type κ) (Q : A → Type μ)
    → ((a : A) → P a → Q a)
    → (xs : List A) → All P xs
    → All Q xs
All-weaken P Q f [] h = tt
All-weaken P Q f (x ∷ xs) h = (f x h.0, All-weaken P Q f xs h.1)

pub All-take {ℓ κ} :
    {A : Type ℓ} (P : A → Type κ) (n : ℕ) (xs : List A) → All P xs → All P (take n xs)
All-take P zero xs h = tt
All-take P (suc n) [] h = tt
All-take P (suc n) (x ∷ xs) h = (h.0, All-take P n xs h.1)

pub All-drop {ℓ κ} :
    {A : Type ℓ} (P : A → Type κ) (n : ℕ) (xs : List A) → All P xs → All P (drop n xs)
All-drop P zero xs h = h
All-drop P (suc n) [] h = tt
All-drop P (suc n) (x ∷ xs) h = All-drop P n xs h.1

pub mem-take-drop {ℓ} :
    {A : Type ℓ} {a : A} (n : ℕ) (xs : List A) → Memᴰ a xs → Memᴰ a (take n xs) ⊎ Memᴰ a (drop n xs)
mem-take-drop zero xs m = inr m
mem-take-drop (suc n) [] m = inr m
mem-take-drop (suc n) (x ∷ xs) (Memᴰ.head e) = inl (Memᴰ.head e)
mem-take-drop (suc n) (x ∷ xs) (Memᴰ.tail m) = elim (mem-take-drop n xs m) [
  | inl l ↦ inl (Memᴰ.tail l)
  | inr r ↦ inr r
]

pub length-take_le {ℓ} : {A : Type ℓ} (n : ℕ) (xs : List A) → length (take n xs) ≤ n
length-take_le zero xs = omega arith
length-take_le (suc n) [] = omega arith
length-take_le (suc n) (x ∷ xs) = omega (arith, length-take_le n xs)

-- The library's membership with its position kept.
module _ {ℓ} {A : Type ℓ} where
  pub mem-append_right : {a : A} (xs : List A) {ys : List A} → Memᴰ a ys → Memᴰ a (xs ++ ys)
  mem-append_right [] h = h
  mem-append_right (x ∷ xs) h = Memᴰ.tail (mem-append_right xs h)

  pub mem-append_left : {a : A} {xs : List A} (ys : List A) → Memᴰ a xs → Memᴰ a (xs ++ ys)
  mem-append_left ys (Memᴰ.head e) = Memᴰ.head e
  mem-append_left ys (Memᴰ.tail h) = Memᴰ.tail (mem-append_left ys h)

  pub mem-append-cases : {a : A} (xs ys : List A) → Memᴰ a (xs ++ ys) → Memᴰ a xs ⊎ Memᴰ a ys
  mem-append-cases [] ys h = inr h
  mem-append-cases (x ∷ xs) ys (Memᴰ.head e) = inl (Memᴰ.head e)
  mem-append-cases (x ∷ xs) ys (Memᴰ.tail h) = elim (mem-append-cases xs ys h) [
    | inl l ↦ inl (Memᴰ.tail l)
    | inr r ↦ inr r
  ]

  pub All-mem {κ} : (P : A → Type κ) {a : A} (xs : List A) → All P xs → Memᴰ a xs → P a
  All-mem P [] h m = elim m [ ]
  All-mem P (x ∷ xs) h (Memᴰ.head e) = subst P (sym e) h.0
  All-mem P (x ∷ xs) h (Memᴰ.tail m) = All-mem P xs h.1 m

-- `slices.Contains`
module _ {ℓ} {A : Type ℓ} ⦃e : Comparable A⦄ where
  abbrev pub contains : List A → A → Bool
  contains [] a = false
  contains (x ∷ xs) a = x == a || contains xs a

-- Cutting and joining.
module _ {ℓ} {A : Type ℓ} where
  pub take_all : (n : ℕ) (p : List A) → length p ≤ n → take n p ≡ p
  take_all zero [] h = refl
  take_all zero (c ∷ p) h = absurd (omega arith)
  take_all (suc n) [] h = refl
  take_all (suc n) (c ∷ p) h = ap (λ t. c ∷ t) (take_all n p (omega arith))

  pub append_nil : (p : List A) → p ++ [] ≡ p
  append_nil [] = refl
  append_nil (c ∷ p) = ap (λ t. c ∷ t) (append_nil p)

  pub append_assoc : (p q r : List A) → p ++ (q ++ r) ≡ (p ++ q) ++ r
  append_assoc [] q r = refl
  append_assoc (c ∷ p) q r = ap (λ t. c ∷ t) (append_assoc p q r)

  pub take-append : (n : ℕ) (p q : List A) → length p ≡ n → take n (p ++ q) ≡ p
  take-append zero [] q h = refl
  take-append zero (c ∷ p) q h = absurd (omega arith)
  take-append (suc n) [] q h = absurd (omega arith)
  take-append (suc n) (c ∷ p) q h = ap (λ t. c ∷ t) (take-append n p q (omega arith))

  pub drop-append : (n : ℕ) (p q : List A) → length p ≡ n → drop n (p ++ q) ≡ q
  drop-append zero [] q h = refl
  drop-append zero (c ∷ p) q h = absurd (omega arith)
  drop-append (suc n) [] q h = absurd (omega arith)
  drop-append (suc n) (c ∷ p) q h = drop-append n p q (omega arith)

  pub take_longer : (n : ℕ) (p q : List A) → n ≤ length p → take n (p ++ q) ≡ take n p
  take_longer zero p q h = refl
  take_longer (suc n) [] q h = absurd (omega arith)
  take_longer (suc n) (c ∷ p) q h = ap (λ t. c ∷ t) (take_longer n p q (omega arith))

  pub drop_longer : (n : ℕ) (p q : List A) → n ≤ length p → drop n (p ++ q) ≡ drop n p ++ q
  drop_longer zero p q h = refl
  drop_longer (suc n) [] q h = absurd (omega arith)
  drop_longer (suc n) (c ∷ p) q h = drop_longer n p q (omega arith)

  pub drop_whole : (n : ℕ) (p : List A) → length p ≤ n → drop n p ≡ []
  drop_whole zero [] h = refl
  drop_whole zero (c ∷ p) h = absurd (omega arith)
  drop_whole (suc n) [] h = refl
  drop_whole (suc n) (c ∷ p) h = drop_whole n p (omega arith)

  pub length-drop : (n : ℕ) (p : List A) → length (drop n p) ≡ length p - n
  length-drop zero p = omega arith
  length-drop (suc n) [] = omega arith
  length-drop (suc n) (c ∷ p) = omega (arith, length-drop n p)

  pub length-take : (n : ℕ) (p : List A) → n ≤ length p → length (take n p) ≡ n
  length-take zero p h = refl
  length-take (suc n) [] h = absurd (omega arith)
  length-take (suc n) (c ∷ p) h = omega (arith, length-take n p (omega arith))
