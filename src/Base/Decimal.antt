-- ===== src/Base/Decimal.antt =====
-- Decimal text: `(*big.Int).String`, `SetString(s, 10)`, and hexadecimal text, `hex.EncodeToString`.
use Prim.Native.Nat.{ℕ, zero, suc, ◌+◌, ◌-◌, ◌*◌, ◌/◌, ◌%◌, ◌<◌}
use mathlib.Core.Path.{◌≡◌, refl}
use mathlib.Core.Bool.{Bool, ◌&&◌, false}
use mathlib.Core.Logic.{inl, inr}
use mathlib.Core.Option
use mathlib.Core.Option.{Option, none, some}
use mathlib.Core.List.{[], ◌∷◌, ◌++◌}
use native.Mathlib.Omega.{arith}
use xpay_server.Base.Tests.{ltb, leb, eqb, if◌then◌else◌, Bool-cases}
use xpay_server.Base.Text.{Str}
use xpay_server.Base.Lists.{is_empty}
use xpay_server.Base.Int.{ℤ, pos, negsuc, sub_ℕ}

-- The last digit first bound, so that the fuel is spent only as far as there are digits.
unfoldable pub digits : ℕ → ℕ → Str
digits zero n = []
digits (suc fuel) n =
    let rest = digits fuel (n / 10) in
    if ltb n 10 then (b'0' + n) ∷ [] else rest ++ (b'0' + n % 10) ∷ []

-- A number has fewer digits than its successor, so this fuel is enough.
unfoldable pub decimal : ℕ → Str
decimal n = digits (suc n) n

unfoldable pub int_string : ℤ → Str
int_string (pos n) = decimal n
int_string (negsuc n) = b'-' ∷ decimal (suc n)

abbrev pub is_digit : ℕ → Bool
is_digit c = leb b'0' c && leb c b'9'

unfoldable pub parse_digits : ℕ → Str → Option ℕ
parse_digits acc [] = some acc
parse_digits acc (c ∷ s) =
    let rest = parse_digits (acc * 10 + (c - b'0')) s in if is_digit c then rest else none

-- At least one digit, and nothing else.
unfoldable pub parse_nat : Str → Option ℕ
parse_nat s = if is_empty s then none else parse_digits 0 s

-- `SetString(s, 10)`: a sign is allowed, `_` and prefixes are not.
unfoldable pub parse_int : Str → Option ℤ
parse_int [] = none
parse_int (c ∷ s) =
    if eqb c b'-'
    then Option.map (sub_ℕ 0) (parse_nat s)
    else if eqb c b'+'
    then Option.map pos (parse_nat s)
    else Option.map pos (parse_nat (c ∷ s))

abbrev next_digit : ℕ → Option ℕ → Option ℕ
next_digit c none = none
next_digit c (some v) = if is_digit c then some (v * 10 + (c - b'0')) else none

parse_digits-append :
    (acc : ℕ) (s : Str) (c : ℕ) → parse_digits acc (s ++ c ∷ []) ≡ next_digit c (parse_digits acc s)
unfolding parse_digits
parse_digits-append acc [] c = refl
parse_digits-append acc (x ∷ s) c = ground (arith, parse_digits-append (acc * 10 + (x - b'0')) s c)

parse_digits-digits : (fuel n : ℕ) → n < fuel → parse_digits 0 (digits fuel n) ≡ some n
unfolding digits parse_digits
parse_digits-digits zero n h = elim h [ ]
parse_digits-digits (suc fuel) n h = elim (Bool-cases (ltb n 10)) [
  | inl small ↦ rw small (ground arith)
  | inr large ↦
      rw (large, parse_digits-append 0 (digits fuel (n / 10)) (b'0' + n % 10))
        (rw (parse_digits-digits fuel (n / 10) (ground arith)) (ground arith))
]

-- What is printed is read back.
pub parse_digits-decimal : (n : ℕ) → parse_digits 0 (decimal n) ≡ some n
unfolding decimal
parse_digits-decimal n = parse_digits-digits (suc n) n (omega arith)

snoc_nonempty : (s : Str) (c : ℕ) → is_empty (s ++ c ∷ []) ≡ false
snoc_nonempty [] c = refl
snoc_nonempty (x ∷ s) c = refl

digits_nonempty : (fuel n : ℕ) → is_empty (digits (suc fuel) n) ≡ false
unfolding digits
digits_nonempty fuel n = elim (Bool-cases (ltb n 10)) [
  | inl small ↦ rw small refl
  | inr large ↦ rw large (snoc_nonempty (digits fuel (n / 10)) _)
]

parse_int-digits :
    (s : Str) (n : ℕ)
    → is_empty s ≡ false
    → parse_digits 0 s ≡ some n
    → (parse_int s ≡ some (pos n)) × (parse_nat s ≡ some n)
unfolding parse_int parse_nat parse_digits
parse_int-digits [] n e d = cc
parse_int-digits (c ∷ s) n e d = (ground arith, d)

parse_int-minus :
    (s : Str) (n : ℕ) → parse_nat s ≡ some (suc n) → parse_int (b'-' ∷ s) ≡ some (negsuc n)
unfolding parse_int
parse_int-minus s n h = rw h (ground arith)

-- What is printed of an integer is read back.
pub parse_int-int_string : (n : ℤ) → parse_int (int_string n) ≡ some n
unfolding int_string decimal
parse_int-int_string (pos n) =
    (parse_int-digits (digits (suc n) n) n (digits_nonempty n n)
      (parse_digits-digits (suc n) n (omega arith))).0
parse_int-int_string (negsuc n) =
    parse_int-minus (digits (suc (suc n)) (suc n)) n
      (parse_int-digits (digits (suc (suc n)) (suc n)) (suc n) (digits_nonempty (suc n) (suc n))
        (parse_digits-digits (suc (suc n)) (suc n) (omega arith))).1
