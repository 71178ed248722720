-- ===== src/Base/Numbers.antt =====
-- `*big.Rat` and `float64` as the program uses them: the program computes no floats, it only
-- compares them with 0 and 1 and turns them into rationals.
use Prim.Native.Nat.{ℕ, suc, ◌%◌}
use mathlib.Core.Bool.{Bool, true, false, not}
use mathlib.Core.Option.{Option, none, some}
use xpay_server.Base.Tests.{◌==◌, nat_eq}
use xpay_server.Base.Int.{ℤ, pos, int_eq, magnitude, ltb_ℤ, leb_ℤ}

-- A fraction with a positive denominator, in lowest terms or not: nothing below depends on it.
pub record Rat : Type 0 where
  pub num : ℤ
  pub den_pred : ℕ

abbrev pub den : Rat → ℕ
den r = suc r.den_pred

abbrev pub rat_of_int : ℤ → Rat
rat_of_int n = record { num = n; den_pred = 0 }

-- `r.IsInt()`
abbrev pub is_int : Rat → Bool
is_int r = magnitude r.num % den r == 0

-- A float is not a number, infinite (`true` for below zero), or finite with an exact value.
pub data Float64 : Type 0 where
  nan : Float64
  infinite : Bool → Float64
  finite : Rat → Float64

abbrev pub is_nan : Float64 → Bool
is_nan nan = true
is_nan _ = false

-- `math.IsInf(f, 0)`
abbrev pub is_inf : Float64 → Bool
is_inf (infinite _) = true
is_inf _ = false

-- `f > 0`
abbrev pub gt_zero : Float64 → Bool
gt_zero nan = false
gt_zero (infinite below) = not below
gt_zero (finite r) = ltb_ℤ (pos 0) r.num

-- `f <= 0`: not the negation of `f > 0`, since both are false of NaN.
abbrev pub le_zero : Float64 → Bool
le_zero nan = false
le_zero (infinite below) = below
le_zero (finite r) = leb_ℤ r.num (pos 0)

-- `f == 1`
abbrev pub eq_one : Float64 → Bool
eq_one (finite r) = r.num == pos (den r)
eq_one _ = false

-- `new(big.Rat).SetFloat64(f)`, nil if `f` is not finite
abbrev pub set_float64 : Float64 → Option Rat
set_float64 (finite r) = some r
set_float64 _ = none
