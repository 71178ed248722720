-- ===== src/Pricing/Cost.antt =====
-- internal/pricing/pricing.go: the cost of a response in USDC base units.
use xpay_server.Base.{
  ◌%◌, Bool, nat_eq, int_eq, ◌&&◌, ◌||◌, not, Option, none, some, if◌then◌else◌, ◌==◌, Str, ℤ, pos,
  ltb_ℤ, magnitude, ◌+ℤ◌, ◌-ℤ◌, ◌*ℤ◌, quo, div, Rat, den, rat_of_int, Float64, gt_zero, eq_one,
  set_float64,
}
use xpay_server.Pricing.Price.{CompiledPrice}
use xpay_server.Pricing.Table.{Table, price_for}

pub record Usage : Type 0 where
  pub prompt_tokens : ℤ
  pub completion_tokens : ℤ
  pub cached_tokens : ℤ

unfoldable pub max : ℤ → ℤ → ℤ
max a b = if ltb_ℤ b a then a else b

unfoldable pub min : ℤ → ℤ → ℤ
min a b = if ltb_ℤ a b then a else b

unfoldable pub ceil_rat : Rat → ℤ
ceil_rat r = let q = quo r.num (den r) in if magnitude r.num % den r == 0 then q else q +ℤ pos 1

abbrev pub or_one : Option Rat → Rat
or_one none = rat_of_int (pos 1)
or_one (some r) = r

-- The price of the tokens at cost, rounded up to a base unit.
unfoldable pub base_cost : CompiledPrice → Usage → ℤ
base_cost p u =
    let prompt_tokens = max u.prompt_tokens (pos 0) in
    let cached_tokens = min (max u.cached_tokens (pos 0)) prompt_tokens in
    let uncached_tokens = prompt_tokens -ℤ cached_tokens in
    let input = uncached_tokens *ℤ p.input_micros_per_m in
    let cached_input = cached_tokens *ℤ p.cached_input_micros_per_m in
    let output = max u.completion_tokens (pos 0) *ℤ p.output_micros_per_m in
    div (input +ℤ cached_input +ℤ output +ℤ pos 999_999) 1_000_000

-- The markup, rounded up once more.
unfoldable pub apply_markup : Float64 → ℤ → ℤ
apply_markup markup total =
    if gt_zero markup && not (eq_one markup)
    then (let r = or_one (set_float64 markup) in ceil_rat (record r { num = total *ℤ r.num }))
    else total

abbrev pub is_used : Usage → Bool
is_used u = ltb_ℤ (pos 0) u.prompt_tokens || ltb_ℤ (pos 0) u.completion_tokens

-- `CostMicroUSDC` once the price is found
unfoldable pub cost_at : CompiledPrice → Usage → Float64 → ℤ
cost_at p u markup =
    let total = apply_markup markup (base_cost p u) in
    if total == pos 0 && is_used u then pos 1 else total

module _ (rat_of : Str → Option Rat) where
  -- `(*Table).CostMicroUSDC`; none where the receiver and the default table are both nil
  unfoldable pub cost_micro_usdc : Option Table → Str → Usage → Float64 → Option ℤ
  cost_micro_usdc t model u markup = elim (price_for rat_of t model) [
    | none ↦ none
    | some p ↦ some (cost_at p u markup)
  ]
