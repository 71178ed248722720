-- ===== src/Pricing/Bounds.antt =====
-- internal/pricing/pricing.go: the cost against the formula of README.md, and its bounds.
use Prim.Native.Nat.{min as min_ℕ}
use native.Mathlib.Nat.{div-add-mod, mod-lt, mul-le-mul_right}
use xpay_server.Base.{
  ℕ, suc, ◌+◌, ◌-◌, ◌*◌, ◌/◌, ◌%◌, ◌≤◌, ◌<◌, ◌≡◌, arith, if◌then◌else◌, nat_eq, int_eq, ℤ, pos,
  pos_part, ◌-ℤ◌, *ℤ-pos, +ℤ-pos, div, ◌==◌, Bool-cases, inl, eqb_iff, inr, Float64, eqb, quo,
  finite, ap, ◌&&◌, true, eqb→ne, ◌∙◌,
}
use xpay_server.Pricing.Price.{CompiledPrice}
use xpay_server.Pricing.Cost.{Usage, max, min, base_cost, ceil_rat, apply_markup, cost_at, is_used}

-- A compiled price none of whose parts is negative.
abbrev pub priced : ℕ → ℕ → ℕ → CompiledPrice
priced input cached output = record {
  input_micros_per_m = pos input;
  output_micros_per_m = pos output;
  cached_input_micros_per_m = pos cached;
}

-- The token counts as they are charged: none is negative, and no more input is cached than there is.
abbrev pub prompt : Usage → ℕ
prompt u = pos_part u.prompt_tokens

abbrev pub cached : Usage → ℕ
cached u = min_ℕ (pos_part u.cached_tokens) (prompt u)

abbrev pub completion : Usage → ℕ
completion u = pos_part u.completion_tokens

-- The exact price in millionths of a base unit.
unfoldable pub weighted : ℕ → ℕ → ℕ → Usage → ℕ
weighted i c o u = (prompt u - cached u) * i + cached u * c + completion u * o

max-zero : (a : ℤ) → max a (pos 0) ≡ pos (pos_part a)
unfolding max
max-zero a = ground arith

min-pos : (a b : ℕ) → min (pos a) (pos b) ≡ pos (min_ℕ a b)
unfolding min
min-pos a b = ground arith

sub-pos : (a b : ℕ) → b ≤ a → pos a -ℤ pos b ≡ pos (a - b)
unfolding ◌-ℤ◌
sub-pos a b h = ground arith

pub base_cost-priced :
    (i c o : ℕ) (u : Usage)
    → base_cost (priced i c o) u ≡ pos ((weighted i c o u + 999_999) / 1_000_000)
unfolding base_cost weighted div
base_cost-priced i c o u =
    simp (max-zero, min-pos, sub-pos (prompt u) (cached u) (omega arith), *ℤ-pos, +ℤ-pos)

-- What is charged for `b` units at cost under a markup of n / d.
ceil_div : ℕ → ℕ → ℕ
ceil_div a d = if a % d == 0 then a / d else a / d + 1

ceil_div_bounds :
    (a d : ℕ) → (a ≤ ceil_div a (suc d) * suc d) × (ceil_div a (suc d) * suc d < a + suc d)
unfolding ceil_div
ceil_div_bounds a d =
    let lt : a % suc d < suc d = mod-lt a (omega arith) in
    let whole = div-add-mod a (suc d) in
    elim (Bool-cases (a % suc d == 0)) [
      | inl h ↦ rw h (omega (arith, (eqb_iff (a % suc d) 0).0 h))
      | inr h ↦ rw h (omega (arith, eqb→ne (a % suc d) 0 h))
    ]

ceil_rat-pos :
    (a d : ℕ) → ceil_rat (record { num = pos a; den_pred = d }) ≡ pos (ceil_div a (suc d))
unfolding ceil_rat ceil_div quo
ceil_rat-pos a d = elim (Bool-cases (a % suc d == 0)) [
  | inl h ↦ rw h
  | inr h ↦ rw h (+ℤ-pos (a / suc d) 1)
]

-- A markup of (n + 1) / (d + 1): any positive finite float.
abbrev pub ratio : ℕ → ℕ → Float64
ratio n d = finite (record { num = pos (suc n); den_pred = d })

marked_up : ℕ → ℕ → ℕ → ℕ
marked_up n d b = if eqb (suc n) (suc d) then b else ceil_div (b * suc n) (suc d)

apply_markup-ratio : (n d b : ℕ) → apply_markup (ratio n d) (pos b) ≡ pos (marked_up n d b)
unfolding apply_markup marked_up
apply_markup-ratio n d b = elim (Bool-cases (eqb (suc n + 0) (suc d + 0))) [
  | inl h ↦ ground arith
  | inr h ↦ ground (arith, *ℤ-pos b (suc n), ceil_rat-pos (b * suc n) d)
]

marked_up_bounds :
    (n d b : ℕ)
    → (b * suc n ≤ marked_up n d b * suc d) × (marked_up n d b * suc d < b * suc n + suc d)
unfolding marked_up
marked_up_bounds n d b = elim (Bool-cases (eqb (suc n) (suc d))) [
  | inl h ↦
      let same : b * suc n ≡ b * suc d = ap (λ t. b * t) ((eqb_iff _ _).0 h) in rw h (omega arith)
  | inr h ↦ rw h (ceil_div_bounds (b * suc n) d)
]

-- The charge: at least one unit where tokens were used.
abbrev pub charged : Usage → ℕ → ℕ
charged u q = if eqb q 0 && is_used u then 1 else q

cost_at-ratio :
    (i c o n d : ℕ) (u : Usage)
    → cost_at (priced i c o) u (ratio n d)
      ≡ pos (charged u (marked_up n d ((weighted i c o u + 999_999) / 1_000_000)))
unfolding cost_at
cost_at-ratio i c o n d u = rw (base_cost-priced i c o u, apply_markup-ratio n d _) (ground arith)

-- The cost is two ceilings and a floor of one: with prices that are not negative and the positive
-- finite markup (n + 1) / (d + 1), it is the least number of units `b` that covers the weighted
-- tokens, then the least `q` that covers `b` times the markup, and 1 in place of 0 if any token was
-- used.
pub cost_at-two_ceilings :
    (i c o n d : ℕ) (u : Usage)
    → (b : ℕ) × (q : ℕ) × (weighted i c o u ≤ b * 1_000_000)
      × (b * 1_000_000 < weighted i c o u + 1_000_000)
      × (b * suc n ≤ q * suc d)
      × (q * suc d < b * suc n + suc d)
      × (cost_at (priced i c o) u (ratio n d) ≡ pos (charged u q))
cost_at-two_ceilings i c o n d u =
    let b = (weighted i c o u + 999_999) / 1_000_000 in
    let (covers, least) = marked_up_bounds n d b in
    (b, marked_up n d b, omega arith, omega arith, covers, least, cost_at-ratio i c o n d u)

-- With prices that are not negative and a positive finite markup the seller is never underpaid: the
-- cost times the denominators covers the weighted tokens times the markup.
pub cost_at-covers :
    (i c o n d : ℕ) (u : Usage)
    → (k : ℕ) × (cost_at (priced i c o) u (ratio n d) ≡ pos k)
      × (weighted i c o u * suc n ≤ k * suc d * 1_000_000)
cost_at-covers i c o n d u =
    let (b, q, above, below, covers, least, cost) = cost_at-two_ceilings i c o n d u in
    let charge : q ≤ charged u q = ground arith in
    let marked : q * suc d ≤ charged u q * suc d = mul-le-mul_right (suc d) charge in
    let scaled : weighted i c o u * suc n ≤ b * 1_000_000 * suc n =
      mul-le-mul_right (suc n) above in
    (charged u q, cost, omega arith)

-- With prices that are not negative and a positive finite markup, a response for which any token
-- was used costs at least one unit.
pub cost_at_pos :
    (i c o n d : ℕ) (u : Usage)
    → is_used u ≡ true
    → (k : ℕ) × (cost_at (priced i c o) u (ratio n d) ≡ pos (suc k))
cost_at_pos i c o n d u h =
    let (b, q, above, below, covers, least, cost) = cost_at-two_ceilings i c o n d u in
    elim (Bool-cases (eqb q 0)) [
      | inl e ↦ (0, cost ∙ ground arith)
      | inr e ↦ (q - 1, cost ∙ ground arith)
    ]
