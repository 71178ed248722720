-- ===== src/Pricing/Display.antt =====
-- internal/pricing/pricing.go: amounts and prices as dollar strings.
use xpay_server.Base.{
  ℕ, ◌+◌, ◌/◌, ◌%◌, Option, none, some, [], ◌∷◌, ◌++◌, Str, codes, ℤ, magnitude, is_neg, decimal,
  if◌then◌else◌, Rat, parse_digits, pos, ◌<◌, ◌≡◌, ◌*◌, arith, length, Bool-cases,
  parse_digits-decimal, is_digit, ◌∙◌, inl, ap, ◌-◌, inr, refl,
}
use xpay_server.Pricing.Price.{CompiledPrice}
use xpay_server.Pricing.Table.{Table, price_for}

-- Six digits, with leading zeros.
unfoldable pub six_digits : ℕ → Str
six_digits n =
    (b'0' + n / 100_000 % 10)
    ∷ (b'0' + n / 10_000 % 10)
    ∷ (b'0' + n / 1_000 % 10)
    ∷ (b'0' + n / 100 % 10)
    ∷ (b'0' + n / 10 % 10)
    ∷ (b'0' + n % 10)
    ∷ []

-- `big.NewRat(n, 1_000_000).FloatString(6)`: nothing is rounded, since six places are enough.
unfoldable pub float_string : ℤ → Str
float_string n =
    (if is_neg n then b'-' ∷ [] else [])
    ++ (decimal (magnitude n / 1_000_000) ++ (b'.' ∷ six_digits (magnitude n % 1_000_000)))

unfoldable pub usdc_units_to_usd : Option ℤ → Str
usdc_units_to_usd none = codes "0"
usdc_units_to_usd (some units) = float_string units

unfoldable pub micros_to_usd : ℤ → Str
micros_to_usd = float_string

-- The three strings of `PricesFor`.
pub record Prices : Type 0 where
  pub input_per_m : Str
  pub cached_input_per_m : Str
  pub output_per_m : Str

unfoldable pub prices_of : CompiledPrice → Prices
prices_of p = record {
  input_per_m = micros_to_usd p.input_micros_per_m;
  cached_input_per_m = micros_to_usd p.cached_input_micros_per_m;
  output_per_m = micros_to_usd p.output_micros_per_m;
}

module _ (rat_of : Str → Option Rat) where
  -- `(*Table).PricesFor`
  unfoldable pub prices_for : Option Table → Str → Option Prices
  prices_for t model = elim (price_for rat_of t model) [ none ↦ none | some p ↦ some (prices_of p) ]

parse_digits-six :
    (acc n : ℕ) → n < 1_000_000 → parse_digits acc (six_digits n) ≡ some (acc * 1_000_000 + n)
unfolding parse_digits six_digits
parse_digits-six acc n h = ground arith

parse_digits-append :
    (acc : ℕ) (s t : Str) {v : ℕ}
    → parse_digits acc s ≡ some v
    → parse_digits acc (s ++ t) ≡ parse_digits v t
unfolding parse_digits
parse_digits-append acc [] t h = ground arith
parse_digits-append acc (c ∷ s) t h = elim (Bool-cases (is_digit c)) [
  | inl d ↦ rw d (parse_digits-append (acc * 10 + (c - b'0')) s t (ground arith))
  | inr d ↦ absurd (ground arith)
]

-- A displayed amount loses nothing: the digits before the point, then those after it, read as one
-- number are the amount, and there are six after it.
float_string-digits :
    (n : ℕ)
    → (whole : Str) × (places : Str) × (float_string (pos n) ≡ whole ++ b'.' ∷ places)
      × (length places ≡ 6)
      × (parse_digits 0 (whole ++ places) ≡ some n)
unfolding float_string six_digits
float_string-digits n =
    let whole = decimal (n / 1_000_000) in
    let places = six_digits (n % 1_000_000) in
    (
      whole,
      places,
      refl,
      refl,
      parse_digits-append 0 whole places (parse_digits-decimal (n / 1_000_000))
          ∙ parse_digits-six (n / 1_000_000) (n % 1_000_000) (omega arith)
          ∙ ap some (omega arith),
    )
