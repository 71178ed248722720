-- ===== src/Tests/Prices.antt =====
-- internal/pricing/pricing.go at concrete prices.
use xpay_server.Pricing.Price.{
  compile_price, parse_usd_to_micros, micros_of, normalize_model, ModelPrice,
}
use xpay_server.Base.{
  Memᴰ, ◌≡◌, refl, ok, trim_space, trim_right, trim_left, parse_int, parse_nat, parse_digits, ◌*ℤ◌,
  to_lower, to_int64, insert, sort_by, quo, place, lower, str_beq, Str, ℕ, codes, is_empty, pos,
  some, false, negsuc, ◌↔◌, rat_of_int, two64, ◌≤◌, Rat, ◌-◌, ◌*◌, ◌<◌, arith, ◌+◌, lookup,
  has_prefix, div, ◌+ℤ◌, ◌-ℤ◌, ◌≢◌, sym, ◌∙◌, ap,
}
use xpay_server.Pricing.Table.{
  new_table, compile_default, add_models, add_model, price_of_key, first_prefix,
}
use xpay_server.Tests.Fixtures.{
  whole_rat, two_models, five_and_ten, two_model_table, swapped, swapped_table, micros, usage,
}
use xpay_server.Pricing.Longest.{IsBestMatch, price_of_key-best}
use xpay_server.Pricing.Order.{IsConsistent, SameEntries, price_of_key-order}
use xpay_server.Pricing.Cost.{cost_at, apply_markup, ceil_rat, base_cost, max, min}
use xpay_server.Pricing.Bounds.{weighted, priced, ratio, charged, cost_at-two_ceilings}
use xpay_server.Pricing.Parse.{IsMicros, parse_usd_to_micros-negative, parse_usd_to_micros_iff}

two_models_table : new_table whole_rat five_and_ten two_models ≡ ok two_model_table
unfolding new_table compile_default compile_price parse_usd_to_micros trim_space trim_right
    trim_left parse_int parse_nat parse_digits micros_of ◌*ℤ◌ add_models add_model normalize_model
    to_lower to_int64 insert sort_by quo place lower str_beq
two_models_table = refl

swapped_models_table : new_table whole_rat five_and_ten swapped ≡ ok swapped_table
unfolding new_table compile_default compile_price parse_usd_to_micros trim_space trim_right
    trim_left parse_int parse_nat parse_digits micros_of ◌*ℤ◌ add_models add_model normalize_model
    to_lower to_int64 insert sort_by quo place lower str_beq
swapped_models_table = refl

turbo_is_longest :
    price_of_key two_model_table (codes "gpt-4-turbo") ≡ micros 3_000_000 1_000_000 6_000_000
unfolding price_of_key lookup str_beq first_prefix has_prefix
turbo_is_longest = refl

other_is_default :
    price_of_key two_model_table (codes "claude") ≡ micros 5_000_000 5_000_000 10_000_000
unfolding price_of_key lookup str_beq first_prefix has_prefix
other_is_default = refl

abbrev turbo : Str
turbo = codes "GPT-4-Turbo"

price_of_key-best_example :
    IsBestMatch two_model_table
      (normalize_model turbo)
      (price_of_key two_model_table (normalize_model turbo))
price_of_key-best_example =
    price_of_key-best whole_rat five_and_ten two_models two_model_table turbo two_models_table

plain_id : normalize_model (codes "gpt") ≡ codes "gpt"
unfolding normalize_model to_lower trim_space trim_right trim_left lower
plain_id = refl

spaced_id : normalize_model (codes " GPT-4 ") ≡ codes "gpt-4"
unfolding normalize_model to_lower trim_space trim_right trim_left lower
spaced_id = refl

ids_differ : normalize_model (codes "gpt") ≢ normalize_model (codes " GPT-4 ")
ids_differ h = cc (sym plain_id ∙ h ∙ spaced_id)

two_models-IsConsistent : IsConsistent two_models
two_models-IsConsistent m m' p p' (Memᴰ.head e) (Memᴰ.head e') n = cc
two_models-IsConsistent m m' p p' (Memᴰ.head e) (Memᴰ.tail (Memᴰ.head e')) n = absurd (
    ids_differ (
      sym (ap (λ (t : Str × ModelPrice). normalize_model t.0) e)
      ∙ n
      ∙ ap (λ (t : Str × ModelPrice). normalize_model t.0) e'))
two_models-IsConsistent m m' p p' (Memᴰ.tail (Memᴰ.head e)) (Memᴰ.head e') n = absurd (
    ids_differ (
      sym (ap (λ (t : Str × ModelPrice). normalize_model t.0) e')
      ∙ sym n
      ∙ ap (λ (t : Str × ModelPrice). normalize_model t.0) e))
two_models-IsConsistent m m' p p' (Memᴰ.tail (Memᴰ.head e)) (Memᴰ.tail (Memᴰ.head e')) n = cc
two_models-IsConsistent m m' p p' (Memᴰ.head e) (Memᴰ.tail (Memᴰ.tail x)) n = elim x [ ]
two_models-IsConsistent m m' p p' (Memᴰ.tail (Memᴰ.head e)) (Memᴰ.tail (Memᴰ.tail x)) n = elim x [ ]
two_models-IsConsistent m m' p p' (Memᴰ.tail (Memᴰ.tail x)) _ n = elim x [ ]

two_models-SameEntries : SameEntries two_models swapped
two_models-SameEntries e = (
  λ m. elim m [
    | Memᴰ.head h ↦ Memᴰ.tail (Memᴰ.head h)
    | Memᴰ.tail (Memᴰ.head h) ↦ Memᴰ.head h
    | Memᴰ.tail (Memᴰ.tail x) ↦ elim x [ ]
  ],
  λ m. elim m [
    | Memᴰ.head h ↦ Memᴰ.tail (Memᴰ.head h)
    | Memᴰ.tail (Memᴰ.head h) ↦ Memᴰ.head h
    | Memᴰ.tail (Memᴰ.tail x) ↦ elim x [ ]
  ],
)

price_of_key-order_example :
    price_of_key two_model_table (normalize_model turbo)
    ≡ price_of_key swapped_table (normalize_model turbo)
price_of_key-order_example =
    price_of_key-order whole_rat five_and_ten two_models swapped two_models-IsConsistent
      two_models-SameEntries two_model_table swapped_table turbo two_models_table
      swapped_models_table

cost_of_1500_tokens :
    cost_at (micros 2_500_000 1_250_000 10_000_000) (usage 1000 500 200) (ratio 5 4) ≡ pos 8_700
unfolding cost_at apply_markup ceil_rat ◌*ℤ◌ base_cost div ◌+ℤ◌ ◌-ℤ◌ max min quo
cost_of_1500_tokens = refl

cost_at-two_ceilings_example :
    (b : ℕ) × (q : ℕ) × (weighted 3 1 7 (usage 10 5 4) ≤ b * 1_000_000)
    × (b * 1_000_000 < weighted 3 1 7 (usage 10 5 4) + 1_000_000)
    × (b * 6 ≤ q * 5)
    × (q * 5 < b * 6 + 5)
    × (cost_at (priced 3 1 7) (usage 10 5 4) (ratio 5 4) ≡ pos (charged (usage 10 5 4) q))
cost_at-two_ceilings_example = cost_at-two_ceilings 3 1 7 5 4 (usage 10 5 4)

parse_usd_to_micros_iff_example :
    (parse_usd_to_micros whole_rat (codes " 3 ") ≡ ok (pos 3_000_000)) ↔ (
      (r : Rat) × (q : ℕ) × (is_empty (trim_space (codes " 3 ")) ≡ false)
      × (whole_rat (trim_space (codes " 3 ")) ≡ some r)
      × IsMicros r q
      × (pos 3_000_000 ≡ to_int64 (pos q)))
parse_usd_to_micros_iff_example = parse_usd_to_micros_iff whole_rat (codes " 3 ") (pos 3_000_000)

-- A price of ten trillion dollars.
ten_trillion :
    whole_rat (trim_space (codes "10000000000000")) ≡ some (rat_of_int (pos 10_000_000_000_000))
unfolding parse_int trim_space trim_right trim_left parse_nat parse_digits
ten_trillion = refl

not_empty : is_empty (trim_space (codes "10000000000000")) ≡ false
unfolding trim_space trim_right trim_left
not_empty = refl

parse_usd_to_micros-negative_example :
    parse_usd_to_micros whole_rat (codes "10000000000000")
    ≡ ok (negsuc (two64 - 10_000_000_000_000_000_000 - 1))
parse_usd_to_micros-negative_example =
    parse_usd_to_micros-negative whole_rat (codes "10000000000000")
      (rat_of_int (pos 10_000_000_000_000)) 10_000_000_000_000_000_000 not_empty ten_trillion
      (10_000_000_000_000, refl, refl) (omega arith) (omega arith)
