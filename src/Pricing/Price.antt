-- ===== src/Pricing/Price.antt =====
-- internal/pricing/pricing.go: prices as configured and as compiled, and their parser.
use xpay_server.Base.{
  ◌>>=◌, ℕ, Bool, nat_eq, Option, none, some, [], ◌∷◌, if◌then◌else◌, ◌==◌, is_empty, Result, ok,
  err, wrap_err, Str, trim_space, to_lower, ℤ, pos, is_neg, ◌*ℤ◌, quo, to_int64, Rat, den, is_int,
}

abbrev pub micros_per_usd : ℕ
micros_per_usd = 1_000_000

pub record ModelPrice : Type 0 where
  pub input_per_m : Str
  pub output_per_m : Str
  pub cached_input_per_m : Str

pub record CompiledPrice : Type 0 where
  pub input_micros_per_m : ℤ
  pub output_micros_per_m : ℤ
  pub cached_input_micros_per_m : ℤ

pub record ModelPriceEntry : Type 0 where
  pub model : Str
  pub input : Str
  pub output : Str
  pub cached_input : Str
  pub is_default : Bool

-- Every error of the package, with what `fmt.Errorf` wraps it in.
pub data PriceError : Type 0 where
  empty_price : PriceError
  invalid_price : Str → PriceError
  negative_price : PriceError
  too_precise : Str → PriceError
  empty_model_id : PriceError
  bad_json : PriceError
  in_input in_output in_cached_input in_default : PriceError → PriceError
  in_model : Str → PriceError → PriceError

unfoldable pub normalize_model : Str → Str
normalize_model model = to_lower (trim_space model)

-- `rat_of` is `new(big.Rat).SetString`.
module _ (rat_of : Str → Option Rat) where
  abbrev pub scaled : Rat → Rat
  scaled r = record r { num = r.num *ℤ pos micros_per_usd }

  unfoldable pub micros_of : Str → Rat → Result PriceError ℤ
  micros_of s r =
      if is_neg r.num
      then err negative_price
      else if is_int (scaled r)
      then ok (to_int64 (quo (scaled r).num (den r)))
      else err (too_precise s)

  unfoldable pub parse_usd_to_micros : Str → Result PriceError ℤ
  parse_usd_to_micros text =
      let s = trim_space text in
      if is_empty s
      then err empty_price
      else elim (rat_of s) [ none ↦ err (invalid_price s) | some r ↦ micros_of s r ]

  unfoldable pub compile_price : ModelPrice → Result PriceError CompiledPrice
  compile_price p = do
    input ← wrap_err in_input (parse_usd_to_micros p.input_per_m)
    output ← wrap_err in_output (parse_usd_to_micros p.output_per_m)
    cached ←
        (if is_empty (trim_space p.cached_input_per_m)
          then ok input
          else wrap_err in_cached_input (parse_usd_to_micros p.cached_input_per_m))
    ok (record {
      input_micros_per_m = input;
      output_micros_per_m = output;
      cached_input_micros_per_m = cached;
    })

-- The fields of the JSON object that `UnmarshalJSON` reads, each as raw text, empty if missing.
pub record RawPrice : Type 0 where
  pub input : Str
  pub output : Str
  pub cached : Str
  pub input_per_m : Str
  pub output_per_m : Str
  pub cached_per_m : Str

abbrev pub first_nonempty : Str → Str → Str
first_nonempty a b = if is_empty a then b else a

-- `unquote` is `json.Unmarshal` into a string.
module _ (unquote : Str → Option Str) where
  unfoldable pub decode_price_value : Str → Result PriceError Str
  decode_price_value [] = ok []
  decode_price_value (c ∷ raw) =
      if c == b'"'
      then elim (unquote (c ∷ raw)) [ none ↦ err bad_json | some s ↦ ok s ]
      else ok (c ∷ raw)

  -- `raw` is the decoded object, none where `json.Unmarshal` refuses the text.
  unfoldable pub unmarshal_json : Option RawPrice → Result PriceError ModelPrice
  unmarshal_json none = err bad_json
  unmarshal_json (some raw) = do
    input ← wrap_err in_input (decode_price_value (first_nonempty raw.input raw.input_per_m))
    output ← wrap_err in_output (decode_price_value (first_nonempty raw.output raw.output_per_m))
    cached ←
        (wrap_err in_cached_input (decode_price_value (first_nonempty raw.cached raw.cached_per_m)))
    ok (record { input_per_m = input; output_per_m = output; cached_input_per_m = cached })
