-- ===== src/Pricing/Table.antt =====
-- internal/pricing/pricing.go: the table of prices by model, and its lookup by longest prefix.
use Prim.Native.String.{String}
use xpay_server.Base.{
  Bool, true, Option, none, some, List, [], ◌∷◌, ◌++◌, map, if◌then◌else◌, ltb, is_empty, length,
  Result, ok, err, ◌>>=◌, wrap_err, Str, codes, has_prefix, str_ltb, str_eq, pos, Dict, lookup,
  insert, Rat, sort_by,
}
use xpay_server.Pricing.Price.{
  ModelPrice, CompiledPrice, ModelPriceEntry, PriceError, empty_model_id, in_default, in_model,
  normalize_model, compile_price,
}

pub record Table : Type 0 where
  pub default_price : CompiledPrice
  pub models : Dict Str CompiledPrice
  pub prefixes : List Str

-- `compiledPrice{}`, what a missing key of a Go map reads as
abbrev pub zero_price : CompiledPrice
zero_price = record {
  input_micros_per_m = pos 0;
  output_micros_per_m = pos 0;
  cached_input_micros_per_m = pos 0;
}

abbrev pub usd : String → String → String → ModelPrice
usd input cached output = record {
  input_per_m = codes input;
  output_per_m = codes output;
  cached_input_per_m = codes cached;
}

abbrev pub default_price : ModelPrice
default_price = usd "5.00" "" "15.00"

-- `DefaultPrices`; a Go map has no order, and this is the order of the source.
abbrev pub default_prices : Dict Str ModelPrice
default_prices =
    (codes "gpt-4o", usd "2.50" "" "10.00")
    ∷ (codes "gpt-4o-mini", usd "0.15" "" "0.60")
    ∷ (codes "gpt-4.1", usd "2.00" "" "8.00")
    ∷ (codes "gpt-4.1-mini", usd "0.40" "" "1.60")
    ∷ (codes "gpt-4.1-nano", usd "0.10" "" "0.40")
    ∷ (codes "gpt-5", usd "1.25" "" "10.00")
    ∷ (codes "gpt-5-mini", usd "0.25" "" "2.00")
    ∷ (codes "gpt-5-nano", usd "0.05" "" "0.40")
    ∷ (codes "gpt-5.5", usd "5.00" "0.50" "30.00")
    ∷ (codes "gpt-5.5-pro", usd "30.00" "" "180.00")
    ∷ (codes "claude-opus-4", usd "15.00" "" "75.00")
    ∷ (codes "claude-sonnet-4", usd "3.00" "" "15.00")
    ∷ (codes "claude-haiku-4.5", usd "1.00" "" "5.00")
    ∷ (codes "claude-haiku-4-5", usd "1.00" "" "5.00")
    ∷ (codes "deepseek-chat", usd "0.27" "" "1.10")
    ∷ (codes "deepseek-reasoner", usd "0.55" "" "2.19")
    ∷ []

abbrev pub longer_first : Str → Str → Bool
longer_first a b = ltb (length b) (length a)

abbrev pub or_default : Str → Str → Str
or_default s d = if is_empty s then d else s

abbrev pub entry_of : Str × ModelPrice → ModelPriceEntry
entry_of (model, price) = record {
  model = model;
  input = price.input_per_m;
  output = price.output_per_m;
  cached_input = price.cached_input_per_m;
  is_default = true;
}

abbrev pub model_before : ModelPriceEntry → ModelPriceEntry → Bool
model_before a b = str_ltb a.model b.model

-- `DefaultEntries`, ordered by model
unfoldable pub default_entries : List ModelPriceEntry
default_entries = sort_by model_before (map entry_of default_prices)

abbrev pub price_of : ModelPriceEntry → ModelPrice
price_of entry = record {
  input_per_m = entry.input;
  output_per_m = entry.output;
  cached_input_per_m = entry.cached_input;
}

-- The loop of `NewTableFromEntries`: a later entry for the same id takes the place of an earlier.
unfoldable pub models_of : Dict Str ModelPrice → List ModelPriceEntry → Dict Str ModelPrice
models_of models [] = models
models_of models (entry ∷ entries) = models_of (insert entry.model (price_of entry) models) entries

abbrev pub empty_table : CompiledPrice → Table
empty_table d = record { default_price = d; models = []; prefixes = [] }

module _ (rat_of : Str → Option Rat) where
  -- One round of the loop of `NewTable`.
  unfoldable pub add_model : Str → ModelPrice → Table → Result PriceError Table
  add_model model price t =
      let key = normalize_model model in
      if is_empty key
      then err empty_model_id
      else wrap_err (in_model model) (compile_price rat_of price) >>= λ compiled.
          ok (record t { models = insert key compiled t.models; prefixes = t.prefixes ++ key ∷ [] })

  -- The loop of `NewTable` over the map, in the order in which Go happens to walk it.
  unfoldable pub add_models : List (Str × ModelPrice) → Table → Result PriceError Table
  add_models [] t = ok t
  add_models ((model, price) ∷ rest) t = add_model model price t >>= λ t'. add_models rest t'

  -- The default price with its blanks filled.
  unfoldable pub compile_default : ModelPrice → Result PriceError CompiledPrice
  compile_default dflt = wrap_err in_default (
      compile_price rat_of (record dflt {
        input_per_m = or_default dflt.input_per_m (codes "5");
        output_per_m = or_default dflt.output_per_m (codes "15");
      }))

  unfoldable pub new_table : ModelPrice → List (Str × ModelPrice) → Result PriceError Table
  new_table dflt models = do
    d ← compile_default dflt
    t ← add_models models (empty_table d)
    ok (record t { prefixes = sort_by longer_first t.prefixes })

  unfoldable pub new_table_from_entries :
      ModelPrice → List ModelPriceEntry → Result PriceError Table
  new_table_from_entries dflt entries = new_table dflt (models_of [] entries)

  unfoldable pub default_table : Result PriceError Table
  default_table = new_table default_price default_prices

-- The first prefix of the list that the key begins with.
unfoldable pub first_prefix : Str → List Str → Option Str
first_prefix key [] = none
first_prefix key (p ∷ ps) = if has_prefix key p then some p else first_prefix key ps

abbrev pub price_or_zero : Option CompiledPrice → CompiledPrice
price_or_zero none = zero_price
price_or_zero (some p) = p

-- `priceFor` of a table that is not nil, on a normalized id
unfoldable pub price_of_key : Table → Str → CompiledPrice
price_of_key t key = elim (lookup key t.models) [
  | some p ↦ p
  | none ↦ elim (first_prefix key t.prefixes) [
    | some prefix ↦ price_or_zero (lookup prefix t.models)
    | none ↦ t.default_price
  ]
]

module _ (rat_of : Str → Option Rat) where
  -- The receiver's value where it is nil: the default table; none where that is nil too, and the
  -- next access panics.
  unfoldable pub table_or_default : Option Table → Option Table
  table_or_default (some t) = some t
  table_or_default none = elim (default_table rat_of) [ ok t ↦ some t | err e ↦ none ]

  unfoldable pub price_for : Option Table → Str → Option CompiledPrice
  price_for receiver model = elim (table_or_default receiver) [
    | none ↦ none
    | some t ↦ some (price_of_key t (normalize_model model))
  ]
