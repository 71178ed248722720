-- ===== src/Tests/Fixtures.antt =====
-- Concrete values for what the program takes from elsewhere, and small states.
use xpay_server.Base.{
  Str, Option, none, some, Rat, rat_of_int, parse_int, codes, pos, [], ◌∷◌, List, ℕ, Bool, false,
  finite, ◌-◌, ◌==◌, if◌then◌else◌, ◌*◌, ◌+◌, ◌&&◌, not, ◌||◌, nat_eq,
}
use xpay_server.Pricing.Price.{ModelPrice, CompiledPrice, ModelPriceEntry}
use xpay_server.Pricing.Table.{Table, usd}
use xpay_server.Pricing.Cost.{Usage}
use xpay_server.Cache.{Entry, Cache}
use xpay_server.Store.Db.{Payment, Db, empty_db}
use xpay_server.Config.{Config}

-- The integers among the rationals.
abbrev pub whole_rat : Str → Option Rat
whole_rat s = elim (parse_int s) [ none ↦ none | some n ↦ some (rat_of_int n) ]

abbrev pub two_models : List (Str × ModelPrice)
two_models = (codes "gpt", usd "1" "" "2") ∷ (codes " GPT-4 ", usd "3" "1" "6") ∷ []

abbrev pub swapped : List (Str × ModelPrice)
swapped = (codes " GPT-4 ", usd "3" "1" "6") ∷ (codes "gpt", usd "1" "" "2") ∷ []

abbrev pub five_and_ten : ModelPrice
five_and_ten = usd "5" "" "10"

abbrev pub micros : ℕ → ℕ → ℕ → CompiledPrice
micros input cached output = record {
  input_micros_per_m = pos input;
  output_micros_per_m = pos output;
  cached_input_micros_per_m = pos cached;
}

abbrev pub two_model_table : Table
two_model_table = record {
  default_price = micros 5_000_000 5_000_000 10_000_000;
  models =
      (codes "gpt", micros 1_000_000 1_000_000 2_000_000)
      ∷ (codes "gpt-4", micros 3_000_000 1_000_000 6_000_000)
      ∷ [];
  prefixes = codes "gpt-4" ∷ codes "gpt" ∷ [];
}

abbrev pub usage : ℕ → ℕ → ℕ → Usage
usage prompt completion cached = record {
  prompt_tokens = pos prompt;
  completion_tokens = pos completion;
  cached_tokens = pos cached;
}

abbrev pub two_model_entry : Entry
two_model_entry = record {
  body = codes "{}";
  status = pos 200;
  content_type = codes "application/json";
  cost = pos 42;
  usage = usage 10 5 0;
  model = codes "gpt-4o";
  created_at = pos 7;
}

abbrev pub swapped_table : Table
swapped_table = record two_model_table {
  models =
      (codes "gpt-4", micros 3_000_000 1_000_000 6_000_000)
      ∷ (codes "gpt", micros 1_000_000 1_000_000 2_000_000)
      ∷ [];
}

abbrev pub one_entry : Cache
one_entry = record { store = (codes "req_1", two_model_entry) ∷ []; ttl = pos 100; stopped = false }

abbrev pub payment_of : Str → Str → ℕ → Payment
payment_of request tx amount = record {
  id = 0;
  from_address = codes "0xbuyer";
  to_address = codes "0xseller";
  amount = pos amount;
  tx_hash = tx;
  model = codes "gpt-4o";
  prompt_tokens = pos 10;
  completion_tokens = pos 5;
  request_id = request;
  network = codes "eip155:84532";
  created_at = pos 0;
}

abbrev pub one_payment : Db
one_payment = record empty_db {
  payments =
      record (payment_of (codes "req_0") (codes "0xaa") 42) { id = 1; created_at = pos 5 } ∷ [];
  next_id = 2;
}

abbrev pub entry_of : Str → ModelPriceEntry
entry_of model = record {
  model = model;
  input = codes "1";
  output = codes "2";
  cached_input = [];
  is_default = false;
}

abbrev pub never_fails : ℕ → Bool
never_fails i = false

abbrev pub evm_config : Config
evm_config = record {
  port = codes "3402";
  upstream_url = codes "http://llm";
  base_url = [];
  upstream_token = codes "key";
  payment_chain = codes "evm";
  pay_to_address = codes "0xseller";
  gas_priv_key_hex = [];
  chain_id = pos 84_532;
  network = codes "eip155:84532";
  rpc_url = [];
  usdc_address = codes "0xusdc";
  usdc_name = codes "USDC";
  usdc_version = codes "2";
  solana_cluster = [];
  solana_confirmation = codes "confirmed";
  db_path = [];
  admin_token = [];
  cache_ttl_secs = pos 300;
  sig_timeout_secs = pos 120;
  upstream_timeout_secs = pos 300;
  shutdown_timeout_secs = pos 10;
  max_body_bytes = pos 4_194_304;
  allowed_origins = [];
  markup = finite (rat_of_int (pos 1));
  dry_run = false;
}

abbrev pub read_decimal : ℕ → ℕ → Bool → Str → Rat
read_decimal digits den seen [] = record { num = pos digits; den_pred = den - 1 }
read_decimal digits den seen (c ∷ s) =
    let dot = c == b'.' in
    read_decimal (if dot then digits else digits * 10 + (c - b'0'))
      (if seen && not dot then den * 10 else den) (seen || dot) s

-- Decimal fractions of digits and a point.
abbrev pub decimal_rat : Str → Option Rat
decimal_rat s = some (read_decimal 0 1 false s)
