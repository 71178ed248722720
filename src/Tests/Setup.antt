-- ===== src/Tests/Setup.antt =====
-- internal/config/config.go, cmd/server/main.go and internal/handler/admin.go at one environment.
use xpay_server.Pricing.Manager.{new_manager}
use xpay_server.Cache.{new_cache}
use xpay_server.Pricing.Price.{compile_price, parse_usd_to_micros, micros_of, normalize_model}
use xpay_server.Pricing.Table.{
  default_entries, new_table_from_entries, new_table, compile_default, add_model, add_models,
  default_table, models_of, table_or_default,
}
use xpay_server.Store.Prices.{
  bootstrap_default_prices, transaction, insert_missing, get_setting, list_model_prices,
  set_setting, upsert_model_price, exec_tx, begin_tx, commit_tx, rollback_tx, seen_rows,
}
use xpay_server.Config.Env.{
  env_int, env_bool, parse_bool, env_float, env_str, env_csv, keep_nonempty, parse_int64,
  split_comma,
}
use xpay_server.Base.{
  ◌≡◌, refl, Str, codes, if◌then◌else◌, Option, Float64, ◌==◌, none, pos, ok, false, some, true,
  finite, [], ◌||◌, has_prefix, rat_of_int, ◌↔◌, str_eq, not, ◌⊎◌, is_empty, trim_prefix, str_beq,
  trim_right, to_lower, lower, decimal, digits, int_string, parse_digits, parse_int, parse_nat,
  ◌-ℤ◌, trim_left, trim_space, sort_by, place, str_ltb, lookup, quo, to_int64, ◌*ℤ◌, insert, ◌++◌,
  arith, inl, err,
}
use xpay_server.Tests.Fixtures.{
  evm_config, one_entry, one_payment, two_model_table, decimal_rat, never_fails, entry_of,
}
use xpay_server.Config.Load.{
  Platform, Numbers, load, build, read_numbers, validate, check_basics, check_evm, usdc_address,
  check_gas_key, check_limits, check_solana, ensure_0x, normalize_base_url, payment_network,
  rpc_default,
}
use xpay_server.Config.Valid.{IsValid, load_sound}
use xpay_server.Main.{StartFaults, start, stored_markup}
use xpay_server.Handler.Server.{Server}
use xpay_server.Main.Laws.{IsStarted, start_sound}
use xpay_server.Handler.Admin.{
  Faults, save_settings, admin_auth, done, save_price, then_reload, reload_prices, load_prices,
}
use xpay_server.Handler.AdminLaws.{run, Saved, save, save_settings-Saved, admin_auth_iff}
use xpay_server.Settler.New.{NewLib, AnySettler, new_settler, dial_failed, new_evm}
use xpay_server.Config.{Config}
use xpay_server.Settler.NewLaws.{Agrees, IsOutside, new_settler_error}

-- The environment of a dry run.
abbrev environment : Str → Str
environment key =
    if key == codes "UPSTREAM_URL" || key == codes "UPSTREAM_TOKEN"
    then codes "http://llm/"
    else if key == codes "PAY_TO_ADDRESS"
    then codes "0xseller"
    else if key == codes "DRY_RUN"
    then codes "true"
    else []

abbrev platform : Platform
platform = record {
  env = environment;
  parse_float = λ s. none;
  escaped_path = λ s. none;
  is_hex_address = λ s. has_prefix s (codes "0x");
  is_hex = λ s. has_prefix s (codes "0x");
  is_public_key = λ s. true;
  is_private_key = λ s. not (is_empty s);
}

abbrev numbers : Numbers
numbers = record {
  chain_id = pos 84_532;
  dry_run = true;
  cache_ttl = pos 300;
  sig_timeout = pos 120;
  upstream_timeout = pos 300;
  shutdown_timeout = pos 10;
  max_body_bytes = pos 4_194_304;
  markup = finite (rat_of_int (pos 1));
}

loads : load platform ≡ ok (build platform numbers)
unfolding load read_numbers env_int str_beq env_bool parse_bool env_float validate check_basics
    build trim_right env_str to_lower lower check_evm has_prefix usdc_address decimal digits
    int_string parse_digits parse_int parse_nat ◌-ℤ◌ trim_left trim_prefix trim_space env_csv
    keep_nonempty parse_int64 split_comma check_gas_key check_limits check_solana ensure_0x
    normalize_base_url payment_network rpc_default
loads = refl

upstream_trimmed : (build platform numbers).upstream_url ≡ codes "http://llm"
unfolding build trim_right env_str str_beq
upstream_trimmed = refl

load_sound_example :
    IsValid platform (build platform numbers)
    × ((n : Numbers) × (read_numbers platform ≡ ok n) × (build platform numbers ≡ build platform n))
load_sound_example = load_sound platform (build platform numbers) loads

abbrev fine : StartFaults
fine = record {
  begin = false;
  commit = false;
  statements = never_fails;
  settings = false;
  prices = false;
}

abbrev no_float : Str → Option Float64
no_float s = none

-- Keys are their own hex here, and every node answers.
abbrev new_lib : NewLib
new_lib = record {
  private_key = λ s. if is_empty s then none else some s;
  key_address = λ k. k;
  transactor = λ k id. some k;
  dial = λ url. true;
  abi_json = λ methods. true;
  hex_to_address = λ s. s;
  from_base58 = λ s. some s;
  find_ata = λ owner mint. some (owner ++ mint);
}

abbrev keyed_config : Config
keyed_config = record evm_config { gas_priv_key_hex = codes "0xkey" }

starts :
    (s : Server) × (settler : AnySettler) × (start decimal_rat no_float new_lib fine keyed_config
        one_payment
      ≡ ok (s, settler))
unfolding start bootstrap_default_prices transaction exec_tx begin_tx commit_tx rollback_tx
    seen_rows insert_missing default_entries sort_by place str_ltb get_setting stored_markup lookup
    list_model_prices new_table_from_entries new_table compile_default compile_price
    parse_usd_to_micros quo to_int64 ◌*ℤ◌ insert lower str_beq to_lower trim_left trim_right
    trim_space new_cache new_manager micros_of normalize_model add_model add_models default_table
    models_of table_or_default new_settler new_evm trim_prefix has_prefix
starts = (_, _, refl)

start_sound_example :
    IsStarted decimal_rat no_float new_lib fine keyed_config one_payment starts.0 starts.1
start_sound_example =
    start_sound decimal_rat no_float new_lib fine keyed_config one_payment starts.0 starts.1
      starts.2

abbrev unreachable : NewLib
unreachable = record new_lib { dial = λ url. false }

unreachable-Agrees : Agrees platform unreachable
unreachable-Agrees = record {
  private_key = λ s h. (s, ground arith);
  public_key = λ s h. (s, refl);
}

keyed_config-IsValid : IsValid platform keyed_config
unfolding has_prefix trim_prefix
keyed_config-IsValid = record {
  upstream_given = refl;
  token_given = refl;
  limits = record {
    cache_ttl_pos = omega arith;
    sig_timeout_pos = omega arith;
    upstream_timeout_pos = omega arith;
    shutdown_timeout_pos = omega arith;
    max_body_pos = omega arith;
    markup_pos = refl;
    markup_number = refl;
    markup_finite = refl;
  };
  ready = inl (
    refl,
    record { pay_to_valid = refl; usdc_given = refl; usdc_valid = refl; key_valid = λ live. refl },
  );
}

dial_fails : new_settler unreachable keyed_config ≡ err dial_failed
unfolding new_settler str_beq new_evm
dial_fails = refl

new_settler_error_example : IsOutside unreachable keyed_config dial_failed
new_settler_error_example =
    new_settler_error platform unreachable unreachable-Agrees keyed_config dial_failed
      keyed_config-IsValid dial_fails

abbrev server : Server
server = record {
  cfg = evm_config;
  cache = one_entry;
  db = one_payment;
  prices = record { table = some two_model_table };
}

abbrev no_faults : Faults
no_faults = record {
  write = false;
  begin = false;
  commit = false;
  statements = never_fails;
  read = false;
}

price_saved : (run decimal_rat no_faults (save (some (entry_of (codes "a")))) server).0 ≡ done
unfolding run save_price normalize_model to_lower trim_space trim_right trim_left
    new_table_from_entries new_table compile_default compile_price parse_usd_to_micros parse_int
    parse_nat parse_digits micros_of ◌*ℤ◌ add_models models_of insert add_model lower then_reload
    upsert_model_price reload_prices load_prices list_model_prices sort_by place
price_saved = refl

abbrev write_fails : Faults
write_fails = record no_faults { write = true }

abbrev two_times : Float64
two_times = finite (rat_of_int (pos 2))

abbrev format : Float64 → Str
format m = codes "2"

markup_kept : (save_settings format write_fails (some two_times) server).1.cfg.markup ≡ two_times
unfolding save_settings set_setting
markup_kept = refl

save_settings-Saved_example :
    Saved format write_fails server (save_settings format write_fails (some two_times) server)
save_settings-Saved_example = save_settings-Saved format write_fails (some two_times) server

abbrev no_token : Str
no_token = []

admin_auth_iff_example : (admin_auth (codes "secret") no_token (codes "Bearer secret") ≡ none) ↔ (
    (codes "secret" ≡ [])
    ⊎ ((¬ (no_token ≡ [])) × (no_token ≡ codes "secret"))
    ⊎ ((no_token ≡ []) × (trim_prefix (codes "Bearer secret") (codes "Bearer ") ≡ codes "secret")))
admin_auth_iff_example = admin_auth_iff (codes "secret") no_token (codes "Bearer secret")
