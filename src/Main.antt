-- ===== src/Main.antt =====
-- cmd/server/main.go: how the server starts, and the middleware for browsers.
pub mod Laws
pub mod Routes
pub mod Guard
use xpay_server.Base.{
  to_int64, ℕ, Bool, ◌&&◌, ◌||◌, not, Option, none, some, List, [], ◌∷◌, ◌++◌, if◌then◌else◌, ◌==◌,
  str_eq, is_empty, contains, Str, codes, pos, ◌*ℤ◌, Rat, Float64, le_zero, Result, ok, err, ◌>>=◌,
  wrap_err, Dict, ◌>>◌,
}
use xpay_server.Config.{Config}
use xpay_server.Cache.{new_cache}
use xpay_server.Pricing.Price.{PriceError}
use xpay_server.Pricing.Table.{default_price, default_entries, new_table_from_entries}
use xpay_server.Pricing.Manager.{new_manager}
use xpay_server.Store.Db.{Db, DbError}
use xpay_server.Store.Prices.{bootstrap_default_prices, get_setting, list_model_prices}
use xpay_server.Handler.Server.{Server}
use xpay_server.Settler.New.{NewError, NewLib, AnySettler, new_settler}

pub data StartError : Type 0 where
  bootstrap_failed load_settings_failed load_prices_failed : DbError → StartError
  invalid_stored_markup : Str → StartError
  settler_failed : NewError → StartError
  compile_failed : PriceError → StartError

-- What may fail of the database while the server starts.
pub record StartFaults : Type 0 where
  pub begin : Bool
  pub commit : Bool
  pub statements : ℕ → Bool
  pub settings : Bool
  pub prices : Bool

-- The markup that an administrator saved replaces the configured one.
unfoldable pub stored_markup :
    (Str → Option Float64) → Float64 → Option Str → Result StartError Float64
stored_markup parse_float configured none = ok configured
stored_markup parse_float configured (some value) = elim (parse_float value) [
  | none ↦ err (invalid_stored_markup value)
  | some markup ↦ if le_zero markup then err (invalid_stored_markup value) else ok markup
]

-- `main`, from the loaded settings and the open database to the shared state of the handlers and
-- the settler.
unfoldable pub start :
    (Str → Option Rat)
    → (Str → Option Float64)
    → NewLib
    → StartFaults
    → Config
    → Db
    → Result StartError (Server × AnySettler)
start rat_of parse_float lib f cfg db = do
  let booted = bootstrap_default_prices f.begin f.commit f.statements default_entries db
  wrap_err bootstrap_failed booted.0
  setting ← wrap_err load_settings_failed (get_setting f.settings (codes "markup") booted.1)
  markup ← stored_markup parse_float cfg.markup setting
  settler ← wrap_err settler_failed (new_settler lib (record cfg { markup = markup }))
  entries ← wrap_err load_prices_failed (list_model_prices f.prices booted.1)
  table ← wrap_err compile_failed (new_table_from_entries rat_of default_price entries)
  ok (
    record {
      cfg = record cfg { markup = markup };
      cache = new_cache (to_int64 (cfg.cache_ttl_secs *ℤ pos 1_000_000_000));
      db = booted.1;
      prices = new_manager rat_of (some table);
    },
    settler,
  )

-- The CORS headers, and whether the request is answered here, with 204.
unfoldable pub cors_origin : List Str → Str → Dict Str Str
cors_origin allowed origin =
    if is_empty allowed || contains allowed (codes "*")
    then (codes "Access-Control-Allow-Origin", codes "*") ∷ []
    else if not (is_empty origin) && contains allowed origin
    then (codes "Access-Control-Allow-Origin", origin) ∷ (codes "Vary", codes "Origin") ∷ []
    else []

unfoldable pub cors_middleware : List Str → Str → Str → Dict Str Str × Bool
cors_middleware allowed origin method = (
  cors_origin allowed origin
      ++ ((codes "Access-Control-Allow-Methods", codes "GET, POST, OPTIONS")
          ∷ (
            codes "Access-Control-Allow-Headers",
            codes "Content-Type, Authorization, X-PAYMENT, X-PAYMENT-REQUEST-ID, anthropic-version",
          )
          ∷ (
            codes "Access-Control-Expose-Headers",
            codes "X-PAYMENT-RESPONSE, X-Cost, X-Tx, X-PAYMENT-REQUEST-ID",
          )
          ∷ []),
  method == codes "OPTIONS",
)
