-- ===== src/Handler/Admin.antt =====
-- internal/handler/admin.go: the administration of markup and prices.
use xpay_server.Base.{
  ℕ, Bool, false, ◌||◌, not, Option, none, some, List, [], ◌∷◌, if◌then◌else◌, ◌==◌, str_eq,
  is_empty, Str, codes, trim_prefix, pos, Rat, Float64, is_nan, is_inf, le_zero, Result, ok, err,
  ◌>>=◌, wrap_err, ℤ,
}
use xpay_server.Config.{Config}
use xpay_server.Pricing.Price.{ModelPriceEntry, PriceError, normalize_model}
use xpay_server.Pricing.Table.{Table, default_price, default_entries, new_table_from_entries}
use xpay_server.Pricing.Manager.{replace}
use xpay_server.Store.Db.{Db, DbError, Payment}
use xpay_server.Store.Payments.{Totals, summary, recent_payments}
use xpay_server.Store.Prices.{
  set_setting, upsert_model_price, delete_model_price, replace_model_prices, list_model_prices,
}
use xpay_server.Handler.Server.{Server}

pub data AdminError : Type 0 where
  bad_json bad_markup model_required unauthorized : AdminError
  bad_price : PriceError → AdminError
  database : DbError → AdminError

-- The settings that the page shows.
pub record ShownConfig : Type 0 where
  pub payment_chain : Str
  pub network : Str
  pub chain_id : ℤ
  pub pay_to : Str
  pub asset : Str
  pub upstream : Str
  pub markup : Float64
  pub cache_ttl_secs : ℤ
  pub sig_timeout_secs : ℤ
  pub max_body_bytes : ℤ
  pub allowed_origins : List Str
  pub admin_auth_enabled : Bool
  pub dry_run : Bool

pub record OverviewPage : Type 0 where
  pub totals : Totals
  pub recent : List Payment
  pub prices : List ModelPriceEntry
  pub config : ShownConfig

pub data Reply : Type 0 where
  done : Reply
  saved_markup : Float64 → Reply
  page : OverviewPage → Reply
  failed : ℕ → AdminError → Reply

pub data PageReply : Type 0 where
  html : Str → PageReply
  no_asset : PageReply

-- `Page`; `asset` is the embedded file, none where it cannot be read.
unfoldable pub page_reply : Option Str → PageReply
page_reply none = no_asset
page_reply (some bytes) = html bytes

-- Whether the database fails at the handler's write, at its transaction's parts, and at its reads.
pub record Faults : Type 0 where
  pub write : Bool
  pub begin : Bool
  pub commit : Bool
  pub statements : ℕ → Bool
  pub read : Bool

unfoldable pub shown_config : Config → ShownConfig
shown_config cfg = record {
  payment_chain = cfg.payment_chain;
  network = cfg.network;
  chain_id = cfg.chain_id;
  pay_to = cfg.pay_to_address;
  asset = cfg.usdc_address;
  upstream = cfg.upstream_url;
  markup = cfg.markup;
  cache_ttl_secs = cfg.cache_ttl_secs;
  sig_timeout_secs = cfg.sig_timeout_secs;
  max_body_bytes = cfg.max_body_bytes;
  allowed_origins = cfg.allowed_origins;
  admin_auth_enabled = not (is_empty cfg.admin_token);
  dry_run = cfg.dry_run;
}

unfoldable pub overview : Faults → Server → Reply
overview f s = elim (summary f.read s.db) [
  | err e ↦ failed 500 (database e)
  | ok totals ↦ elim (recent_payments f.read (pos 20) s.db) [
    | err e ↦ failed 500 (database e)
    | ok recent ↦ elim (list_model_prices f.read s.db) [
      | err e ↦ failed 500 (database e)
      | ok models ↦ page (record {
        totals = totals;
        recent = recent;
        prices = models;
        config = shown_config s.cfg;
      })
    ]
  ]
]

abbrev pub is_bad_markup : Float64 → Bool
is_bad_markup m = le_zero m || (is_nan m || is_inf m)

-- `SaveSettings`; `format` is `strconv.FormatFloat`, and `req` is none where the JSON is refused.
-- The markup in memory is set before the database is written.
unfoldable pub save_settings : (Float64 → Str) → Faults → Option Float64 → Server → Reply × Server
save_settings format f none s = (failed 400 bad_json, s)
save_settings format f (some markup) s =
    if is_bad_markup markup
    then (failed 400 bad_markup, s)
    else (let (result, db) = set_setting f.write (codes "markup") (format markup) s.db in
        let s' : Server = record s { cfg = record (s.cfg) { markup = markup }; db = db } in
        elim result [ err e ↦ (failed 500 (database e), s') | ok _ ↦ (saved_markup markup, s') ])

module _ (rat_of : Str → Option Rat) where
  -- The prices as the database holds them, compiled.
  unfoldable pub load_prices : Bool → Db → Result AdminError Table
  load_prices fault db = do
    models ← wrap_err database (list_model_prices fault db)
    wrap_err bad_price (new_table_from_entries rat_of default_price models)

  -- `reloadPrices`, and the reply that each handler ends with
  unfoldable pub reload_prices : Faults → Server → Reply × Server
  reload_prices f s = elim (load_prices f.read s.db) [
    | err e ↦ (failed 500 e, s)
    | ok table ↦ (done, record s { prices = replace s.prices (some table) })
  ]

  -- After a write: an error ends the handler, else the prices are loaded again.
  unfoldable pub then_reload : Faults → Server → Result DbError (Unit {0}) × Db → Reply × Server
  then_reload f s (err e, db) = (failed 500 (database e), record s { db = db })
  then_reload f s (ok _, db) = reload_prices f (record s { db = db })

  unfoldable pub save_price : Faults → Option ModelPriceEntry → Server → Reply × Server
  save_price f none s = (failed 400 bad_json, s)
  save_price f (some entry) s =
      let req = record entry { model = normalize_model entry.model } in
      if is_empty req.model
      then (failed 400 model_required, s)
      else elim (new_table_from_entries rat_of default_price (req ∷ [])) [
        | err e ↦ (failed 400 (bad_price e), s)
        | ok _ ↦
            then_reload f s (upsert_model_price f.write (record req { is_default = false }) s.db)
      ]

  unfoldable pub delete_price : Faults → Str → Server → Reply × Server
  delete_price f param s =
      let model = normalize_model param in
      if is_empty model
      then (failed 400 model_required, s)
      else then_reload f s (delete_model_price f.write model s.db)

  unfoldable pub reset_prices : Faults → Server → Reply × Server
  reset_prices f s =
      then_reload f s (replace_model_prices f.begin f.commit f.statements default_entries s.db)

-- `AdminAuth`: none where the request is passed on.
unfoldable pub admin_auth : Str → Str → Str → Option Reply
admin_auth token x_admin_token authorization =
    if is_empty token
    then none
    else (let got =
          if is_empty x_admin_token
          then trim_prefix authorization (codes "Bearer ")
          else x_admin_token in
        if got == token then none else some (failed 401 unauthorized))
