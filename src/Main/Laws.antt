-- ===== src/Main/Laws.antt =====
-- cmd/server/main.go: what a server that starts has in memory, and which origins may call it.
use xpay_server.Base.{
  to_int64, ◌≡◌, ok, some, none, Option, Str, Float64, le_zero, false, pos, ◌*ℤ◌, >>=-eq-ok, Rat,
  subst, wrap_err, codes, List, arith, Option-cases, inl, inr, wrap_err-eq-ok, All, lookup, ◌≢◌, [],
  ◌<ℤ◌, ◌⊎◌, ◌≤ℤ◌, str_eq, Bool, true, ◌∙◌, ap, refl,
}
use xpay_server.Main.{
  StartFaults, start, stored_markup, default_entries, bootstrap_failed, load_settings_failed,
  new_table_from_entries, default_price, settler_failed, load_prices_failed, compile_failed,
}
use xpay_server.Store.Prices.{get_setting, list_model_prices, bootstrap_default_prices}
use xpay_server.Pricing.Manager.{new_manager}
use xpay_server.Cache.{new_cache, Nanos}
use xpay_server.Config.{Config}
use xpay_server.Store.Db.{Db}
use xpay_server.Handler.Server.{Server}
use xpay_server.Pricing.Price.{ModelPriceEntry}
use xpay_server.Pricing.Table.{Table, table_or_default}
use xpay_server.Settler.New.{NewLib, AnySettler, new_settler}
use xpay_server.Store.Inserts.{Extends}
use xpay_server.Store.Apart.{
  SameLedger, bootstrap_default_prices-settings, bootstrap_default_prices-SameLedger,
}
use xpay_server.Store.Catalog.{bootstrap_default_prices-keeps}

-- The stored markup decides when there is one, and then it reads as a number that is not at most 0.
pub data ChoosesMarkup (parse_float : Str → Option Float64) (configured : Float64)
    : Option Str → Float64 → Type 0 where
  keep : ChoosesMarkup parse_float configured none configured
  take :
      (v : Str) (m : Float64)
      → parse_float v ≡ some m
      → le_zero m ≡ false
      → ChoosesMarkup parse_float configured (some v) m

lifetime_of :
    (d : Nanos)
    → ((pos 0 <ℤ d) × ((new_cache d).ttl ≡ d))
      ⊎ ((d ≤ℤ pos 0) × ((new_cache d).ttl ≡ pos 180_000_000_000))
unfolding new_cache
lifetime_of d = ground arith

module _ (rat_of : Str → Option Rat) (parse_float : Str → Option Float64) (lib : NewLib)
    (f : StartFaults) (cfg : Config) (db : Db) where
  abbrev booted : Db
  booted = (bootstrap_default_prices f.begin f.commit f.statements default_entries db).1

  -- What a server that started holds.
  pub record IsStarted (s : Server) (settler : AnySettler) : Type 0 where
    pub defaults_there : Extends default_entries db.model_prices s.db.model_prices
    pub defaults_all : All (λ e. lookup e.model s.db.model_prices ≢ none) default_entries
    pub ledger_kept : SameLedger db s.db
    pub settings_kept : s.db.settings ≡ db.settings
    pub markup_chosen :
        ChoosesMarkup parse_float cfg.markup (lookup (codes "markup") db.settings) s.cfg.markup
    pub others_configured : s.cfg ≡ record cfg { markup = s.cfg.markup }
    pub entries : List ModelPriceEntry
    pub table : Table
    pub entries_read : list_model_prices false s.db ≡ ok entries
    pub compiled : new_table_from_entries rat_of default_price entries ≡ ok table
    pub prices_are : s.prices.table ≡ some table
    pub nothing_staged : s.cache.store ≡ []
    pub cache_runs : s.cache.stopped ≡ false
    pub lifetime :
        let d = to_int64 (cfg.cache_ttl_secs *ℤ pos 1_000_000_000) in
        ((pos 0 <ℤ d) × (s.cache.ttl ≡ d)) ⊎ ((d ≤ℤ pos 0) × (s.cache.ttl ≡ pos 180_000_000_000))
    pub settler_is : new_settler lib s.cfg ≡ ok settler

  stored_markup-ChoosesMarkup :
      (setting : Option Str) {m : Float64}
      → stored_markup parse_float cfg.markup setting ≡ ok m
      → ChoosesMarkup parse_float cfg.markup setting m
  unfolding stored_markup
  stored_markup-ChoosesMarkup none e =
      subst (λ m. ChoosesMarkup parse_float cfg.markup none m) (ground arith) keep
  stored_markup-ChoosesMarkup (some v) {m} e = elim (Option-cases (parse_float v)) [
    | inl missing ↦ absurd (ground arith)
    | inr (x, read) ↦ take v m (ground arith) (ground arith)
  ]

  get_setting-ok :
      (fault : Bool) (key : Str) (d : Db) {v : Option Str}
      → get_setting fault key d ≡ ok v
      → v ≡ lookup key d.settings
  unfolding get_setting
  get_setting-ok true key d e = cc
  get_setting-ok false key d e = ground arith

  list_model_prices-ok :
      (fault : Bool) (d d' : Db) {out : List ModelPriceEntry}
      → d' ≡ d
      → list_model_prices fault d ≡ ok out
      → list_model_prices false d' ≡ ok out
  unfolding list_model_prices
  list_model_prices-ok true d d' same e = cc
  list_model_prices-ok false d d' same e = rw same e

  -- A server that starts keeps its ledger and its settings, and every price of its database; the
  -- default prices are added where they were missing. It has in memory the table of the prices in
  -- the database, the stored markup if there is one and all other settings as configured, nothing
  -- staged, a lifetime of what is staged that is positive, and the settler that `New` makes of its
  -- settings.
  pub start_sound :
      (s : Server) (settler : AnySettler)
      → start rat_of parse_float lib f cfg db ≡ ok (s, settler)
      → IsStarted s settler
  unfolding start new_cache new_manager table_or_default
  start_sound s settler e =
      let (_, boot, e1) =
        >>=-eq-ok
          (wrap_err bootstrap_failed
            (bootstrap_default_prices f.begin f.commit f.statements default_entries db).0)
          _ e in
      let (setting, read, e2) =
        >>=-eq-ok (wrap_err load_settings_failed (get_setting f.settings (codes "markup") booted)) _
          e1 in
      let (m, chosen, e3) = >>=-eq-ok (stored_markup parse_float cfg.markup setting) _ e2 in
      let (k, made, e4) =
        >>=-eq-ok (wrap_err settler_failed (new_settler lib (record cfg { markup = m }))) _ e3 in
      let (entries, listed, e5) =
        >>=-eq-ok (wrap_err load_prices_failed (list_model_prices f.prices booted)) _ e4 in
      let (table, compiled, e6) =
        >>=-eq-ok (wrap_err compile_failed (new_table_from_entries rat_of default_price entries)) _
          e5 in
      let bootstrapped = wrap_err-eq-ok bootstrap_failed _ boot in
      let found = wrap_err-eq-ok load_settings_failed _ read in
      let (there, all) =
        bootstrap_default_prices-keeps f.begin f.commit f.statements default_entries db
          bootstrapped in
      let db_is : s.db ≡ booted = ground arith in
      let stored : setting ≡ lookup (codes "markup") db.settings =
        get_setting-ok f.settings (codes "markup") booted found
        ∙ ap (lookup (codes "markup"))
            (bootstrap_default_prices-settings f.begin f.commit f.statements default_entries db) in
      let d = to_int64 (cfg.cache_ttl_secs *ℤ pos 1_000_000_000) in
      let cache_is : s.cache ≡ new_cache d = ground arith in
      record {
        defaults_there = rw db_is there;
        defaults_all = rw db_is all;
        ledger_kept =
            rw db_is (
              bootstrap_default_prices-SameLedger f.begin f.commit f.statements default_entries db);
        settings_kept =
            rw db_is
              (bootstrap_default_prices-settings f.begin f.commit f.statements default_entries db);
        markup_chosen = rw (← stored) (
            subst (ChoosesMarkup parse_float cfg.markup setting) (ground arith)
              (stored_markup-ChoosesMarkup setting chosen));
        others_configured = ground arith;
        entries = entries;
        table = table;
        entries_read =
            list_model_prices-ok f.prices booted s.db db_is
              (wrap_err-eq-ok load_prices_failed _ listed);
        compiled = wrap_err-eq-ok compile_failed _ compiled;
        prices_are = ground arith;
        nothing_staged = rw cache_is refl;
        cache_runs = rw cache_is refl;
        lifetime = rw cache_is (lifetime_of d);
        settler_is = ground (
          arith,
          wrap_err-eq-ok settler_failed (new_settler lib (record cfg { markup = m })) made,
        );
      }
