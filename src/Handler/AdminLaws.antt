-- ===== src/Handler/AdminLaws.antt =====
-- internal/handler/admin.go: prices in memory and in the database, settings, and the token.
use xpay_server.Base.{
  ◌≡◌, Option, some, Str, ok, Rat, ℕ, Bool-cases, Result-cases, Result, is_empty, inl, inr, err,
  refl, ◌∷◌, [], none, ap, Float64, ◌↔◌, false, ◌⊎◌, trim_prefix, codes, arith, true, str_beq_iff,
  lookup-insert, str_beq, str_eq, finite, pos, ◌<ℤ◌, infinite, nan,
}
use xpay_server.Pricing.Price.{ModelPriceEntry, normalize_model}
use xpay_server.Pricing.Table.{Table, new_table_from_entries, default_price}
use xpay_server.Pricing.Manager.{replace}
use xpay_server.Handler.Server.{Server}
use xpay_server.Handler.Admin.{
  Faults, Reply, load_prices, save_price, delete_price, reset_prices, failed, done, AdminError,
  reload_prices, then_reload, bad_json, model_required, database, bad_price, admin_auth,
  is_bad_markup, save_settings, bad_markup, saved_markup,
}
use xpay_server.Store.Db.{DbError, Db, driver_failed}
use xpay_server.Store.Prices.{set_setting, get_setting}

-- A request that changes prices.
pub data PriceRequest : Type 0 where
  save : Option ModelPriceEntry → PriceRequest
  remove : Str → PriceRequest
  reset : PriceRequest

module _ (rat_of : Str → Option Rat) (f : Faults) where
  unfoldable pub run : PriceRequest → Server → Reply × Server
  run (save entry) s = save_price rat_of f entry s
  run (remove model) s = delete_price rat_of f model s
  run reset s = reset_prices rat_of f s

  -- After a request: all prices in memory come from the database, or none has changed.
  pub data PriceOutcome (s : Server) : Reply × Server → Type 0 where
    loaded :
        (s' : Server) (t : Table)
        → load_prices rat_of f.read s'.db ≡ ok t
        → s'.prices.table ≡ some t
        → s'.cfg ≡ s.cfg
        → s'.cache ≡ s.cache
        → PriceOutcome s (done, s')
    refused :
        (s' : Server) (code : ℕ) (e : AdminError)
        → s'.prices ≡ s.prices
        → s'.cfg ≡ s.cfg
        → s'.cache ≡ s.cache
        → PriceOutcome s (failed code e, s')

  reload_prices-PriceOutcome :
      (s s₀ : Server)
      → s.prices ≡ s₀.prices
      → s.cfg ≡ s₀.cfg
      → s.cache ≡ s₀.cache
      → PriceOutcome s₀ (reload_prices rat_of f s)
  unfolding reload_prices replace
  reload_prices-PriceOutcome s s₀ p c k = elim (Result-cases (load_prices rat_of f.read s.db)) [
    | inl (t, e) ↦ rw (reload_prices, e) (loaded _ t e refl c k)
    | inr (x, e) ↦ rw (reload_prices, e) (refused s 500 x p c k)
  ]

  then_reload-PriceOutcome :
      (s : Server) (w : Result DbError (Unit {0}) × Db) → PriceOutcome s (then_reload rat_of f s w)
  unfolding then_reload
  then_reload-PriceOutcome s (err e, db) = refused _ 500 (database e) refl refl refl
  then_reload-PriceOutcome s (ok _, db) = reload_prices-PriceOutcome _ s refl refl refl

  save_price-PriceOutcome :
      (s : Server) (entry : Option ModelPriceEntry) → PriceOutcome s (save_price rat_of f entry s)
  unfolding save_price
  save_price-PriceOutcome s none = refused s 400 bad_json refl refl refl
  save_price-PriceOutcome s (some entry) =
      elim (Bool-cases (is_empty (normalize_model entry.model))) [
        | inl y ↦ rw y (refused s 400 model_required refl refl refl)
        | inr n ↦
            rw n
              (elim (Result-cases (
                new_table_from_entries rat_of default_price
                  (record entry { model = normalize_model entry.model } ∷ []))) [
                    | inl (t, e) ↦ rw e (then_reload-PriceOutcome s _)
                    | inr (x, e) ↦ rw e (refused s 400 (bad_price x) refl refl refl)
                  ])
      ]

  delete_price-PriceOutcome :
      (s : Server) (param : Str) → PriceOutcome s (delete_price rat_of f param s)
  unfolding delete_price
  delete_price-PriceOutcome s param = elim (Bool-cases (is_empty (normalize_model param))) [
    | inl y ↦ rw y (refused s 400 model_required refl refl refl)
    | inr n ↦ rw n (then_reload-PriceOutcome s _)
  ]

  reset_prices-PriceOutcome : (s : Server) → PriceOutcome s (reset_prices rat_of f s)
  unfolding reset_prices
  reset_prices-PriceOutcome s = then_reload-PriceOutcome s _

  pub run-PriceOutcome : (r : PriceRequest) (s : Server) → PriceOutcome s (run r s)
  unfolding run
  run-PriceOutcome (save entry) s = save_price-PriceOutcome s entry
  run-PriceOutcome (remove model) s = delete_price-PriceOutcome s model
  run-PriceOutcome reset s = reset_prices-PriceOutcome s

is_bad_markup-false :
    (m : Float64) → is_bad_markup m ≡ false → (r : Rat) × (m ≡ finite r) × (pos 0 <ℤ r.num)
is_bad_markup-false nan e = cc
is_bad_markup-false (infinite below) e = ground arith
is_bad_markup-false (finite r) e = (r, refl, ground arith)

module _ (format : Float64 → Str) (f : Faults) where
  -- After the settings were to be saved: memory and database both hold the new markup, or neither
  -- does, or the database has failed and only the memory has it.
  pub data Saved (s : Server) : Reply × Server → Type 0 where
    both :
        (s' : Server) (m : Float64) (r : Rat)
        → m ≡ finite r
        → pos 0 <ℤ r.num
        → s'.cfg ≡ record (s.cfg) { markup = m }
        → get_setting false (codes "markup") s'.db ≡ ok (some (format m))
        → s'.prices ≡ s.prices
        → Saved s (saved_markup m, s')
    neither : (e : AdminError) → Saved s (failed 400 e, s)
    memory_only :
        (s' : Server) (m : Float64) (r : Rat) (e : DbError)
        → m ≡ finite r
        → pos 0 <ℤ r.num
        → s'.cfg ≡ record (s.cfg) { markup = m }
        → s'.db ≡ s.db
        → f.write ≡ true
        → Saved s (failed 500 (database e), s')

  -- A markup that is saved is a finite number above 0, in memory and in the database; a request
  -- refused as bad changes nothing; a failing database leaves the new markup in memory alone.
  pub save_settings-Saved :
      (req : Option Float64) (s : Server) → Saved s (save_settings format f req s)
  unfolding save_settings set_setting get_setting str_beq
  save_settings-Saved none s = neither bad_json
  save_settings-Saved (some m) s = elim (Bool-cases (is_bad_markup m)) [
    | inl y ↦ rw y (neither bad_markup)
    | inr n ↦
        let (r, is, above) = is_bad_markup-false m n in
        elim (Bool-cases f.write) [
          | inl w ↦ simp (n, w) (memory_only _ m r driver_failed is above refl refl w)
          | inr w ↦
              simp (n, w)
                (both _ m r is above refl
                  (ap ok (
                    lookup-insert ⦃e = str_eq⦄ (codes "markup") (codes "markup") (format m)
                      s.db.settings))
                  refl)
        ]
  ]

-- With a token set, exactly the requests that carry it are passed on, in `X-Admin-Token` or, where
-- that is empty, in `Authorization` behind an optional `Bearer `; without one, all are.
pub admin_auth_iff :
    (token x_admin_token authorization : Str)
    → (admin_auth token x_admin_token authorization ≡ none) ↔ (
        (token ≡ [])
        ⊎ ((¬ (x_admin_token ≡ [])) × (x_admin_token ≡ token))
        ⊎ ((x_admin_token ≡ []) × (trim_prefix authorization (codes "Bearer ") ≡ token)))
unfolding admin_auth
admin_auth_iff [] x authorization = (λ _. inl refl, λ _. refl)
admin_auth_iff (t ∷ ts) [] authorization =
    ground (arith, str_beq_iff (trim_prefix authorization (codes "Bearer ")) (t ∷ ts))
admin_auth_iff (t ∷ ts) (c ∷ cs) authorization = ground (arith, str_beq_iff (c ∷ cs) (t ∷ ts))
