-- ===== src/Handler/Keeping.antt =====
-- internal/handler: the ledger and the cache under every handler.
use xpay_server.Handler.Server.{Server, Services, PaymentSettler, Moment, Request}
use xpay_server.Handler.Admin.{
  then_reload, save_settings, reload_prices, save_price, delete_price, reset_prices, Faults,
  is_bad_markup, load_prices,
}
use xpay_server.Handler.AdminLaws.{run, PriceRequest, save, remove, reset}
use xpay_server.Cache.{store}
use xpay_server.Store.Records.{IsLedger}
use xpay_server.Base.{
  Float64, Str, Option, Rat, some, Result, Bool-cases, inl, inr, is_empty, err, Result-cases, ok,
  codes, ◌∷◌, none, [], false, ◌≡◌, refl,
}
use xpay_server.Cache.Laws.{IsMap, insert-IsMap}
use xpay_server.Handler.Initial.{handle_initial, staged_id}
use xpay_server.Handler.History.{handle_initial-cases}
use xpay_server.Store.Db.{DbError, Db}
use xpay_server.Pricing.Price.{ModelPriceEntry, normalize_model}
use xpay_server.Store.Apart.{
  SameLedger, SameLedger-IsLedger, set_setting-SameLedger, upsert_model_price-SameLedger,
  delete_model_price-SameLedger, replace_model_prices-SameLedger, same,
}
use xpay_server.Pricing.Table.{new_table_from_entries, default_price, default_entries}
use xpay_server.Store.Prices.{set_setting}

-- A handler that leaves the ledger's tables and the cache alone.
pub record IsApart (s t : Server) : Type 0 where
  pub ledger : SameLedger s.db t.db
  pub cache : t.cache ≡ s.cache

untouched : (s : Server) → IsApart s s
untouched s = record { ledger = same s.db; cache = refl }

then_reload-IsApart :
    (rat_of : Str → Option Rat) (f : Faults) (s : Server) (r : Result DbError (Unit {0})) (db : Db)
    → SameLedger s.db db
    → IsApart s (then_reload rat_of f s (r, db)).1
unfolding then_reload reload_prices
then_reload-IsApart rat_of f s (err e) db kept = record { ledger = kept; cache = refl }
then_reload-IsApart rat_of f s (ok _) db kept = elim (Result-cases (load_prices rat_of f.read db)) [
  | inl (t, e) ↦ rw (reload_prices, e) (record { ledger = kept; cache = refl })
  | inr (x, e) ↦ rw (reload_prices, e) (record { ledger = kept; cache = refl })
]

pub run-IsApart :
    (rat_of : Str → Option Rat) (f : Faults) (r : PriceRequest) (s : Server)
    → IsApart s (run rat_of f r s).1
unfolding run save_price delete_price reset_prices
run-IsApart rat_of f (save none) s = untouched s
run-IsApart rat_of f (save (some entry)) s =
    let req : ModelPriceEntry = record entry { model = normalize_model entry.model } in
    elim (Bool-cases (is_empty req.model)) [
      | inl y ↦ rw (run, save_price, y) (untouched s)
      | inr n ↦ elim (Result-cases (new_table_from_entries rat_of default_price (req ∷ []))) [
        | inr (x, e) ↦ rw (run, save_price, n, e) (untouched s)
        | inl (t, e) ↦
            rw (run, save_price, n, e)
              (then_reload-IsApart rat_of f s _ _
                (upsert_model_price-SameLedger f.write (record req { is_default = false }) s.db))
      ]
    ]
run-IsApart rat_of f (remove param) s = elim (Bool-cases (is_empty (normalize_model param))) [
  | inl y ↦ rw (run, delete_price, y) (untouched s)
  | inr n ↦
      rw (run, delete_price, n)
        (then_reload-IsApart rat_of f s _ _
          (delete_model_price-SameLedger f.write (normalize_model param) s.db))
]
run-IsApart rat_of f reset s =
    then_reload-IsApart rat_of f s _ _
      (replace_model_prices-SameLedger f.begin f.commit f.statements default_entries s.db)

pub save_settings-IsApart :
    (format : Float64 → Str) (f : Faults) (m : Option Float64) (s : Server)
    → IsApart s (save_settings format f m s).1
unfolding save_settings
save_settings-IsApart format f none s = untouched s
save_settings-IsApart format f (some m) s = elim (Bool-cases (is_bad_markup m)) [
  | inl y ↦ rw (save_settings, y) (untouched s)
  | inr n ↦
      let kept = set_setting-SameLedger f.write (codes "markup") (format m) s.db in
      elim (Result-cases (set_setting f.write (codes "markup") (format m) s.db).0) [
        | inl (x, e) ↦ rw (save_settings, n, e) (record { ledger = kept; cache = refl })
        | inr (x, e) ↦ rw (save_settings, n, e) (record { ledger = kept; cache = refl })
      ]
]

-- The database as the ledger's methods and the cache as a Go map keep them.
pub record IsIntact (s : Server) : Type 0 where
  pub ledger : IsLedger s.db
  pub cache : IsMap s.cache.store

pub IsApart-IsIntact : {s t : Server} → IsApart s t → IsIntact s → IsIntact t
IsApart-IsIntact apart h = record {
  ledger = SameLedger-IsLedger apart.ledger h.ledger;
  cache = rw apart.cache h.cache;
}

pub handle_initial-IsIntact :
    (sv : Services) (settler : PaymentSettler) (at : Moment) (s : Server) (req : Request)
    (body : Str)
    → IsIntact s
    → IsIntact (handle_initial sv settler at s req body).1
unfolding store
handle_initial-IsIntact sv settler at s req body h =
    elim (handle_initial-cases sv settler at s req body) [
      | inl same ↦ rw same h
      | inr (e, staged) ↦ rw staged (record {
        ledger = h.ledger;
        cache =
            insert-IsMap (staged_id sv settler at body) (record e { created_at = at.now })
              s.cache.store h.cache;
      })
    ]
