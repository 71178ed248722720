-- ===== src/Store/Apart.antt =====
-- internal/store/settings.go: settings and prices are apart from the ledger.
use xpay_server.Base.{◌≡◌, refl, Bool, subst, Str, Result, ℕ, true, arith, List, sym, false}
use xpay_server.Store.Db.{Db, DbError}
use xpay_server.Store.Prices.{
  set_setting, upsert_model_price, delete_model_price, transaction, replace_model_prices, Rows,
  exec_tx, begin_tx, bootstrap_default_prices,
}
use xpay_server.Store.Records.{IsLedger, AreUnique}
use xpay_server.Pricing.Price.{ModelPriceEntry}

pub record SameLedger (d e : Db) : Type 0 where
  pub payments : e.payments ≡ d.payments
  pub next_id : e.next_id ≡ d.next_id

pub same : (d : Db) → SameLedger d d
same d = record { payments = refl; next_id = refl }

pub SameLedger-IsLedger : {d e : Db} → SameLedger d e → IsLedger d → IsLedger e
SameLedger-IsLedger s l = record {
  unique = subst AreUnique (sym s.payments) l.unique;
  ids = rw (s.payments, s.next_id) l.ids;
}

pub set_setting-SameLedger :
    (fault : Bool) (key value : Str) (d : Db) → SameLedger d (set_setting fault key value d).1
unfolding set_setting
set_setting-SameLedger true key value d = same d
set_setting-SameLedger false key value d = record { payments = refl; next_id = refl }

pub upsert_model_price-SameLedger :
    (fault : Bool) (entry : ModelPriceEntry) (d : Db)
    → SameLedger d (upsert_model_price fault entry d).1
unfolding upsert_model_price
upsert_model_price-SameLedger fault entry d = record {
  payments = ground arith;
  next_id = ground arith;
}

pub delete_model_price-SameLedger :
    (fault : Bool) (model : Str) (d : Db) → SameLedger d (delete_model_price fault model d).1
unfolding delete_model_price
delete_model_price-SameLedger true model d = same d
delete_model_price-SameLedger false model d = record { payments = refl; next_id = refl }

transaction-SameLedger :
    (begin commit : Bool) (body : Rows → Result DbError (Unit {0}) × Rows) (d : Db)
    → SameLedger d (transaction begin commit body d).1
unfolding transaction exec_tx begin_tx
transaction-SameLedger true commit body d = same d
transaction-SameLedger false commit body d = record {
  payments = ground arith;
  next_id = ground arith;
}

pub replace_model_prices-SameLedger :
    (begin commit : Bool) (faults : ℕ → Bool) (entries : List ModelPriceEntry) (d : Db)
    → SameLedger d (replace_model_prices begin commit faults entries d).1
unfolding replace_model_prices
replace_model_prices-SameLedger begin commit faults entries d =
    transaction-SameLedger begin commit _ d

pub bootstrap_default_prices-SameLedger :
    (begin commit : Bool) (faults : ℕ → Bool) (entries : List ModelPriceEntry) (d : Db)
    → SameLedger d (bootstrap_default_prices begin commit faults entries d).1
unfolding bootstrap_default_prices
bootstrap_default_prices-SameLedger begin commit faults entries d =
    transaction-SameLedger begin commit _ d

pub bootstrap_default_prices-settings :
    (begin commit : Bool) (faults : ℕ → Bool) (entries : List ModelPriceEntry) (d : Db)
    → (bootstrap_default_prices begin commit faults entries d).1.settings ≡ d.settings
unfolding bootstrap_default_prices transaction exec_tx begin_tx
bootstrap_default_prices-settings true commit faults entries d = refl
bootstrap_default_prices-settings false commit faults entries d = ground arith
