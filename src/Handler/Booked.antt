-- ===== src/Handler/Booked.antt =====
-- internal/handler/relay.go: what the server holds after a payment has settled.
use xpay_server.Store.Records.{Recorded, added, kept_out}
use xpay_server.Base.{
  ◌≡◌, refl, none, Str, inl, inr, ◌∷◌, true, ◌∙◌, lookup-erase, lookup, to_int64, ◌⊎◌, Result,
  if◌then◌else◌, str_eq, Memᴰ, ◌==◌, ap,
}
use xpay_server.Handler.Server.{Services, Moment, Server, Request}
use xpay_server.Handler.Payment.{settle_books, Pending, payment_row}
use xpay_server.Cache.{delete}
use xpay_server.Settler.Outcome.{Settlement}
use xpay_server.Store.Db.{Payment, DbError, Db}
use xpay_server.Store.Payments.{record_payment}

module _ (sv : Services) (at : Moment) (s : Server) (req : Request) where
  -- The row of a payment that settled.
  pub record IsRowOf (p : Pending) (st : Settlement) (row : Payment) : Type 0 where
    pub payer_is : row.from_address ≡ st.payer
    pub seller_is : row.to_address ≡ s.cfg.pay_to_address
    pub amount_is : row.amount ≡ to_int64 p.entry.cost
    pub hash_is : row.tx_hash ≡ st.tx_hash
    pub model_is : row.model ≡ p.entry.model
    pub request_is : row.request_id ≡ req.request_id
    pub network_is : row.network ≡ s.cfg.network
    pub time_is : row.created_at ≡ at.db_now

  -- The ledger has a new row for the payment, or is as it was: the driver has failed, or a row was
  -- there for the request or for the transaction.
  pub data Booked (p : Pending) (st : Settlement) (after : Server) : Type 0 where
    row_added :
        (row : Payment)
        → IsRowOf p st row
        → after.db.payments ≡ row ∷ s.db.payments
        → Booked p st after
    row_refused :
        (at.db_fault ≡ true)
          ⊎ ((q : Payment) × Memᴰ q s.db.payments
              × ((q.request_id ≡ req.request_id)
                  ⊎ ((q.network ≡ s.cfg.network) × (q.tx_hash ≡ st.tx_hash))))
        → after.db ≡ s.db
        → Booked p st after

  pub Recorded-Booked :
      (p : Pending) (st : Settlement) (o : Result DbError (Unit {0}) × Db) (after : Server)
      → p.req_id ≡ req.request_id
      → Recorded at.db_fault at.db_now (payment_row sv s p st) s.db o
      → after.db ≡ o.1
      → Booked p st after
  unfolding payment_row
  Recorded-Booked p st _ after id (added d' row works free rows is bigger set models) same =
      row_added row
        (rw is (record {
          payer_is = refl;
          seller_is = refl;
          amount_is = refl;
          hash_is = refl;
          model_is = refl;
          request_is = id;
          network_is = refl;
          time_is = refl;
        }))
        (ap (λ (d : Db). d.payments) same ∙ rows)
  Recorded-Booked p st _ after id (kept_out e why) same =
      row_refused
        (elim why [
          | inl fault ↦ inl fault
          | inr (q, m, c) ↦ inr (q, m, elim c [ inl twin ↦ inl (twin ∙ id) | inr tx ↦ inr tx ])
        ])
        same

  -- Nothing but the id is forgotten.
  pub settle_books-lookup :
      (p : Pending) (st : Settlement) (k : Str)
      → lookup k (settle_books sv at s p st).cache.store
        ≡ (if p.req_id == k then none else lookup k s.cache.store)
  unfolding settle_books delete
  settle_books-lookup p st k = lookup-erase p.req_id k s.cache.store

  pub settle_books-db :
      (p : Pending) (st : Settlement)
      → (settle_books sv at s p st).db
        ≡ (record_payment at.db_fault at.db_now (payment_row sv s p st) s.db).1
  unfolding settle_books
  settle_books-db p st = refl
