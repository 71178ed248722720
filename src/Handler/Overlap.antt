-- ===== src/Handler/Overlap.antt =====
-- internal/handler/relay.go: two payments for one staged response, at the same time.
use xpay_server.Handler.Delivery.{begin_payment_sound}
use xpay_server.Base.{
  ◌≡◌, refl, some, arith, Str, ℤ, Option-cases, str_beq_iff, ok, inl, inr, ◌∷◌, ◌∙◌, lookup, str_eq,
  ap, Bool, length, List, suc, sym,
}
use xpay_server.Handler.Server.{Services, Moment, PaymentSettler, Server, Request, raw}
use xpay_server.Handler.Payment.{
  settle_books, finish_payment, begin_payment, delivery, Pending, payment_row,
}
use xpay_server.Cache.{get, Nanos, Cache, Entry}
use xpay_server.Settler.Outcome.{Settlement}
use xpay_server.Pricing.Display.{Prices}
use xpay_server.Pricing.Manager.{manager_prices}
use xpay_server.Store.Db.{Payment, Db}
use xpay_server.Store.Payments.{record_payment, conflicts}

get-lookup :
    (now : Nanos) (id : Str) (c : Cache) (e : Entry)
    → get now id c ≡ some e
    → lookup id c.store ≡ some e
unfolding get
get-lookup now id c e h = elim (Option-cases (lookup id c.store)) [
  | inl missing ↦ absurd (ground arith)
  | inr (e', there) ↦ ground arith
]

first_added :
    (fault : Bool) (now : ℤ) (p : Payment) (d : Db)
    → (record_payment fault now p d).0 ≡ ok tt
    → (row : Payment) × ((record_payment fault now p d).1.payments ≡ row ∷ d.payments)
      × (row.request_id ≡ p.request_id)
unfolding record_payment
first_added fault now p d e = (record p { id = d.next_id; created_at = now }, ground arith, refl)

second_refused :
    (fault : Bool) (now : ℤ) (row q : Payment) (rows : List Payment) (d : Db)
    → d.payments ≡ row ∷ rows
    → row.request_id ≡ q.request_id
    → (record_payment fault now q d).1 ≡ d
unfolding record_payment conflicts
second_refused fault now row q rows d there same =
    ground (arith, str_beq_iff row.request_id q.request_id)

-- A payment request that settles is delivered.
finish_payment-delivers :
    (sv : Services) (settler : PaymentSettler) (at : Moment) (s : Server) (p : Pending)
    (st : Settlement) (prices : Prices)
    → settler.settle p.payment p.entry.cost p.req_id ≡ ok st
    → manager_prices sv.rat_of s.prices p.entry.model ≡ some prices
    → finish_payment sv settler at s p ≡ (delivery sv s p st prices, settle_books sv at s p st)
unfolding finish_payment
finish_payment-delivers sv settler at s p st prices settles priced = ground arith

-- The server does not hold a staged response while a payment for it settles. Where two requests for
-- one id are both let through before either is done, both are for the same response at its full
-- price; each is delivered if both payments settle. The ledger has one row more after the first, if
-- that one is recorded, and none more after the second. The prices of the response's model are those
-- that the first reply shows.
pub finish_payment_twice :
    (sv : Services) (settler : PaymentSettler) (at at' : Moment) (s : Server) (req req' : Request)
    (p p' : Pending) (st st' : Settlement) (prices : Prices)
    → req'.request_id ≡ req.request_id
    → begin_payment sv at s req ≡ ok p
    → begin_payment sv at' s req' ≡ ok p'
    → settler.settle p.payment p.entry.cost p.req_id ≡ ok st
    → settler.settle p'.payment p'.entry.cost p'.req_id ≡ ok st'
    → manager_prices sv.rat_of s.prices p.entry.model ≡ some prices
    → (record_payment at.db_fault at.db_now (payment_row sv s p st) s.db).0 ≡ ok tt
    → let (first, s') = finish_payment sv settler at s p in
      let (second, s'') = finish_payment sv settler at' s' p' in
      (p'.entry ≡ p.entry)
      × (first.body ≡ raw p.entry.content_type p.entry.body)
      × (second.body ≡ raw p.entry.content_type p.entry.body)
      × (length s'.db.payments ≡ suc (length s.db.payments))
      × (s''.db ≡ s'.db)
unfolding delivery settle_books payment_row
finish_payment_twice sv settler at at' s req req' p p' st st' prices same begun begun' settles
      settles' priced recorded =
    let pending = begin_payment_sound sv at s req p begun in
    let pending' = begin_payment_sound sv at' s req' p' begun' in
    let id : p'.req_id ≡ p.req_id = pending'.id_is ∙ same ∙ sym pending.id_is in
    let found = get-lookup at.now req.request_id s.cache p.entry pending.staged in
    let found' = get-lookup at'.now req'.request_id s.cache p'.entry pending'.staged in
    let entries : p'.entry ≡ p.entry = ground (arith, found, found', same) in
    let s' = settle_books sv at s p st in
    let priced' : manager_prices sv.rat_of s'.prices p'.entry.model ≡ some prices =
      rw entries priced in
    let (row, rows, named) =
      first_added at.db_fault at.db_now (payment_row sv s p st) s.db recorded in
    let refused =
      second_refused at'.db_fault at'.db_now row (payment_row sv s' p' st') s.db.payments s'.db rows
        (named ∙ sym id) in
    rw (finish_payment-delivers sv settler at s p st prices settles priced) (
      rw (finish_payment-delivers sv settler at' s' p' st' prices settles' priced')
        (entries, refl, rw entries refl, ap length rows, refused))
