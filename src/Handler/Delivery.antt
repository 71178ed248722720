-- ===== src/Handler/Delivery.antt =====
-- internal/handler/relay.go: a staged response is delivered for a settled payment, and once.
use xpay_server.Handler.Booked.{Booked, Recorded-Booked, settle_books-lookup, settle_books-db}
use xpay_server.Store.Records.{record_payment-Recorded}
use xpay_server.Base.{
  ◌≡◌, ◌≢◌, refl, false, none, some, arith, Str, ℤ, Option-cases, str_beq_iff, ok, is_empty, inl,
  Result-cases, inr, pos, eqb_ℤ_iff, ◌∙◌, beq_of_eq, lookup, str_eq,
}
use xpay_server.Handler.Server.{Services, Moment, PaymentSettler, Server, Request, raw, not_staged}
use xpay_server.Handler.Payment.{
  settle_books, handle_payment, finish_payment, begin_payment, delivery, Pending,
  decode_payment_header, payment_row,
}
use xpay_server.Cache.{get}
use xpay_server.Settler.Outcome.{Settlement}
use xpay_server.Types.{PaymentPayload, x402_version}
use xpay_server.Handler.Initial.{fail}
use xpay_server.Pricing.Manager.{manager_prices}

module _ (sv : Services) (at : Moment) (s : Server) (req : Request) where
  -- What is known of a payment request before it settles.
  pub record IsPending (p : Pending) : Type 0 where
    pub id_is : p.req_id ≡ req.request_id
    pub staged : get at.now req.request_id s.cache ≡ some p.entry
    pub decoded : decode_payment_header sv req.payment ≡ ok p.payment
    pub version : p.payment.x402_version ≡ x402_version
    pub network : p.payment.network ≡ s.cfg.network

  pub begin_payment_sound : (p : Pending) → begin_payment sv at s req ≡ ok p → IsPending p
  unfolding begin_payment
  begin_payment_sound p e = elim (Option-cases (get at.now req.request_id s.cache)) [
    | inl missing ↦ absurd (ground arith)
    | inr (entry, staged) ↦ elim (Result-cases (decode_payment_header sv req.payment)) [
      | inr (bad, failed) ↦ absurd (ground arith)
      | inl (payment, decoded) ↦
          let made : p ≡ record { req_id = req.request_id; entry = entry; payment = payment } =
            ground arith in
          rw made (record {
            id_is = refl;
            staged = staged;
            decoded = decoded;
            version = ground (arith, eqb_ℤ_iff payment.x402_version x402_version);
            network = ground (arith, str_beq_iff payment.network s.cfg.network);
          })
    ]
  ]

  module _ (settler : PaymentSettler) where
    -- A paid delivery: of the staged response, for a payment of its price that settled; and what
    -- the server holds after it.
    pub record IsPaid (kind bytes : Str) : Type 0 where
      pub pending : Pending
      pub settlement : Settlement
      pub begun : IsPending pending
      pub settled : settler.settle pending.payment pending.entry.cost req.request_id ≡ ok settlement
      pub kind_is : kind ≡ pending.entry.content_type
      pub bytes_are : bytes ≡ pending.entry.body
      pub gone : lookup req.request_id (handle_payment sv settler at s req).1.cache.store ≡ none
      pub others :
          (k : Str)
          → k ≢ req.request_id
          → lookup k (handle_payment sv settler at s req).1.cache.store ≡ lookup k s.cache.store
      pub booked : Booked sv at s req pending settlement (handle_payment sv settler at s req).1
      pub books : (handle_payment sv settler at s req).1 ≡ settle_books sv at s pending settlement

    -- No response is delivered but a staged one, for which the settler has accepted a payment of
    -- the price that it was staged with; it is then no longer staged, what is staged under other
    -- ids stays, and the payment has a new row in the ledger, with the payer, the price and the
    -- transaction, unless the driver fails or a row is there for the request or the transaction.
    pub handle_payment-IsPaid :
        (kind bytes : Str)
        → (handle_payment sv settler at s req).0.body ≡ raw kind bytes
        → IsPaid kind bytes
    unfolding handle_payment finish_payment delivery
    handle_payment-IsPaid kind bytes e = elim (Result-cases (begin_payment sv at s req)) [
      | inr (r, refused) ↦ absurd (ground arith)
      | inl (p, begun) ↦ elim (Result-cases (settler.settle p.payment p.entry.cost p.req_id)) [
        | inr (bad, failed) ↦ absurd (ground arith)
        | inl (settlement, settled) ↦
            let pending = begin_payment_sound p begun in
            elim (Option-cases (manager_prices sv.rat_of s.prices p.entry.model)) [
              | inl panic ↦ absurd (ground arith)
              | inr (prices, found) ↦
                  let after : (handle_payment sv settler at s req).1
                      ≡ settle_books sv at s p settlement =
                    ground arith in
                  let left = settle_books-lookup sv at s req p settlement in
                  record {
                    pending = p;
                    settlement = settlement;
                    begun = pending;
                    settled = rw (← pending.id_is) settled;
                    kind_is = ground arith;
                    bytes_are = ground arith;
                    gone = rw after (
                        left req.request_id
                        ∙ rw (beq_of_eq p.req_id req.request_id pending.id_is) refl);
                    others = λ k other.
                        rw after (ground (arith, left k, str_beq_iff p.req_id k, pending.id_is));
                    booked =
                        Recorded-Booked sv at s req p settlement _ _ pending.id_is
                          (record_payment-Recorded at.db_fault at.db_now
                            (payment_row sv s p settlement) s.db)
                          (rw after (settle_books-db sv at s req p settlement));
                    books = after;
                  }
            ]
      ]
    ]

    -- A payment request that no settlement answers leaves the server as it was.
    pub handle_payment-unsettled :
        ((payment : PaymentPayload) (cost : ℤ) (id : Str) (st : Settlement)
          → settler.settle payment cost id ≢ ok st)
        → (handle_payment sv settler at s req).1 ≡ s
    unfolding handle_payment finish_payment
    handle_payment-unsettled never = elim (Result-cases (begin_payment sv at s req)) [
      | inr (r, refused) ↦ ground arith
      | inl (p, begun) ↦ elim (Result-cases (settler.settle p.payment p.entry.cost p.req_id)) [
        | inr (bad, failed) ↦ ground arith
        | inl (settlement, settled) ↦
            absurd (never p.payment p.entry.cost p.req_id settlement settled)
      ]
    ]

-- Nothing is delivered, and nothing changes, for an id under which nothing is staged.
pub unstaged :
    (sv : Services) (settler : PaymentSettler) (at : Moment) (s : Server) (req : Request)
    → is_empty req.request_id ≡ false
    → get at.now req.request_id s.cache ≡ none
    → handle_payment sv settler at s req ≡ (fail (pos 410) not_staged, s)
unfolding handle_payment begin_payment
unstaged sv settler at s req named gone = ground arith
