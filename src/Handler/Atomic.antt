-- ===== src/Handler/Atomic.antt =====
-- internal/handler/relay.go: `handlePayment` in one go is one of the interleavings.
use xpay_server.Base.{◌≡◌, ℕ, Str, ok, ◌∷◌, some, Result-cases, inr, arith, inl, Option-cases, refl}
use xpay_server.Handler.Payment.{
  handle_payment, finish_payment, settle_books, Pending, begin_payment, payment_row,
}
use xpay_server.Handler.Server.{Services, PaymentSettler, Moment, Request, raw, Server}
use xpay_server.Handler.Interleaving.{
  World, Runs, delivered, begun, charged, recorded, cleared, moves, charge, here, enter, clear,
  deliver, then_step, unmoved, arrives,
}
use xpay_server.Settler.Outcome.{Settlement}
use xpay_server.Pricing.Display.{Prices}
use xpay_server.Pricing.Manager.{manager_prices}
use xpay_server.Store.Payments.{record_payment}
use xpay_server.Cache.{delete}

Runs-settle_books :
    (sv : Services) (settlers : ℕ → PaymentSettler) (n : ℕ) (at : Moment) (w : World)
    (req : Request) (p : Pending) (st : Settlement) (prices : Prices)
    → begin_payment sv at w.server req ≡ ok p
    → (settlers n).settle p.payment p.entry.cost p.req_id ≡ ok st
    → manager_prices sv.rat_of w.server.prices p.entry.model ≡ some prices
    → Runs sv settlers w (record {
      server = settle_books sv at w.server p st;
      requests = delivered p st ∷ w.requests;
      accepted = (p, st) ∷ w.accepted;
    })
unfolding settle_books
Runs-settle_books sv settlers n at w req p st prices begins settles priced =
    let w1 : World = record w { requests = begun p ∷ w.requests } in
    let w2 : World = record w {
      requests = charged p st ∷ w.requests;
      accepted = (p, st) ∷ w.accepted;
    } in
    let s3 : Server = record (w.server) {
      db = (record_payment at.db_fault at.db_now (payment_row sv w.server p st) w.server.db).1;
    } in
    let w3 : World = record w2 { server = s3; requests = recorded p st ∷ w.requests } in
    let s4 : Server = record s3 { cache = delete p.req_id w.server.cache } in
    let w4 : World = record w3 { server = s4; requests = cleared p st ∷ w.requests } in
    let charging = moves w1 _ _ _ _ _ (charge n p st settles) (here w.requests) in
    let entering = moves w2 _ _ _ _ _ (enter at p st) (here w.requests) in
    let clearing = moves w3 _ _ _ _ _ (clear p st) (here w.requests) in
    let delivering = moves w4 _ _ _ _ _ (deliver p st prices priced) (here w.requests) in
    then_step w4 _
      (then_step w3 _
        (then_step w2 _
          (then_step w1 _ (then_step w _ unmoved (arrives w at req p begins)) charging) entering)
        clearing)
      delivering

-- A payment request that is delivered takes, when nothing runs in between, the steps of the pieces
-- one after the other: it begins, is charged, recorded, cleared and delivered, and the server ends
-- as the handler leaves it.
pub handle_payment-Runs :
    (sv : Services) (settlers : ℕ → PaymentSettler) (n : ℕ) (at : Moment) (w : World)
    (req : Request) (kind bytes : Str)
    → (handle_payment sv (settlers n) at w.server req).0.body ≡ raw kind bytes
    → (p : Pending) × (st : Settlement) × (begin_payment sv at w.server req ≡ ok p)
      × Runs sv settlers w (record {
        server = (handle_payment sv (settlers n) at w.server req).1;
        requests = delivered p st ∷ w.requests;
        accepted = (p, st) ∷ w.accepted;
      })
unfolding handle_payment finish_payment settle_books
handle_payment-Runs sv settlers n at w req kind bytes e =
    elim (Result-cases (begin_payment sv at w.server req)) [
      | inr (r, wrong) ↦ absurd (ground arith)
      | inl (p, begins) ↦
          elim (Result-cases ((settlers n).settle p.payment p.entry.cost p.req_id)) [
            | inr (bad, wrong) ↦ absurd (ground arith)
            | inl (st, settles) ↦
                elim (Option-cases (manager_prices sv.rat_of w.server.prices p.entry.model)) [
                  | inl panics ↦ absurd (ground arith)
                  | inr (prices, priced) ↦
                      rw (handle_payment, begins, finish_payment, settles, priced)
                        (
                          p,
                          st,
                          refl,
                          Runs-settle_books sv settlers n at w req p st prices begins settles
                              priced,
                        )
                ]
          ]
    ]
