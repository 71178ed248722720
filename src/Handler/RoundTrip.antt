-- ===== src/Handler/RoundTrip.antt =====
-- internal/handler/relay.go: from a question to its paid answer.
use xpay_server.Base.{
  ◌≡◌, Str, Option, ℤ, arith, true, ltb_ℤ, some, ◌-ℤ◌, false, ok, Rat, str_beq_iff, pos, eqb_ℤ_iff,
  Float64, Option-cases, inl, inr, refl, ap,
}
use xpay_server.Types.{PaymentPayload, x402_version}
use xpay_server.Settler.Outcome.{Settlement}
use xpay_server.Handler.Server.{
  Server, Services, PaymentSettler, Moment, Request, UpstreamResponse, raw, Response,
}
use xpay_server.Handler.Initial.{
  handle_initial, staged_id, stage, entry_for, usage_of, model_of, price_and_stage,
  upstream_request, is_success, has_no_usage, content_type_of,
}
use xpay_server.Handler.Payment.{
  handle_payment, begin_payment, finish_payment, decode_payment_header, Pending, delivery,
}
use xpay_server.Cache.{get, Entry, is_expired, request_id}
use xpay_server.Cache.Laws.{get-store}
use xpay_server.Pricing.Manager.{manager_cost, manager_prices, Manager}
use xpay_server.Pricing.Cost.{Usage, cost_micro_usdc}
use xpay_server.Pricing.Display.{prices_for, Prices, prices_of}
use xpay_server.Pricing.Table.{price_for}

-- A model that has a cost has prices to display.
pub manager_prices-manager_cost :
    (rat_of : Str → Option Rat) (m : Manager) (model : Str) (u : Usage) (markup : Float64)
    {cost : ℤ}
    → manager_cost rat_of m model u markup ≡ some cost
    → (prices : Prices) × (manager_prices rat_of m model ≡ some prices)
unfolding manager_cost manager_prices cost_micro_usdc prices_for
manager_prices-manager_cost rat_of m model u markup e =
    elim (Option-cases (price_for rat_of m.table model)) [
      | inl missing ↦ absurd (ground arith)
      | inr (p, found) ↦ (prices_of p, ground arith)
    ]

module _ (sv : Services) (settler : PaymentSettler) (at at' : Moment) (s : Server)
    (req req' : Request) (body : Str) (resp : UpstreamResponse) (cost : ℤ)
    (payment : PaymentPayload) (st : Settlement) where
  abbrev used : Usage
  used = usage_of (sv.decode_envelope resp.body)

  abbrev model : Str
  model = model_of sv settler at body (sv.decode_envelope resp.body).model

  abbrev staged : Server
  staged = (stage sv settler at s req body resp used model cost).1

  abbrev id : Str
  id = staged_id sv settler at body

  abbrev entry : Entry
  entry = record (entry_for sv settler at resp cost used model) { created_at = at.now }

  pub handle_initial_staged :
      sv.accepts_url (upstream_request sv settler at s req body).url ≡ true
      → sv.upstream (upstream_request sv settler at s req body) ≡ some resp
      → is_success resp.status ≡ true
      → has_no_usage used ≡ false
      → manager_cost sv.rat_of s.prices model used s.cfg.markup ≡ some cost
      → handle_initial sv settler at s req body
        ≡ stage sv settler at s req body resp used model cost
  unfolding handle_initial price_and_stage
  handle_initial_staged url answered good tokens price = ground arith

  pub get-stage :
      ltb_ℤ s.cache.ttl (at'.now -ℤ at.now) ≡ false → get at'.now id staged.cache ≡ some entry
  unfolding stage is_expired
  get-stage fresh = ground (
    arith,
    get-store at.now at'.now id id (entry_for sv settler at resp cost used model) s.cache,
    str_beq_iff id id,
  )

  begin_payment_staged :
      get at'.now id staged.cache ≡ some entry
      → req'.request_id ≡ id
      → decode_payment_header sv req'.payment ≡ ok payment
      → payment.x402_version ≡ x402_version
      → payment.network ≡ s.cfg.network
      → begin_payment sv at' staged req'
        ≡ ok (record { req_id = req'.request_id; entry = entry; payment = payment })
  unfolding begin_payment stage staged_id request_id
  begin_payment_staged found same decoded version network = ground (
    arith,
    str_beq_iff payment.network s.cfg.network,
    eqb_ℤ_iff payment.x402_version x402_version,
  )

  abbrev pending : Pending
  pending = record { req_id = req'.request_id; entry = entry; payment = payment }

  handle_payment_begun :
      (prices : Prices)
      → begin_payment sv at' staged req' ≡ ok pending
      → settler.settle payment cost req'.request_id ≡ ok st
      → manager_prices sv.rat_of staged.prices model ≡ some prices
      → (handle_payment sv settler at' staged req').0 ≡ delivery sv staged pending st prices
  unfolding handle_payment finish_payment entry_for
  handle_payment_begun prices begun settled shown = ground arith

  staged-prices : staged.prices ≡ s.prices
  unfolding stage
  staged-prices = refl

  stage-status : (stage sv settler at s req body resp used model cost).0.status ≡ pos 402
  unfolding stage
  stage-status = refl

  -- A question that upstream answers and that is priced is answered 402; a payment for the id that
  -- was handed out, made while the answer is fresh, for the right network and protocol version, that
  -- settles at the cost, is answered with upstream's status and bytes.
  pub handle_payment-handle_initial :
      sv.accepts_url (upstream_request sv settler at s req body).url ≡ true
      → sv.upstream (upstream_request sv settler at s req body) ≡ some resp
      → is_success resp.status ≡ true
      → has_no_usage used ≡ false
      → manager_cost sv.rat_of s.prices model used s.cfg.markup ≡ some cost
      → ltb_ℤ s.cache.ttl (at'.now -ℤ at.now) ≡ false
      → req'.request_id ≡ id
      → decode_payment_header sv req'.payment ≡ ok payment
      → payment.x402_version ≡ x402_version
      → payment.network ≡ s.cfg.network
      → settler.settle payment cost id ≡ ok st
      → let (asked, s') = handle_initial sv settler at s req body in
        let (paid, _) = handle_payment sv settler at' s' req' in
        (asked.status ≡ pos 402)
        × (paid.status ≡ resp.status)
        × (paid.body ≡ raw (content_type_of resp) resp.body)
  unfolding delivery entry_for
  handle_payment-handle_initial url answered good tokens price fresh same decoded version network
        settled =
      let first = handle_initial_staged url answered good tokens price in
      let begun = begin_payment_staged (get-stage fresh) same decoded version network in
      let (prices, shown) =
        manager_prices-manager_cost sv.rat_of s.prices model used s.cfg.markup price in
      let paid = handle_payment_begun prices begun (rw same settled) (rw staged-prices shown) in
      rw first
        (stage-status, ap (λ (r : Response). r.status) paid, ap (λ (r : Response). r.body) paid)
