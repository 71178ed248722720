-- ===== src/Handler/Payment.antt =====
-- internal/handler/relay.go: `handlePayment`, the request that pays for a staged response.
use xpay_server.Base.{
  ℕ, true, not, Option, none, some, [], ◌∷◌, if◌then◌else◌, ◌==◌, str_eq, int_eq, is_empty, Str,
  codes, ℤ, pos, ◌-ℤ◌, is_neg, to_int64, int_string, Result, ok, err, ◌>>=◌, ◌>>◌, fail_if, or_fail,
}
use xpay_server.Types.{PaymentPayload, x402_version, scheme_exact}
use xpay_server.Cache.{Entry, get, delete}
use xpay_server.Pricing.Display.{Prices, usdc_units_to_usd}
use xpay_server.Pricing.Manager.{manager_prices}
use xpay_server.Store.Db.{Payment}
use xpay_server.Store.Payments.{record_payment}
use xpay_server.Settler.Outcome.{Settlement}
use xpay_server.Handler.Server.{
  Server, PaymentSettler, Request, Response, RelayError, Services, Moment, raw, missing_request_id,
  not_staged, empty_header, bad_payment_json, unsupported_scheme, unsupported_version,
  network_mismatch, settlement_failed, panicked,
}
use xpay_server.Handler.Initial.{fail}

-- An error and the status that it is answered with.
pub record Refusal : Type 0 where
  pub status : ℤ
  pub error : RelayError

abbrev pub refusal : ℕ → RelayError → Refusal
refusal status e = record { status = pos status; error = e }

abbrev pub raw_or_decoded : Option Str → Str → Str
raw_or_decoded none header = header
raw_or_decoded (some decoded) header = decoded

-- What a payment request has found before it settles.
pub record Pending : Type 0 where
  pub req_id : Str
  pub entry : Entry
  pub payment : PaymentPayload

module _ (sv : Services) where
  unfoldable pub decode_payment_header : Str → Result RelayError PaymentPayload
  decode_payment_header header = do
    fail_if (is_empty header) empty_header
    p ←
        or_fail (sv.unmarshal_payment (raw_or_decoded (sv.base64_decode header) header))
          bad_payment_json
    fail_if (not (p.scheme == scheme_exact)) unsupported_scheme
    ok p

  abbrev pub bad_request : {A : Type 0} → Result RelayError A → Result Refusal A
  bad_request (ok a) = ok a
  bad_request (err e) = err (refusal 400 e)

  -- The checks before the settlement, which only read.
  unfoldable pub begin_payment : Moment → Server → Request → Result Refusal Pending
  begin_payment at s req = do
    fail_if (is_empty req.request_id) (refusal 400 missing_request_id)
    entry ← or_fail (get at.now req.request_id s.cache) (refusal 410 not_staged)
    payment ← bad_request (decode_payment_header req.payment)
    fail_if (not (payment.x402_version == x402_version)) (refusal 400 unsupported_version)
    fail_if (not (payment.network == s.cfg.network)) (refusal 400 network_mismatch)
    ok (record { req_id = req.request_id; entry = entry; payment = payment })

  -- The row that is recorded; the database sets its id and time.
  unfoldable pub payment_row : Server → Pending → Settlement → Payment
  payment_row s p settlement = record {
    id = 0;
    from_address = settlement.payer;
    to_address = s.cfg.pay_to_address;
    amount = to_int64 p.entry.cost;
    tx_hash = settlement.tx_hash;
    model = p.entry.model;
    prompt_tokens = p.entry.usage.prompt_tokens;
    completion_tokens = p.entry.usage.completion_tokens;
    request_id = p.req_id;
    network = s.cfg.network;
    created_at = pos 0;
  }

  -- The uncached input as it is displayed; the difference is of machine integers.
  unfoldable pub uncached_input : Entry → ℤ
  uncached_input e =
      let d = to_int64 (e.usage.prompt_tokens -ℤ e.usage.cached_tokens) in
      if is_neg d then pos 0 else d

  unfoldable pub delivery : Server → Pending → Settlement → Prices → Response
  delivery s p settlement prices = record {
    status = p.entry.status;
    headers =
        (
          codes "X-PAYMENT-RESPONSE",
          sv.base64_encode (
              sv.marshal_settlement (record {
                success = true;
                transaction = settlement.tx_hash;
                network = s.cfg.network;
                payer = settlement.payer;
              })),
        )
        ∷ (codes "X-Cost", usdc_units_to_usd (some p.entry.cost))
        ∷ (codes "X-Tx", settlement.tx_hash)
        ∷ (codes "X-Usage-Input", int_string (uncached_input p.entry))
        ∷ (codes "X-Usage-Cached", int_string p.entry.usage.cached_tokens)
        ∷ (codes "X-Usage-Output", int_string p.entry.usage.completion_tokens)
        ∷ (codes "X-Price-Input", prices.input_per_m)
        ∷ (codes "X-Price-Cached", prices.cached_input_per_m)
        ∷ (codes "X-Price-Output", prices.output_per_m)
        ∷ [];
    body = raw p.entry.content_type p.entry.body;
  }

  -- After a settlement: the record, whose failure is only logged, and the end of the staging.
  unfoldable pub settle_books : Moment → Server → Pending → Settlement → Server
  settle_books at s p settlement = record s {
    db = (record_payment at.db_fault at.db_now (payment_row s p settlement) s.db).1;
    cache = delete p.req_id s.cache;
  }

  -- From the settlement on.
  unfoldable pub finish_payment : PaymentSettler → Moment → Server → Pending → Response × Server
  finish_payment settler at s p = elim (settler.settle p.payment p.entry.cost p.req_id) [
    | err e ↦ (fail (pos 502) (settlement_failed e), s)
    | ok settlement ↦ elim (manager_prices sv.rat_of s.prices p.entry.model) [
      | none ↦ (fail (pos 500) panicked, settle_books at s p settlement)
      | some prices ↦ (delivery s p settlement prices, settle_books at s p settlement)
    ]
  ]

  unfoldable pub handle_payment : PaymentSettler → Moment → Server → Request → Response × Server
  handle_payment settler at s req = elim (begin_payment at s req) [
    | err r ↦ (fail r.status r.error, s)
    | ok p ↦ finish_payment settler at s p
  ]
