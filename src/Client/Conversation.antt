-- ===== src/Client/Conversation.antt =====
-- cmd/testpay/main.go with internal/handler/relay.go: a whole conversation of client and server.
use xpay_server.Base.{
  ◌≡◌, lookup, str_beq, Str, is_empty, false, ltb_ℤ, pos, length, Option, ℤ, some, refl, ◌∷◌, ℕ, [],
  true, ◌-ℤ◌, ◌<◌, ◌^◌, ◌+◌, two63, ok, ◌∙◌,
}
use xpay_server.Handler.Initial.{
  staged_id, stage, handle_initial, describe, usage_of, model_of, upstream_request, is_success,
  has_no_usage, content_type_of, entry_for,
}
use xpay_server.Cache.{request_id}
use xpay_server.Client.Pay.{read_answer, first_request, ClientPayment, converse, Wallet}
use xpay_server.Handler.Relay.{handle, read_body}
use xpay_server.Handler.Server.{
  Services, PaymentSettler, Moment, Server, Request, UpstreamResponse, Response, raw,
}
use xpay_server.Handler.Settling.{Chains, settler_of}
use xpay_server.Client.Served.{ReadsPayments, answer_challenge-handle}
use xpay_server.Client.Eip712.{IsEthereum, HashesStructs}
use xpay_server.Pricing.Cost.{Usage}
use xpay_server.Client.Signature.{SignsAs}
use xpay_server.Settler.New.{EvmSettler, evm}
use xpay_server.Client.Trade.{CanTrade}
use xpay_server.Pricing.Manager.{manager_cost}
use xpay_server.Settler.Evm.{Call}
use xpay_server.Types.{PaymentPayload}
use xpay_server.Settler.Outcome.{Settlement}
use xpay_server.Handler.RoundTrip.{handle_initial_staged, get-stage, manager_prices-manager_cost}

staged_id-nonempty :
    (sv : Services) (settler : PaymentSettler) (at : Moment) (body : Str)
    → is_empty (staged_id sv settler at body) ≡ false
unfolding staged_id request_id
staged_id-nonempty sv settler at body = refl

-- What the client reads of the answer that stages a response.
read_answer-stage :
    (sv : Services) (settler : PaymentSettler) (at : Moment) (s : Server) (req : Request)
    (body : Str) (resp : UpstreamResponse) (u : Usage) (model : Str) (cost timeout : ℤ)
    → s.cfg.sig_timeout_secs ≡ timeout
    → read_answer (stage sv settler at s req body resp u model cost).0 ≡ record {
      status = pos 402;
      request_id = staged_id sv settler at body;
      accepts = some (
          settler.build_requirements req.path
            (describe model u)
            (staged_id sv settler at body)
            cost
            timeout
          ∷ []);
    }
unfolding read_answer stage lookup str_beq
read_answer-stage sv settler at s req body resp u model cost timeout limit = rw (← limit) refl

-- The first request carries no payment.
handle-first_request :
    (sv : Services) (settler : PaymentSettler) (at : Moment) (s : Server) (body : Str)
    → ltb_ℤ s.cfg.max_body_bytes (pos (length body)) ≡ false
    → handle sv settler at s (first_request body)
      ≡ handle_initial sv settler at s (first_request body) body
unfolding handle read_body first_request
handle-first_request sv settler at s body fits = rw (handle, fits) refl

module _ (sv : Services) (w : Chains) (marshal : ClientPayment → Str)
    (codec : ReadsPayments sv w marshal) (laws : IsEthereum w.eth)
    (standard : HashesStructs w.eth w.hash_struct) (cluster signer : Str) (sign : Str → Option Str)
    (signs : (d : Str) → length d ≡ 32 → SignsAs w.eth sign signer d) (k : EvmSettler)
    (at at' : Moment) (s : Server) (ready : CanTrade w.eth s.cfg cluster signer)
    (now timeout cost later : ℕ) (unix_nano : ℤ) (body : Str) (resp : UpstreamResponse) where
  abbrev relay_settler : PaymentSettler
  relay_settler = settler_of w s.cfg (evm k)

  abbrev asked : Request
  asked = first_request body

  abbrev used : Usage
  used = usage_of (sv.decode_envelope resp.body)

  abbrev model : Str
  model = model_of sv relay_settler at body (sv.decode_envelope resp.body).model

  abbrev served : Moment → Server → Request → Response × Server
  served moment t req = handle sv relay_settler moment t req

  -- The client of `converse` ends with upstream's answer: where upstream answers the question with
  -- success and token counts, the price is positive and the question not too long, the answer is
  -- still fresh and the offer has not run out when the payment comes, the node accepts the call,
  -- the server is set up as `CanTrade` has it, and the libraries behave as `IsEthereum`,
  -- `HashesStructs`, `SignsAs` and `ReadsPayments` have it.
  pub converse_lem :
      sv.accepts_url (upstream_request sv relay_settler at s asked body).url ≡ true
      → sv.upstream (upstream_request sv relay_settler at s asked body) ≡ some resp
      → is_success resp.status ≡ true
      → has_no_usage used ≡ false
      → manager_cost sv.rat_of s.prices model used s.cfg.markup ≡ some (pos cost)
      → s.cfg.sig_timeout_secs ≡ pos timeout
      → ltb_ℤ s.cfg.max_body_bytes (pos (length body)) ≡ false
      → ltb_ℤ s.cache.ttl (at'.now -ℤ at.now) ≡ false
      → 0 < cost
      → cost < 256 ^ 32
      → now + timeout < two63
      → later < now + timeout
      → w.now ≡ pos later
      → ((call : Call) → (h : Str) × (w.transact call ≡ some h))
      → let wallet : Wallet = record { signer = signer; now = pos now; unix_nano = unix_nano } in
        (last : Response × Server) × (converse w.eth sign marshal sv.base64_encode wallet
            (served at)
            (served at')
            body
            s
          ≡ ok last)
        × (last.0.body ≡ raw (content_type_of resp) resp.body)
  unfolding converse stage settler_of entry_for first_request
  converse_lem url answered good tokens price limit fits fresh positive word in_time not_late clock
        mined =
      let id = staged_id sv relay_settler at body in
      let unpaid : PaymentPayload = record {
        x402_version = pos 1;
        scheme = [];
        network = [];
        payload = [];
      } in
      let nobody : Settlement = record { tx_hash = []; payer = [] } in
      let after : Server = (stage sv relay_settler at s asked body resp used model (pos cost)).1 in
      let first =
        handle-first_request sv relay_settler at s body fits
        ∙ handle_initial_staged sv relay_settler at at' s asked asked body resp (pos cost) unpaid
            nobody url answered good tokens price in
      let staged =
        get-stage sv relay_settler at at' s asked asked body resp (pos cost) unpaid nobody fresh in
      let (prices, shown) =
        manager_prices-manager_cost sv.rat_of s.prices model used s.cfg.markup price in
      let (req, paid, delivered) =
        answer_challenge-handle sv w marshal codec laws standard after cluster signer ready now
          timeout cost later unix_nano asked.path (describe model used) id sign signs at' k body
          (record (entry_for sv relay_settler at resp (pos cost) used model) {
            created_at = at.now;
          })
          prices positive word in_time not_late clock mined
          (staged_id-nonempty sv relay_settler at body) fits staged refl shown in
      (
        served at' after req,
        rw
            (
              first,
              read_answer-stage sv relay_settler at s asked body resp used model (pos cost)
                  (pos timeout) limit,
            )
            (rw paid refl),
        delivered,
      )
