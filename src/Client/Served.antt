-- ===== src/Client/Served.antt =====
-- cmd/testpay/main.go with internal/handler/relay.go: the client's second request is served.
use xpay_server.Base.{
  ◌≡◌, Str, some, codes, is_empty, ok, false, refl, pos, beq_of_eq, ◌∙◌, ltb_ℤ, length, ℤ, ℕ,
  Option, ◌<◌, ◌^◌, ◌+◌, two63, ◌∷◌, [], >>=-eq-ok, arith, str_eq, int_eq,
}
use xpay_server.Handler.Server.{Services, Moment, Server, PaymentSettler, raw, Request}
use xpay_server.Handler.Settling.{Chains, settler_of}
use xpay_server.Client.Pay.{
  ClientPayment, second_request, answer_challenge, first_offer, payment_of_signature, Wallet,
  FirstAnswer, pay, transfer_for,
}
use xpay_server.Types.{PaymentPayload, scheme_exact, x402_version, PaymentRequirements}
use xpay_server.Handler.Payment.{
  decode_payment_header, begin_payment, finish_payment, delivery, handle_payment, Pending,
}
use xpay_server.Cache.{Entry, get}
use xpay_server.Handler.Relay.{handle, read_body}
use xpay_server.Settler.Outcome.{Settlement}
use xpay_server.Pricing.Display.{Prices}
use xpay_server.Pricing.Manager.{manager_prices}
use xpay_server.Client.Eip712.{IsEthereum, HashesStructs}
use xpay_server.Client.Trade.{CanTrade}
use xpay_server.Client.Accepted.{pay-evm_settle}
use xpay_server.Client.Signature.{SignsAs}
use xpay_server.Settler.Evm.{evm_requirements, Call}
use xpay_server.Settler.New.{EvmSettler, evm}
use xpay_server.Settler.Authorization.{Ethereum}
use xpay_server.Client.Sign.{sign_eip712}

-- The JSON and the base64 of a payment are read back, the payload as raw JSON first.
pub record ReadsPayments (sv : Services) (w : Chains) (marshal : ClientPayment → Str) : Type 0 where
  pub wire : ClientPayment → PaymentPayload
  pub base64_read : (x : Str) → sv.base64_decode (sv.base64_encode x) ≡ some x
  pub nonempty : (p : ClientPayment) → is_empty (sv.base64_encode (marshal p)) ≡ false
  pub payment_read : (p : ClientPayment) → sv.unmarshal_payment (marshal p) ≡ some (wire p)
  pub version_kept : (p : ClientPayment) → (wire p).x402_version ≡ p.x402_version
  pub scheme_kept : (p : ClientPayment) → (wire p).scheme ≡ p.scheme
  pub network_kept : (p : ClientPayment) → (wire p).network ≡ p.network
  pub payload_read : (p : ClientPayment) → w.unmarshal_evm (wire p).payload ≡ some p.payload

-- A payment is of the scheme and version that the server knows, on the network of the offer.
pay-kept :
    (eth : Ethereum) (wallet : Wallet) (sign : Str → Option Str) (req : PaymentRequirements)
    (p : ClientPayment)
    → pay eth wallet sign req ≡ ok p
    → (p.scheme ≡ codes "exact") × (p.x402_version ≡ pos 1) × (p.network ≡ req.network)
unfolding pay payment_of_signature
pay-kept eth wallet sign req p e =
    let (t, read, rest) = >>=-eq-ok (transfer_for eth wallet req) _ e in
    let (sig, signed, made) = >>=-eq-ok (sign_eip712 eth sign t) _ rest in
    (ground arith, ground arith, ground arith)

module _ (sv : Services) (w : Chains) (marshal : ClientPayment → Str)
    (codec : ReadsPayments sv w marshal) where
  decode_payment_header_lem :
      (p : ClientPayment)
      → p.scheme ≡ codes "exact"
      → decode_payment_header sv (sv.base64_encode (marshal p)) ≡ ok (codec.wire p)
  unfolding decode_payment_header
  decode_payment_header_lem p exact =
      let scheme_ok = beq_of_eq (codec.wire p).scheme scheme_exact (codec.scheme_kept p ∙ exact) in
      rw (codec.nonempty p, codec.base64_read (marshal p), codec.payment_read p, scheme_ok) refl

  begin_payment_lem :
      (at : Moment) (s : Server) (body id : Str) (p : ClientPayment) (entry : Entry)
      → is_empty id ≡ false
      → get at.now id s.cache ≡ some entry
      → p.scheme ≡ codes "exact"
      → p.x402_version ≡ pos 1
      → p.network ≡ s.cfg.network
      → begin_payment sv at s (second_request marshal sv.base64_encode body id p)
        ≡ ok (record { req_id = id; entry = entry; payment = codec.wire p })
  unfolding begin_payment second_request
  begin_payment_lem at s body id p entry named staged exact version network =
      let version_ok =
        beq_of_eq (codec.wire p).x402_version x402_version (codec.version_kept p ∙ version) in
      let network_ok =
        beq_of_eq (codec.wire p).network s.cfg.network (codec.network_kept p ∙ network) in
      rw (named, staged, decode_payment_header_lem p exact, version_ok, network_ok) refl

  finish_payment_lem :
      (settler : PaymentSettler) (at : Moment) (s : Server) (p : Pending) (st : Settlement)
      (prices : Prices)
      → settler.settle p.payment p.entry.cost p.req_id ≡ ok st
      → manager_prices sv.rat_of s.prices p.entry.model ≡ some prices
      → (finish_payment sv settler at s p).0.body ≡ raw p.entry.content_type p.entry.body
  unfolding finish_payment delivery
  finish_payment_lem settler at s p st prices settled priced =
      rw (finish_payment, settled, priced) refl

  handle_lem :
      (settler : PaymentSettler) (at : Moment) (s : Server) (body id : Str) (p : ClientPayment)
      (q : Pending)
      → ltb_ℤ s.cfg.max_body_bytes (pos (length body)) ≡ false
      → begin_payment sv at s (second_request marshal sv.base64_encode body id p) ≡ ok q
      → (handle sv settler at s (second_request marshal sv.base64_encode body id p)).0.body
        ≡ (finish_payment sv settler at s q).0.body
  unfolding handle read_body handle_payment second_request
  handle_lem settler at s body id p q fits begun =
      rw (handle, fits, codec.nonempty p) (rw (handle_payment, begun) refl)

  module _ (laws : IsEthereum w.eth) (standard : HashesStructs w.eth w.hash_struct) (s : Server)
      (cluster signer : Str) (ready : CanTrade w.eth s.cfg cluster signer)
      (now timeout cost later : ℕ) (unix_nano : ℤ) (resource description id : Str)
      (sign : Str → Option Str)
      (signs : (d : Str) → length d ≡ 32 → SignsAs w.eth sign signer d) where
    -- A client that is answered 402 with the server's offer for a staged response makes a request
    -- that the server answers with that response: the offer is of a positive amount and has not run
    -- out, the node accepts the call, the prices of the model are in the table, and the server is set
    -- up as `CanTrade` has it.
    pub answer_challenge-handle :
        (at : Moment) (k : EvmSettler) (body : Str) (entry : Entry) (prices : Prices)
        → 0 < cost
        → cost < 256 ^ 32
        → now + timeout < two63
        → later < now + timeout
        → w.now ≡ pos later
        → ((call : Call) → (h : Str) × (w.transact call ≡ some h))
        → is_empty id ≡ false
        → ltb_ℤ s.cfg.max_body_bytes (pos (length body)) ≡ false
        → get at.now id s.cache ≡ some entry
        → entry.cost ≡ pos cost
        → manager_prices sv.rat_of s.prices entry.model ≡ some prices
        → let offer = evm_requirements s.cfg resource description id (pos cost) (pos timeout) in
          let wallet : Wallet = record { signer = signer; now = pos now; unix_nano = unix_nano } in
          let first : FirstAnswer = record {
            status = pos 402;
            request_id = id;
            accepts = some (offer ∷ []);
          } in
          (req : Request) × (answer_challenge w.eth sign marshal sv.base64_encode wallet body first
            ≡ ok req)
          × ((handle sv (settler_of w s.cfg (evm k)) at s req).0.body
              ≡ raw entry.content_type entry.body)
    unfolding answer_challenge first_offer settler_of payment_of_signature evm_requirements
    answer_challenge-handle at k body entry prices positive word in_time not_late clock mined named
          fits staged cost_is priced =
        let offer = evm_requirements s.cfg resource description id (pos cost) (pos timeout) in
        let (p, h, paid, settled) =
          pay-evm_settle w.eth laws w.hash_struct standard s.cfg cluster signer ready now timeout
            cost later unix_nano resource description id positive word in_time not_late sign signs
            w.unmarshal_evm w.transact codec.wire codec.payload_read mined in
        let (exact, version, network) = pay-kept w.eth _ sign offer p paid in
        let begun = begin_payment_lem at s body id p entry named staged exact version network in
        let settled_now : (settler_of w s.cfg (evm k)).settle (codec.wire p) entry.cost id
            ≡ ok (record { tx_hash = h; payer = w.eth.address_hex signer }) =
          rw (clock, cost_is) settled in
        (
          second_request marshal sv.base64_encode body id p,
          rw paid refl,
          handle_lem (settler_of w s.cfg (evm k)) at s body id p _ fits begun
              ∙ finish_payment_lem (settler_of w s.cfg (evm k)) at s _ _ prices settled_now priced,
        )
