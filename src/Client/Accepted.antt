-- ===== src/Client/Accepted.antt =====
-- cmd/testpay/main.go and internal/settler/settler.go: the server accepts what the client pays.
use xpay_server.Base.{
  ◌≡◌, Str, codes, Option, ℕ, ℤ, ◌<◌, false, pos, ◌^◌, ◌+◌, length, two63, ◌++◌, refl, +ℤ-pos,
  int_string, to_int64-small, lookup, str_beq, ok, ap, ◌∙◌, parse_int-int_string, arith, ◌%◌, ◌∷◌,
  [], parse_int, some, leb_ℤ, beq_refl, decimal, All-append, digits, ltb_ℤ, Bool-cases, inl, take,
  inr, drop,
}
use xpay_server.Settler.Authorization.{Ethereum, decode_authorization}
use xpay_server.Config.{Config}
use xpay_server.Client.Eip712.{IsEthereum, HashesStructs, IsBytes}
use xpay_server.Settler.Signature.{TypedData, Fields, verify_eip712}
use xpay_server.Client.Pay.{
  Wallet, fresh_nonce, valid_before, transfer_for, extra_or, pay, payment_of_signature,
  ClientPayment,
}
use xpay_server.Types.{PaymentRequirements, TransferAuthorization, ExactEvmPayload, PaymentPayload}
use xpay_server.Settler.Evm.{evm_requirements, Verified, check_payment, Call, submit, evm_settle}
use xpay_server.Client.Digest.{
  IsSignable, transfer_of, digest, client_digest_lem, eip712_digest_lem,
}
use xpay_server.Client.AbiLaws.{copy_at-word}
use xpay_server.Client.Network.{network_to_chain_id, network_to_chain_id-payment_network}
use xpay_server.Client.Signature.{
  SignsAs, legacy_signature_lem, length-signature, normalize_signature_lem, split_signature_lem,
}
use xpay_server.Client.Sign.{sign_eip712}
use xpay_server.Cache.{hex}
use xpay_server.Client.Trade.{CanTrade, hex_decode-hex}

module _ (eth : Ethereum) (laws : IsEthereum eth)
    (hash_struct : TypedData → Str → Fields → Option Str) (standard : HashesStructs eth hash_struct)
    (cfg : Config) (cluster signer : Str) (ready : CanTrade eth cfg cluster signer)
    (now timeout cost later : ℕ) (unix_nano : ℤ) (resource description id : Str) where
  abbrev pub wallet : Wallet
  wallet = record { signer = signer; now = pos now; unix_nano = unix_nano }

  abbrev pub offer : PaymentRequirements
  offer = evm_requirements cfg resource description id (pos cost) (pos timeout)

  -- The authorization that the client makes for the offer.
  abbrev pub auth : TransferAuthorization
  auth = record {
    from = signer;
    to = eth.hex_to_address cfg.pay_to_address;
    value = pos cost;
    valid_after = pos 0;
    valid_before = pos (now + timeout);
    nonce = fresh_nonce eth wallet;
  }

  module _ (positive : 0 < cost) (word : cost < 256 ^ 32) (in_time : now + timeout < two63)
      (not_late : later < now + timeout) where
    fresh_nonce_lem : (length (fresh_nonce eth wallet) ≡ 32) × IsBytes (fresh_nonce eth wallet)
    unfolding fresh_nonce
    fresh_nonce_lem =
        let seed = codes "test-nonce-" ++ int_string unix_nano in
        rw (copy_at-word (eth.keccak256 seed) (laws.hash_size seed))
          (laws.hash_size seed, laws.hash_bytes seed)

    pub auth-IsSignable : IsSignable auth
    auth-IsSignable = record {
      from_size = ready.signer_size;
      to_size = laws.address_size cfg.pay_to_address;
      value_word = word;
      after_zero = refl;
      before_word = omega arith;
      nonce_size = fresh_nonce_lem.0;
      nonce_bytes = fresh_nonce_lem.1;
    }

    valid_before_lem : valid_before eth wallet offer ≡ pos (now + timeout)
    unfolding valid_before evm_requirements
    valid_before_lem = rw (+ℤ-pos now timeout) (to_int64-small (now + timeout) in_time)

    -- The client signs the authorization, with the server's domain.
    transfer_for_lem : transfer_for eth wallet offer ≡ ok (transfer_of eth cfg auth)
    unfolding transfer_for evm_requirements extra_or lookup str_beq valid_before
    transfer_for_lem =
        let chain : network_to_chain_id cfg.network ≡ cfg.chain_id =
          ap network_to_chain_id ready.network_is
          ∙ network_to_chain_id-payment_network cfg.chain_id cluster ready.chain_int64 in
        rw (parse_int-int_string (pos cost))
          (rw (chain, ready.named, ready.versioned, valid_before_lem) refl)

    module _ (sign : Str → Option Str)
        (signs : (d : Str) → length d ≡ 32 → SignsAs eth sign signer d) where
      pub signed :
          SignsAs eth sign signer
            (digest eth laws hash_struct cfg auth ready.chain_word auth-IsSignable)
      signed = signs _ (laws.hash_size _)

      -- The signature as it is sent.
      abbrev pub sent : Str
      sent = signed.body ++ ((signed.v + 27) % 256) ∷ []

      pub pay_lem : pay eth wallet sign offer ≡ ok (payment_of_signature eth wallet offer sent)
      unfolding pay sign_eip712
      pay_lem =
          rw
            (
              transfer_for_lem,
              client_digest_lem eth laws hash_struct cfg auth ready.chain_word auth-IsSignable,
              signed.signed,
              legacy_signature_lem signed.body signed.v signed.body_size eth,
            )
            refl

      decode_authorization_lem :
          decode_authorization eth
            (payment_of_signature eth wallet offer sent).payload.authorization
          ≡ ok auth
      unfolding payment_of_signature decode_authorization evm_requirements int_string decimal digits
      decode_authorization_lem =
          let zero_read : parse_int (codes "0") ≡ some (pos 0) = parse_int-int_string (pos 0) in
          let nonce_read = hex_decode-hex eth laws (fresh_nonce eth wallet) fresh_nonce_lem.1 in
          let paid : leb_ℤ (pos cost) (pos 0) ≡ false = ground arith in
          let opened : leb_ℤ (pos (now + timeout)) (pos 0) ≡ false = ground arith in
          rw
            (
              laws.address_text signer ready.signer_size,
              ready.seller_ok,
              parse_int-int_string (pos cost),
              paid,
              zero_read,
              valid_before_lem,
              parse_int-int_string (pos (now + timeout)),
              opened,
              nonce_read,
            )
            (rw (fresh_nonce_lem.0, laws.address_read signer ready.signer_size) refl)

      verify_eip712_lem : verify_eip712 eth hash_struct auth sent cfg ≡ ok signer
      unfolding verify_eip712
      verify_eip712_lem =
          rw
            (
              length-signature signed.body ((signed.v + 27) % 256) signed.body_size,
              eip712_digest_lem eth laws hash_struct cfg auth ready.chain_word auth-IsSignable
                  standard,
              normalize_signature_lem eth hash_struct signed.body signed.v signed.body_size
                  signed.v_small,
              signed.recovered,
              beq_refl signer,
            )
            refl

      -- What the server makes of the payment.
      abbrev pub checked : Verified
      checked = record { auth = auth; signature = sent; signer = signer }

      check_payment_lem :
          (unmarshal : Str → Option ExactEvmPayload) (transact : Call → Option Str)
          (payment : PaymentPayload)
          → unmarshal payment.payload ≡ some (payment_of_signature eth wallet offer sent).payload
          → check_payment eth hash_struct unmarshal transact cfg (pos later) payment (pos cost)
            ≡ ok checked
      unfolding check_payment payment_of_signature
      check_payment_lem unmarshal transact payment parsed =
          let sent_bytes =
            All-append (λ b. b < 256) signed.body ((signed.v + 27) % 256 ∷ []) signed.body_bytes
              (omega arith, tt) in
          let begun : ltb_ℤ (pos later) (pos 0) ≡ false = ground arith in
          let unexpired : leb_ℤ (pos (now + timeout)) (pos later) ≡ false = ground arith in
          rw
            (
              parsed,
              decode_authorization_lem,
              beq_refl (pos cost),
              ready.seller_text,
              begun,
              unexpired,
              hex_decode-hex eth laws sent sent_bytes,
              verify_eip712_lem,
            )
            refl

      submit_lem :
          (unmarshal : Str → Option ExactEvmPayload) (transact : Call → Option Str)
          → ((call : Call) → (h : Str) × (transact call ≡ some h))
          → (h : Str) × ((submit eth hash_struct unmarshal transact cfg auth sent).0 ≡ ok h)
      unfolding submit
      submit_lem unmarshal transact mined =
          let split =
            split_signature_lem eth signed.body signed.v signed.body_size signed.v_small
              signed.in_range in
          elim (Bool-cases cfg.dry_run) [
            | inl dry ↦ (codes "0xDRYRUN" ++ hex (take 30 auth.nonce), rw (submit, split, dry) refl)
            | inr wet ↦
                let made : Call = record {
                  auth = auth;
                  signature = record {
                    r = take 32 signed.body;
                    s = take 32 (drop 32 signed.body);
                    v = signed.v + 27;
                  };
                } in
                let (h, answered) = mined made in (h, rw (submit, split, wet, answered) refl)
          ]

      -- The client's payment for an offer settles, with the client as its payer: the offer is of a
      -- positive amount and reaches the settler before it has run out, the key signs, and the JSON of
      -- a payment is read back.
      pub pay-evm_settle :
          (unmarshal : Str → Option ExactEvmPayload) (transact : Call → Option Str)
          (wire : ClientPayment → PaymentPayload)
          → ((p : ClientPayment) → unmarshal (wire p).payload ≡ some p.payload)
          → ((call : Call) → (h : Str) × (transact call ≡ some h))
          → (p : ClientPayment) × (h : Str) × (pay eth wallet sign offer ≡ ok p)
            × ((evm_settle eth hash_struct unmarshal transact cfg
                  (pos later)
                  (wire p)
                  (pos cost)).result
                ≡ ok (record { tx_hash = h; payer = eth.address_hex signer }))
      unfolding evm_settle
      pay-evm_settle unmarshal transact wire reads mined =
          let p = payment_of_signature eth wallet offer sent in
          let (h, submitted) = submit_lem unmarshal transact mined in
          (
            p,
            h,
            pay_lem,
            rw (evm_settle, check_payment_lem unmarshal transact (wire p) (reads p), submitted)
                refl,
          )
