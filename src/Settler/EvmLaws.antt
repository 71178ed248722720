-- ===== src/Settler/EvmLaws.antt =====
-- internal/settler/settler.go: what an EVM settlement has checked before it submits.
use xpay_server.Base.{
  ◌≡◌, true, Option, none, some, arith, ok, Str, ℤ, ◌≤ℤ◌, ◌<ℤ◌, length, pos, eqb_iff, parse_int,
  equal_fold, str_beq_iff, eqb_ℤ_iff, Result-cases, Option-cases, inr, inl, false, ◌⊎◌, Bool-cases,
  refl,
}
use xpay_server.Types.{TransferAuthorization, AuthorizationPayload, ExactEvmPayload, PaymentPayload}
use xpay_server.Settler.Authorization.{nonce_of, Ethereum, decode_authorization}
use xpay_server.Settler.Signature.{
  TypedData, Fields, verify_eip712, eip712_digest, normalize_signature, split_signature,
}
use xpay_server.Settler.Evm.{Call, Verified, check_payment, evm_settle, submit}
use xpay_server.Config.{Config}
use xpay_server.Settler.Outcome.{Settlement}

-- A decoded authorization is well formed.
pub record IsAuthorization (auth : TransferAuthorization) : Type 0 where
  pub value_pos : pos 0 <ℤ auth.value
  pub after_nonneg : pos 0 ≤ℤ auth.valid_after
  pub window : auth.valid_after <ℤ auth.valid_before
  pub nonce_length : length auth.nonce ≡ 32

nonce_of-length : (o : Option Str) {n : Str} → nonce_of o ≡ some n → length n ≡ 32
nonce_of-length none e = cc
nonce_of-length (some b) e = ground (arith, eqb_iff (length b) 32)

-- The fields of the payload are those of the authorization.
pub record Decodes (eth : Ethereum) (a : AuthorizationPayload) (auth : TransferAuthorization)
    : Type 0 where
  pub from_valid : eth.is_hex_address a.from ≡ true
  pub to_valid : eth.is_hex_address a.to ≡ true
  pub from_is : auth.from ≡ eth.hex_to_address a.from
  pub to_is : auth.to ≡ eth.hex_to_address a.to
  pub value_is : parse_int a.value ≡ some auth.value
  pub after_is : parse_int a.valid_after ≡ some auth.valid_after
  pub before_is : parse_int a.valid_before ≡ some auth.valid_before
  pub nonce_is : eth.hex_decode a.nonce ≡ some auth.nonce

nonce_of-some : (o : Option Str) {n : Str} → nonce_of o ≡ some n → o ≡ some n
nonce_of-some none e = cc
nonce_of-some (some b) e = ground arith

-- What `DecodeAuthorization` accepts it reads field by field, with a positive value, a window
-- that is not empty and does not start before 0, and a nonce of 32 bytes.
pub decode_authorization_sound :
    (eth : Ethereum) (a : AuthorizationPayload) (auth : TransferAuthorization)
    → decode_authorization eth a ≡ ok auth
    → Decodes eth a auth × IsAuthorization auth
unfolding decode_authorization
decode_authorization_sound eth a auth e = (
  record {
    from_valid = ground arith;
    to_valid = ground arith;
    from_is = ground arith;
    to_is = ground arith;
    value_is = ground arith;
    after_is = ground arith;
    before_is = ground arith;
    nonce_is = nonce_of-some (eth.hex_decode a.nonce) (ground arith);
  },
  record {
    value_pos = ground arith;
    after_nonneg = ground arith;
    window = ground arith;
    nonce_length = nonce_of-length (eth.hex_decode a.nonce) (ground arith);
  },
)

module _ (eth : Ethereum) (hash_struct : TypedData → Str → Fields → Option Str)
    (unmarshal : Str → Option ExactEvmPayload) (transact : Call → Option Str) (cfg : Config)
    (now : ℤ) (payment : PaymentPayload) (cost : ℤ) where
  -- What is known of a payment before it is submitted.
  pub record IsVerified (v : Verified) : Type 0 where
    pub payload : ExactEvmPayload
    pub payload_is : unmarshal payment.payload ≡ some payload
    pub decodes : Decodes eth payload.authorization v.auth
    pub well_formed : IsAuthorization v.auth
    pub pays_cost : v.auth.value ≡ cost
    pub pays_seller : equal_fold (eth.address_hex v.auth.to) cfg.pay_to_address ≡ true
    pub started : v.auth.valid_after ≤ℤ now
    pub not_over : now <ℤ v.auth.valid_before
    pub signature_is : eth.hex_decode payload.signature ≡ some v.signature
    pub signature_length : length v.signature ≡ 65
    pub signer_is : v.signer ≡ v.auth.from
    pub digest : Str
    pub digest_is : eip712_digest eth hash_struct v.auth cfg ≡ ok digest
    pub recovers :
        eth.sig_to_address digest (normalize_signature eth hash_struct v.signature)
        ≡ some v.auth.from

  verify_eip712_sound :
      (auth : TransferAuthorization) (sig : Str) {signer : Str}
      → verify_eip712 eth hash_struct auth sig cfg ≡ ok signer
      → (digest : Str) × (length sig ≡ 65)
        × (signer ≡ auth.from)
        × (eip712_digest eth hash_struct auth cfg ≡ ok digest)
        × (eth.sig_to_address digest (normalize_signature eth hash_struct sig) ≡ some auth.from)
  unfolding verify_eip712
  verify_eip712_sound auth sig e = elim (Result-cases (eip712_digest eth hash_struct auth cfg)) [
    | inr (bad, failed) ↦ absurd (ground arith)
    | inl (digest, digest_is) ↦
        elim (Option-cases (eth.sig_to_address digest (normalize_signature eth hash_struct sig))) [
          | inl failed ↦ absurd (ground arith)
          | inr (recovered, recovers) ↦
              let same = str_beq_iff recovered auth.from in
              (
                digest,
                ground (arith, eqb_iff (length sig) 65),
                ground (arith, same),
                digest_is,
                ground (arith, same),
              )
        ]
  ]

  -- What passes the checks is a payment of exactly the cost to the seller, inside its window,
  -- signed by the address that it pays from.
  pub check_payment_sound :
      (v : Verified)
      → check_payment eth hash_struct unmarshal transact cfg now payment cost ≡ ok v
      → IsVerified v
  unfolding check_payment
  check_payment_sound v e = elim (Option-cases (unmarshal payment.payload)) [
    | inl failed ↦ absurd (ground arith)
    | inr (payload, payload_is) ↦
        elim (Result-cases (decode_authorization eth payload.authorization)) [
          | inr (bad, failed) ↦ absurd (ground arith)
          | inl (auth, auth_is) ↦ elim (Option-cases (eth.hex_decode payload.signature)) [
            | inl failed ↦ absurd (ground arith)
            | inr (sig, sig_is) ↦ elim (Result-cases (verify_eip712 eth hash_struct auth sig cfg)) [
              | inr (bad, failed) ↦ absurd (ground arith)
              | inl (signer, verified) ↦
                  let (decodes, well_formed) =
                    decode_authorization_sound eth payload.authorization auth auth_is in
                  let (digest, size, signed, digest_is, recovers) =
                    verify_eip712_sound auth sig verified in
                  let done : v ≡ record { auth = auth; signature = sig; signer = signer } =
                    ground arith in
                  rw done (record {
                    payload = payload;
                    payload_is = payload_is;
                    decodes = decodes;
                    well_formed = well_formed;
                    pays_cost = ground (arith, eqb_ℤ_iff auth.value cost);
                    pays_seller = ground arith;
                    started = ground arith;
                    not_over = ground arith;
                    signature_is = sig_is;
                    signature_length = size;
                    signer_is = signed;
                    digest = digest;
                    digest_is = digest_is;
                    recovers = recovers;
                  })
            ]
          ]
        ]
  ]

  -- A transaction is submitted only for a verified payment, and carries its authorization.
  pub evm_settle-sends_verified :
      (call : Call)
      → (evm_settle eth hash_struct unmarshal transact cfg now payment cost).sent ≡ some call
      → (v : Verified) × IsVerified v
        × (call.auth ≡ v.auth)
        × (cfg.dry_run ≡ false)
        × (split_signature eth v.signature ≡ ok call.signature)
  unfolding evm_settle submit
  evm_settle-sends_verified call e =
      elim (Result-cases (check_payment eth hash_struct unmarshal transact cfg now payment cost)) [
        | inr (bad, failed) ↦ absurd (ground arith)
        | inl (v, checked) ↦ elim (Result-cases (split_signature eth v.signature)) [
          | inr (bad, failed) ↦ absurd (ground arith)
          | inl (parts, split) ↦
              (v, check_payment_sound v checked, ground arith, ground arith, ground arith)
        ]
      ]

  -- A settlement that succeeds is one of a verified payment, whose payer is its signer; unless the
  -- server runs dry, the transaction it names is the node's answer to the submitted call.
  pub evm_settle_sound :
      (s : Settlement)
      → (evm_settle eth hash_struct unmarshal transact cfg now payment cost).result ≡ ok s
      → (v : Verified) × IsVerified v
        × (s.payer ≡ eth.address_hex v.auth.from)
        × ((cfg.dry_run ≡ true)
            ⊎ ((call : Call) × (call.auth ≡ v.auth) × (transact call ≡ some s.tx_hash)))
  unfolding evm_settle submit
  evm_settle_sound s e =
      elim (Result-cases (check_payment eth hash_struct unmarshal transact cfg now payment cost)) [
        | inr (bad, failed) ↦ absurd (ground arith)
        | inl (v, checked) ↦ elim (Result-cases (split_signature eth v.signature)) [
          | inr (bad, failed) ↦ absurd (ground arith)
          | inl (parts, split) ↦
              let sound = check_payment_sound v checked in
              let signed = sound.signer_is in
              elim (Bool-cases cfg.dry_run) [
                | inl dry ↦ (v, sound, ground arith, inl dry)
                | inr live ↦ (
                  v,
                  sound,
                  ground arith,
                  inr (record { auth = v.auth; signature = parts }, refl, ground arith),
                )
              ]
        ]
      ]
