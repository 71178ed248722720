-- ===== src/Settler/Evm.antt =====
-- internal/settler/settler.go: `EVMSettler`.
use xpay_server.Base.{
  not, Option, none, some, [], ◌∷◌, ◌++◌, if◌then◌else◌, ◌==◌, int_eq, take, Str, codes, equal_fold,
  ℤ, leb_ℤ, ltb_ℤ, int_string, Result, ok, err, ◌>>=◌, ◌>>◌, fail_if, or_fail,
}
use xpay_server.Types.{
  PaymentPayload, ExactEvmPayload, TransferAuthorization, PaymentRequirements, scheme_exact,
}
use xpay_server.Config.{Config}
use xpay_server.Cache.{hex}
use xpay_server.Settler.Outcome.{
  SettleError, Settled, bad_payload, amount_mismatch, pay_to_mismatch, not_yet_valid, expired,
  bad_signature_encoding, submit_failed,
}
use xpay_server.Settler.Authorization.{Ethereum, decode_authorization}
use xpay_server.Settler.Signature.{TypedData, Fields, Parts, verify_eip712, split_signature}

-- The arguments of the contract's `transferWithAuthorization`.
pub record Call : Type 0 where
  pub auth : TransferAuthorization
  pub signature : Parts

unfoldable pub evm_requirements : Config → Str → Str → Str → ℤ → ℤ → PaymentRequirements
evm_requirements cfg resource description req_id cost timeout = record {
  scheme = scheme_exact;
  network = cfg.network;
  max_amount_required = int_string cost;
  resource = resource;
  description = description;
  pay_to = cfg.pay_to_address;
  max_timeout_seconds = timeout;
  asset = cfg.usdc_address;
  extra =
      (codes "requestId", req_id)
      ∷ (codes "name", cfg.usdc_name)
      ∷ (codes "version", cfg.usdc_version)
      ∷ [];
}

-- A payment that has passed every check but those of `submit`.
pub record Verified : Type 0 where
  pub auth : TransferAuthorization
  pub signature : Str
  pub signer : Str

-- `unmarshal` is `json.Unmarshal` into an `ExactEvmPayload`; `transact` is the node's answer to a
-- transaction, its hash or none.
module _ (eth : Ethereum) (hash_struct : TypedData → Str → Fields → Option Str)
    (unmarshal : Str → Option ExactEvmPayload) (transact : Call → Option Str) where
  -- `Settle` up to the submission, at Unix time `now`
  unfoldable pub check_payment : Config → ℤ → PaymentPayload → ℤ → Result SettleError Verified
  check_payment cfg now payment cost = do
    payload ← or_fail (unmarshal payment.payload) bad_payload
    auth ← decode_authorization eth payload.authorization
    fail_if (not (auth.value == cost)) amount_mismatch
    fail_if (not (equal_fold (eth.address_hex auth.to) cfg.pay_to_address)) pay_to_mismatch
    fail_if (ltb_ℤ now auth.valid_after) not_yet_valid
    fail_if (leb_ℤ auth.valid_before now) expired
    sig ← or_fail (eth.hex_decode payload.signature) bad_signature_encoding
    signer ← verify_eip712 eth hash_struct auth sig cfg
    ok (record { auth = auth; signature = sig; signer = signer })

  -- The hash, and the call that was made, if any.
  unfoldable pub submit :
      Config → TransferAuthorization → Str → Result SettleError Str × Option Call
  submit cfg auth signature = elim (split_signature eth signature) [
    | err e ↦ (err e, none)
    | ok parts ↦
        if cfg.dry_run
        then (ok (codes "0xDRYRUN" ++ hex (take 30 auth.nonce)), none)
        else (let call : Call = record { auth = auth; signature = parts } in
            (or_fail (transact call) submit_failed, some call))
  ]

  unfoldable pub evm_settle : Config → ℤ → PaymentPayload → ℤ → Settled Call
  evm_settle cfg now payment cost = elim (check_payment cfg now payment cost) [
    | err e ↦ record { result = err e; sent = none }
    | ok v ↦
        let (hash, call) = submit cfg v.auth v.signature in
        record {
          result = hash >>= λ tx_hash.
              ok (record { tx_hash = tx_hash; payer = eth.address_hex v.signer });
          sent = call;
        }
  ]
