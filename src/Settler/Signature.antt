-- ===== src/Settler/Signature.antt =====
-- internal/settler/settler.go: the EIP-712 digest, and the signature over it.
use xpay_server.Base.{
  ℕ, ◌+◌, ◌-◌, not, Option, List, [], ◌∷◌, ◌++◌, if◌then◌else◌, ◌==◌, str_eq, nat_eq, ltb, leb,
  length, take, drop, Str, codes, ℤ, Result, ok, ◌>>=◌, ◌>>◌, fail_if, or_fail,
}
use xpay_server.Types.{TransferAuthorization}
use xpay_server.Config.{Config}
use xpay_server.Settler.Outcome.{
  SettleError, bad_signature_length, bad_typed_data, unrecoverable, wrong_signer, bad_recovery_id,
  bad_signature_values,
}
use xpay_server.Settler.Authorization.{Ethereum}
use Prim.Native.String.{String}

-- A value of a typed-data message.
pub data FieldValue : Type 0 where
  text : Str → FieldValue
  number : ℤ → FieldValue

abbrev pub Fields : Type 0
Fields = List (Str × FieldValue)

-- `apitypes.TypedData`: the types by name, each a list of field names and types.
pub record TypedData : Type 0 where
  pub types : List (Str × List (Str × Str))
  pub primary_type : Str
  pub domain : Fields
  pub message : Fields

abbrev pub field : String → String → Str × Str
field name kind = (codes name, codes kind)

abbrev pub typed_data_types : List (Str × List (Str × Str))
typed_data_types =
    (
      codes "EIP712Domain",
      field "name" "string"
          ∷ field "version" "string"
          ∷ field "chainId" "uint256"
          ∷ field "verifyingContract" "address"
          ∷ [],
    )
    ∷ (
      codes "TransferWithAuthorization",
      field "from" "address"
          ∷ field "to" "address"
          ∷ field "value" "uint256"
          ∷ field "validAfter" "uint256"
          ∷ field "validBefore" "uint256"
          ∷ field "nonce" "bytes32"
          ∷ [],
    )
    ∷ []

-- `sig[64]`; every caller has tested the length.
abbrev pub last_byte : Str → ℕ
last_byte sig = elim (drop 64 sig) [ [] ↦ 0 | v ∷ _ ↦ v ]

-- `hash_struct` is `TypedData.HashStruct`.
module _ (eth : Ethereum) (hash_struct : TypedData → Str → Fields → Option Str) where
  unfoldable pub typed_data : TransferAuthorization → Config → TypedData
  typed_data auth c = record {
    types = typed_data_types;
    primary_type = codes "TransferWithAuthorization";
    domain =
        (codes "name", text c.usdc_name)
        ∷ (codes "version", text c.usdc_version)
        ∷ (codes "chainId", number c.chain_id)
        ∷ (codes "verifyingContract", text (eth.address_hex (eth.hex_to_address c.usdc_address)))
        ∷ [];
    message =
        (codes "from", text (eth.address_hex auth.from))
        ∷ (codes "to", text (eth.address_hex auth.to))
        ∷ (codes "value", number auth.value)
        ∷ (codes "validAfter", number auth.valid_after)
        ∷ (codes "validBefore", number auth.valid_before)
        ∷ (codes "nonce", text (eth.hex_encode auth.nonce))
        ∷ [];
  }

  unfoldable pub eip712_digest : TransferAuthorization → Config → Result SettleError Str
  eip712_digest auth c = do
    let td = typed_data auth c
    domain_sep ← or_fail (hash_struct td (codes "EIP712Domain") td.domain) bad_typed_data
    msg_hash ← or_fail (hash_struct td td.primary_type td.message) bad_typed_data
    ok (eth.keccak256 (0x19 ∷ 0x01 ∷ (domain_sep ++ msg_hash)))

  -- The signature with its last byte as 0 or 1 where it was 27 or 28.
  unfoldable pub normalize_signature : Str → Str
  normalize_signature sig =
      let v = last_byte sig in take 64 sig ++ ((if leb 27 v then v - 27 else v) ∷ [])

  unfoldable pub verify_eip712 : TransferAuthorization → Str → Config → Result SettleError Str
  verify_eip712 auth signature c = do
    fail_if (not (length signature == 65)) bad_signature_length
    digest ← eip712_digest auth c
    recovered ← or_fail (eth.sig_to_address digest (normalize_signature signature)) unrecoverable
    fail_if (not (recovered == auth.from)) wrong_signer
    ok recovered

-- `r`, `s` and `v` of a signature
pub record Parts : Type 0 where
  pub r : Str
  pub s : Str
  pub v : ℕ

abbrev pub recovery_id : ℕ → ℕ
recovery_id v = if ltb v 27 then v else v - 27

unfoldable pub split_signature : Ethereum → Str → Result SettleError Parts
split_signature eth signature = do
  fail_if (not (length signature == 65)) bad_signature_length
  let r = take 32 signature
  let s = take 32 (drop 32 signature)
  let v = last_byte signature
  fail_if (ltb 1 (recovery_id v)) bad_recovery_id
  fail_if (not (eth.validate_signature_values (recovery_id v) r s)) bad_signature_values
  ok (record { r = r; s = s; v = if ltb v 27 then v + 27 else v })
