-- ===== src/Settler/CallTypes.antt =====
-- internal/settler/settler.go: the arguments of `Transact` against the interface of the contract.
use xpay_server.Base.{
  ◌≡◌, Str, ℤ, List, ℕ, pos, length, [], ◌∷◌, ◌≤ℤ◌, codes, ok, ◌<ℤ◌, ◌<◌, Option, ◌⊎◌, ◌^◌, some,
  arith, eqb_iff, take, or_fail-eq-ok, drop, length-take, length-drop,
}
use xpay_server.Settler.Authorization.{Ethereum}
use xpay_server.Settler.Signature.{
  split_signature, TypedData, Parts, Fields, typed_data, eip712_digest,
}
use xpay_server.Settler.Evm.{Call, evm_settle}
use xpay_server.Settler.New.{Method, transfer_with_authorization_abi}
use xpay_server.Config.{Config}
use xpay_server.Types.{TransferAuthorization, ExactEvmPayload, PaymentPayload}
use xpay_server.Settler.Outcome.{bad_typed_data}
use xpay_server.Settler.EvmLaws.{evm_settle-sends_verified}

-- A Go value that go-ethereum packs for a contract.
pub data AbiValue : Type 0 where
  abi_address fixed_bytes : Str → AbiValue
  big_int : ℤ → AbiValue
  small_uint : ℕ → AbiValue

-- The arguments of `transferWithAuthorization`, in the order of the call.
unfoldable pub arguments : Call → List AbiValue
arguments call =
    abi_address call.auth.from
    ∷ abi_address call.auth.to
    ∷ big_int call.auth.value
    ∷ big_int call.auth.valid_after
    ∷ big_int call.auth.valid_before
    ∷ fixed_bytes call.auth.nonce
    ∷ small_uint call.signature.v
    ∷ fixed_bytes call.signature.r
    ∷ fixed_bytes call.signature.s
    ∷ []

abbrev pub IsUint256 : ℤ → Type 0
IsUint256 n = (pos 0 ≤ℤ n) × (n <ℤ pos (2 ^ 256))

-- Values of the contract's types.
pub data HasType : Str → AbiValue → Type 0 where
  is_address : (a : Str) → length a ≡ 20 → HasType (codes "address") (abi_address a)
  is_uint256 : (n : ℤ) → IsUint256 n → HasType (codes "uint256") (big_int n)
  is_bytes32 : (b : Str) → length b ≡ 32 → HasType (codes "bytes32") (fixed_bytes b)
  is_uint8 : (n : ℕ) → n < 256 → HasType (codes "uint8") (small_uint n)

pub data HaveTypes : List (Str × Str) → List AbiValue → Type 0 where
  none_left : HaveTypes [] []
  next_value :
      {name kind : Str} {v : AbiValue} {inputs : List (Str × Str)} {vs : List AbiValue}
      → HasType kind v
      → HaveTypes inputs vs
      → HaveTypes ((name, kind) ∷ inputs) (v ∷ vs)

abbrev pub method_inputs : List Method → List (Str × Str)
method_inputs [] = []
method_inputs (m ∷ ms) = m.inputs

-- `HashStruct` of an authorization is an error where a number is not one of 256 bits.
unfoldable pub RefusesOverflow :
    (eth : Ethereum) → (hash_struct : TypedData → Str → Fields → Option Str) → Config → Type 0
RefusesOverflow eth hash_struct cfg =
    (auth : TransferAuthorization) (h : Str)
    → hash_struct (typed_data eth hash_struct auth cfg) (codes "TransferWithAuthorization")
        (typed_data eth hash_struct auth cfg).message
      ≡ some h
    → IsUint256 auth.value × IsUint256 auth.valid_after × IsUint256 auth.valid_before

split_signature-sizes :
    (eth : Ethereum) (sig : Str) (p : Parts)
    → split_signature eth sig ≡ ok p
    → (length p.r ≡ 32) × (length p.s ≡ 32) × ((p.v ≡ 27) ⊎ (p.v ≡ 28))
unfolding split_signature
split_signature-sizes eth sig p e =
    let size : length sig ≡ 65 = ground (arith, eqb_iff (length sig) 65) in
    let first : p.r ≡ take 32 sig = ground arith in
    let second : p.s ≡ take 32 (drop 32 sig) = ground arith in
    (
      rw first (length-take 32 sig (omega arith)),
      rw second (length-take 32 (drop 32 sig) (omega (arith, length-drop 32 sig))),
      ground arith,
    )

module _ (eth : Ethereum) (hash_struct : TypedData → Str → Fields → Option Str)
    (unmarshal : Str → Option ExactEvmPayload) (transact : Call → Option Str) (cfg : Config) where
  eip712_digest-IsUint256 :
      (auth : TransferAuthorization) (d : Str)
      → RefusesOverflow eth hash_struct cfg
      → eip712_digest eth hash_struct auth cfg ≡ ok d
      → IsUint256 auth.value × IsUint256 auth.valid_after × IsUint256 auth.valid_before
  unfolding eip712_digest RefusesOverflow typed_data
  eip712_digest-IsUint256 auth d refuses e =
      let td = typed_data eth hash_struct auth cfg in
      let (domain, hashed, e1) =
        or_fail-eq-ok (hash_struct td (codes "EIP712Domain") td.domain) bad_typed_data _ e in
      let (message, made, e2) =
        or_fail-eq-ok (hash_struct td td.primary_type td.message) bad_typed_data _ e1 in
      refuses auth message made

  -- The arguments of every transaction that is submitted are values of the types that the
  -- contract's interface gives its inputs, in their order, where addresses have 20 bytes and
  -- `HashStruct` refuses numbers of more than 256 bits; the recovery id is 27 or 28.
  pub evm_settle-HaveTypes :
      (now : ℤ) (payment : PaymentPayload) (cost : ℤ) (call : Call)
      → ((s : Str) → length (eth.hex_to_address s) ≡ 20)
      → RefusesOverflow eth hash_struct cfg
      → (evm_settle eth hash_struct unmarshal transact cfg now payment cost).sent ≡ some call
      → HaveTypes (method_inputs transfer_with_authorization_abi) (arguments call)
        × ((call.signature.v ≡ 27) ⊎ (call.signature.v ≡ 28))
  unfolding arguments
  evm_settle-HaveTypes now payment cost call sized refuses e =
      let (v, checked, carried, live, split) =
        evm_settle-sends_verified eth hash_struct unmarshal transact cfg now payment cost call e in
      let (value, after, before) =
        eip712_digest-IsUint256 v.auth checked.digest refuses checked.digest_is in
      let (r_size, s_size, v_is) = split_signature-sizes eth v.signature call.signature split in
      let from_size : length v.auth.from ≡ 20 = rw checked.decodes.from_is (sized _) in
      let to_size : length v.auth.to ≡ 20 = rw checked.decodes.to_is (sized _) in
      (
        rw carried (
            next_value (is_address _ from_size) (
              next_value (is_address _ to_size) (
                next_value (is_uint256 _ value) (
                  next_value (is_uint256 _ after) (
                    next_value (is_uint256 _ before) (
                      next_value (is_bytes32 _ checked.well_formed.nonce_length) (
                        next_value (is_uint8 _ (ground arith)) (
                          next_value (is_bytes32 _ r_size)
                            (next_value (is_bytes32 _ s_size) none_left))))))))),
        v_is,
      )
