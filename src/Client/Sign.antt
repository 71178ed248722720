-- ===== src/Client/Sign.antt =====
-- cmd/testpay/main.go: `signEIP712`, the digest by hand and the signature over it.
use xpay_server.Base.{
  ◌+◌, ◌%◌, Option, none, some, if◌then◌else◌, [], ◌∷◌, ◌++◌, leb, length, take, drop, Str, codes,
  ℤ, pos, Result, ok, ◌>>=◌, or_fail,
}
use xpay_server.Settler.Authorization.{Ethereum}
use xpay_server.Settler.Signature.{last_byte}
use xpay_server.Client.Abi.{copy_at, encode_abi, padded_big, padded_addr}

-- The ends of the client before its payment: `must`, and a panic of the language.
pub data ClientError : Type 0 where
  not_402 unreadable_challenge cannot_sign panics : ClientError

-- What the client signs with EIP-712 around it.
pub record Transfer : Type 0 where
  pub from : Str
  pub to : Str
  pub value : ℤ
  pub valid_before : ℤ
  pub nonce : Str
  pub name : Str
  pub version : Str
  pub chain_id : ℤ
  pub usdc : Str

abbrev pub transfer_type : Str
transfer_type =
    codes
      "TransferWithAuthorization(address from,address to,uint256 value,uint256 validAfter,uint256 validBefore,bytes32 nonce)"

abbrev pub domain_type : Str
domain_type =
    codes "EIP712Domain(string name,string version,uint256 chainId,address verifyingContract)"

-- `var nonce32 [32]byte; copy(nonce32[:], nonce)`
abbrev pub nonce32 : Str → Str
nonce32 nonce = copy_at 0 nonce

module _ (eth : Ethereum) where
  unfoldable pub client_digest : Transfer → Result ClientError Str
  client_digest t = do
    chain_word ← or_fail (padded_big t.chain_id) panics
    domain ←
        or_fail
          (encode_abi (
            eth.keccak256 domain_type
            ∷ eth.keccak256 t.name
            ∷ eth.keccak256 t.version
            ∷ chain_word
            ∷ padded_addr t.usdc
            ∷ []))
          panics
    value_word ← or_fail (padded_big t.value) panics
    after_word ← or_fail (padded_big (pos 0)) panics
    before_word ← or_fail (padded_big t.valid_before) panics
    message ←
        or_fail
          (encode_abi (
            eth.keccak256 transfer_type
            ∷ padded_addr t.from
            ∷ padded_addr t.to
            ∷ value_word
            ∷ after_word
            ∷ before_word
            ∷ nonce32 t.nonce
            ∷ []))
          panics
    ok (eth.keccak256 (0x19 ∷ 0x01 ∷ (eth.keccak256 domain ++ eth.keccak256 message)))

  -- `sig[64] += 27`, on a byte
  unfoldable pub legacy_signature : Str → Option Str
  legacy_signature sig =
      if leb (length sig) 64
      then none
      else some (take 64 sig ++ (((last_byte sig + 27) % 256) ∷ drop 65 sig))

  -- `sign` is `crypto.Sign` with the client's key.
  unfoldable pub sign_eip712 : (Str → Option Str) → Transfer → Result ClientError Str
  sign_eip712 sign t = do
    digest ← client_digest t
    sig ← or_fail (sign digest) cannot_sign
    or_fail (legacy_signature sig) panics
