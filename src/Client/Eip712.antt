-- ===== src/Client/Eip712.antt =====
-- EIP-712 as its standard defines it, for structures of strings, numbers, addresses and words, and
-- what the server takes from go-ethereum in its terms.
use xpay_server.Base.{
  ◌^◌, Str, List, Option, ◌++◌, ◌∷◌, some, if◌then◌else◌, ℤ, lookup, ◌≡◌, All, length, [], none,
  ◌==◌, pos, ◌<◌, true, codes, str_eq, ltb, ◌&&◌, negsuc,
}
use xpay_server.Settler.Authorization.{Ethereum, nonce_of}
use xpay_server.Settler.Signature.{TypedData, Fields, FieldValue, text, number}
use xpay_server.Cache.{hex}
use xpay_server.Client.Abi.{zeros}
use xpay_server.Client.AbiLaws.{big_endian}

-- A member's name and type
abbrev pub Member : Type 0
Member = Str × Str

abbrev pub member_text : Member → Str
member_text m = m.1 ++ b' ' ∷ m.0

abbrev pub members_text : List Member → Str
members_text [] = []
members_text (m ∷ []) = member_text m
members_text (m ∷ n ∷ ms) = member_text m ++ b',' ∷ members_text (n ∷ ms)

-- `encodeType`
unfoldable pub encode_type : Str → List Member → Str
encode_type kind ms = kind ++ b'(' ∷ members_text ms ++ b')' ∷ []

abbrev pub joined : Option Str → Option Str → Option Str
joined none rest = none
joined (some word) none = none
joined (some word) (some rest) = some (word ++ rest)

module _ (eth : Ethereum) where
  unfoldable pub encode_text : Str → Str → Option Str
  encode_text kind s =
      if kind == codes "string"
      then some (eth.keccak256 s)
      else if kind == codes "address"
      then if eth.is_hex_address s then some (zeros 12 ++ eth.hex_to_address s) else none
      else if kind == codes "bytes32"
      then nonce_of (eth.hex_decode s)
      else none

  unfoldable pub encode_number : Str → ℤ → Option Str
  encode_number kind (pos n) =
      if kind == codes "uint256" && ltb n (256 ^ 32) then some (big_endian 32 n) else none
  encode_number kind (negsuc n) = none

  -- `encodeData` of one member
  unfoldable pub encode_value : Str → FieldValue → Option Str
  encode_value kind (text s) = encode_text kind s
  encode_value kind (number n) = encode_number kind n

  unfoldable pub encode_members : List Member → Fields → Option Str
  encode_members [] fields = some []
  encode_members (m ∷ ms) fields =
      joined (elim (lookup m.0 fields) [ none ↦ none | some v ↦ encode_value m.1 v ])
        (encode_members ms fields)

  -- `hashStruct`; a value without a member is an error.
  unfoldable pub struct_hash : TypedData → Str → Fields → Option Str
  struct_hash td kind fields = elim (lookup kind td.types) [
    | none ↦ none
    | some ms ↦ elim (if ltb (length ms) (length fields) then none else encode_members ms fields) [
      | none ↦ none
      | some encoded ↦ some (eth.keccak256 (eth.keccak256 (encode_type kind ms) ++ encoded))
    ]
  ]

-- `TypedData.HashStruct` has the standard's value where that is defined.
unfoldable pub HashesStructs : Ethereum → (TypedData → Str → Fields → Option Str) → Type 0
HashesStructs eth hash_struct =
    (td : TypedData) (kind : Str) (fields : Fields) (h : Str)
    → struct_hash eth td kind fields ≡ some h
    → hash_struct td kind fields ≡ some h

abbrev pub IsBytes : Str → Type 0
IsBytes s = All (λ b. b < 256) s

-- What go-ethereum documents of hashes, addresses and hexadecimal text.
pub record IsEthereum (eth : Ethereum) : Type 0 where
  pub hash_size : (s : Str) → length (eth.keccak256 s) ≡ 32
  pub hash_bytes : (s : Str) → IsBytes (eth.keccak256 s)
  pub address_size : (s : Str) → length (eth.hex_to_address s) ≡ 20
  pub address_text : (a : Str) → length a ≡ 20 → eth.is_hex_address (eth.address_hex a) ≡ true
  pub address_read : (a : Str) → length a ≡ 20 → eth.hex_to_address (eth.address_hex a) ≡ a
  pub hex_text : (s : Str) → eth.hex_encode s ≡ codes "0x" ++ hex s
  pub hex_read : (s : Str) → IsBytes s → eth.hex_decode (eth.hex_encode s) ≡ some s
