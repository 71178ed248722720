-- ===== src/Client/Encodes.antt =====
-- cmd/testpay/main.go and EIP-712: the words of the client's encoding are those of the standard.
use xpay_server.Base.{
  ◌≡◌, ℤ, pos, length, Str, ◌<◌, ◌^◌, magnitude, negsuc, str_beq, ◌++◌, List, codes, some, lookup,
  refl, ltb, ◌∷◌, true, str_eq, arith, [], ◌≤◌, false,
}
use xpay_server.Settler.Authorization.{Ethereum}
use xpay_server.Client.Eip712.{
  IsEthereum, IsBytes, encode_value, encode_members, encode_text, encode_number, Member,
  struct_hash, encode_type,
}
use xpay_server.Client.AbiLaws.{
  big_endian, padded_addr_lem, concat, length-big_endian, padded_big_lem,
}
use xpay_server.Client.Abi.{padded_addr, padded_big}
use xpay_server.Settler.Signature.{Fields, text, number, FieldValue, TypedData}

-- A number of 256 bits.
abbrev pub IsWord : ℤ → Type 0
IsWord (pos n) = n < 256 ^ 32
IsWord (negsuc n) = ⊥

-- The word of a number, as the standard encodes it.
abbrev pub word_of : ℤ → Str
word_of n = big_endian 32 (magnitude n)

pub length-word_of : (n : ℤ) → length (word_of n) ≡ 32
length-word_of n = length-big_endian 32 (magnitude n)

pub padded_big_word : (n : ℤ) → IsWord n → padded_big n ≡ some (word_of n)
padded_big_word (pos n) h = padded_big_lem n h
padded_big_word (negsuc n) h = absurd h

module _ (eth : Ethereum) (laws : IsEthereum eth) where
  pub encode_value-string :
      (s : Str) → encode_value eth (codes "string") (text s) ≡ some (eth.keccak256 s)
  unfolding encode_value encode_text str_beq
  encode_value-string s = refl

  pub encode_value-uint256 :
      (n : ℤ) → IsWord n → encode_value eth (codes "uint256") (number n) ≡ some (word_of n)
  unfolding encode_value encode_number str_beq
  encode_value-uint256 (pos n) h =
      let small : ltb n (256 ^ 32) ≡ true = ground arith in rw small refl
  encode_value-uint256 (negsuc n) h = absurd h

  pub encode_value-address :
      (a : Str)
      → length a ≡ 20
      → encode_value eth (codes "address") (text (eth.address_hex a)) ≡ some (padded_addr a)
  unfolding encode_value encode_text str_beq
  encode_value-address a h =
      rw (laws.address_text a h, laws.address_read a h, padded_addr_lem a h) refl

  pub encode_value-bytes32 :
      (s : Str)
      → length s ≡ 32
      → IsBytes s
      → encode_value eth (codes "bytes32") (text (eth.hex_encode s)) ≡ some s
  unfolding encode_value encode_text str_beq
  encode_value-bytes32 s h bytes = rw (laws.hex_read s bytes) (rw h refl)

  -- Each member of the list has a value, and the words are their encodings.
  pub data Encodes (fields : Fields) : List Member → List Str → Type 0 where
    done : Encodes fields [] []
    with_word :
        {name kind : Str} {ms : List Member} {word : Str} {words : List Str} (v : FieldValue)
        → lookup name fields ≡ some v
        → encode_value eth kind v ≡ some word
        → Encodes fields ms words
        → Encodes fields ((name, kind) ∷ ms) (word ∷ words)

  encode_members-Encodes :
      (fields : Fields) {ms : List Member} {words : List Str}
      → Encodes fields ms words
      → encode_members eth ms fields ≡ some (concat words)
  unfolding encode_members
  encode_members-Encodes fields done = refl
  encode_members-Encodes fields (with_word v found encoded others) =
      rw (found, encoded, encode_members-Encodes fields others) refl

  pub struct_hash_lem :
      (td : TypedData) (kind : Str) (fields : Fields) {ms : List Member} {words : List Str}
      → lookup kind td.types ≡ some ms
      → length fields ≤ length ms
      → Encodes fields ms words
      → struct_hash eth td kind fields
        ≡ some (eth.keccak256 (eth.keccak256 (encode_type kind ms) ++ concat words))
  unfolding struct_hash
  struct_hash_lem td kind fields {ms} found fits encoded =
      let small : ltb (length ms) (length fields) ≡ false = ground arith in
      rw (struct_hash, found) (rw (small, encode_members-Encodes fields encoded) refl)
