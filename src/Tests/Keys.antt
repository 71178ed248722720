-- ===== src/Tests/Keys.antt =====
-- cmd/testpay/main.go with a hash that keeps lengths only, addresses that are their own text, and one
-- key, whose signature is zeros.
use xpay_server.Base.{
  ◌≡◌, ℕ, Str, if◌then◌else◌, length, codes, true, ◌<◌, Option, int_string, pos, ◌∷◌, ◌++◌, leb,
  ◌*◌, ◌%◌, take, arith, ◌/◌, suc, some, decimal, take-append, [], ◌-◌, ◌+◌, drop, ap, length-take,
  zero, refl, digits, ok, length-append, str_beq, equal_fold, to_lower, lower, ◌-ℤ◌,
}
use xpay_server.Settler.Authorization.{Ethereum}
use xpay_server.Cache.{hex_digit, hex}
use xpay_server.Client.Abi.{zeros}
use xpay_server.Settler.Signature.{TypedData, Fields, eip712_digest}
use xpay_server.Client.Eip712.{HashesStructs, IsBytes, IsEthereum, struct_hash}
use xpay_server.Config.{Config}
use xpay_server.Config.Load.{payment_network}
use xpay_server.Types.{TransferAuthorization}
use xpay_server.Tests.Fixtures.{evm_config}
use xpay_server.Client.Digest.{IsSignable, transfer_of, client_digest-eip712_digest}
use xpay_server.Client.Sign.{client_digest}
use xpay_server.Client.Signature.{SignsAs}
use xpay_server.Client.Trade.{CanTrade}

abbrev nibble : ℕ → ℕ
nibble c = if leb c b'9' then c - b'0' else c - 87

abbrev unhex : Str → Str
unhex (a ∷ b ∷ s) = (nibble a * 16 + nibble b) ∷ unhex s
unhex _ = []

abbrev size_hash : Str → Str
size_hash s = (length s % 256) ∷ zeros 31

abbrev pub buyer : Str
buyer = codes "buyer buyer buyer ok"

abbrev pub seller : Str
seller = codes "0xseller seller sell"

abbrev pub eth : Ethereum
eth = record {
  is_hex_address = λ s. true;
  hex_to_address = λ s. take 20 (s ++ zeros 20);
  address_hex = λ a. a;
  hex_decode = λ s. some (unhex (drop 2 s));
  hex_encode = λ s. codes "0x" ++ hex s;
  keccak256 = size_hash;
  sig_to_address = λ digest sig. some buyer;
  validate_signature_values = λ v r s. true;
}

nibble-hex_digit : (n : ℕ) → n < 16 → nibble (hex_digit n) ≡ n
unfolding hex_digit
nibble-hex_digit n h = ground arith

unhex-hex : (s : Str) → IsBytes s → unhex (hex s) ≡ s
unfolding hex
unhex-hex [] h = refl
unhex-hex (b ∷ s) h =
    rw
      (
        nibble-hex_digit (b / 16) (omega (arith, h.0)),
        nibble-hex_digit (b % 16) (omega arith),
        unhex-hex s h.1,
      )
      (ap (λ c. c ∷ s) (omega arith))

pub length-address : (s : Str) → length (take 20 (s ++ zeros 20)) ≡ 20
unfolding zeros
length-address s = length-take 20 (s ++ zeros 20) (omega (arith, length-append s (zeros 20)))

zeros-IsBytes : (n : ℕ) → IsBytes (zeros n)
unfolding zeros
zeros-IsBytes zero = tt
zeros-IsBytes (suc n) = (omega arith, zeros-IsBytes n)

pub eth-IsEthereum : IsEthereum eth
unfolding zeros
eth-IsEthereum = record {
  hash_size = λ s. refl;
  hash_bytes = λ s. (omega arith, zeros-IsBytes 31);
  address_size = length-address;
  address_text = λ a h. refl;
  address_read = λ a h. take-append 20 a (zeros 20) h;
  hex_text = λ s. refl;
  hex_read = λ s bytes. ap some (unhex-hex s bytes);
}

abbrev pub hash_struct : TypedData → Str → Fields → Option Str
hash_struct = struct_hash eth

pub standard : HashesStructs eth hash_struct
unfolding HashesStructs
standard td kind fields h e = e

abbrev pub sign : Str → Option Str
sign digest = some (zeros 64 ++ 1 ∷ [])

pub signs : (d : Str) → length d ≡ 32 → SignsAs eth sign buyer d
unfolding zeros
signs d h = record {
  body = zeros 64;
  v = 1;
  signed = refl;
  body_size = refl;
  body_bytes = zeros-IsBytes 64;
  v_small = omega arith;
  recovered = refl;
  in_range = refl;
}

abbrev pub config : Config
config = record evm_config { pay_to_address = seller }

pub ready : CanTrade eth config [] buyer
unfolding payment_network int_string decimal digits str_beq equal_fold to_lower lower zeros ◌-ℤ◌
ready = record {
  network_is = refl;
  chain_int64 = refl;
  chain_word = omega arith;
  named = refl;
  versioned = refl;
  seller_ok = refl;
  seller_text = refl;
  signer_size = refl;
}

abbrev auth : TransferAuthorization
auth = record {
  from = buyer;
  to = seller;
  value = pos 42;
  valid_after = pos 0;
  valid_before = pos 1_000;
  nonce = zeros 32;
}

auth-IsSignable : IsSignable auth
unfolding zeros
auth-IsSignable = record {
  from_size = refl;
  to_size = refl;
  value_word = omega arith;
  after_zero = refl;
  before_word = omega arith;
  nonce_size = refl;
  nonce_bytes = zeros-IsBytes 32;
}

client_digest-eip712_digest_example :
    (d : Str) × (client_digest eth (transfer_of eth config auth) ≡ ok d)
    × (eip712_digest eth hash_struct auth config ≡ ok d)
client_digest-eip712_digest_example =
    client_digest-eip712_digest eth eth-IsEthereum hash_struct config auth (omega arith)
      auth-IsSignable standard
