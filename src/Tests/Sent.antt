-- ===== src/Tests/Sent.antt =====
-- internal/settler/settler.go: the types of what is sent, at addresses of 20 bytes and a hash that
-- refuses numbers of more than 256 bits.
use xpay_server.Base.{
  ◌≡◌, ℤ, take, Bool, Str, true, some, ◌++◌, leb_ℤ, Option, pos, if◌then◌else◌, arith, ◌∷◌, ◌&&◌,
  none, [], refl, ◌⊎◌, ltb_ℤ, codes, ◌^◌, parse_int, parse_nat, parse_digits, equal_fold, str_beq,
  to_lower, lower,
}
use xpay_server.Tests.Evm
use xpay_server.Settler.Authorization.{Ethereum, decode_authorization}
use xpay_server.Settler.Signature.{
  Fields, TypedData, typed_data, text, number, verify_eip712, eip712_digest, split_signature,
}
use xpay_server.Settler.CallTypes.{
  RefusesOverflow, HaveTypes, method_inputs, IsUint256, arguments, evm_settle-HaveTypes,
}
use xpay_server.Types.{ExactEvmPayload}
use xpay_server.Settler.Evm.{evm_settle, Call, check_payment, submit}
use xpay_server.Tests.Keys.{config, buyer, seller, length-address}
use xpay_server.Client.Abi.{zeros}
use xpay_server.Settler.New.{transfer_with_authorization_abi}

abbrev sized_eth : Ethereum
sized_eth = record (Evm.eth) {
  hex_to_address = λ s. take 20 (s ++ zeros 20);
  sig_to_address = λ digest sig. some buyer;
}

abbrev is_uint256 : ℤ → Bool
is_uint256 n = leb_ℤ (pos 0) n && ltb_ℤ n (pos (2 ^ 256))

abbrev all_words : Fields → Bool
all_words [] = true
all_words ((name, text s) ∷ fields) = all_words fields
all_words ((name, number n) ∷ fields) = is_uint256 n && all_words fields

abbrev word_hash : TypedData → Str → Fields → Option Str
word_hash td kind fields = if all_words fields then some kind else none

is_uint256_sound : (n : ℤ) → is_uint256 n ≡ true → IsUint256 n
is_uint256_sound n h = (ground arith, ground arith)

refuses_overflow : RefusesOverflow sized_eth word_hash config
unfolding RefusesOverflow typed_data
refuses_overflow auth h e = (
  is_uint256_sound auth.value (ground arith),
  is_uint256_sound auth.valid_after (ground arith),
  is_uint256_sound auth.valid_before (ground arith),
)

abbrev sized_payload : ExactEvmPayload
sized_payload = record {
  signature = zeros 64 ++ 28 ∷ [];
  authorization = record {
    from = buyer;
    to = seller;
    value = codes "42";
    valid_after = codes "0";
    valid_before = codes "1000";
    nonce = zeros 32;
  };
}

abbrev sized_call : Call
sized_call = record {
  auth = record {
    from = buyer;
    to = seller;
    value = pos 42;
    valid_after = pos 0;
    valid_before = pos 1_000;
    nonce = zeros 32;
  };
  signature = record { r = zeros 32; s = zeros 32; v = 28 };
}

sends_sized :
    (evm_settle sized_eth word_hash
      (λ s. some sized_payload)
      Evm.transact
      config
      (pos 500)
      Evm.payment
      (pos 42)).sent
    ≡ some sized_call
unfolding evm_settle check_payment decode_authorization parse_int parse_nat parse_digits zeros
    equal_fold str_beq to_lower lower verify_eip712 eip712_digest typed_data submit split_signature
sends_sized = refl

evm_settle-HaveTypes_example :
    HaveTypes (method_inputs transfer_with_authorization_abi) (arguments sized_call)
    × ((sized_call.signature.v ≡ 27) ⊎ (sized_call.signature.v ≡ 28))
evm_settle-HaveTypes_example =
    evm_settle-HaveTypes sized_eth word_hash (λ s. some sized_payload) Evm.transact config (pos 500)
      Evm.payment (pos 42) sized_call length-address refuses_overflow sends_sized
