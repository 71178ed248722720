-- ===== src/Tests/Evm.antt =====
-- internal/settler/settler.go at one payment of 42 units. Hex is its own bytes here, and a signature
-- begins with the name of its signer.
use xpay_server.Base.{
  ◌≡◌, refl, Str, codes, not, ◌++◌, Option, is_empty, pos, ◌∷◌, ok, some, [], err, false, true,
  take, parse_int, parse_nat, parse_digits, equal_fold, str_beq, to_lower, lower, int_string,
  decimal, digits,
}
use xpay_server.Settler.Authorization.{Ethereum, decode_authorization}
use xpay_server.Tests.Fixtures.{evm_config}
use xpay_server.Settler.Signature.{
  TypedData, Fields, split_signature, verify_eip712, eip712_digest, normalize_signature,
}
use xpay_server.Types.{AuthorizationPayload, TransferAuthorization, PaymentPayload, ExactEvmPayload}
use xpay_server.Settler.Evm.{Verified, check_payment, evm_settle, Call, submit, evm_requirements}
use xpay_server.Settler.EvmLaws.{IsVerified, check_payment_sound, evm_settle-sends_verified}
use xpay_server.Settler.Outcome.{amount_mismatch, expired}

abbrev pub eth : Ethereum
eth = record {
  is_hex_address = λ s. not (is_empty s);
  hex_to_address = λ s. s;
  address_hex = λ s. s;
  hex_decode = λ s. some s;
  hex_encode = λ s. s;
  keccak256 = λ s. s;
  sig_to_address = λ digest sig. some (take 7 sig);
  validate_signature_values = λ v r s. true;
}

abbrev pub hash_struct : TypedData → Str → Fields → Option Str
hash_struct td kind fields = some kind

abbrev wire_auth : AuthorizationPayload
wire_auth = record {
  from = codes "0xbuyer";
  to = codes "0xSELLER";
  value = codes "42";
  valid_after = codes "0";
  valid_before = codes "1000";
  nonce = codes "01234567890123456789012345678901";
}

abbrev auth : TransferAuthorization
auth = record {
  from = codes "0xbuyer";
  to = codes "0xSELLER";
  value = pos 42;
  valid_after = pos 0;
  valid_before = pos 1_000;
  nonce = codes "01234567890123456789012345678901";
}

-- 64 bytes and the recovery id 28.
abbrev signature : Str
signature = codes "0xbuyer---------------------------------------------------------" ++ 28 ∷ []

abbrev pub unmarshal : Str → Option ExactEvmPayload
unmarshal s = some (record { signature = signature; authorization = wire_auth })

abbrev pub transact : Call → Option Str
transact call = some (codes "0xhash")

abbrev pub payment : PaymentPayload
payment = record {
  x402_version = pos 1;
  scheme = codes "exact";
  network = codes "eip155:84532";
  payload = codes "{}";
}

abbrev pub verified : Verified
verified = record { auth = auth; signature = signature; signer = codes "0xbuyer" }

abbrev pub call : Call
call = record {
  auth = auth;
  signature = record {
    r = codes "0xbuyer-------------------------";
    s = codes "--------------------------------";
    v = 28;
  };
}

decodes : decode_authorization eth wire_auth ≡ ok auth
unfolding decode_authorization parse_int parse_nat parse_digits
decodes = refl

checks :
    check_payment eth hash_struct unmarshal transact evm_config (pos 500) payment (pos 42)
    ≡ ok verified
unfolding check_payment decode_authorization parse_int parse_nat parse_digits equal_fold str_beq
    to_lower lower verify_eip712 eip712_digest normalize_signature
checks = refl

underpays :
    check_payment eth hash_struct unmarshal transact evm_config (pos 500) payment (pos 43)
    ≡ err amount_mismatch
unfolding check_payment decode_authorization parse_int parse_nat parse_digits
underpays = refl

too_late :
    check_payment eth hash_struct unmarshal transact evm_config (pos 1_000) payment (pos 42)
    ≡ err expired
unfolding check_payment decode_authorization parse_int parse_nat parse_digits equal_fold str_beq
    to_lower lower
too_late = refl

pub settles :
    (evm_settle eth hash_struct unmarshal transact evm_config (pos 500) payment (pos 42)).result
    ≡ ok (record { tx_hash = codes "0xhash"; payer = codes "0xbuyer" })
unfolding evm_settle check_payment decode_authorization parse_int parse_nat parse_digits equal_fold
    str_beq to_lower lower verify_eip712 eip712_digest normalize_signature submit split_signature
settles = refl

pub sends :
    (evm_settle eth hash_struct unmarshal transact evm_config (pos 500) payment (pos 42)).sent
    ≡ some call
unfolding evm_settle check_payment decode_authorization parse_int parse_nat parse_digits equal_fold
    str_beq to_lower lower verify_eip712 eip712_digest normalize_signature submit split_signature
sends = refl

check_payment_sound_example :
    IsVerified eth hash_struct unmarshal transact evm_config (pos 500) payment (pos 42) verified
check_payment_sound_example =
    check_payment_sound eth hash_struct unmarshal transact evm_config (pos 500) payment (pos 42)
      verified checks

evm_settle-sends_verified_example :
    (v : Verified) × IsVerified eth hash_struct unmarshal transact evm_config
      (pos 500)
      payment
      (pos 42)
      v
    × (call.auth ≡ v.auth)
    × (evm_config.dry_run ≡ false)
    × (split_signature eth v.signature ≡ ok call.signature)
evm_settle-sends_verified_example =
    evm_settle-sends_verified eth hash_struct unmarshal transact evm_config (pos 500) payment
      (pos 42) call sends

quoted :
    wire_auth.value
    ≡ (evm_requirements evm_config
        (codes "/v1/chat")
        []
        (codes "req_1")
        (pos 42)
        (pos 120)).max_amount_required
unfolding evm_requirements int_string decimal digits
quoted = refl
