-- ===== src/Settler/Authorization.antt =====
-- internal/settler/settler.go: `DecodeAuthorization`, from the wire to an EIP-3009 authorization.
use xpay_server.Base.{
  ℕ, Bool, ◌||◌, not, Option, none, some, if◌then◌else◌, ◌==◌, length, Str, pos, leb_ℤ, ltb_ℤ,
  parse_int, Result, ok, ◌>>=◌, ◌>>◌, fail_if, or_fail, nat_eq,
}
use xpay_server.Types.{AuthorizationPayload, TransferAuthorization}
use xpay_server.Settler.Outcome.{
  SettleError, invalid_address, invalid_value, value_not_positive, invalid_valid_after,
  valid_after_negative, invalid_valid_before, valid_before_not_positive, empty_window,
  invalid_nonce,
}

-- What the settler takes from go-ethereum. Addresses, digests and signatures are bytes.
pub record Ethereum : Type 0 where
  pub is_hex_address : Str → Bool
  pub hex_to_address : Str → Str
  pub address_hex : Str → Str
  pub hex_decode : Str → Option Str
  pub hex_encode : Str → Str
  pub keccak256 : Str → Str
  pub sig_to_address : Str → Str → Option Str
  pub validate_signature_values : ℕ → Str → Str → Bool

abbrev pub nonce_of : Option Str → Option Str
nonce_of none = none
nonce_of (some bytes) = if length bytes == 32 then some bytes else none

module _ (eth : Ethereum) where
  unfoldable pub decode_authorization :
      AuthorizationPayload → Result SettleError TransferAuthorization
  decode_authorization a = do
    fail_if (not (eth.is_hex_address a.from) || not (eth.is_hex_address a.to)) invalid_address
    value ← or_fail (parse_int a.value) invalid_value
    fail_if (leb_ℤ value (pos 0)) value_not_positive
    valid_after ← or_fail (parse_int a.valid_after) invalid_valid_after
    fail_if (ltb_ℤ valid_after (pos 0)) valid_after_negative
    valid_before ← or_fail (parse_int a.valid_before) invalid_valid_before
    fail_if (leb_ℤ valid_before (pos 0)) valid_before_not_positive
    fail_if (leb_ℤ valid_before valid_after) empty_window
    nonce ← or_fail (nonce_of (eth.hex_decode a.nonce)) invalid_nonce
    ok (record {
      from = eth.hex_to_address a.from;
      to = eth.hex_to_address a.to;
      value = value;
      valid_after = valid_after;
      valid_before = valid_before;
      nonce = nonce;
    })
