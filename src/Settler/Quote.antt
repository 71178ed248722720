-- ===== src/Settler/Quote.antt =====
-- internal/settler/settler.go: the quoted amount is the one that a settlement accepts.
use xpay_server.Base.{◌≡◌, Str, ℤ, arith, parse_int-int_string, ok, some, sym, ◌∙◌, ap, parse_int}
use xpay_server.Config.{Config}
use xpay_server.Types.{TransferAuthorization, AuthorizationPayload}
use xpay_server.Settler.Authorization.{Ethereum, decode_authorization}
use xpay_server.Settler.Evm.{evm_requirements}
use xpay_server.Settler.EvmLaws.{decode_authorization_sound}

-- A buyer who copies the quoted amount into a well-formed authorization authorizes exactly the cost,
-- which is what the settlement compares it with.
pub decode_authorization-evm_requirements :
    (eth : Ethereum) (cfg : Config) (resource description id : Str) (cost timeout : ℤ)
    (a : AuthorizationPayload) (auth : TransferAuthorization)
    → a.value ≡ (evm_requirements cfg resource description id cost timeout).max_amount_required
    → decode_authorization eth a ≡ ok auth
    → auth.value ≡ cost
unfolding evm_requirements
decode_authorization-evm_requirements eth cfg resource description id cost timeout a auth same e =
    let (d, _) = decode_authorization_sound eth a auth e in
    some-injective (sym d.value_is ∙ ap parse_int same ∙ parse_int-int_string cost)
  where
    some-injective : {x y : ℤ} → some x ≡ some y → x ≡ y
    some-injective h = ground arith
