-- ===== src/Settler/PayTo.antt =====
-- internal/settler/settler.go: the seller's address as it is configured, and the text that it is
-- compared with.
use xpay_server.Base.{
  ◌≡◌, Str, has_prefix, equal_fold, codes, to_lower, true, lower, subst, ◌∷◌, str_beq_sound, Option,
  arith, [], ℤ, false, ◌≢◌, ok,
}
use xpay_server.Settler.Authorization.{Ethereum}
use xpay_server.Settler.Signature.{TypedData, Fields}
use xpay_server.Types.{ExactEvmPayload, PaymentPayload}
use xpay_server.Settler.Evm.{Call, evm_settle}
use xpay_server.Config.{Config}
use xpay_server.Settler.Outcome.{Settlement}
use xpay_server.Settler.EvmLaws.{evm_settle_sound}

abbrev zero_x : Str
zero_x = codes "0x"

has_prefix-to_lower : (s : Str) → has_prefix s zero_x ≡ true → has_prefix (to_lower s) zero_x ≡ true
unfolding has_prefix to_lower lower
has_prefix-to_lower [] h = cc
has_prefix-to_lower (a ∷ []) h = absurd (ground arith)
has_prefix-to_lower (a ∷ b ∷ s) h = ground arith

equal_fold_prefix :
    (s t : Str)
    → equal_fold s t ≡ true
    → has_prefix s zero_x ≡ true
    → has_prefix (to_lower t) zero_x ≡ true
unfolding equal_fold
equal_fold_prefix s t same h =
    subst (λ u. has_prefix u zero_x ≡ true) (str_beq_sound (to_lower s) (to_lower t) same)
      (has_prefix-to_lower s h)

-- Where the seller's address is configured without `0x` in front, in either case, and the text of
-- every address has it, no EVM payment is settled.
pub evm_settle-unprefixed :
    (eth : Ethereum) (hash_struct : TypedData → Str → Fields → Option Str)
    (unmarshal : Str → Option ExactEvmPayload) (transact : Call → Option Str) (cfg : Config)
    (now : ℤ) (payment : PaymentPayload) (cost : ℤ) (st : Settlement)
    → ((a : Str) → has_prefix (eth.address_hex a) (codes "0x") ≡ true)
    → has_prefix (to_lower cfg.pay_to_address) (codes "0x") ≡ false
    → (evm_settle eth hash_struct unmarshal transact cfg now payment cost).result ≢ ok st
evm_settle-unprefixed eth hash_struct unmarshal transact cfg now payment cost st prefixed bare e =
    let (v, checked, payer, rest) =
      evm_settle_sound eth hash_struct unmarshal transact cfg now payment cost st e in
    let found =
      equal_fold_prefix (eth.address_hex v.auth.to) cfg.pay_to_address checked.pays_seller
        (prefixed v.auth.to) in
    cc
