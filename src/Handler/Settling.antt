-- ===== src/Handler/Settling.antt =====
-- internal/handler/relay.go and internal/settler: the settler of `New` behind the interface that the
-- relay calls.
use xpay_server.Base.{Str, Option, ℤ, List}
use xpay_server.Config.{Config}
use xpay_server.Types.{ExactEvmPayload, ExactSolanaPayload}
use xpay_server.Settler.Authorization.{Ethereum}
use xpay_server.Settler.Signature.{TypedData, Fields}
use xpay_server.Settler.Evm.{Call, evm_requirements, evm_settle}
use xpay_server.Settler.Solana.{SolanaLib, Transaction}
use xpay_server.Settler.SolanaSettle.{Status, solana_requirements, solana_settle}
use xpay_server.Settler.New.{AnySettler, evm, solana}
use xpay_server.Handler.Server.{PaymentSettler}

-- The libraries, the two nodes as they answer during one call, and its Unix time.
pub record Chains : Type 0 where
  pub now : ℤ
  pub eth : Ethereum
  pub hash_struct : TypedData → Str → Fields → Option Str
  pub unmarshal_evm : Str → Option ExactEvmPayload
  pub transact : Call → Option Str
  pub lib : SolanaLib
  pub unmarshal_solana : Str → Option ExactSolanaPayload
  pub send : Transaction → Option Str
  pub polls : List (Option Status)

-- The two implementations of `PaymentSettler`.
unfoldable pub settler_of : Chains → Config → AnySettler → PaymentSettler
settler_of w cfg (evm s) = record {
  build_requirements = evm_requirements cfg;
  settle = λ payment cost id.
      (evm_settle w.eth w.hash_struct w.unmarshal_evm w.transact cfg w.now payment cost).result;
}
settler_of w cfg (solana s) = record {
  build_requirements = solana_requirements w.lib s cfg;
  settle = λ payment cost id.
      (solana_settle w.lib w.unmarshal_solana w.send w.polls s cfg.dry_run payment cost id).result;
}
