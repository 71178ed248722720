-- ===== src/Settler.antt =====
-- internal/settler: verifying a signed payment and putting it on the chain.
pub mod Outcome
pub mod Authorization
pub mod Signature
pub mod Evm
pub mod Solana
pub mod SolanaSettle
pub mod SolanaScan
pub mod SolanaPayment
pub mod EvmLaws
pub mod Quote
pub mod PayTo
pub mod New
pub mod NewLaws
pub mod CallTypes
pub mod SolanaLaws
