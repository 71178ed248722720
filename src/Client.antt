-- ===== src/Client.antt =====
-- cmd/testpay/main.go: a client that pays for one request with an EIP-3009 authorization.
pub mod Abi
pub mod Network
pub mod Sign
pub mod Pay
pub mod Eip712
pub mod AbiLaws
pub mod Encodes
pub mod Digest
pub mod Signature
pub mod Trade
pub mod Accepted
pub mod Served
pub mod Conversation
