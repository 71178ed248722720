-- ===== src/Client/Trade.antt =====
-- cmd/testpay/main.go and internal/config/config.go: the settings under which client and server trade.
use xpay_server.Base.{
  ◌≡◌, Str, codes, ◌++◌, true, some, is_empty, ap, false, sym, equal_fold, ◌∙◌, length,
}
use xpay_server.Settler.Authorization.{Ethereum}
use xpay_server.Config.{Config}
use xpay_server.Client.Eip712.{IsEthereum, IsBytes}
use xpay_server.Config.Load.{payment_network}
use xpay_server.Store.Payments.{fits_int64}
use xpay_server.Cache.{hex}
use xpay_server.Client.Encodes.{IsWord}

-- A server on the chain that its network is named after, whose address is written as go-ethereum
-- writes it up to its case, and a wallet.
pub record CanTrade (eth : Ethereum) (cfg : Config) (cluster : Str) (signer : Str) : Type 0 where
  pub network_is : cfg.network ≡ payment_network (codes "evm") cfg.chain_id cluster
  pub chain_int64 : fits_int64 cfg.chain_id ≡ true
  pub chain_word : IsWord cfg.chain_id
  pub named : is_empty cfg.usdc_name ≡ false
  pub versioned : is_empty cfg.usdc_version ≡ false
  pub seller_ok : eth.is_hex_address cfg.pay_to_address ≡ true
  pub seller_text :
      equal_fold (eth.address_hex (eth.hex_to_address cfg.pay_to_address)) cfg.pay_to_address ≡ true
  pub signer_size : length signer ≡ 20

pub hex_decode-hex :
    (eth : Ethereum)
    → IsEthereum eth
    → (s : Str) → IsBytes s
    → eth.hex_decode (codes "0x" ++ hex s) ≡ some s
hex_decode-hex eth laws s bytes = ap eth.hex_decode (sym (laws.hex_text s)) ∙ laws.hex_read s bytes
