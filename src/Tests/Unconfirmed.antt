-- ===== src/Tests/Unconfirmed.antt =====
-- internal/settler/solana.go: a transaction that is not confirmed in time, and sent again.
use xpay_server.Base.{
  ◌≡◌, ◌≢◌, refl, codes, pos, some, none, ok, ◌∷◌, [], false, str_beq, ◌-ℤ◌, lookup,
}
use xpay_server.Tests.Solana
use xpay_server.Tests.Sold.{world}
use xpay_server.Tests.Fixtures.{evm_config}
use xpay_server.Tests.Gateway.{services, server, moment, paying, pending}
use xpay_server.Handler.Unconfirmed.{handle_payment-unconfirmed}
use xpay_server.Settler.Outcome.{SettleError}
use xpay_server.Settler.SolanaSettle.{check_solana, processed}
use xpay_server.Settler.New.{solana}
use xpay_server.Handler.Payment.{Pending, begin_payment, handle_payment, decode_payment_header}
use xpay_server.Handler.Settling.{Chains, settler_of}
use xpay_server.Handler.Server.{Services, Server, settlement_failed, raw}
use xpay_server.Cache.{get, is_expired}
use xpay_server.Settler.Solana.{
  validate_transaction, scan_all, scan_instruction, scan_program, scan_token, scan_memo, check_scan,
  solana_memo, check_transfer,
}
use xpay_server.Handler.Initial.{fail}

abbrev sv : Services
sv = record (services 200) { unmarshal_payment = λ s. some Solana.payment }

-- The node knows the transaction, but has not confirmed it.
abbrev slow : Chains
slow = record world {
  unmarshal_solana = Solana.unmarshal;
  send = Solana.send;
  polls = none ∷ some (record { failed = false; confirmation = processed }) ∷ [];
}

abbrev shop : Server
shop = record server {
  cfg = record evm_config { payment_chain = codes "solana"; network = codes "solana:devnet" };
}

abbrev buying : Pending
buying = record pending { payment = Solana.payment }

begins : begin_payment sv moment shop paying ≡ ok buying
unfolding begin_payment get lookup str_beq is_expired ◌-ℤ◌ decode_payment_header
begins = refl

checks :
    check_solana slow.lib slow.unmarshal_solana slow.send slow.polls Solana.settler buying.payment
      buying.entry.cost buying.req_id
    ≡ ok (Solana.tx, codes "buyer")
unfolding check_solana str_beq validate_transaction scan_all scan_instruction scan_program
    scan_token scan_memo check_scan solana_memo check_transfer
checks = refl

handle_payment-unconfirmed_example :
    (handle_payment sv (settler_of slow shop.cfg (solana Solana.settler)) moment shop paying
      ≡ (fail (pos 502) (settlement_failed SettleError.not_confirmed), shop))
    × ((handle_payment sv
          (settler_of
            (record slow { now = pos 600; send = λ t. none; polls = [] })
            shop.cfg
            (solana Solana.settler))
          moment
          shop
          paying).0.body
        ≢ raw (codes "application/json") (codes "{}"))
handle_payment-unconfirmed_example =
    handle_payment-unconfirmed sv slow Solana.lib-AreDistinct Solana.settler moment moment shop shop
      paying paying buying Solana.tx (codes "buyer") (codes "signature") (pos 600) (λ t. none) []
      (codes "application/json") (codes "{}") begins checks refl refl (tt, ((refl, refl), tt)) refl
      refl refl
