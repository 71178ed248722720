-- ===== src/Handler/Info.antt =====
-- internal/handler/info.go: the public information endpoints.
use xpay_server.Base.{
  ℕ, Bool, Option, none, some, List, [], if◌then◌else◌, ◌==◌, str_eq, Str, codes, ℤ, pos, Result,
  ok, err,
}
use xpay_server.Types.{scheme_exact}
use xpay_server.Config.{Config}
use xpay_server.Pricing.Display.{usdc_units_to_usd}
use xpay_server.Store.Db.{Db, DbError, Payment}
use xpay_server.Store.Payments.{sum_by_address, recent_by_address}

pub record AddressInfo : Type 0 where
  pub payment_chain : Str
  pub pay_to : Str
  pub network : Str
  pub chain_id : ℤ
  pub asset : Str
  pub scheme : Str

unfoldable pub address : Config → AddressInfo
address cfg = record {
  payment_chain = cfg.payment_chain;
  pay_to = cfg.pay_to_address;
  network = cfg.network;
  chain_id = cfg.chain_id;
  asset = cfg.usdc_address;
  scheme = scheme_exact;
}

pub record BalanceInfo : Type 0 where
  pub address : Str
  pub total_spent : ℤ
  pub total_spent_usd : Str
  pub payment_count : ℕ
  pub recent : List Payment

pub data InfoReply : Type 0 where
  invalid_address : InfoReply
  db_failed : DbError → InfoReply
  balance_is : BalanceInfo → InfoReply

abbrev pub or_none : Result DbError (List Payment) → List Payment
or_none (ok ps) = ps
or_none (err e) = []

-- `base58` reads a Solana address and prints it again; `checksum` does so for an EVM address.
module _ (base58 checksum : Str → Option Str) where
  unfoldable pub normalize_address : Config → Str → Option Str
  normalize_address cfg addr =
      if cfg.payment_chain == codes "solana" then base58 addr else checksum addr

  unfoldable pub balance : Bool → Bool → Config → Str → Db → InfoReply
  balance sum_fault recent_fault cfg addr db = elim (normalize_address cfg addr) [
    | none ↦ invalid_address
    | some norm ↦ elim (sum_by_address sum_fault norm db) [
      | err e ↦ db_failed e
      | ok (total, count) ↦ balance_is (record {
        address = norm;
        total_spent = total;
        total_spent_usd = usdc_units_to_usd (some total);
        payment_count = count;
        recent = or_none (recent_by_address recent_fault norm (pos 50) db);
      })
    ]
  ]
