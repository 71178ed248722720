-- ===== src/Tests/Sold.antt =====
-- The relay with a settler: a sold response, payments in flight, and what the chain is sent.
use xpay_server.Pricing.Table.{price_for, table_or_default}
use xpay_server.Pricing.Display.{prices_for}
use xpay_server.Pricing.Manager.{manager_prices}
use xpay_server.Settler.Signature.{
  verify_eip712, eip712_digest, normalize_signature, split_signature,
}
use xpay_server.Base.{
  ◌≡◌, ℕ, Str, has_prefix, pos, codes, to_lower, some, [], arith, ◌++◌, false, ◌≢◌, none, ◌∷◌, refl,
  true, ok, lookup, str_beq, ◌-ℤ◌, parse_int, parse_nat, parse_digits, lower, equal_fold, inl, Memᴰ,
}
use xpay_server.Tests.Evm
use xpay_server.Handler.Settling.{Chains, settler_of}
use xpay_server.Settler.New.{AnySettler, evm}
use xpay_server.Handler.Payment.{
  handle_payment, Pending, begin_payment, decode_payment_header, finish_payment, delivery,
  payment_row,
}
use xpay_server.Handler.Sold.{IsSold, handle_payment-IsSold}
use xpay_server.Handler.Interleaving.{
  recorded, enter, World, Runs, begun, then_step, delivered, charged, unmoved, arrives, moves,
  charge, there, here,
}
use xpay_server.Handler.Concurrent.{IsSound, Runs-IsSound}
use xpay_server.Settler.Authorization.{Ethereum, decode_authorization}
use xpay_server.Config.{Config}
use xpay_server.Settler.Evm.{evm_settle, check_payment, submit}
use xpay_server.Tests.Gateway.{services, server, settler, settlement, pending, moment, paying}
use xpay_server.Tests.Relay.{delivers}
use xpay_server.Handler.Server.{PaymentSettler, raw}
use xpay_server.Tests.Fixtures.{evm_config, one_payment}
use xpay_server.Tests.Solana.{lib, lib-AreDistinct}
use xpay_server.Settler.Outcome.{Settlement}
use xpay_server.Settler.PayTo.{evm_settle-unprefixed}
use xpay_server.Handler.Atomic.{handle_payment-Runs}
use xpay_server.Store.Payments.{conflicts, record_payment}
use xpay_server.Cache.{get, is_expired}
use xpay_server.Handler.Entered.{IsSturdy, AllEntered, Runs-AllEntered, IsSturdyStep, IsSturdyMove}

abbrev pub world : Chains
world = record {
  now = pos 500;
  eth = Evm.eth;
  hash_struct = Evm.hash_struct;
  unmarshal_evm = Evm.unmarshal;
  transact = Evm.transact;
  lib = lib;
  unmarshal_solana = λ s. none;
  send = λ t. none;
  polls = [];
}

abbrev contract : AnySettler
contract = evm (record { contract = some (codes "usdc"); gas_wallet = some (codes "gas") })

sold :
    (handle_payment
      (services 200)
      (settler_of world evm_config contract)
      moment
      server
      paying).0.body
    ≡ raw (codes "application/json") (codes "{}")
unfolding handle_payment begin_payment get lookup str_beq is_expired ◌-ℤ◌ decode_payment_header
    finish_payment settler_of evm_settle check_payment decode_authorization parse_int parse_nat
    parse_digits equal_fold to_lower lower verify_eip712 eip712_digest normalize_signature submit
    split_signature manager_prices prices_for price_for table_or_default delivery
sold = refl

handle_payment-IsSold_example :
    IsSold (services 200) world lib-AreDistinct contract moment server paying (codes "{}")
handle_payment-IsSold_example =
    handle_payment-IsSold (services 200) world lib-AreDistinct contract moment server paying
      (codes "application/json") (codes "{}") sold

-- A server that nothing has been asked of yet.
abbrev quiet : World
quiet = record { server = server; requests = []; accepted = [] }

abbrev settlers : ℕ → PaymentSettler
settlers n = settler

handle_payment-Runs_example :
    (p : Pending) × (st : Settlement) × (begin_payment (services 200) moment server paying ≡ ok p)
    × Runs (services 200) settlers quiet (record {
      server = (handle_payment (services 200) settler moment server paying).1;
      requests = delivered p st ∷ [];
      accepted = (p, st) ∷ [];
    })
handle_payment-Runs_example =
    handle_payment-Runs (services 200) settlers 0 moment quiet paying (codes "application/json")
      (codes "{}") delivers

-- Two requests have begun, and the first of them is charged.
abbrev both_begun : World
both_begun = record quiet { requests = begun pending ∷ begun pending ∷ [] }

abbrev one_charged : World
one_charged = record quiet {
  requests = begun pending ∷ charged pending settlement ∷ [];
  accepted = (pending, settlement) ∷ [];
}

begins : begin_payment (services 200) moment server paying ≡ ok pending
unfolding begin_payment get lookup str_beq is_expired ◌-ℤ◌ decode_payment_header
begins = refl

racing : Runs (services 200) settlers quiet one_charged
racing =
    then_step both_begun one_charged
      (then_step (record quiet { requests = begun pending ∷ [] }) both_begun
        (then_step quiet (record quiet { requests = begun pending ∷ [] }) unmoved
          (arrives quiet moment paying pending begins))
        (arrives (record quiet { requests = begun pending ∷ [] }) moment paying pending begins))
      (moves both_begun (begun pending) (charged pending settlement) one_charged.requests server
        ((pending, settlement) ∷ []) (charge 0 pending settlement refl)
        (there (begun pending) (begun pending ∷ []) (charged pending settlement ∷ []) (here [])))

quiet-IsSound : IsSound (services 200) settlers one_payment.payments quiet
unfolding conflicts lookup
quiet-IsSound = record {
  intact = record {
    ledger = record { unique = (refl, tt); ids = (omega arith, tt) };
    cache = (refl, tt);
  };
  accepted = tt;
  founded = (inl (Memᴰ.head refl), tt);
}

-- Then the charged one is recorded.
abbrev one_recorded : World
one_recorded = record {
  server = record server {
    db =
        (record_payment false (pos 9) (payment_row (services 200) server pending settlement)
          server.db).1;
  };
  requests = begun pending ∷ recorded pending settlement ∷ [];
  accepted = one_charged.accepted;
}

recording : Runs (services 200) settlers quiet one_recorded
recording = then_step one_charged one_recorded racing (
    moves one_charged (charged pending settlement) (recorded pending settlement)
      one_recorded.requests one_recorded.server [] (enter moment pending settlement)
      (there (begun pending) (charged pending settlement ∷ []) (recorded pending settlement ∷ [])
        (here [])))

Runs-IsSound_example : IsSound (services 200) settlers one_payment.payments one_recorded
Runs-IsSound_example =
    Runs-IsSound (services 200) settlers one_payment.payments recording quiet-IsSound

recording-IsSturdy : IsSturdy (services 200) settlers recording
unfolding IsSturdy recording racing IsSturdyStep IsSturdyMove
recording-IsSturdy = ((((tt, tt), tt), tt), refl)

Runs-AllEntered_example : AllEntered (services 200) settlers one_recorded
Runs-AllEntered_example = Runs-AllEntered (services 200) settlers recording recording-IsSturdy tt

-- Addresses that are printed with `0x`, and a seller without it.
abbrev prefixed : Ethereum
prefixed = record (Evm.eth) { address_hex = λ a. codes "0x" ++ a }

abbrev bare_config : Config
bare_config = record evm_config { pay_to_address = codes "5e11e4" }

has_0x : (a : Str) → has_prefix (codes "0x" ++ a) (codes "0x") ≡ true
unfolding has_prefix
has_0x a = refl

has_no_0x : has_prefix (to_lower (codes "5e11e4")) (codes "0x") ≡ false
unfolding has_prefix to_lower lower
has_no_0x = refl

evm_settle-unprefixed_example :
    (evm_settle prefixed Evm.hash_struct Evm.unmarshal Evm.transact bare_config
      (pos 500)
      Evm.payment
      (pos 42)).result
    ≢ ok settlement
evm_settle-unprefixed_example =
    evm_settle-unprefixed prefixed Evm.hash_struct Evm.unmarshal Evm.transact bare_config (pos 500)
      Evm.payment (pos 42) settlement has_0x has_no_0x
