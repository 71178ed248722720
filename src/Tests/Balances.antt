-- ===== src/Tests/Balances.antt =====
-- internal/handler/info.go: the balance of a buyer whose payment is delivered.
use xpay_server.Tests.Fixtures.{one_payment}
use xpay_server.Tests.Gateway.{
  services, server, settler, settlement, pending, moment, paying, payment,
}
use xpay_server.Handler.Delivery.{IsPaid}
use xpay_server.Handler.Booked.{Booked, row_added}
use xpay_server.Handler.Info.{balance, BalanceInfo, balance_is, normalize_address}
use xpay_server.Handler.Balances.{balance-handle_payment, IsCharged}
use xpay_server.Handler.Payment.{
  decode_payment_header, handle_payment, payment_row, begin_payment, finish_payment, delivery,
  settle_books,
}
use xpay_server.Handler.Server.{Server}
use xpay_server.Cache.{get, is_expired, delete}
use xpay_server.Base.{
  codes, some, str_beq, lookup, refl, pos, All, false, ◌≡◌, ok, ◌-ℤ◌, ◌+ℤ◌, arith, sort_by, place,
  decimal, digits, to_int64, erase, none, Str, str_eq, ◌≢◌, str_beq_iff,
}
use xpay_server.Store.Payments.{
  sum_by_address, sum_column, from_whom, recent_by_address, newest, record_payment, conflicts,
}
use xpay_server.Pricing.Manager.{manager_prices}
use xpay_server.Pricing.Display.{prices_for, usdc_units_to_usd, float_string, six_digits}
use xpay_server.Pricing.Table.{price_for, table_or_default}

decoded : decode_payment_header (services 200) paying.payment ≡ ok payment
unfolding decode_payment_header str_beq
decoded = refl

abbrev charged_server : Server
charged_server = (handle_payment (services 200) settler moment server paying).1

kept_books : charged_server ≡ settle_books (services 200) moment server pending settlement
unfolding handle_payment begin_payment get lookup str_beq is_expired ◌-ℤ◌ decode_payment_header
    finish_payment manager_prices prices_for price_for table_or_default delivery
kept_books = refl

staged : get (pos 60) (codes "req_1") server.cache ≡ some pending.entry
unfolding get lookup str_beq is_expired ◌-ℤ◌
staged = refl

entry_gone :
    lookup
      (codes "req_1")
      (settle_books (services 200) moment server pending settlement).cache.store
    ≡ none
unfolding settle_books delete erase lookup str_beq
entry_gone = refl

entries_stay :
    (k : Str)
    → k ≢ codes "req_1"
    → lookup k (settle_books (services 200) moment server pending settlement).cache.store
      ≡ lookup k server.cache.store
unfolding settle_books delete erase lookup
entries_stay k other = ground (arith, str_beq_iff (codes "req_1") k)

pending-Booked :
    Booked
      (services 200)
      moment
      server
      paying
      pending
      settlement
      (settle_books (services 200) moment server pending settlement)
unfolding settle_books record_payment conflicts str_beq payment_row to_int64
pending-Booked =
    row_added _
      (record {
        payer_is = refl;
        seller_is = refl;
        amount_is = refl;
        hash_is = refl;
        model_is = refl;
        request_is = refl;
        network_is = refl;
        time_is = refl;
      })
      refl

abbrev paid :
    IsPaid (services 200) moment server paying settler (codes "application/json") (codes "{}")
paid = record {
  pending = pending;
  settlement = settlement;
  begun = record {
    id_is = refl;
    staged = staged;
    decoded = decoded;
    version = refl;
    network = refl;
  };
  settled = refl;
  kind_is = refl;
  bytes_are = refl;
  gone = rw kept_books entry_gone;
  others = λ k other. rw kept_books (entries_stay k other);
  booked = rw kept_books pending-Booked;
  books = kept_books;
}

abbrev before : BalanceInfo
before = record {
  address = codes "0xbuyer";
  total_spent = pos 42;
  total_spent_usd = codes "0.000042";
  payment_count = 1;
  recent = one_payment.payments;
}

shown : balance some some false false server.cfg (codes "0xbuyer") server.db ≡ balance_is before
unfolding balance normalize_address sum_by_address sum_column from_whom str_beq ◌+ℤ◌ ◌-ℤ◌
    recent_by_address newest sort_by place usdc_units_to_usd float_string decimal digits six_digits
shown = refl

fresh :
    All
      (λ q.
        (q.request_id ≢ codes "req_1")
        × (¬ ((q.network ≡ server.cfg.network) × (q.tx_hash ≡ settlement.tx_hash))))
      server.db.payments
fresh = ground arith

balance-handle_payment_example :
    (after : BalanceInfo) × (balance some some false false server.cfg
        (codes "0xbuyer")
        charged_server.db
      ≡ balance_is after)
    × IsCharged (codes "0xbuyer") (pos 42) before after
unfolding payment_row to_int64 ◌-ℤ◌ ◌+ℤ◌
balance-handle_payment_example =
    balance-handle_payment (services 200) settler moment server paying some some false
      (codes "0xbuyer") (codes "application/json") (codes "{}") paid before refl fresh shown refl
