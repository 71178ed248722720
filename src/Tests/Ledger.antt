-- ===== src/Tests/Ledger.antt =====
-- internal/store/payment.go at a ledger of one payment.
use xpay_server.Base.{
  ◌≡◌, refl, str_beq, All, codes, pos, false, arith, ◌+ℤ◌, ◌∷◌, ok, IsDescending, length, ◌≤◌, Memᴰ,
  ◌⊎◌, ◌≤ℤ◌, ◌-ℤ◌, sort_by, place, some, none, [],
}
use xpay_server.Tests.Fixtures.{payment_of, one_payment, never_fails}
use xpay_server.Store.Db.{Payment, Db}
use xpay_server.Store.Payments.{
  record_payment, sum_by_address, conflicts, recent_by_address, sum_column, from_whom, newest,
}
use xpay_server.Store.Records.{
  IsLedger, recent_by_address_lem, Recorded, as_given, record_payment-Recorded,
}
use xpay_server.Store.Migrate.{
  Schema, migrate, without_cached, execute_all, execute, unique_index, has_twins, any_payment,
}
use xpay_server.Store.Migrated.{migrate_again, IsMigrated}

abbrev next : Payment
next = payment_of (codes "req_1") (codes "0xbb") 58

abbrev two_payments : Db
two_payments = record one_payment {
  payments = record next { id = 2; created_at = pos 9 } ∷ one_payment.payments;
  next_id = 3;
}

next_recorded : record_payment false (pos 9) next one_payment ≡ (ok tt, two_payments)
unfolding record_payment conflicts str_beq
next_recorded = refl

spent : sum_by_address false (codes "0xbuyer") one_payment ≡ ok (pos 42, 1)
unfolding sum_by_address sum_column from_whom str_beq ◌+ℤ◌ ◌-ℤ◌
spent = refl

one_payment-IsLedger : IsLedger one_payment
unfolding conflicts
one_payment-IsLedger = record { unique = (refl, tt); ids = (omega arith, tt) }

record_payment-Recorded_example :
    Recorded false (pos 9) next one_payment (record_payment false (pos 9) next one_payment)
record_payment-Recorded_example = record_payment-Recorded false (pos 9) next one_payment

recent : recent_by_address false (codes "0xbuyer") (pos 200) one_payment ≡ ok one_payment.payments
unfolding recent_by_address newest sort_by from_whom str_beq place
recent = refl

recent_by_address_lem_example :
    All (λ q. q.from_address ≡ codes "0xbuyer") one_payment.payments
    × IsDescending (λ (q : Payment). q.created_at) one_payment.payments
    × (length one_payment.payments ≤ 200)
    × (Memᴰ
          (record (payment_of (codes "req_0") (codes "0xaa") 42) { id = 1; created_at = pos 5 })
          one_payment.payments
        ⊎ ((length one_payment.payments ≡ 200)
            × All (λ r. pos 5 ≤ℤ r.created_at) one_payment.payments))
recent_by_address_lem_example =
    recent_by_address_lem (codes "0xbuyer") (pos 200) 200 one_payment
      (record (payment_of (codes "req_0") (codes "0xaa") 42) { id = 1; created_at = pos 5 })
      (as_given 200 (omega arith) (omega arith)) recent (Memᴰ.head refl) refl

-- A file of before `cached_input`, without indexes.
abbrev old_file : Schema
old_file = record {
  payments = some one_payment.payments;
  from_index = false;
  tx_index = false;
  request_index = false;
  settings = none;
  prices = some (
      without_cached
        ((codes "gpt", record { input = codes "1"; output = codes "2"; is_default = pos 0 }) ∷ []));
}

old_file_migrates : (migrate never_fails old_file).0 ≡ ok tt
unfolding migrate execute_all execute unique_index has_twins any_payment
old_file_migrates = refl

migrate_again_example :
    IsMigrated old_file (migrate never_fails old_file).1
    × (migrate never_fails (migrate never_fails old_file).1
        ≡ (ok tt, (migrate never_fails old_file).1))
migrate_again_example = migrate_again never_fails never_fails old_file (λ i. refl) old_file_migrates
