-- ===== src/Handler/Balances.antt =====
-- internal/handler/info.go and relay.go: what a delivered payment does to the balances that are shown.
use xpay_server.Handler.Info.{balance, BalanceInfo, balance_is, normalize_address, or_none}
use xpay_server.Store.Payments.{record_payment, sum_by_address, recent_by_address, fits_int64}
use xpay_server.Base.{
  ap, ◌∙◌, refl, Bool-cases, Str, Option, Bool, false, ◌≡◌, some, ok, Option-cases, inl, arith, inr,
  Result-cases, ℤ, ℕ, if◌then◌else◌, ◌==◌, ◌+ℤ◌, suc, pos, str_eq, All, true, ◌≢◌, to_int64,
  All-weaken,
}
use xpay_server.Config.{Config}
use xpay_server.Store.Db.{Db}
use xpay_server.Handler.Payment.{settle_books, payment_row, handle_payment}
use xpay_server.Handler.Server.{Services, PaymentSettler, Moment, Server, Request}
use xpay_server.Pricing.Display.{usdc_units_to_usd}
use xpay_server.Handler.Delivery.{IsPaid}
use xpay_server.Store.Records.{Conflict, record_payment_iff, sum_by_address-record_payment}

-- What `Balance` has found where it answers.
balance_sound :
    (base58 checksum : Str → Option Str) (recent_fault : Bool) (cfg : Config) (addr : Str) (d : Db)
    (info : BalanceInfo)
    → balance base58 checksum false recent_fault cfg addr d ≡ balance_is info
    → (normalize_address base58 checksum cfg addr ≡ some info.address)
      × (sum_by_address false info.address d ≡ ok (info.total_spent, info.payment_count))
unfolding balance
balance_sound base58 checksum rf cfg addr d info e =
    elim (Option-cases (normalize_address base58 checksum cfg addr)) [
      | inl bad ↦ absurd (ground arith)
      | inr (norm, good) ↦ elim (Result-cases (sum_by_address false norm d)) [
        | inr (e', failed) ↦ absurd (ground arith)
        | inl ((total, count), summed) ↦ (ground arith, ground arith)
      ]
    ]

balance_lem :
    (base58 checksum : Str → Option Str) (recent_fault : Bool) (cfg : Config) (addr norm : Str)
    (d : Db) (total : ℤ) (count : ℕ)
    → normalize_address base58 checksum cfg addr ≡ some norm
    → sum_by_address false norm d ≡ ok (total, count)
    → balance base58 checksum false recent_fault cfg addr d
      ≡ balance_is (record {
        address = norm;
        total_spent = total;
        total_spent_usd = usdc_units_to_usd (some total);
        payment_count = count;
        recent = or_none (recent_by_address recent_fault norm (pos 50) d);
      })
unfolding balance
balance_lem base58 checksum rf cfg addr norm d total count good summed = ground arith

-- What an answer says after a payment: its amount and one more for the payer, nothing for another.
pub record IsCharged (payer : Str) (amount : ℤ) (before after : BalanceInfo) : Type 0 where
  pub address_is : after.address ≡ before.address
  pub total_is :
      after.total_spent
      ≡ (if payer == before.address then amount +ℤ before.total_spent else before.total_spent)
  pub dollars_are : after.total_spent_usd ≡ usdc_units_to_usd (some after.total_spent)
  pub count_is :
      after.payment_count
      ≡ (if payer == before.address then suc before.payment_count else before.payment_count)

-- A delivered payment shows in the balances: where the driver does not fail and the ledger has
-- neither the request nor the transaction, an address that was answered with a balance is answered
-- again: if it is the address that the settler named as the payer, with the price of the delivered
-- response and one payment more, and unchanged if it is not, as long as the new sum fits in 64 bits.
pub balance-handle_payment :
    (sv : Services) (settler : PaymentSettler) (at : Moment) (s : Server) (req : Request)
    (base58 checksum : Str → Option Str) (recent_fault : Bool) (addr kind bytes : Str)
    (paid : IsPaid sv at s req settler kind bytes) (before : BalanceInfo)
    → at.db_fault ≡ false
    → All
        (λ q.
          (q.request_id ≢ paid.pending.req_id)
          × (¬ ((q.network ≡ s.cfg.network) × (q.tx_hash ≡ paid.settlement.tx_hash))))
        s.db.payments
    → balance base58 checksum false recent_fault s.cfg addr s.db ≡ balance_is before
    → fits_int64 (to_int64 paid.pending.entry.cost +ℤ before.total_spent) ≡ true
    → (after : BalanceInfo) × (balance base58 checksum false recent_fault s.cfg addr
          (handle_payment sv settler at s req).1.db
        ≡ balance_is after)
      × IsCharged paid.settlement.payer (to_int64 paid.pending.entry.cost) before after
unfolding settle_books payment_row
balance-handle_payment sv settler at s req base58 checksum rf addr kind bytes paid before works
      fresh shown fits =
    let row = payment_row sv s paid.pending paid.settlement in
    let (good, summed) = balance_sound base58 checksum rf s.cfg addr s.db before shown in
    let recorded = (record_payment_iff false at.db_now row s.db).1 (
      refl,
      All-weaken _ (λ q. ¬ (Conflict row q))
          (λ q k c. elim c [ inl twin ↦ k.0 twin | inr tx ↦ k.1 tx ]) s.db.payments fresh,
    ) in
    let sum =
      sum_by_address-record_payment at.db_now row before.address s.db before.total_spent
        before.payment_count recorded summed fits in
    let entered : (handle_payment sv settler at s req).1.db
        ≡ (record_payment false at.db_now row s.db).1 =
      ap (λ (t : Server). t.db) paid.books
      ∙ ap (λ f. (record_payment f at.db_now row s.db).1) works in
    rw entered (elim (Bool-cases (row.from_address == before.address)) [
      | inl mine ↦ (
        _,
        balance_lem base58 checksum rf s.cfg addr before.address _
            (row.amount +ℤ before.total_spent) (suc before.payment_count) good (rw mine at sum),
        record {
          address_is = refl;
          total_is = rw mine refl;
          dollars_are = refl;
          count_is = rw mine refl;
        },
      )
      | inr other ↦ (
        _,
        balance_lem base58 checksum rf s.cfg addr before.address _ before.total_spent
            before.payment_count good (rw other at sum),
        record {
          address_is = refl;
          total_is = rw other refl;
          dollars_are = refl;
          count_is = rw other refl;
        },
      )
    ])
