-- ===== src/Store/Payments.antt =====
-- internal/store/payment.go: the ledger of settled payments.
use xpay_server.Base.{
  ℕ, ◌+◌, Bool, true, false, ◌||◌, ◌&&◌, List, [], ◌∷◌, if◌then◌else◌, ◌==◌, str_eq, Str, ℤ, pos,
  leb_ℤ, ltb_ℤ, ◌+ℤ◌, ◌-ℤ◌, Result, ok, err, ◌>>=◌, length, take, contains, sort_by, greater_first,
  two63, magnitude,
}
use xpay_server.Store.Db.{
  Payment, Db, Outcome, DbError, driver_failed, unique_violation, integer_overflow,
}

-- The two unique indexes.
unfoldable pub conflicts : Payment → List Payment → Bool
conflicts p [] = false
conflicts p (q ∷ ps) =
    (q.request_id == p.request_id || (q.network == p.network && q.tx_hash == p.tx_hash))
    || conflicts p ps

-- `Record`: the columns of the statement are the caller's, the others the database's.
unfoldable pub record_payment : Bool → ℤ → Payment → Db → Outcome (Unit {0})
record_payment fault now p d =
    if fault
    then (err driver_failed, d)
    else if conflicts p d.payments
    then (err unique_violation, d)
    else (
      ok tt,
      record d {
        payments = record p { id = d.next_id; created_at = now } ∷ d.payments;
        next_id = d.next_id + 1;
      },
    )

unfoldable pub from_whom : Str → List Payment → List Payment
from_whom addr [] = []
from_whom addr (p ∷ ps) =
    let rest = from_whom addr ps in if p.from_address == addr then p ∷ rest else rest

abbrev pub fits_int64 : ℤ → Bool
fits_int64 n = leb_ℤ n (pos two63 -ℤ pos 1) && leb_ℤ (pos 0 -ℤ pos two63) n

-- SQLite's SUM over an integer column: an overflow is an error.
unfoldable pub sum_column : (Payment → ℤ) → List Payment → Result DbError ℤ
sum_column column [] = ok (pos 0)
sum_column column (p ∷ ps) = sum_column column ps >>= λ s.
    if fits_int64 (column p +ℤ s) then ok (column p +ℤ s) else err integer_overflow

-- `SumByAddress`: the total and the count.
unfoldable pub sum_by_address : Bool → Str → Db → Result DbError (ℤ × ℕ)
sum_by_address true addr d = err driver_failed
sum_by_address false addr d = do
  let mine = from_whom addr d.payments
  total ← sum_column (λ p. p.amount) mine
  ok (total, length mine)

abbrev pub clamp_limit : ℤ → ℕ
clamp_limit limit = if leb_ℤ limit (pos 0) || ltb_ℤ (pos 200) limit then 50 else magnitude limit

-- `ORDER BY created_at DESC LIMIT limit`
unfoldable pub newest : ℤ → List Payment → List Payment
newest limit ps =
    take (clamp_limit limit) (sort_by (greater_first (λ (p : Payment). p.created_at)) ps)

unfoldable pub recent_by_address : Bool → Str → ℤ → Db → Result DbError (List Payment)
recent_by_address true addr limit d = err driver_failed
recent_by_address false addr limit d = ok (newest limit (from_whom addr d.payments))

unfoldable pub recent_payments : Bool → ℤ → Db → Result DbError (List Payment)
recent_payments true limit d = err driver_failed
recent_payments false limit d = ok (newest limit d.payments)

pub record Totals : Type 0 where
  pub total_amount : ℤ
  pub payment_count : ℕ
  pub unique_payers : ℕ
  pub prompt_tokens : ℤ
  pub completion_tokens : ℤ

-- COUNT(DISTINCT from_address)
unfoldable pub distinct : List Payment → List Str → List Str
distinct [] seen = seen
distinct (p ∷ ps) seen =
    distinct ps (if contains seen p.from_address then seen else p.from_address ∷ seen)

-- `Summary`
unfoldable pub summary : Bool → Db → Result DbError Totals
summary true d = err driver_failed
summary false d = do
  amount ← sum_column (λ p. p.amount) d.payments
  prompt ← sum_column (λ p. p.prompt_tokens) d.payments
  completion ← sum_column (λ p. p.completion_tokens) d.payments
  ok (record {
    total_amount = amount;
    payment_count = length d.payments;
    unique_payers = length (distinct d.payments []);
    prompt_tokens = prompt;
    completion_tokens = completion;
  })
