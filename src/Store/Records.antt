-- ===== src/Store/Records.antt =====
-- internal/store/payment.go: what the ledger of payments guarantees.
use xpay_server.Base.{
  ℕ, ◌≡◌, ◌↔◌, refl, ◌⊎◌, inl, inr, Bool, true, false, List, ◌∷◌, arith, Memᴰ, All, All-mem,
  Bool-cases, ◌<◌, str_beq_iff, ℤ, Str, ◌∙◌, ok, beq_of_eq, ◌==◌, All-weaken, err, ap, IsDescending,
  ◌+ℤ◌, sym, length, if◌then◌else◌, ◌≤◌, suc, ◌≤ℤ◌, Result-cases, sort_by, str_eq, greater_first,
  sort_by-IsDescending, take, All-take, All-sort_by, take-IsDescending, [], length-take_le,
  mem-take-drop, mem-sort_by, drop, drop-le-take, Result, zero, pos, ◌<ℤ◌,
}
use xpay_server.Store.Db.{Payment, Db, unique_violation, driver_failed, DbError}
use xpay_server.Store.Payments.{
  conflicts, record_payment, from_whom, sum_by_address, newest, sum_column, recent_by_address,
  fits_int64, clamp_limit,
}

-- No two rows share a request, or a transaction on one network.
abbrev pub AreUnique : List Payment → Type 0
AreUnique [] = Unit
AreUnique (p ∷ ps) = (conflicts p ps ≡ false) × AreUnique ps

pub record IsLedger (d : Db) : Type 0 where
  pub unique : AreUnique d.payments
  pub ids : All (λ p. p.id < d.next_id) d.payments

-- A row that stands in the way of another.
abbrev pub Conflict : Payment → Payment → Type 0
Conflict p q = (q.request_id ≡ p.request_id) ⊎ ((q.network ≡ p.network) × (q.tx_hash ≡ p.tx_hash))

conflicts-false :
    (p : Payment) (ps : List Payment) → conflicts p ps ≡ false → All (λ q. ¬ (Conflict p q)) ps
unfolding conflicts
conflicts-false p [] h = tt
conflicts-false p (q ∷ ps) h = (
  λ c. elim c [
    | inl e ↦ ground (arith, str_beq_iff q.request_id p.request_id)
    | inr e ↦
        ground (arith, str_beq_iff q.network p.network, str_beq_iff q.tx_hash p.tx_hash, e.0, e.1)
  ],
  conflicts-false p ps (ground arith),
)

pub conflicts-true :
    (p : Payment) (ps : List Payment)
    → conflicts p ps ≡ true
    → (q : Payment) × Memᴰ q ps × Conflict p q
unfolding conflicts
conflicts-true p [] h = cc
conflicts-true p (q ∷ ps) h = elim (Bool-cases (conflicts p ps)) [
  | inl later ↦ let (r, m, c) = conflicts-true p ps later in (r, Memᴰ.tail m, c)
  | inr no_later ↦ (
    q,
    Memᴰ.head refl,
    ground (
      arith,
      str_beq_iff q.request_id p.request_id,
      str_beq_iff q.network p.network,
      str_beq_iff q.tx_hash p.tx_hash,
    ),
  )
]

conflicts-stamped :
    (p : Payment) (n : ℕ) (t : ℤ) (ps : List Payment)
    → conflicts (record p { id = n; created_at = t }) ps ≡ conflicts p ps
unfolding conflicts
conflicts-stamped p n t [] = refl
conflicts-stamped p n t (q ∷ ps) = ground (arith, conflicts-stamped p n t ps)

-- Every record, also a failed one, keeps the ledger's rows unique and its ids below the counter.
pub record_payment-IsLedger :
    (fault : Bool) (now : ℤ) (p : Payment) (d : Db)
    → IsLedger d
    → IsLedger (record_payment fault now p d).1
unfolding record_payment
record_payment-IsLedger true now p d l = l
record_payment-IsLedger false now p d l = elim (Bool-cases (conflicts p d.payments)) [
  | inl h ↦ rw h l
  | inr h ↦ rw h (record {
    unique = (conflicts-stamped p d.next_id now d.payments ∙ h, l.unique);
    ids = (omega arith, All-weaken (λ q. q.id < d.next_id) _ (λ q k. omega arith) d.payments l.ids);
  })
]

pub record_payment_iff :
    (fault : Bool) (now : ℤ) (p : Payment) (d : Db)
    → ((record_payment fault now p d).0 ≡ ok tt)
      ↔ ((fault ≡ false) × All (λ q. ¬ (Conflict p q)) d.payments)
unfolding record_payment
record_payment_iff true now p d = (λ e. cc, λ h. cc h.0)
record_payment_iff false now p d = elim (Bool-cases (conflicts p d.payments)) [
  | inl h ↦ rw h (
    λ e. cc,
    λ none_such.
        let (q, m, c) = conflicts-true p d.payments h in
        absurd (All-mem (λ r. ¬ (Conflict p r)) d.payments none_such.1 m c),
  )
  | inr h ↦ rw h (λ e. (refl, conflicts-false p d.payments h), λ k. refl)
]

-- What a record has done: its row is in front of all others, under a new id; or nothing has changed,
-- since the driver failed or a row is in the way.
pub data Recorded (fault : Bool) (now : ℤ) (p : Payment) (d : Db)
    : Result DbError (Unit {0}) × Db → Type 0 where
  added :
      (d' : Db) (row : Payment)
      → fault ≡ false
      → All (λ q. ¬ (Conflict p q)) d.payments
      → d'.payments ≡ row ∷ d.payments
      → row ≡ record p { id = d.next_id; created_at = now }
      → d.next_id < d'.next_id
      → d'.settings ≡ d.settings
      → d'.model_prices ≡ d.model_prices
      → Recorded fault now p d (ok tt, d')
  kept_out :
      (e : DbError)
      → (fault ≡ true) ⊎ ((q : Payment) × Memᴰ q d.payments × Conflict p q)
      → Recorded fault now p d (err e, d)

-- A payment is recorded, and its row added to the others, exactly when the driver does not fail and
-- no row has its request or its transaction; else the database stays as it was.
pub record_payment-Recorded :
    (fault : Bool) (now : ℤ) (p : Payment) (d : Db)
    → Recorded fault now p d (record_payment fault now p d)
unfolding record_payment
record_payment-Recorded true now p d = kept_out driver_failed (inl refl)
record_payment-Recorded false now p d = elim (Bool-cases (conflicts p d.payments)) [
  | inl h ↦ rw h (kept_out unique_violation (inr (conflicts-true p d.payments h)))
  | inr h ↦ rw h (added _ _ refl (conflicts-false p d.payments h) refl refl (omega arith) refl refl)
]

-- Once a payment for a request is recorded, no other for that request is.
pub record_payment_once :
    (now later : ℤ) (p q : Payment) (d : Db)
    → (record_payment false now p d).0 ≡ ok tt
    → q.request_id ≡ p.request_id
    → (record_payment false later q (record_payment false now p d).1).0 ≡ err unique_violation
unfolding record_payment conflicts
record_payment_once now later p q d e same = ground (arith, str_beq_iff p.request_id q.request_id)

-- A recorded payment adds its amount and one to what its payer is said to have spent, and nothing
-- to what others have, as long as the sum fits in 64 bits.
pub sum_by_address-record_payment :
    (now : ℤ) (p : Payment) (addr : Str) (d : Db) (total : ℤ) (count : ℕ)
    → (record_payment false now p d).0 ≡ ok tt
    → sum_by_address false addr d ≡ ok (total, count)
    → fits_int64 (p.amount +ℤ total) ≡ true
    → sum_by_address false addr (record_payment false now p d).1
      ≡ ok (if p.from_address == addr then (p.amount +ℤ total, suc count) else (total, count))
unfolding record_payment sum_by_address from_whom sum_column
sum_by_address-record_payment now p addr d total count e s fits =
    elim (Result-cases (sum_column (λ (q : Payment). q.amount) (from_whom addr d.payments))) [
      | inr (e', failed) ↦ absurd (ground arith)
      | inl (t, summed) ↦ elim (Bool-cases (p.from_address == addr)) [
        | inl mine ↦ ground arith
        | inr other ↦ ground arith
      ]
    ]

from_whom-mem :
    (addr : Str) (ps : List Payment) (q : Payment)
    → Memᴰ q ps
    → q.from_address ≡ addr
    → Memᴰ q (from_whom addr ps)
unfolding from_whom
from_whom-mem addr [] q m e = elim m [ ]
from_whom-mem addr (p ∷ ps) q (Memᴰ.head h) e =
    rw (beq_of_eq p.from_address addr (ap (λ (r : Payment). r.from_address) (sym h) ∙ e))
      (Memᴰ.head h)
from_whom-mem addr (p ∷ ps) q (Memᴰ.tail m) e = elim (Bool-cases (p.from_address == addr)) [
  | inl mine ↦ rw mine (Memᴰ.tail (from_whom-mem addr ps q m e))
  | inr other ↦ rw other (from_whom-mem addr ps q m e)
]

from_whom-All :
    (addr : Str) (ps : List Payment) → All (λ q. q.from_address ≡ addr) (from_whom addr ps)
unfolding from_whom
from_whom-All addr [] = tt
from_whom-All addr (p ∷ ps) = elim (Bool-cases (p.from_address == addr)) [
  | inl mine ↦ rw mine ((str_beq_iff p.from_address addr).0 mine, from_whom-All addr ps)
  | inr other ↦ rw other (from_whom-All addr ps)
]

abbrev created : Payment → ℤ
created p = p.created_at

-- What is left after n rows is left since they are n.
length-take-full :
    (n : ℕ) (ps : List Payment) (q : Payment) → Memᴰ q (drop n ps) → length (take n ps) ≡ n
length-take-full zero ps q m = refl
length-take-full (suc n) [] q m = elim m [ ]
length-take-full (suc n) (p ∷ ps) q m = ap suc (length-take-full n ps q m)

-- How many rows a limit asks for: itself from 1 to 200, and 50 otherwise.
pub data Asks : ℤ → ℕ → Type 0 where
  as_given : (n : ℕ) → 0 < n → n ≤ 200 → Asks (pos n) n
  by_default : (limit : ℤ) → (limit ≤ℤ pos 0) ⊎ (pos 200 <ℤ limit) → Asks limit 50

clamp_limit-Asks : (limit : ℤ) (n : ℕ) → Asks limit n → clamp_limit limit ≡ n
clamp_limit-Asks _ _ (as_given n low high) = ground arith
clamp_limit-Asks _ _ (by_default limit (inl low)) = ground arith
clamp_limit-Asks _ _ (by_default limit (inr high)) = ground arith

-- The payments listed for an address are its own, newest first, at most as many as are asked for: a
-- limit from 1 to 200 as it is given, and 50 for any other. A payment of the address that is not
-- listed is left out only since the list is full, and is no newer than any that is listed.
pub recent_by_address_lem :
    (addr : Str) (limit : ℤ) (n : ℕ) (d : Db) (q : Payment) {out : List Payment}
    → Asks limit n
    → recent_by_address false addr limit d ≡ ok out
    → Memᴰ q d.payments
    → q.from_address ≡ addr
    → All (λ q. q.from_address ≡ addr) out
      × IsDescending (λ (q : Payment). q.created_at) out
      × (length out ≤ n)
      × (Memᴰ q out ⊎ ((length out ≡ n) × All (λ r. q.created_at ≤ℤ r.created_at) out))
unfolding recent_by_address newest
recent_by_address_lem addr limit n d q {out} asks e m from =
    let mine = from_whom addr d.payments in
    let sorted = sort_by (greater_first created) mine in
    let order = sort_by-IsDescending created mine in
    let same : take n sorted ≡ out = cc (e, clamp_limit-Asks limit n asks) in
    rw (← same) (
      All-take (λ q. q.from_address ≡ addr) n sorted
          (All-sort_by (greater_first created) (λ q. q.from_address ≡ addr) mine
            (from_whom-All addr d.payments)),
      take-IsDescending created n sorted order,
      length-take_le n sorted,
      elim (mem-take-drop n sorted
          (mem-sort_by (greater_first created) mine (from_whom-mem addr d.payments q m from))) [
            | inl kept ↦ inl kept
            | inr left ↦ inr (
              length-take-full n sorted q left,
              All-weaken (λ r. All (λ s. created s ≤ℤ created r) (drop n sorted)) _
                  (λ r h. All-mem (λ s. created s ≤ℤ created r) (drop n sorted) h left)
                  (take n sorted) (drop-le-take created n sorted order),
            )
          ],
    )
