-- ===== src/Handler/Entered.antt =====
-- internal/handler/relay.go: the ledger has what was delivered, under every interleaving.
use xpay_server.Base.{
  ◌≡◌, List, Bool, ℕ, ℤ, Memᴰ, ◌⊎◌, Bool-cases, false, All, inl, inr, All-weaken, true, refl, ap,
}
use xpay_server.Handler.Interleaving.{
  All-Replaced, unmoved, recorded, cleared, delivered, lost, begun, refused, charged, Phase, World,
  Moves, Steps, Runs, enter, moves, then_step, charge, arrives, refuse, clear, asks, deliver, panic,
  sweeps, prices_change, markup_changes,
}
use xpay_server.Store.Payments.{record_payment, conflicts}
use xpay_server.Handler.Server.{Services, Server, PaymentSettler}
use xpay_server.Store.Db.{Payment, Db}
use xpay_server.Handler.Payment.{payment_row, Pending}
use xpay_server.Settler.Outcome.{Settlement}
use xpay_server.Cache.{sweep}
use xpay_server.Store.Records.{conflicts-true}
use xpay_server.Handler.History.{handle_initial-cases}
use xpay_server.Handler.Keeping.{run-IsApart, save_settings-IsApart}

-- A row for the request, or for its transaction.
abbrev pub HasRow : List Payment → Pending → Settlement → Type 0
HasRow rows p st =
    (q : Payment) × Memᴰ q rows × ((q.request_id ≡ p.req_id) ⊎ (q.tx_hash ≡ st.tx_hash))

-- A request that is past its record has a row.
unfoldable pub IsEntered : List Payment → Phase → Type 0
IsEntered rows (recorded p st) = HasRow rows p st
IsEntered rows (cleared p st) = HasRow rows p st
IsEntered rows (delivered p st) = HasRow rows p st
IsEntered rows (lost p st) = HasRow rows p st
IsEntered rows (begun p) = Unit
IsEntered rows (refused p) = Unit
IsEntered rows (charged p st) = Unit

HasRow-mono :
    {rows rows' : List Payment} (p : Pending) (st : Settlement)
    → ((q : Payment) → Memᴰ q rows → Memᴰ q rows')
    → HasRow rows p st
    → HasRow rows' p st
HasRow-mono p st keeps (q, m, alike) = (q, keeps q m, alike)

IsEntered-mono :
    {rows rows' : List Payment} (r : Phase)
    → ((q : Payment) → Memᴰ q rows → Memᴰ q rows')
    → IsEntered rows r
    → IsEntered rows' r
unfolding IsEntered
IsEntered-mono (recorded p st) keeps h = HasRow-mono p st keeps h
IsEntered-mono (cleared p st) keeps h = HasRow-mono p st keeps h
IsEntered-mono (delivered p st) keeps h = HasRow-mono p st keeps h
IsEntered-mono (lost p st) keeps h = HasRow-mono p st keeps h
IsEntered-mono (begun p) keeps h = tt
IsEntered-mono (refused p) keeps h = tt
IsEntered-mono (charged p st) keeps h = tt

record_payment-keeps :
    (fault : Bool) (now : ℤ) (p : Payment) (d : Db) (q : Payment)
    → Memᴰ q d.payments
    → Memᴰ q (record_payment fault now p d).1.payments
unfolding record_payment
record_payment-keeps true now p d q m = m
record_payment-keeps false now p d q m = elim (Bool-cases (conflicts p d.payments)) [
  | inl twin ↦ rw twin m
  | inr fresh ↦ rw fresh (Memᴰ.tail m)
]

-- After a record that the driver does not fail, its row is there, or one that stood in its way.
record_payment-HasRow :
    (sv : Services) (s : Server) (now : ℤ) (p : Pending) (st : Settlement)
    → HasRow (record_payment false now (payment_row sv s p st) s.db).1.payments p st
unfolding record_payment payment_row
record_payment-HasRow sv s now p st =
    let row = payment_row sv s p st in
    elim (Bool-cases (conflicts row s.db.payments)) [
      | inr fresh ↦ rw fresh (_, Memᴰ.head refl, inl refl)
      | inl twin ↦
          let (q, m, alike) = conflicts-true row s.db.payments twin in
          rw twin (q, m, elim alike [ inl id ↦ inl id | inr tx ↦ inr tx.1 ])
    ]

module _ (sv : Services) (settlers : ℕ → PaymentSettler) where
  -- The driver does not fail at the record of a payment.
  unfoldable pub IsSturdyMove :
      {s t : Server} {x y : Phase} {new : List (Pending × Settlement)}
      → Moves sv settlers s x y t new
      → Type 0
  IsSturdyMove (enter at p st) = at.db_fault ≡ false
  IsSturdyMove _ = Unit

  unfoldable pub IsSturdyStep : {w v : World} → Steps sv settlers w v → Type 0
  IsSturdyStep (moves w x y rs s new m r) = IsSturdyMove m
  IsSturdyStep _ = Unit

  unfoldable pub IsSturdy : {w v : World} → Runs sv settlers w v → Type 0
  IsSturdy unmoved = Unit
  IsSturdy (then_step u v before last) = IsSturdy before × IsSturdyStep last

  abbrev pub AllEntered : World → Type 0
  AllEntered w = All (IsEntered w.server.db.payments) w.requests

  Moves-keeps :
      {s t : Server} {x y : Phase} {new : List (Pending × Settlement)}
      → Moves sv settlers s x y t new
      → (q : Payment) → Memᴰ q s.db.payments
      → Memᴰ q t.db.payments
  Moves-keeps (charge n p st e) q m = m
  Moves-keeps (refuse n p e k) q m = m
  Moves-keeps {s} (enter at p st) q m =
      record_payment-keeps at.db_fault at.db_now (payment_row sv s p st) s.db q m
  Moves-keeps (clear p st) q m = m
  Moves-keeps (deliver p st prices e) q m = m
  Moves-keeps (panic p st e) q m = m

  Moves-IsEntered :
      {s t : Server} {x y : Phase} {new : List (Pending × Settlement)}
      (m : Moves sv settlers s x y t new)
      → IsSturdyMove m
      → IsEntered s.db.payments x
      → IsEntered t.db.payments y
  unfolding IsEntered IsSturdyMove
  Moves-IsEntered (charge n p st e) sturdy h = tt
  Moves-IsEntered (refuse n p e k) sturdy h = tt
  Moves-IsEntered {s} (enter at p st) sturdy h =
      rw sturdy (record_payment-HasRow sv s at.db_now p st)
  Moves-IsEntered (clear p st) sturdy h = h
  Moves-IsEntered (deliver p st prices e) sturdy h = h
  Moves-IsEntered (panic p st e) sturdy h = h

  same_rows :
      (w : World) {rows : List Payment}
      → rows ≡ w.server.db.payments
      → AllEntered w
      → All (IsEntered rows) w.requests
  same_rows w e h = rw e h

  Steps-AllEntered :
      {w v : World} (step : Steps sv settlers w v) → IsSturdyStep step → AllEntered w → AllEntered v
  unfolding IsSturdyStep IsEntered sweep
  Steps-AllEntered (arrives w at req p e) sturdy h = (tt, h)
  Steps-AllEntered (moves w x y rs s new m r) sturdy h =
      let kept =
        All-weaken (IsEntered w.server.db.payments) (IsEntered s.db.payments)
          (λ z k. IsEntered-mono z (Moves-keeps m) k) w.requests h in
      let (old, others) = All-Replaced (IsEntered w.server.db.payments) r h in
      (All-Replaced (IsEntered s.db.payments) r kept).1 (Moves-IsEntered m sturdy old)
  Steps-AllEntered (asks w n at req body) sturdy h =
      elim (handle_initial-cases sv (settlers n) at w.server req body) [
        | inl same ↦ same_rows w (ap (λ (t : Server). t.db.payments) same) h
        | inr (e, staged) ↦ same_rows w (ap (λ (t : Server). t.db.payments) staged) h
      ]
  Steps-AllEntered (sweeps w now) sturdy h = h
  Steps-AllEntered (prices_change w f r) sturdy h =
      same_rows w (run-IsApart sv.rat_of f r w.server).ledger.payments h
  Steps-AllEntered (markup_changes w format f m) sturdy h =
      same_rows w (save_settings-IsApart format f m w.server).ledger.payments h

  -- However requests interleave, as long as the driver fails at no record of a payment: the ledger
  -- has a row for every request that was delivered, or a row with the transaction of its settlement,
  -- if this is so at the start.
  pub Runs-AllEntered :
      {w v : World} (runs : Runs sv settlers w v) → IsSturdy runs → AllEntered w → AllEntered v
  unfolding IsSturdy
  Runs-AllEntered unmoved sturdy h = h
  Runs-AllEntered (then_step u v before last) sturdy h =
      Steps-AllEntered last sturdy.1 (Runs-AllEntered before sturdy.0 h)
