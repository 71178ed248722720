-- ===== src/Handler/Concurrent.antt =====
-- internal/handler/relay.go: what every interleaving of requests keeps.
use xpay_server.Base.{
  ◌≡◌, List, Bool, ℕ, ◌∷◌, ok, All, inl, inr, ◌⊎◌, refl, Memᴰ, ap, subst, to_int64, ℤ, All-weaken,
  Result,
}
use xpay_server.Handler.Interleaving.{
  All-Replaced, mem-Replaced, new-Replaced, unmoved, Phase, begun, World, refused, charged,
  recorded, cleared, delivered, lost, Replaced, Runs, Moves, Steps, then_step, charge, arrives,
  refuse, moves, enter, clear, asks, deliver, panic, sweeps, prices_change, markup_changes,
}
use xpay_server.Handler.Server.{Services, PaymentSettler, Server}
use xpay_server.Handler.Payment.{Pending, payment_row}
use xpay_server.Settler.Outcome.{Settlement}
use xpay_server.Handler.Keeping.{
  IsIntact, handle_initial-IsIntact, IsApart-IsIntact, run-IsApart, save_settings-IsApart,
}
use xpay_server.Cache.{delete, sweep}
use xpay_server.Store.Records.{
  record_payment-IsLedger, record_payment-Recorded, Recorded, added, kept_out,
}
use xpay_server.Handler.History.{handle_initial-cases}
use xpay_server.Cache.Laws.{erase-IsMap, sweep-IsMap}
use xpay_server.Store.Db.{Payment, Db, DbError}

-- The row of a payment: for the request, with the payer, the price and the transaction.
pub record IsRowFor (p : Pending) (st : Settlement) (q : Payment) : Type 0 where
  pub request_is : q.request_id ≡ p.req_id
  pub amount_is : q.amount ≡ to_int64 p.entry.cost
  pub payer_is : q.from_address ≡ st.payer
  pub hash_is : q.tx_hash ≡ st.tx_hash

-- What a request that has been charged accounts for.
unfoldable pub AccountsFor : Phase → Payment → Type 0
AccountsFor (begun p) q = ⊥
AccountsFor (refused p) q = ⊥
AccountsFor (charged p st) q = IsRowFor p st q
AccountsFor (recorded p st) q = IsRowFor p st q
AccountsFor (cleared p st) q = IsRowFor p st q
AccountsFor (delivered p st) q = IsRowFor p st q
AccountsFor (lost p st) q = IsRowFor p st q

-- A row that was there before, or is of a request.
abbrev pub IsFounded : List Payment → List Phase → Payment → Type 0
IsFounded old rs q = Memᴰ q old ⊎ ((r : Phase) × Memᴰ r rs × AccountsFor r q)

IsFounded-arrived :
    (old : List Payment) (rs : List Phase) (r : Phase) (q : Payment)
    → IsFounded old rs q
    → IsFounded old (r ∷ rs) q
IsFounded-arrived old rs r q (inl was) = inl was
IsFounded-arrived old rs r q (inr (r', m, a)) = inr (r', Memᴰ.tail m, a)

Recorded-All :
    (P : Payment → Type 0) (fault : Bool) (now : ℤ) (p : Payment) (d : Db)
    (o : Result DbError (Unit {0}) × Db)
    → Recorded fault now p d o
    → P (record p { id = d.next_id; created_at = now })
    → All P d.payments
    → All P o.1.payments
Recorded-All P fault now p d _ (added d' row works free rows is bigger set models) new old =
    rw rows (rw is new, old)
Recorded-All P fault now p d _ (kept_out e why) new old = old

module _ (sv : Services) (settlers : ℕ → PaymentSettler) (old : List Payment) where
  -- The settler has accepted the payment of a charged request, for the price of its response.
  unfoldable pub IsAccepted : Phase → Type 0
  IsAccepted (begun p) = Unit
  IsAccepted (refused p) = Unit
  IsAccepted (charged p st) =
      (n : ℕ) × ((settlers n).settle p.payment p.entry.cost p.req_id ≡ ok st)
  IsAccepted (recorded p st) =
      (n : ℕ) × ((settlers n).settle p.payment p.entry.cost p.req_id ≡ ok st)
  IsAccepted (cleared p st) =
      (n : ℕ) × ((settlers n).settle p.payment p.entry.cost p.req_id ≡ ok st)
  IsAccepted (delivered p st) =
      (n : ℕ) × ((settlers n).settle p.payment p.entry.cost p.req_id ≡ ok st)
  IsAccepted (lost p st) = (n : ℕ) × ((settlers n).settle p.payment p.entry.cost p.req_id ≡ ok st)

  -- The ledger and the cache are as they should be, what was charged was accepted, and the ledger
  -- has no row that is not of a charged request, beside the old ones.
  pub record IsSound (w : World) : Type 0 where
    pub intact : IsIntact w.server
    pub accepted : All IsAccepted w.requests
    pub founded : All (IsFounded old w.requests) w.server.db.payments

  Moves-IsAccepted :
      {s t : Server} {x y : Phase} {new : List (Pending × Settlement)}
      → Moves sv settlers s x y t new
      → IsAccepted x
      → IsAccepted y
  unfolding IsAccepted
  Moves-IsAccepted (charge n p st e) h = (n, e)
  Moves-IsAccepted (refuse n p e k) h = tt
  Moves-IsAccepted (enter at p st) h = h
  Moves-IsAccepted (clear p st) h = h
  Moves-IsAccepted (deliver p st prices e) h = h
  Moves-IsAccepted (panic p st e) h = h

  Moves-AccountsFor :
      {s t : Server} {x y : Phase} {new : List (Pending × Settlement)} (q : Payment)
      → Moves sv settlers s x y t new
      → AccountsFor x q
      → AccountsFor y q
  unfolding AccountsFor
  Moves-AccountsFor q (charge n p st e) h = absurd h
  Moves-AccountsFor q (refuse n p e k) h = absurd h
  Moves-AccountsFor q (enter at p st) h = h
  Moves-AccountsFor q (clear p st) h = h
  Moves-AccountsFor q (deliver p st prices e) h = h
  Moves-AccountsFor q (panic p st e) h = h

  IsFounded-moved :
      {s t : Server} {x y : Phase} {new : List (Pending × Settlement)} {rs rs' : List Phase}
      (q : Payment)
      → Moves sv settlers s x y t new
      → Replaced x y rs rs'
      → IsFounded old rs q
      → IsFounded old rs' q
  IsFounded-moved q m r (inl was) = inl was
  IsFounded-moved {y = y} q m r (inr (z, present, a)) = elim (mem-Replaced r present) [
    | inl stays ↦ inr (z, stays, a)
    | inr same ↦
        inr (y, new-Replaced r, Moves-AccountsFor q m (subst (λ v. AccountsFor v q) same a))
  ]

  Moves-IsFounded :
      {s t : Server} {x y : Phase} {new : List (Pending × Settlement)} {rs' : List Phase}
      → Moves sv settlers s x y t new
      → Memᴰ y rs'
      → All (IsFounded old rs') s.db.payments
      → All (IsFounded old rs') t.db.payments
  unfolding AccountsFor payment_row
  Moves-IsFounded (charge n p st e) m h = h
  Moves-IsFounded (refuse n p e k) m h = h
  Moves-IsFounded {s} {rs' = rs'} (enter at p st) m h =
      let row = payment_row sv s p st in
      Recorded-All (IsFounded old rs') at.db_fault at.db_now row s.db _
        (record_payment-Recorded at.db_fault at.db_now row s.db)
        (inr (
          recorded p st,
          m,
          record { request_is = refl; amount_is = refl; payer_is = refl; hash_is = refl },
        ))
        h
  Moves-IsFounded (clear p st) m h = h
  Moves-IsFounded (deliver p st prices e) m h = h
  Moves-IsFounded (panic p st e) m h = h

  Moves-IsIntact :
      {s t : Server} {x y : Phase} {new : List (Pending × Settlement)}
      → Moves sv settlers s x y t new
      → IsIntact s
      → IsIntact t
  unfolding delete
  Moves-IsIntact (charge n p st e) h = h
  Moves-IsIntact (refuse n p e k) h = h
  Moves-IsIntact {s} (enter at p st) h = record {
    ledger = record_payment-IsLedger at.db_fault at.db_now (payment_row sv s p st) s.db h.ledger;
    cache = h.cache;
  }
  Moves-IsIntact {s} (clear p st) h = record {
    ledger = h.ledger;
    cache = erase-IsMap p.req_id s.cache.store h.cache;
  }
  Moves-IsIntact (deliver p st prices e) h = h
  Moves-IsIntact (panic p st e) h = h

  same-IsFounded :
      (w : World) {rows : List Payment}
      → rows ≡ w.server.db.payments
      → IsSound w
      → All (IsFounded old w.requests) rows
  same-IsFounded w e h = rw e h.founded

  Steps-IsSound : {w v : World} → Steps sv settlers w v → IsSound w → IsSound v
  unfolding sweep IsAccepted
  Steps-IsSound (arrives w at req p e) h = record {
    intact = h.intact;
    accepted = (tt, h.accepted);
    founded =
        All-weaken (IsFounded old w.requests) _
          (λ q k. IsFounded-arrived old w.requests (begun p) q k) w.server.db.payments h.founded;
  }
  Steps-IsSound (moves w x y rs s new m r) h =
      let (was, others) = All-Replaced IsAccepted r h.accepted in
      record {
        intact = Moves-IsIntact m h.intact;
        accepted = others (Moves-IsAccepted m was);
        founded = Moves-IsFounded m (new-Replaced r) (
            All-weaken (IsFounded old w.requests) (IsFounded old rs)
              (λ q k. IsFounded-moved q m r k) w.server.db.payments h.founded);
      }
  Steps-IsSound (asks w n at req body) h = record {
    intact = handle_initial-IsIntact sv (settlers n) at w.server req body h.intact;
    accepted = h.accepted;
    founded = elim (handle_initial-cases sv (settlers n) at w.server req body) [
      | inl same ↦ same-IsFounded w (ap (λ (t : Server). t.db.payments) same) h
      | inr (e, staged) ↦ same-IsFounded w (ap (λ (t : Server). t.db.payments) staged) h
    ];
  }
  Steps-IsSound (sweeps w now) h = record {
    intact = record {
      ledger = h.intact.ledger;
      cache = sweep-IsMap w.server.cache.ttl now w.server.cache.store h.intact.cache;
    };
    accepted = h.accepted;
    founded = h.founded;
  }
  Steps-IsSound (prices_change w f r) h = record {
    intact = IsApart-IsIntact (run-IsApart sv.rat_of f r w.server) h.intact;
    accepted = h.accepted;
    founded = same-IsFounded w (run-IsApart sv.rat_of f r w.server).ledger.payments h;
  }
  Steps-IsSound (markup_changes w format f m) h = record {
    intact = IsApart-IsIntact (save_settings-IsApart format f m w.server) h.intact;
    accepted = h.accepted;
    founded = same-IsFounded w (save_settings-IsApart format f m w.server).ledger.payments h;
  }

  -- However payments, questions, sweeps and changes of prices and markup interleave: the ledger
  -- never has two rows for one request or one transaction, the cache has each id once, a request
  -- that was charged, and so one that was delivered, had its payment accepted by the settler for
  -- the price of its response, and every row of the ledger that is not an old one is of such a
  -- request, with its price, its payer and its transaction, if this is so at the start.
  pub Runs-IsSound : {w v : World} → Runs sv settlers w v → IsSound w → IsSound v
  Runs-IsSound unmoved h = h
  Runs-IsSound (then_step u v before last) h = Steps-IsSound last (Runs-IsSound before h)
