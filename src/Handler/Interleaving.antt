-- ===== src/Handler/Interleaving.antt =====
-- internal/handler/relay.go: payments in flight at the same time. `handlePayment` in the pieces
-- between which other requests run: the checks, the settlement, the record, the deletion, the reply.
use xpay_server.Base.{
  ℕ, List, ◌∷◌, ◌≡◌, ok, [], ◌++◌, err, Str, some, none, Float64, Option, inl, inr, ◌⊎◌, refl, All,
  Memᴰ,
}
use xpay_server.Handler.Payment.{Pending, begin_payment, payment_row}
use xpay_server.Handler.Server.{Server, Services, PaymentSettler, Moment, Request}
use xpay_server.Settler.Outcome.{Settlement, SettleError}
use xpay_server.Store.Payments.{record_payment}
use xpay_server.Handler.Initial.{handle_initial}
use xpay_server.Cache.{Nanos, delete, sweep}
use xpay_server.Pricing.Display.{Prices}
use xpay_server.Handler.Admin.{Faults, save_settings}
use xpay_server.Pricing.Manager.{manager_prices}
use xpay_server.Handler.AdminLaws.{PriceRequest, run}

-- How far a payment request has come.
pub data Phase : Type 0 where
  begun refused : Pending → Phase
  charged recorded cleared delivered lost : Pending → Settlement → Phase

-- A list with one element exchanged for another.
pub data Replaced {ℓ} {A : Type ℓ} (x y : A) : List A → List A → Type ℓ where
  here : (xs : List A) → Replaced x y (x ∷ xs) (y ∷ xs)
  there : (z : A) (xs ys : List A) → Replaced x y xs ys → Replaced x y (z ∷ xs) (z ∷ ys)

pub All-Replaced :
    {A : Type 0} (P : A → Type 0) {x y : A} {rs rs' : List A}
    → Replaced x y rs rs'
    → All P rs
    → P x × (P y → All P rs')
All-Replaced P (here rs) h = (h.0, λ k. (k, h.1))
All-Replaced P (there z rs rs' r) h =
    let (old, others) = All-Replaced P r h.1 in (old, λ k. (h.0, others k))

-- An element stays, or is the one that was exchanged.
pub mem-Replaced :
    {A : Type 0} {x y r : A} {rs rs' : List A}
    → Replaced x y rs rs'
    → Memᴰ r rs
    → Memᴰ r rs' ⊎ (r ≡ x)
mem-Replaced (here rs) (Memᴰ.head e) = inr e
mem-Replaced (here rs) (Memᴰ.tail m) = inl (Memᴰ.tail m)
mem-Replaced (there z rs rs' r) (Memᴰ.head e) = inl (Memᴰ.head e)
mem-Replaced (there z rs rs' r) (Memᴰ.tail m) = elim (mem-Replaced r m) [
  | inl stays ↦ inl (Memᴰ.tail stays)
  | inr gone ↦ inr gone
]

pub new-Replaced : {A : Type 0} {x y : A} {rs rs' : List A} → Replaced x y rs rs' → Memᴰ y rs'
new-Replaced (here rs) = Memᴰ.head refl
new-Replaced (there z rs rs' r) = Memᴰ.tail (new-Replaced r)

-- The server, the payment requests so far, and every answer with which the settler has accepted a
-- payment of theirs, newest first. It says nothing of the chain, where two may be one transfer.
pub record World : Type 0 where
  pub server : Server
  pub requests : List Phase
  pub accepted : List (Pending × Settlement)

-- `settlers n` is the settler as it answers at the moment `n`.
module _ (sv : Services) (settlers : ℕ → PaymentSettler) where
  -- What one payment request does in one piece, to the server, and what the settler accepts.
  pub data Moves (s : Server) : Phase → Phase → Server → List (Pending × Settlement) → Type 0 where
    charge :
        (n : ℕ) (p : Pending) (st : Settlement)
        → (settlers n).settle p.payment p.entry.cost p.req_id ≡ ok st
        → Moves s (begun p) (charged p st) s ((p, st) ∷ [])
    refuse :
        (n : ℕ) (p : Pending) (e : SettleError)
        → (settlers n).settle p.payment p.entry.cost p.req_id ≡ err e
        → Moves s (begun p) (refused p) s []
    enter :
        (at : Moment) (p : Pending) (st : Settlement)
        → Moves s
            (charged p st)
            (recorded p st)
            (record s {
              db = (record_payment at.db_fault at.db_now (payment_row sv s p st) s.db).1;
            })
            []
    clear :
        (p : Pending) (st : Settlement)
        → Moves s (recorded p st) (cleared p st) (record s { cache = delete p.req_id s.cache }) []
    deliver :
        (p : Pending) (st : Settlement) (prices : Prices)
        → manager_prices sv.rat_of s.prices p.entry.model ≡ some prices
        → Moves s (cleared p st) (delivered p st) s []
    panic :
        (p : Pending) (st : Settlement)
        → manager_prices sv.rat_of s.prices p.entry.model ≡ none
        → Moves s (cleared p st) (lost p st) s []

  pub data Steps : World → World → Type 0 where
    arrives :
        (w : World) (at : Moment) (req : Request) (p : Pending)
        → begin_payment sv at w.server req ≡ ok p
        → Steps w (record w { requests = begun p ∷ w.requests })
    moves :
        (w : World) (x y : Phase) (rs : List Phase) (s : Server) (new : List (Pending × Settlement))
        → Moves w.server x y s new
        → Replaced x y w.requests rs
        → Steps w (record { server = s; requests = rs; accepted = new ++ w.accepted })
    asks :
        (w : World) (n : ℕ) (at : Moment) (req : Request) (body : Str)
        → Steps w (record w { server = (handle_initial sv (settlers n) at w.server req body).1 })
    sweeps :
        (w : World) (now : Nanos)
        → Steps w (record w { server = record (w.server) { cache = sweep now w.server.cache } })
    prices_change :
        (w : World) (f : Faults) (r : PriceRequest)
        → Steps w (record w { server = (run sv.rat_of f r w.server).1 })
    markup_changes :
        (w : World) (format : Float64 → Str) (f : Faults) (m : Option Float64)
        → Steps w (record w { server = (save_settings format f m w.server).1 })

  -- Any number of steps.
  pub data Runs (w : World) : World → Type 0 where
    unmoved : Runs w w
    then_step : (u v : World) → Runs w u → Steps u v → Runs w v
