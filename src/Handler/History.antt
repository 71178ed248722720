-- ===== src/Handler/History.antt =====
-- internal/handler/relay.go: the server over a history of requests and sweeps. Each handler stands
-- as one step here; what concurrent payments of one response do is in Delivery.
use xpay_server.Base.{
  [], ◌∷◌, str_eq, lookup-insert, lookup-erase, str_beq_iff, ◌≡◌, Str, ◌≢◌, lookup, none, ◌⊎◌,
  Result-cases, Bool-cases, inr, inl, arith, Option-cases, Option, Rat, Dict, is_empty, false, pos,
  refl,
}
use xpay_server.Handler.Server.{Server, Services, PaymentSettler, Moment, Request, raw, not_staged}
use xpay_server.Handler.Delivery.{unstaged, handle_payment-IsPaid}
use xpay_server.Handler.AdminLaws.{run-PriceOutcome, PriceOutcome, loaded, refused}
use xpay_server.Handler.Initial.{
  entry_for, handle_initial, staged_id, price_and_stage, stage, upstream_request, is_success,
  usage_of, model_of, has_no_usage, entry_for, fail,
}
use xpay_server.Handler.Payment.{
  handle_payment, finish_payment, settle_books, begin_payment, Pending,
}
use xpay_server.Cache.{sweep, Nanos, Entry, delete, store, Cache, sweep_store, get}
use xpay_server.Handler.Admin.{Faults, Reply}
use xpay_server.Handler.AdminLaws.{PriceRequest, run}
use xpay_server.Pricing.Manager.{manager_cost, manager_prices}
use xpay_server.Settler.Outcome.{Settlement}

-- What may happen to a server without a response being staged under the id.
pub data Step (sv : Services) (id : Str) : Server → Server → Type 0 where
  asked :
      (settler : PaymentSettler) (at : Moment) (s : Server) (req : Request) (body : Str)
      → staged_id sv settler at body ≢ id
      → Step sv id s (handle_initial sv settler at s req body).1
  paid :
      (settler : PaymentSettler) (at : Moment) (s : Server) (req : Request)
      → Step sv id s (handle_payment sv settler at s req).1
  swept : (now : Nanos) (s : Server) → Step sv id s (record s { cache = sweep now s.cache })
  priced : (f : Faults) (r : PriceRequest) (s : Server) → Step sv id s (run sv.rat_of f r s).1

-- Any number of such steps.
pub data Reaches (sv : Services) (id : Str) (s : Server) : Server → Type 0 where
  stay : Reaches sv id s s
  next : (t u : Server) → Reaches sv id s t → Step sv id t u → Reaches sv id s u

-- Nothing is staged under the id.
unfoldable pub IsUnstaged : Str → Server → Type 0
IsUnstaged id s = lookup id s.cache.store ≡ none

pub handle_initial-cases :
    (sv : Services) (settler : PaymentSettler) (at : Moment) (s : Server) (req : Request)
    (body : Str)
    → ((handle_initial sv settler at s req body).1 ≡ s)
      ⊎ ((e : Entry) × ((handle_initial sv settler at s req body).1
            ≡ record s { cache = store at.now (staged_id sv settler at body) e s.cache }))
unfolding handle_initial price_and_stage stage
handle_initial-cases sv settler at s req body =
    let up = upstream_request sv settler at s req body in
    elim (Bool-cases (sv.accepts_url up.url)) [
      | inr refusal ↦ inl (ground arith)
      | inl accepted ↦ elim (Option-cases (sv.upstream up)) [
        | inl failed ↦ inl (ground arith)
        | inr (resp, answered) ↦ elim (Bool-cases (is_success resp.status)) [
          | inr bad ↦ inl (ground arith)
          | inl good ↦
              let env = sv.decode_envelope resp.body in
              let u = usage_of env in
              let model = model_of sv settler at body env.model in
              elim (Bool-cases (has_no_usage u)) [
                | inl unused ↦ inl (ground arith)
                | inr used ↦
                    elim (Option-cases (manager_cost sv.rat_of s.prices model u s.cfg.markup)) [
                      | inl panic ↦ inl (ground arith)
                      | inr (cost, price) ↦
                          inr (entry_for sv settler at resp cost u model, ground arith)
                    ]
              ]
        ]
      ]
    ]

pub handle_payment-cases :
    (sv : Services) (settler : PaymentSettler) (at : Moment) (s : Server) (req : Request)
    → ((handle_payment sv settler at s req).1 ≡ s)
      ⊎ ((p : Pending) × (st : Settlement) × ((handle_payment sv settler at s req).1
            ≡ settle_books sv at s p st))
unfolding handle_payment finish_payment
handle_payment-cases sv settler at s req = elim (Result-cases (begin_payment sv at s req)) [
  | inr (r, failed) ↦ inl (ground arith)
  | inl (p, begun) ↦ elim (Result-cases (settler.settle p.payment p.entry.cost p.req_id)) [
    | inr (bad, failed) ↦ inl (ground arith)
    | inl (settlement, settled) ↦
        elim (Option-cases (manager_prices sv.rat_of s.prices p.entry.model)) [
          | inl panic ↦ inr (p, settlement, ground arith)
          | inr (prices, found) ↦ inr (p, settlement, ground arith)
        ]
  ]
]

PriceOutcome-cache :
    {rat_of : Str → Option Rat} {f : Faults} {s : Server} (o : Reply × Server)
    → PriceOutcome rat_of f s o
    → o.1.cache ≡ s.cache
PriceOutcome-cache _ (loaded s' t e p c k) = k
PriceOutcome-cache _ (refused s' code e p c k) = k

-- What a cache does not hold is not found there; storing another id, deleting and sweeping keep that.
lookup-store :
    (now : Nanos) (id k : Str) (e : Entry) (c : Cache)
    → k ≢ id
    → lookup id c.store ≡ none
    → lookup id (store now k e c).store ≡ none
unfolding store
lookup-store now id k e c other gone =
    ground (arith, lookup-insert k id (record e { created_at = now }) c.store, str_beq_iff k id)

lookup-delete :
    (id k : Str) (c : Cache) → lookup id c.store ≡ none → lookup id (delete k c).store ≡ none
unfolding delete
lookup-delete id k c gone = ground (arith, lookup-erase k id c.store)

lookup-sweep_store :
    (ttl now : Nanos) (id : Str) (d : Dict Str Entry)
    → lookup id d ≡ none
    → lookup id (sweep_store ttl now d) ≡ none
unfolding sweep_store lookup
lookup-sweep_store ttl now id [] gone = refl
lookup-sweep_store ttl now id ((k, v) ∷ d) gone = ground (arith, lookup-sweep_store ttl now id d)

get_unstaged : (now : Nanos) (id : Str) (c : Cache) → lookup id c.store ≡ none → get now id c ≡ none
unfolding get
get_unstaged now id c gone = ground arith

Step-IsUnstaged :
    {sv : Services} {id : Str} {s t : Server} → Step sv id s t → IsUnstaged id s → IsUnstaged id t
unfolding IsUnstaged sweep settle_books
Step-IsUnstaged {sv} {id} (asked settler at s req body other) gone =
    elim (handle_initial-cases sv settler at s req body) [
      | inl same ↦ rw same gone
      | inr (e, stored) ↦ rw stored (lookup-store at.now id _ e s.cache other gone)
    ]
Step-IsUnstaged {sv} {id} (paid settler at s req) gone =
    elim (handle_payment-cases sv settler at s req) [
      | inl same ↦ rw same gone
      | inr (p, st, booked) ↦ rw booked (lookup-delete id p.req_id s.cache gone)
    ]
Step-IsUnstaged {sv} {id} (swept now s) gone =
    lookup-sweep_store s.cache.ttl now id s.cache.store gone
Step-IsUnstaged {sv} (priced f r s) gone =
    rw (PriceOutcome-cache (run sv.rat_of f r s) (run-PriceOutcome sv.rat_of f r s)) gone

Reaches-IsUnstaged :
    {sv : Services} {id : Str} {s t : Server}
    → Reaches sv id s t
    → IsUnstaged id s
    → IsUnstaged id t
Reaches-IsUnstaged stay gone = gone
Reaches-IsUnstaged (next t u before last) gone =
    Step-IsUnstaged last (Reaches-IsUnstaged before gone)

settle_books-IsUnstaged :
    (sv : Services) (at : Moment) (s : Server) (p : Pending) (st : Settlement)
    → IsUnstaged p.req_id (settle_books sv at s p st)
unfolding IsUnstaged settle_books delete
settle_books-IsUnstaged sv at s p st =
    ground (arith, lookup-erase p.req_id p.req_id s.cache.store, str_beq_iff p.req_id p.req_id)

-- A response that was delivered is not delivered again, whatever happens in between: after any
-- number of requests, payments, sweeps and price changes, as long as no new response is staged under
-- its id, a request that pays for the id is answered 410, and changes nothing.
pub handle_payment_once :
    (sv : Services) (settler settler' : PaymentSettler) (at at' : Moment) (s s' : Server)
    (req req' : Request) (kind bytes : Str)
    → (handle_payment sv settler at s req).0.body ≡ raw kind bytes
    → Reaches sv req.request_id (handle_payment sv settler at s req).1 s'
    → req'.request_id ≡ req.request_id
    → is_empty req'.request_id ≡ false
    → handle_payment sv settler' at' s' req' ≡ (fail (pos 410) not_staged, s')
unfolding IsUnstaged
handle_payment_once sv settler settler' at at' s s' req req' kind bytes e later same named =
    let paid = handle_payment-IsPaid sv at s req settler kind bytes e in
    let first : IsUnstaged req.request_id (handle_payment sv settler at s req).1 =
      rw (paid.books, ← paid.begun.id_is)
        (settle_books-IsUnstaged sv at s paid.pending paid.settlement) in
    let gone = Reaches-IsUnstaged later first in
    unstaged sv settler' at' s' req' named
      (rw same (get_unstaged at'.now req.request_id s'.cache gone))
