-- ===== src/Cache/History.antt =====
-- internal/cache/cache.go: the cache against its history. Requests and the sweeper interleave, and
-- the lock makes each call one event; the newest event stands first.
use xpay_server.Base.{
  ◌≡◌, refl, Option, none, some, List, [], ◌∷◌, arith, if◌then◌else◌, ◌==◌, All, Str, str_eq, ◌≤ℤ◌,
  ◌∙◌, lookup,
}
use xpay_server.Cache.{Nanos, Entry, Cache, new_cache, is_expired, store, get, delete, sweep}
use xpay_server.Cache.Laws.{
  IsMap, insert-IsMap, erase-IsMap, sweep-IsMap, get-store, get-delete, get-sweep,
}

pub data Event : Type 0 where
  stored : Nanos → Str → Entry → Event
  deleted : Str → Event
  swept : Nanos → Event

abbrev pub apply : Event → Cache → Cache
apply (stored now id e) c = store now id e c
apply (deleted id) c = delete id c
apply (swept now) c = sweep now c

-- The cache after a history, the newest event first.
unfoldable pub after : Nanos → List Event → Cache
after ttl [] = new_cache ttl
after ttl (event ∷ earlier) = apply event (after ttl earlier)

-- What the history says of an id: the last entry stored under it, if it was not deleted since.
abbrev pub latest : Str → List Event → Option Entry
latest id [] = none
latest id (stored now k e ∷ earlier) =
    if k == id then some (record e { created_at = now }) else latest id earlier
latest id (deleted k ∷ earlier) = if k == id then none else latest id earlier
latest id (swept now ∷ earlier) = latest id earlier

-- The sweeper has not run in the future.
abbrev pub SweptBy : Nanos → Event → Type 0
SweptBy now (swept t) = t ≤ℤ now
SweptBy now _ = Unit

after-IsMap : (ttl : Nanos) (h : List Event) → IsMap (after ttl h).store
unfolding after new_cache store delete sweep
after-IsMap ttl [] = tt
after-IsMap ttl (stored now id e ∷ h) = insert-IsMap id _ (after ttl h).store (after-IsMap ttl h)
after-IsMap ttl (deleted id ∷ h) = erase-IsMap id (after ttl h).store (after-IsMap ttl h)
after-IsMap ttl (swept now ∷ h) = sweep-IsMap _ now (after ttl h).store (after-IsMap ttl h)

abbrev fresh : Nanos → Nanos → Option Entry → Option Entry
fresh ttl now none = none
fresh ttl now (some e) = if is_expired ttl now e then none else some e

ttl-after : (ttl : Nanos) (h : List Event) → (after ttl h).ttl ≡ (new_cache ttl).ttl
unfolding after store delete sweep
ttl-after ttl [] = refl
ttl-after ttl (stored now id e ∷ h) = ttl-after ttl h
ttl-after ttl (deleted id ∷ h) = ttl-after ttl h
ttl-after ttl (swept now ∷ h) = ttl-after ttl h

-- After any interleaving of stores, deletions and sweeps, `Get` gives the last entry stored under
-- the id, unless it was deleted since or is older than the time to live.
pub get-after :
    (ttl now : Nanos) (id : Str) (h : List Event)
    → All (SweptBy now) h
    → get now id (after ttl h) ≡ fresh (new_cache ttl).ttl now (latest id h)
unfolding after get new_cache lookup
get-after ttl now id [] s = refl
get-after ttl now id (stored t k e ∷ h) s =
    ground
      (arith, get-store t now k id e (after ttl h), get-after ttl now id h s.1, ttl-after ttl h)
get-after ttl now id (deleted k ∷ h) s =
    ground (arith, get-delete now k id (after ttl h), get-after ttl now id h s.1)
get-after ttl now id (swept t ∷ h) s =
    get-sweep t now id (after ttl h) (after-IsMap ttl h) s.0 ∙ get-after ttl now id h s.1
