-- ===== src/Cache/Laws.antt =====
-- internal/cache/cache.go: what `Get` sees after each operation.
use xpay_server.Base.{
  ◌≡◌, refl, true, none, some, [], ◌∷◌, arith, if◌then◌else◌, ◌==◌, Option-cases, inl, inr, Str,
  str_eq, str_beq_iff, ◌≤ℤ◌, int_laws, Dict, lookup, insert, erase, lookup-insert, lookup-erase,
}
use xpay_server.Cache.{Nanos, Entry, Cache, is_expired, store, get, delete, sweep_store, sweep}

-- A Go map has each key once.
abbrev pub IsMap : Dict Str Entry → Type 0
IsMap [] = Unit
IsMap ((k, v) ∷ d) = (lookup k d ≡ none) × IsMap d

pub insert-IsMap : (k : Str) (v : Entry) (d : Dict Str Entry) → IsMap d → IsMap (insert k v d)
unfolding insert lookup
insert-IsMap k v [] h = (refl, tt)
insert-IsMap k v ((j, w) ∷ d) h =
    ground (arith, insert-IsMap k v d h.1, lookup-insert k j v d, str_beq_iff j k, str_beq_iff k j)

pub erase-IsMap : (k : Str) (d : Dict Str Entry) → IsMap d → IsMap (erase k d)
unfolding erase
erase-IsMap k [] h = tt
erase-IsMap k ((j, w) ∷ d) h = ground (arith, erase-IsMap k d h.1, lookup-erase k j d)

-- What has expired stays so.
is_expired_mono :
    (ttl now later : Nanos) (e : Entry)
    → now ≤ℤ later
    → is_expired ttl now e ≡ true
    → is_expired ttl later e ≡ true
unfolding is_expired
is_expired_mono ttl now later e le h = grind (int_laws)

lookup-sweep_store :
    (ttl now : Nanos) (k : Str) (d : Dict Str Entry)
    → IsMap d
    → lookup k (sweep_store ttl now d)
      ≡ elim (lookup k d) [ none ↦ none | some e ↦ if is_expired ttl now e then none else some e ]
unfolding sweep_store lookup
lookup-sweep_store ttl now k [] h = refl
lookup-sweep_store ttl now k ((j, w) ∷ d) h =
    ground (arith, lookup-sweep_store ttl now k d h.1, str_beq_iff j k)

pub sweep-IsMap : (ttl now : Nanos) (d : Dict Str Entry) → IsMap d → IsMap (sweep_store ttl now d)
unfolding sweep_store
sweep-IsMap ttl now [] h = tt
sweep-IsMap ttl now ((j, w) ∷ d) h =
    ground (arith, sweep-IsMap ttl now d h.1, lookup-sweep_store ttl now j d h.1)

-- `Get` of what was just stored gives it, stamped; of another id, what it gave before.
pub get-store :
    (now later : Nanos) (id k : Str) (e : Entry) (c : Cache)
    → get later k (store now id e c) ≡ (
        if id == k
        then (if is_expired c.ttl later (record e { created_at = now })
            then none
            else some (record e { created_at = now }))
        else get later k c)
unfolding get store
get-store now later id k e c =
    ground (arith, lookup-insert id k (record e { created_at = now }) c.store)

-- What is deleted is gone, and nothing else.
pub get-delete :
    (now : Nanos) (id k : Str) (c : Cache)
    → get now k (delete id c) ≡ (if id == k then none else get now k c)
unfolding get delete
get-delete now id k c = ground (arith, lookup-erase id k c.store)

-- The sweeper cannot be seen: `Get` at any later time gives what it would have given without it.
pub get-sweep :
    (now later : Nanos) (k : Str) (c : Cache)
    → IsMap c.store
    → now ≤ℤ later
    → get later k (sweep now c) ≡ get later k c
unfolding get sweep
get-sweep now later k c h le = elim (Option-cases (lookup k c.store)) [
  | inl missing ↦ ground (arith, lookup-sweep_store c.ttl now k c.store h)
  | inr (e, found) ↦
      ground (arith, lookup-sweep_store c.ttl now k c.store h, is_expired_mono c.ttl now later e le)
]
