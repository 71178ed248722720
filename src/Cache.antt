-- ===== src/Cache.antt =====
-- internal/cache/cache.go: responses staged until they are paid for.
pub mod Laws
pub mod History
use xpay_server.Base.{
  ℕ, ◌+◌, ◌/◌, ◌%◌, Bool, true, false, Option, none, some, [], ◌∷◌, ◌++◌, if◌then◌else◌, ltb, take,
  Str, codes, str_eq, ℤ, pos, ltb_ℤ, leb_ℤ, ◌-ℤ◌, Dict, lookup, insert, erase, ◌-◌,
}
use xpay_server.Pricing.Cost.{Usage}

-- A time or a duration, in nanoseconds.
abbrev pub Nanos : Type 0
Nanos = ℤ

pub record Entry : Type 0 where
  pub body : Str
  pub status : ℤ
  pub content_type : Str
  pub cost : ℤ
  pub usage : Usage
  pub model : Str
  pub created_at : Nanos

-- `stopped` is the closed channel.
pub record Cache : Type 0 where
  pub store : Dict Str Entry
  pub ttl : Nanos
  pub stopped : Bool

abbrev pub three_minutes : Nanos
three_minutes = pos 180_000_000_000

-- `cache.New`
unfoldable pub new_cache : Nanos → Cache
new_cache ttl = record {
  store = [];
  ttl = if leb_ℤ ttl (pos 0) then three_minutes else ttl;
  stopped = false;
}

unfoldable pub hex_digit : ℕ → ℕ
hex_digit n = if ltb n 10 then b'0' + n else b'a' + (n - 10)

-- `hex.EncodeToString`
unfoldable pub hex : Str → Str
hex [] = []
hex (b ∷ s) = hex_digit (b / 16) ∷ hex_digit (b % 16) ∷ hex s

-- `sha256` is `sha256.Sum256`.
unfoldable pub request_id : (Str → Str) → Str → Str
request_id sha256 body = codes "req_" ++ hex (take 16 (sha256 body))

-- `now.Sub(v.CreatedAt) > c.ttl`
unfoldable pub is_expired : Nanos → Nanos → Entry → Bool
is_expired ttl now e = ltb_ℤ ttl (now -ℤ e.created_at)

-- `Store` at time `now`
unfoldable pub store : Nanos → Str → Entry → Cache → Cache
store now id e c = record c { store = insert id (record e { created_at = now }) c.store }

unfoldable pub get : Nanos → Str → Cache → Option Entry
get now id c = elim (lookup id c.store) [
  | none ↦ none
  | some e ↦ if is_expired c.ttl now e then none else some e
]

unfoldable pub delete : Str → Cache → Cache
delete id c = record c { store = erase id c.store }

-- The loop over the map in `sweep`.
unfoldable pub sweep_store : Nanos → Nanos → Dict Str Entry → Dict Str Entry
sweep_store ttl now [] = []
sweep_store ttl now ((k, v) ∷ d) =
    let rest = sweep_store ttl now d in if is_expired ttl now v then rest else (k, v) ∷ rest

-- One tick of the sweeper. When the ticks come, and that none comes after it saw the closed
-- channel, is a matter of the schedule.
unfoldable pub sweep : Nanos → Cache → Cache
sweep now c = record c { store = sweep_store c.ttl now c.store }

-- Closing a closed channel panics.
unfoldable pub close : Cache → Option Cache
close c = if c.stopped then none else some (record c { stopped = true })
