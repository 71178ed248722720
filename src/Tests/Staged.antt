-- ===== src/Tests/Staged.antt =====
-- internal/cache/cache.go at concrete entries.
use xpay_server.Base.{
  ◌≡◌, refl, str_beq, List, All, pos, codes, arith, some, none, ◌∷◌, [], lookup, ◌-ℤ◌,
}
use xpay_server.Tests.Fixtures.{one_entry, two_model_entry}
use xpay_server.Cache.{get, is_expired, new_cache}
use xpay_server.Cache.Laws.{IsMap}
use xpay_server.Cache.History.{Event, SweptBy, deleted, after, stored, get-after, swept}

stored_is_found : get (pos 60) (codes "req_1") one_entry ≡ some two_model_entry
unfolding get lookup str_beq is_expired ◌-ℤ◌
stored_is_found = refl

stored_expires : get (pos 108) (codes "req_1") one_entry ≡ none
unfolding get lookup str_beq is_expired ◌-ℤ◌
stored_expires = refl

one_entry-IsMap : IsMap one_entry.store
unfolding lookup
one_entry-IsMap = (refl, tt)

-- A store, a sweep, another store under another id, and a deletion of that one; newest first.
abbrev busy : List Event
busy =
    deleted (codes "req_2")
    ∷ stored (pos 40) (codes "req_2") two_model_entry
    ∷ swept (pos 30)
    ∷ stored (pos 20) (codes "req_1") two_model_entry
    ∷ []

busy-SweptBy : All (SweptBy (pos 60)) busy
busy-SweptBy = (tt, (tt, (omega arith, (tt, tt))))

get-after_example :
    get (pos 60) (codes "req_1") (after (pos 100) busy)
    ≡ some (record two_model_entry { created_at = pos 20 })
unfolding is_expired str_beq new_cache ◌-ℤ◌
get-after_example = get-after (pos 100) (pos 60) (codes "req_1") busy busy-SweptBy
