-- ===== src/Tests/Catalog.antt =====
-- internal/store/settings.go at small price lists.
use xpay_server.Base.{
  ◌≡◌, refl, List, lookup, All, codes, Memᴰ, false, [], ◌≢◌, ◌∷◌, ok, some, none, str_eq, insert,
  str_beq, sort_by, place, arith, str_beq_iff, ◌⊎◌,
}
use xpay_server.Tests.Fixtures.{entry_of, never_fails}
use xpay_server.Store.Db.{empty_db, PriceRow}
use xpay_server.Store.Prices.{
  replace_model_prices, bootstrap_default_prices, upsert_model_price, list_model_prices, row_of,
  transaction, insert_all, insert_missing, exec_tx, begin_tx, commit_tx, rollback_tx, seen_rows,
  delete_and_insert,
}
use xpay_server.Store.Inserts.{Extends, FromEntries}
use xpay_server.Store.Catalog.{
  list_model_prices-upsert, bootstrap_default_prices-keeps, replace_model_prices_exact,
}
use xpay_server.Pricing.Price.{ModelPriceEntry}

abbrev two_entries : List ModelPriceEntry
two_entries = entry_of (codes "a") ∷ entry_of (codes "b") ∷ []

abbrev twice : List ModelPriceEntry
twice = entry_of (codes "a") ∷ entry_of (codes "a") ∷ []

replaced : (replace_model_prices false false never_fails two_entries empty_db).0 ≡ ok tt
unfolding replace_model_prices transaction exec_tx begin_tx commit_tx rollback_tx seen_rows
    delete_and_insert insert_all lookup insert str_beq
replaced = refl

row_a :
    lookup
      (codes "a")
      (replace_model_prices false false never_fails two_entries empty_db).1.model_prices
    ≡ some (row_of (entry_of (codes "a")))
unfolding lookup replace_model_prices transaction exec_tx begin_tx commit_tx rollback_tx seen_rows
    delete_and_insert insert_all insert str_beq
row_a = refl

-- The first insertion is in the open transaction, until it is rolled back.
half_done :
    (exec_tx (delete_and_insert false false never_fails twice) (begin_tx [])).1.working
    ≡ some ((codes "a", row_of (entry_of (codes "a"))) ∷ [])
unfolding exec_tx delete_and_insert begin_tx insert_all lookup insert str_beq
half_done = refl

replace_model_prices_exact_example :
    All
      (λ e.
        lookup e.model
          (replace_model_prices false false never_fails two_entries empty_db).1.model_prices
        ≡ some (row_of e))
      two_entries
    × ((lookup
            (codes "c")
            (replace_model_prices false false never_fails two_entries empty_db).1.model_prices
          ≡ none)
        ⊎ ((r : PriceRow) × (lookup
                (codes "c")
                (replace_model_prices false false never_fails two_entries empty_db).1.model_prices
              ≡ some r)
            × FromEntries two_entries (codes "c") r))
replace_model_prices_exact_example =
    replace_model_prices_exact false false never_fails two_entries empty_db (codes "c") replaced

booted : (bootstrap_default_prices false false never_fails two_entries empty_db).0 ≡ ok tt
unfolding bootstrap_default_prices transaction exec_tx begin_tx commit_tx rollback_tx seen_rows
    insert_missing
booted = refl

bootstrap_default_prices-keeps_example :
    Extends two_entries []
      (bootstrap_default_prices false false never_fails two_entries empty_db).1.model_prices
    × All
        (λ e.
          lookup e.model
            (bootstrap_default_prices false false never_fails two_entries empty_db).1.model_prices
          ≢ none)
        two_entries
bootstrap_default_prices-keeps_example =
    bootstrap_default_prices-keeps false false never_fails two_entries empty_db booted

upserted : (upsert_model_price false (entry_of (codes "a")) empty_db).0 ≡ ok tt
unfolding upsert_model_price
upserted = refl

listed :
    list_model_prices false (upsert_model_price false (entry_of (codes "a")) empty_db).1
    ≡ ok (entry_of (codes "a") ∷ [])
unfolding list_model_prices sort_by upsert_model_price insert place
listed = refl

other_model : codes "b" ≢ codes "a"
other_model h = ground (arith, str_beq_iff (codes "b") (codes "a"))

list_model_prices-upsert_example :
    Memᴰ (entry_of (codes "a")) (entry_of (codes "a") ∷ [])
    × (lookup (codes "b") (upsert_model_price false (entry_of (codes "a")) empty_db).1.model_prices
        ≡ lookup (codes "b") empty_db.model_prices)
list_model_prices-upsert_example =
    list_model_prices-upsert (entry_of (codes "a")) empty_db (codes "b") upserted listed other_model
