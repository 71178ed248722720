-- ===== src/Store/Migrated.antt =====
-- internal/store/db.go: what a migration leaves.
use xpay_server.Base.{
  ◌≡◌, Dict, some, true, Str, ◌⊎◌, ℕ, false, Bool, ok, arith, inl, refl, Option, List, none, [],
  ◌∷◌,
}
use xpay_server.Store.Migrate.{
  PriceTable, Schema, migrate, execute_all, or_empty, execute, with_cached, has_twins, unique_index,
  without_cached, or_new_table, same_tx, add_column, same_request, OldPriceRow,
}
use xpay_server.Store.Db.{PriceRow}

abbrev pub upgraded_prices : PriceTable → Dict Str PriceRow
upgraded_prices (without_cached rows) = add_column rows
upgraded_prices (with_cached rows) = rows

-- All tables and indexes, with the rows that were there.
abbrev pub upgraded : Schema → Schema
upgraded s = record {
  payments = some (or_empty s.payments);
  from_index = true;
  tx_index = true;
  request_index = true;
  settings = some (or_empty s.settings);
  prices = some (with_cached (upgraded_prices (or_new_table s.prices)));
}

-- No two rows stand in the way of an index that is missing.
pub record IsIndexable (s : Schema) : Type 0 where
  pub tx : (s.tx_index ≡ true) ⊎ (has_twins same_tx (or_empty s.payments) ≡ false)
  pub request : (s.request_index ≡ true) ⊎ (has_twins same_request (or_empty s.payments) ≡ false)

-- Where the driver does not fail, a file whose rows allow the unique indexes is upgraded.
pub migrate-upgraded :
    (faults : ℕ → Bool) (s : Schema)
    → ((i : ℕ) → faults i ≡ false)
    → IsIndexable s
    → migrate faults s ≡ (ok tt, upgraded s)
unfolding migrate execute_all execute unique_index
migrate-upgraded faults s never h =
    ground (arith, never 0, never 1, never 2, never 3, never 4, never 5, never 6, h.tx, h.request)

migrate-ok :
    (faults : ℕ → Bool) (s : Schema)
    → (migrate faults s).0 ≡ ok tt
    → (migrate faults s).1 ≡ upgraded s
unfolding migrate execute_all execute unique_index
migrate-ok faults s e = ground arith

-- A table that is there keeps its rows, and one that is missing is made without any.
pub data Kept {ℓ} {A : Type ℓ} : Option (List A) → Option (List A) → Type ℓ where
  made : Kept none (some [])
  there : (rows : List A) → Kept (some rows) (some rows)

-- The rows of a table before and after it has got `cached_input`: the same models in the same
-- order, with the same prices and no price for cached input.
abbrev pub AreWidened : Dict Str OldPriceRow → Dict Str PriceRow → Type 0
AreWidened [] [] = Unit
AreWidened ((model, r) ∷ rows) ((model', r') ∷ rows') =
    (model' ≡ model)
    × (r'.input ≡ r.input)
    × (r'.output ≡ r.output)
    × (r'.cached_input ≡ [])
    × (r'.is_default ≡ r.is_default)
    × AreWidened rows rows'
AreWidened _ _ = ⊥

pub data KeptPrices : Option PriceTable → Option PriceTable → Type 0 where
  made_prices : KeptPrices none (some (with_cached []))
  there_prices :
      (rows : Dict Str PriceRow) → KeptPrices (some (with_cached rows)) (some (with_cached rows))
  widened :
      (old : Dict Str OldPriceRow) (rows : Dict Str PriceRow)
      → AreWidened old rows
      → KeptPrices (some (without_cached old)) (some (with_cached rows))

add_column-AreWidened : (rows : Dict Str OldPriceRow) → AreWidened rows (add_column rows)
unfolding add_column
add_column-AreWidened [] = tt
add_column-AreWidened ((model, r) ∷ rows) =
    (refl, refl, refl, refl, refl, add_column-AreWidened rows)

-- What a migration has made of a file.
pub record IsMigrated (before after : Schema) : Type 0 where
  pub payments_kept : Kept before.payments after.payments
  pub settings_kept : Kept before.settings after.settings
  pub prices_kept : KeptPrices before.prices after.prices
  pub from_made : after.from_index ≡ true
  pub tx_made : after.tx_index ≡ true
  pub request_made : after.request_index ≡ true

or_empty-Kept : {A : Type 0} (t : Option (List A)) → Kept t (some (or_empty t))
or_empty-Kept none = made
or_empty-Kept (some rows) = there rows

upgraded_prices-KeptPrices :
    (t : Option PriceTable) → KeptPrices t (some (with_cached (upgraded_prices (or_new_table t))))
upgraded_prices-KeptPrices none = made_prices
upgraded_prices-KeptPrices (some (with_cached rows)) = there_prices rows
upgraded_prices-KeptPrices (some (without_cached rows)) =
    widened rows (add_column rows) (add_column-AreWidened rows)

-- A migration that succeeds has made every table, column and index that was missing and kept every
-- row with its values; and then to start again, without a failure of the driver, succeeds and
-- changes nothing.
pub migrate_again :
    (faults later : ℕ → Bool) (s : Schema)
    → ((i : ℕ) → later i ≡ false)
    → (migrate faults s).0 ≡ ok tt
    → IsMigrated s (migrate faults s).1
      × (migrate later (migrate faults s).1 ≡ (ok tt, (migrate faults s).1))
migrate_again faults later s never e =
    let done = migrate-ok faults s e in
    (
      rw done (record {
        payments_kept = or_empty-Kept s.payments;
        settings_kept = or_empty-Kept s.settings;
        prices_kept = upgraded_prices-KeptPrices s.prices;
        from_made = refl;
        tx_made = refl;
        request_made = refl;
      }),
      rw done (
          migrate-upgraded later (upgraded s) never (record { tx = inl refl; request = inl refl })),
    )
