-- ===== src/Store/Prices.antt =====
-- internal/store/settings.go: settings and model prices.
use xpay_server.Base.{
  ℕ, suc, Bool, true, false, Option, none, some, not, List, [], ◌∷◌, if◌then◌else◌, ◌==◌, str_eq,
  int_eq, Str, ℤ, pos, Result, ok, err, Dict, lookup, insert, erase, is_empty, map, sort_by,
}
use xpay_server.Pricing.Price.{ModelPriceEntry}
use xpay_server.Pricing.Table.{model_before}
use xpay_server.Store.Db.{
  PriceRow, Db, Outcome, DbError, driver_failed, unique_violation, model_required,
}

-- `GetSetting`: none where there is no row.
unfoldable pub get_setting : Bool → Str → Db → Result DbError (Option Str)
get_setting true key d = err driver_failed
get_setting false key d = ok (lookup key d.settings)

unfoldable pub set_setting : Bool → Str → Str → Db → Outcome (Unit {0})
set_setting true key value d = (err driver_failed, d)
set_setting false key value d = (ok tt, record d { settings = insert key value d.settings })

abbrev pub bool_to_int : Bool → ℤ
bool_to_int true = pos 1
bool_to_int false = pos 0

abbrev pub row_of : ModelPriceEntry → PriceRow
row_of entry = record {
  input = entry.input;
  output = entry.output;
  cached_input = entry.cached_input;
  is_default = bool_to_int entry.is_default;
}

abbrev pub entry_of_row : Str × PriceRow → ModelPriceEntry
entry_of_row (model, row) = record {
  model = model;
  input = row.input;
  output = row.output;
  cached_input = row.cached_input;
  is_default = not (row.is_default == pos 0);
}

abbrev pub Rows : Type 0
Rows = Dict Str PriceRow

-- The inserts of `BootstrapDefaultPrices`, ON CONFLICT DO NOTHING, and the rows that they leave, also
-- where one fails; `faults i` says whether the driver fails at the i-th statement of the transaction.
unfoldable pub insert_missing :
    (ℕ → Bool) → ℕ → List ModelPriceEntry → Rows → Result DbError (Unit {0}) × Rows
insert_missing faults i [] rows = (ok tt, rows)
insert_missing faults i (entry ∷ entries) rows = elim (faults i) [
  | true ↦ (err driver_failed, rows)
  | false ↦ insert_missing faults (suc i) entries (elim (lookup entry.model rows) [
    | some _ ↦ rows
    | none ↦ insert entry.model (row_of entry) rows
  ])
]

-- The inserts of `ReplaceModelPrices`: a second row for one model violates the primary key.
unfoldable pub insert_all :
    (ℕ → Bool) → ℕ → List ModelPriceEntry → Rows → Result DbError (Unit {0}) × Rows
insert_all faults i [] rows = (ok tt, rows)
insert_all faults i (entry ∷ entries) rows = elim (faults i) [
  | true ↦ (err driver_failed, rows)
  | false ↦ elim (lookup entry.model rows) [
    | some _ ↦ (err unique_violation, rows)
    | none ↦ insert_all faults (suc i) entries (insert entry.model (row_of entry) rows)
  ]
]

-- The one connection to the file: the rows that are committed, and those of an open transaction.
pub record Connection : Type 0 where
  pub committed : Rows
  pub working : Option Rows

unfoldable pub begin_tx : Rows → Connection
begin_tx rows = record { committed = rows; working = some rows }

-- Statements on the open transaction: what those before a failing one have done stays in it.
unfoldable pub exec_tx :
    (Rows → Result DbError (Unit {0}) × Rows) → Connection → Result DbError (Unit {0}) × Connection
exec_tx body c = elim c.working [
  | none ↦ (err driver_failed, c)
  | some rows ↦ let (result, rows') = body rows in (result, record c { working = some rows' })
]

unfoldable pub commit_tx : Connection → Connection
commit_tx c = elim c.working [ none ↦ c | some rows ↦ record { committed = rows; working = none } ]

-- Without effect after a commit.
unfoldable pub rollback_tx : Connection → Connection
rollback_tx c = record c { working = none }

-- What the next statement on the connection finds: a transaction left open would be seen.
unfoldable pub seen_rows : Connection → Rows
seen_rows c = elim c.working [ none ↦ c.committed | some rows ↦ rows ]

-- Begin, the statements, commit, and the deferred rollback whatever has come before it.
unfoldable pub transaction :
    Bool → Bool → (Rows → Result DbError (Unit {0}) × Rows) → Db → Outcome (Unit {0})
transaction true commit_fault body d = (err driver_failed, d)
transaction false commit_fault body d =
    let (result, c) = exec_tx body (begin_tx d.model_prices) in
    elim result [
      | err e ↦ (err e, record d { model_prices = seen_rows (rollback_tx c) })
      | ok _ ↦
          if commit_fault
          then (err driver_failed, record d { model_prices = seen_rows (rollback_tx c) })
          else (ok tt, record d { model_prices = seen_rows (rollback_tx (commit_tx c)) })
    ]

module _ (begin_fault commit_fault : Bool) (faults : ℕ → Bool) where
  unfoldable pub bootstrap_default_prices : List ModelPriceEntry → Db → Outcome (Unit {0})
  bootstrap_default_prices entries d =
      transaction begin_fault commit_fault (insert_missing faults 0 entries) d

  -- The DELETE is statement 0.
  unfoldable pub delete_and_insert : List ModelPriceEntry → Rows → Result DbError (Unit {0}) × Rows
  delete_and_insert entries rows =
      if faults 0 then (err driver_failed, rows) else insert_all faults 1 entries []

  unfoldable pub replace_model_prices : List ModelPriceEntry → Db → Outcome (Unit {0})
  replace_model_prices entries d =
      transaction begin_fault commit_fault (delete_and_insert entries) d

-- `ORDER BY model ASC`
unfoldable pub list_model_prices : Bool → Db → Result DbError (List ModelPriceEntry)
list_model_prices true d = err driver_failed
list_model_prices false d = ok (sort_by model_before (map entry_of_row d.model_prices))

unfoldable pub upsert_model_price : Bool → ModelPriceEntry → Db → Outcome (Unit {0})
upsert_model_price fault entry d =
    if is_empty entry.model
    then (err model_required, d)
    else if fault
    then (err driver_failed, d)
    else (ok tt, record d { model_prices = insert entry.model (row_of entry) d.model_prices })

unfoldable pub delete_model_price : Bool → Str → Db → Outcome (Unit {0})
delete_model_price true model d = (err driver_failed, d)
delete_model_price false model d = (ok tt, record d { model_prices = erase model d.model_prices })
