-- ===== src/Store/Migrate.antt =====
-- internal/store/db.go: `migrate` and `Open`, on what the file holds before.
use xpay_server.Base.{
  ℕ, Str, Dict, Option, Result, Bool, ℤ, List, ◌==◌, [], ok, true, ◌∷◌, false, ◌&&◌, str_eq, err,
  some, if◌then◌else◌, ◌||◌, none, suc, ◌>>◌, not, wrap_err,
}
use xpay_server.Store.Db.{Payment, PriceRow}
use xpay_server.Store.Open.{Url, ensure_db_dir}

-- A row of `model_prices` as it was without `cached_input`.
pub record OldPriceRow : Type 0 where
  pub input : Str
  pub output : Str
  pub is_default : ℤ

pub data PriceTable : Type 0 where
  without_cached : Dict Str OldPriceRow → PriceTable
  with_cached : Dict Str PriceRow → PriceTable

-- The tables and the indexes of the file that the program knows; none where a table is missing.
pub record Schema : Type 0 where
  pub payments : Option (List Payment)
  pub from_index : Bool
  pub tx_index : Bool
  pub request_index : Bool
  pub settings : Option (Dict Str Str)
  pub prices : Option PriceTable

pub data Statement : Type 0 where
  create_payments create_from_index create_tx_index create_request_index : Statement
  create_settings create_prices add_cached_input : Statement

pub data MigrateError : Type 0 where
  statement_failed no_such_table not_unique duplicate_column : MigrateError

unfoldable pub any_payment : (Payment → Bool) → List Payment → Bool
any_payment test [] = false
any_payment test (p ∷ ps) = test p || any_payment test ps

-- Whether two rows are alike, so that a unique index cannot be made.
unfoldable pub has_twins : (Payment → Payment → Bool) → List Payment → Bool
has_twins alike [] = false
has_twins alike (p ∷ ps) = any_payment (alike p) ps || has_twins alike ps

abbrev pub same_tx : Payment → Payment → Bool
same_tx p q = p.network == q.network && p.tx_hash == q.tx_hash

abbrev pub same_request : Payment → Payment → Bool
same_request p q = p.request_id == q.request_id

unfoldable pub add_column : Dict Str OldPriceRow → Dict Str PriceRow
add_column [] = []
add_column ((model, r) ∷ rows) =
    (
      model,
      record { input = r.input; output = r.output; cached_input = []; is_default = r.is_default },
    )
    ∷ add_column rows

-- `CREATE UNIQUE INDEX IF NOT EXISTS`, given whether it exists
unfoldable pub unique_index :
    (Payment → Payment → Bool) → Bool → Option (List Payment) → Result MigrateError (Unit {0})
unique_index alike true rows = ok tt
unique_index alike false none = err no_such_table
unique_index alike false (some rows) = if has_twins alike rows then err not_unique else ok tt

abbrev pub or_empty {ℓ} : {A : Type ℓ} → Option (List A) → List A
or_empty none = []
or_empty (some xs) = xs

abbrev pub or_new_table : Option PriceTable → PriceTable
or_new_table none = with_cached []
or_new_table (some t) = t

-- What SQL says of a statement that the driver carries out.
unfoldable pub execute : Statement → Schema → Result MigrateError Schema
execute create_payments s = ok (record s { payments = some (or_empty s.payments) })
execute create_from_index s = elim s.payments [
  | none ↦ err no_such_table
  | some rows ↦ ok (record s { from_index = true })
]
execute create_tx_index s =
    unique_index same_tx s.tx_index s.payments >> ok (record s { tx_index = true })
execute create_request_index s =
    unique_index same_request s.request_index s.payments >> ok (record s { request_index = true })
execute create_settings s = ok (record s { settings = some (or_empty s.settings) })
execute create_prices s = ok (record s { prices = some (or_new_table s.prices) })
execute add_cached_input s = elim s.prices [
  | none ↦ err no_such_table
  | some t ↦ elim t [
    | with_cached rows ↦ err duplicate_column
    | without_cached rows ↦ ok (record s { prices = some (with_cached (add_column rows)) })
  ]
]

-- The ALTER may find its column there.
abbrev pub is_tolerated : Statement → MigrateError → Bool
is_tolerated add_cached_input duplicate_column = true
is_tolerated _ _ = false

-- The loop, and what the file holds after it; `faults i` says whether the driver fails at the i-th
-- statement.
unfoldable pub execute_all :
    (ℕ → Bool) → ℕ → List Statement → Schema → Result MigrateError (Unit {0}) × Schema
execute_all faults i [] s = (ok tt, s)
execute_all faults i (stmt ∷ stmts) s =
    elim (if faults i then err statement_failed else execute stmt s) [
      | ok t ↦ execute_all faults (suc i) stmts t
      | err e ↦
          let rest = execute_all faults (suc i) stmts s in
          if is_tolerated stmt e then rest else (err e, s)
    ]

unfoldable pub migrate : (ℕ → Bool) → Schema → Result MigrateError (Unit {0}) × Schema
migrate faults s =
    execute_all faults 0
      (create_payments ∷ create_from_index ∷ create_tx_index ∷ create_request_index
        ∷ create_settings ∷ create_prices ∷ add_cached_input ∷ [])
      s

pub data OpenError : Type 0 where
  no_directory cannot_open : OpenError
  migration_failed : MigrateError → OpenError

-- `Open` of a path, and then the migration. `make_dir` is whether `os.MkdirAll` succeeds, `accepts`
-- whether the driver opens the path; the others are the parameters of `db_dir`.
unfoldable pub open_store :
    (Str → Option Url)
    → (Str → Str)
    → (Str → Bool)
    → (Str → Bool)
    → (ℕ → Bool)
    → Str
    → Schema
    → Result OpenError (Unit {0}) × Schema
open_store url_parse dir make_dir accepts faults path s =
    let blocked : Bool = elim (ensure_db_dir url_parse dir path) [
      | none ↦ false
      | some d ↦ not (make_dir d)
    ] in
    let (result, t) = migrate faults s in
    if blocked
    then (err no_directory, s)
    else if not (accepts path)
    then (err cannot_open, s)
    else (wrap_err migration_failed result, t)
