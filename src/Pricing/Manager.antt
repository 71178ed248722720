-- ===== src/Pricing/Manager.antt =====
-- internal/pricing/pricing.go: the table that the server's handlers share. Its lock makes each
-- read and each replacement one step.
use xpay_server.Base.{Option, none, some, Str, ℤ, Float64, Rat}
use xpay_server.Pricing.Table.{Table, table_or_default}
use xpay_server.Pricing.Display.{Prices, prices_for}
use xpay_server.Pricing.Cost.{Usage, cost_micro_usdc}

pub record Manager : Type 0 where
  pub table : Option Table

-- A nil table changes nothing.
unfoldable pub replace : Manager → Option Table → Manager
replace m none = m
replace m (some t) = record m { table = some t }

module _ (rat_of : Str → Option Rat) where
  unfoldable pub new_manager : Option Table → Manager
  new_manager t = record { table = table_or_default rat_of t }

  unfoldable pub manager_cost : Manager → Str → Usage → Float64 → Option ℤ
  manager_cost m = cost_micro_usdc rat_of m.table

  unfoldable pub manager_prices : Manager → Str → Option Prices
  manager_prices m = prices_for rat_of m.table
