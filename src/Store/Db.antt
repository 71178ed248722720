-- ===== src/Store/Db.antt =====
-- internal/store/db.go and payment.go: the tables, and what every operation on them returns.
use xpay_server.Base.{ℕ, List, [], Str, ℤ, Dict, Result}

-- A row of `payments`.
pub record Payment : Type 0 where
  pub id : ℕ
  pub from_address : Str
  pub to_address : Str
  pub amount : ℤ
  pub tx_hash : Str
  pub model : Str
  pub prompt_tokens : ℤ
  pub completion_tokens : ℤ
  pub request_id : Str
  pub network : Str
  pub created_at : ℤ

-- A row of `model_prices` but for its key. `updated_at` is never read.
pub record PriceRow : Type 0 where
  pub input : Str
  pub output : Str
  pub cached_input : Str
  pub is_default : ℤ

-- The tables of `migrate`, the newest payment first; `next_id` is the AUTOINCREMENT counter.
pub record Db : Type 0 where
  pub payments : List Payment
  pub next_id : ℕ
  pub settings : Dict Str Str
  pub model_prices : Dict Str PriceRow

abbrev pub empty_db : Db
empty_db = record { payments = []; next_id = 1; settings = []; model_prices = [] }

pub data DbError : Type 0 where
  driver_failed unique_violation integer_overflow model_required : DbError

-- The error or the value, and the tables afterwards.
abbrev pub Outcome {ℓ} : Type ℓ → Type ℓ
Outcome A = Result DbError A × Db
