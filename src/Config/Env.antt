-- ===== src/Config/Env.antt =====
-- internal/config/config.go: reading one setting from the environment, and its errors.
use xpay_server.Base.{
  ℕ, Bool, true, false, Option, none, some, List, [], ◌∷◌, ◌++◌, if◌then◌else◌, str_eq, eqb,
  is_empty, contains, Str, codes, trim_space, ℤ, parse_int, Float64, Result, ok, or_fail, int_eq,
}
use xpay_server.Store.Payments.{fits_int64}

pub data ConfigError : Type 0 where
  not_an_integer not_a_boolean not_a_number : Str → ConfigError
  required invalid must_be_positive : Str → ConfigError
  bad_chain bad_confirmation markup_not_finite : ConfigError

abbrev pub is_slash : ℕ → Bool
is_slash c = eqb c b'/'

-- `strings.Split(s, ",")`
unfoldable pub split_comma : Str → Str → List Str
split_comma part [] = part ∷ []
split_comma part (c ∷ s) =
    let closed = part ∷ split_comma [] s in
    let longer = split_comma (part ++ c ∷ []) s in if eqb c b',' then closed else longer

unfoldable pub keep_nonempty : List Str → List Str
keep_nonempty [] = []
keep_nonempty (p ∷ ps) =
    let rest = keep_nonempty ps in if is_empty (trim_space p) then rest else trim_space p ∷ rest

-- `strconv.ParseBool`
unfoldable pub parse_bool : Str → Option Bool
parse_bool s =
    if contains
      (codes "1" ∷ codes "t" ∷ codes "T" ∷ codes "TRUE" ∷ codes "true" ∷ codes "True" ∷ []) s
    then some true
    else if contains
        (codes "0" ∷ codes "f" ∷ codes "F" ∷ codes "FALSE" ∷ codes "false" ∷ codes "False" ∷ []) s
    then some false
    else none

-- `strconv.ParseInt(s, 10, 64)`, and `strconv.Atoi` on a 64-bit machine
unfoldable pub parse_int64 : Str → Option ℤ
parse_int64 s = elim (parse_int s) [ none ↦ none | some n ↦ if fits_int64 n then some n else none ]

-- `env` is `os.Getenv`.
module _ (env : Str → Str) where
  unfoldable pub env_str : Str → Str → Str
  env_str key default = if is_empty (env key) then default else env key

  unfoldable pub env_int : Str → ℤ → Result ConfigError ℤ
  env_int key default =
      if is_empty (env key)
      then ok default
      else or_fail (parse_int64 (env key)) (not_an_integer key)

  unfoldable pub env_bool : Str → Bool → Result ConfigError Bool
  env_bool key default =
      if is_empty (env key) then ok default else or_fail (parse_bool (env key)) (not_a_boolean key)

  -- `parse_float` is `strconv.ParseFloat`.
  unfoldable pub env_float : (Str → Option Float64) → Str → Float64 → Result ConfigError Float64
  env_float parse_float key default =
      if is_empty (env key) then ok default else or_fail (parse_float (env key)) (not_a_number key)

  unfoldable pub env_csv : Str → Str → List Str
  env_csv key default = keep_nonempty (split_comma [] (env_str key default))
