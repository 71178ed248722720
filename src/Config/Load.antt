-- ===== src/Config/Load.antt =====
-- internal/config/config.go: `Load`, the settings from the environment.
use xpay_server.Base.{
  Bool, false, ◌&&◌, ◌||◌, not, Option, none, some, [], ◌∷◌, ◌++◌, if◌then◌else◌, ◌==◌, str_eq,
  is_empty, Str, codes, trim_space, trim_left, trim_right, to_lower, has_prefix, trim_prefix, ℤ,
  pos, leb_ℤ, int_string, rat_of_int, Float64, finite, is_nan, is_inf, le_zero, Result, ok, err,
  ◌>>=◌, ◌>>◌, fail_if, int_eq,
}
use xpay_server.Config.{Config}
use Prim.Native.String.{String}
use xpay_server.Config.Env.{
  ConfigError, is_slash, env_str, env_int, required, invalid, must_be_positive, env_bool, env_csv,
  bad_chain, bad_confirmation, markup_not_finite, env_float,
}

-- `escaped_path` is the path of an absolute URL, none where `url.Parse` finds none.
unfoldable pub normalize_base_url : (Str → Option Str) → Str → Str
normalize_base_url escaped_path raw =
    let s = trim_space raw in
    if is_empty s || s == codes "/"
    then []
    else (let path : Str = elim (escaped_path s) [ none ↦ s | some p ↦ p ] in
        trim_right is_slash (b'/' ∷ trim_right is_slash (trim_left is_slash path)))

unfoldable pub payment_network : Str → ℤ → Str → Str
payment_network chain chain_id cluster =
    if chain == codes "solana"
    then codes "solana:" ++ cluster
    else codes "eip155:" ++ int_string chain_id

unfoldable pub ensure_0x : Str → Str
ensure_0x s = if has_prefix s (codes "0x") then s else codes "0x" ++ s

-- The tables of known chains.
abbrev pub by_chain : ℤ → Str → Str → Str
by_chain chain_id mainnet sepolia =
    if chain_id == pos 8453 then mainnet else if chain_id == pos 84532 then sepolia else []

abbrev pub usdc_by_chain : ℤ → Str
usdc_by_chain chain_id =
    by_chain chain_id (codes "0x833589fCD6eDb6E08f4c7C32D4f71b54bdA02913")
      (codes "0x036CbD53842c5426634e7929541eC2318f3dCF7e")

abbrev pub usdc_domain_name_by_chain : ℤ → Str
usdc_domain_name_by_chain chain_id = by_chain chain_id (codes "USD Coin") (codes "USDC")

abbrev pub rpc_by_chain : ℤ → Str
rpc_by_chain chain_id =
    by_chain chain_id (codes "https://mainnet.base.org") (codes "https://sepolia.base.org")

abbrev pub solana_rpc_by_cluster : Str → Str
solana_rpc_by_cluster cluster =
    if cluster == codes "mainnet-beta"
    then codes "https://api.mainnet-beta.solana.com"
    else if cluster == codes "devnet"
    then codes "https://api.devnet.solana.com"
    else []

abbrev pub or_else : Str → Str → Str
or_else s default = if is_empty s then default else s

-- What `Load` takes from elsewhere.
pub record Platform : Type 0 where
  pub env : Str → Str
  pub parse_float : Str → Option Float64
  pub escaped_path : Str → Option Str
  pub is_hex_address : Str → Bool
  pub is_hex : Str → Bool
  pub is_public_key : Str → Bool
  pub is_private_key : Str → Bool

-- The numbers and the flag that may fail to parse.
pub record Numbers : Type 0 where
  pub chain_id : ℤ
  pub dry_run : Bool
  pub cache_ttl : ℤ
  pub sig_timeout : ℤ
  pub upstream_timeout : ℤ
  pub shutdown_timeout : ℤ
  pub max_body_bytes : ℤ
  pub markup : Float64

module _ (p : Platform) where
  abbrev pub str : String → String → Str
  str key default = env_str p.env (codes key) (codes default)

  unfoldable pub read_numbers : Result ConfigError Numbers
  read_numbers = do
    chain_id ← env_int p.env (codes "CHAIN_ID") (pos 84532)
    dry_run ← env_bool p.env (codes "DRY_RUN") false
    cache_ttl ← env_int p.env (codes "CACHE_TTL_SECS") (pos 300)
    sig_timeout ← env_int p.env (codes "SIG_TIMEOUT_SECS") (pos 120)
    upstream_timeout ← env_int p.env (codes "UPSTREAM_TIMEOUT_SECS") (pos 300)
    shutdown_timeout ← env_int p.env (codes "SHUTDOWN_TIMEOUT_SECS") (pos 10)
    max_body_bytes ← env_int p.env (codes "MAX_BODY_BYTES") (pos 4194304)
    markup ← env_float p.env p.parse_float (codes "MARKUP") (finite (rat_of_int (pos 1)))
    ok (record {
      chain_id = chain_id;
      dry_run = dry_run;
      cache_ttl = cache_ttl;
      sig_timeout = sig_timeout;
      upstream_timeout = upstream_timeout;
      shutdown_timeout = shutdown_timeout;
      max_body_bytes = max_body_bytes;
      markup = markup;
    })

  unfoldable pub usdc_address : Str → ℤ → Str
  usdc_address chain chain_id =
      let given = str "USDC_ADDRESS" "" in
      if chain == codes "evm" && is_empty given then usdc_by_chain chain_id else given

  unfoldable pub rpc_default : Str → ℤ → Str → Str
  rpc_default chain chain_id cluster =
      if chain == codes "solana"
      then solana_rpc_by_cluster cluster
      else or_else (rpc_by_chain chain_id) (codes "https://sepolia.base.org")

  unfoldable pub build : Numbers → Config
  build n =
      let chain = to_lower (str "PAYMENT_CHAIN" "evm") in
      let cluster = to_lower (str "SOLANA_CLUSTER" "devnet") in
      record {
        port = str "PORT" "3402";
        upstream_url = trim_right is_slash (str "UPSTREAM_URL" "");
        base_url = normalize_base_url p.escaped_path (str "BASE_URL" "");
        upstream_token = str "UPSTREAM_TOKEN" "";
        payment_chain = chain;
        pay_to_address = str "PAY_TO_ADDRESS" "";
        gas_priv_key_hex = str "GAS_PRIVATE_KEY" "";
        chain_id = n.chain_id;
        network = payment_network chain n.chain_id cluster;
        rpc_url = env_str p.env (codes "RPC_URL") (rpc_default chain n.chain_id cluster);
        usdc_address = usdc_address chain n.chain_id;
        usdc_name =
            env_str p.env (codes "USDC_NAME")
              (or_else (usdc_domain_name_by_chain n.chain_id) (codes "USD Coin"));
        usdc_version = str "USDC_VERSION" "2";
        solana_cluster = cluster;
        solana_confirmation = str "SOLANA_CONFIRMATION" "confirmed";
        db_path = str "DB_PATH" "./xpay.db";
        admin_token = str "ADMIN_TOKEN" "";
        cache_ttl_secs = n.cache_ttl;
        sig_timeout_secs = n.sig_timeout;
        upstream_timeout_secs = n.upstream_timeout;
        shutdown_timeout_secs = n.shutdown_timeout;
        max_body_bytes = n.max_body_bytes;
        allowed_origins = env_csv p.env (codes "ALLOWED_ORIGINS") (codes "*");
        markup = n.markup;
        dry_run = n.dry_run;
      }

  abbrev pub is_evm : Config → Bool
  is_evm c = c.payment_chain == codes "evm"

  unfoldable pub check_basics : Config → Result ConfigError (Unit {0})
  check_basics c = do
    fail_if (is_empty c.upstream_url) (required (codes "UPSTREAM_URL"))
    fail_if (is_empty c.upstream_token) (required (codes "UPSTREAM_TOKEN"))
    fail_if (not (is_evm c) && not (c.payment_chain == codes "solana")) bad_chain
    fail_if (is_empty c.pay_to_address) (required (codes "PAY_TO_ADDRESS"))
    ok tt

  unfoldable pub check_evm : Config → Result ConfigError (Unit {0})
  check_evm c = do
    fail_if (not (p.is_hex_address c.pay_to_address)) (invalid (codes "PAY_TO_ADDRESS"))
    fail_if (is_empty c.usdc_address) (required (codes "USDC_ADDRESS"))
    fail_if (not (p.is_hex_address c.usdc_address)) (invalid (codes "USDC_ADDRESS"))
    fail_if (not (p.is_hex (ensure_0x c.usdc_address))) (invalid (codes "USDC_ADDRESS"))
    ok tt

  unfoldable pub check_solana : Config → Result ConfigError (Unit {0})
  check_solana c = do
    fail_if (not (p.is_public_key c.pay_to_address)) (invalid (codes "PAY_TO_ADDRESS"))
    fail_if (is_empty c.usdc_address) (required (codes "USDC_ADDRESS"))
    fail_if (not (p.is_public_key c.usdc_address)) (invalid (codes "USDC_ADDRESS"))
    fail_if (is_empty c.rpc_url) (required (codes "RPC_URL"))
    fail_if
        (not (c.solana_confirmation == codes "confirmed")
          && not (c.solana_confirmation == codes "finalized"))
        bad_confirmation
    ok tt

  unfoldable pub check_limits : Config → Result ConfigError (Unit {0})
  check_limits c = do
    fail_if (leb_ℤ c.cache_ttl_secs (pos 0)) (must_be_positive (codes "CACHE_TTL_SECS"))
    fail_if (leb_ℤ c.sig_timeout_secs (pos 0)) (must_be_positive (codes "SIG_TIMEOUT_SECS"))
    fail_if (leb_ℤ c.upstream_timeout_secs (pos 0))
        (must_be_positive (codes "UPSTREAM_TIMEOUT_SECS"))
    fail_if (leb_ℤ c.shutdown_timeout_secs (pos 0))
        (must_be_positive (codes "SHUTDOWN_TIMEOUT_SECS"))
    fail_if (leb_ℤ c.max_body_bytes (pos 0)) (must_be_positive (codes "MAX_BODY_BYTES"))
    fail_if (le_zero c.markup) (must_be_positive (codes "MARKUP"))
    fail_if (is_nan c.markup || is_inf c.markup) markup_not_finite
    ok tt

  unfoldable pub check_gas_key : Config → Result ConfigError (Unit {0})
  check_gas_key c =
      if not c.dry_run && is_evm c
      then (if is_empty c.gas_priv_key_hex
          then err (required (codes "GAS_PRIVATE_KEY"))
          else fail_if (not (p.is_private_key (trim_prefix c.gas_priv_key_hex (codes "0x"))))
              (invalid (codes "GAS_PRIVATE_KEY")))
      else ok tt

  unfoldable pub validate : Config → Result ConfigError (Unit {0})
  validate c = do
    check_basics c
    (if is_evm c then check_evm c else check_solana c)
    check_limits c
    check_gas_key c

  unfoldable pub load : Result ConfigError Config
  load = do n ← read_numbers; validate (build n); ok (build n)
