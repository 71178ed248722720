-- ===== src/Config.antt =====
-- internal/config/config.go: the settings of the server.
pub mod Env
pub mod Load
pub mod Valid
use xpay_server.Base.{Bool, List, Str, ℤ, Float64}

pub record Config : Type 0 where
  pub port : Str
  pub upstream_url : Str
  pub base_url : Str
  pub upstream_token : Str
  pub payment_chain : Str
  pub pay_to_address : Str
  pub gas_priv_key_hex : Str
  pub chain_id : ℤ
  pub network : Str
  pub rpc_url : Str
  pub usdc_address : Str
  pub usdc_name : Str
  pub usdc_version : Str
  pub solana_cluster : Str
  pub solana_confirmation : Str
  pub db_path : Str
  pub admin_token : Str
  pub cache_ttl_secs : ℤ
  pub sig_timeout_secs : ℤ
  pub upstream_timeout_secs : ℤ
  pub shutdown_timeout_secs : ℤ
  pub max_body_bytes : ℤ
  pub allowed_origins : List Str
  pub markup : Float64
  pub dry_run : Bool
