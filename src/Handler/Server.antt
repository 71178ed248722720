-- ===== src/Handler/Server.antt =====
-- internal/handler/relay.go: the state that the handlers share, requests and responses, and what
-- the relay takes from elsewhere.
use xpay_server.Base.{Bool, Option, Str, ℤ, Dict, Rat, Result}
use xpay_server.Types.{
  PaymentPayload, PaymentRequirements, PaymentRequiredResponse, SettlementResponse,
}
use xpay_server.Config.{Config}
use xpay_server.Cache.{Nanos, Cache}
use xpay_server.Pricing.Manager.{Manager}
use xpay_server.Store.Db.{Db}
use xpay_server.Settler.Outcome.{Settlement, SettleError}

-- What the handlers' pointers lead to.
pub record Server : Type 0 where
  pub cfg : Config
  pub cache : Cache
  pub db : Db
  pub prices : Manager

-- `settler.PaymentSettler`; `settle` is its answer at the time of the call.
pub record PaymentSettler : Type 0 where
  pub build_requirements : Str → Str → Str → ℤ → ℤ → PaymentRequirements
  pub settle : PaymentPayload → ℤ → Str → Result SettleError Settlement

-- The parts of a request that the relay reads; `body` is none if the connection breaks.
pub record Request : Type 0 where
  pub path : Str
  pub body : Option Str
  pub payment : Str
  pub request_id : Str
  pub anthropic_version : Str

pub record UpstreamRequest : Type 0 where
  pub url : Str
  pub body : Str
  pub authorization : Str
  pub anthropic_version : Option Str

pub record UpstreamResponse : Type 0 where
  pub status : ℤ
  pub content_type : Str
  pub body : Str

-- The fields of an upstream response that are read, 0 or empty where they are missing.
pub record Envelope : Type 0 where
  pub model : Str
  pub prompt_tokens : ℤ
  pub completion_tokens : ℤ
  pub input_tokens : ℤ
  pub output_tokens : ℤ
  pub cache_read_tokens : ℤ
  pub prompt_cached : ℤ
  pub input_cached : ℤ

pub data RelayError : Type 0 where
  cannot_read_body cannot_build_request upstream_failed no_usage : RelayError
  missing_request_id not_staged empty_header bad_payment_json unsupported_scheme : RelayError
  unsupported_version network_mismatch panicked : RelayError
  settlement_failed : SettleError → RelayError

pub data Body : Type 0 where
  error : RelayError → Body
  challenge : PaymentRequiredResponse → Body
  raw : Str → Str → Body

pub record Response : Type 0 where
  pub status : ℤ
  pub headers : Dict Str Str
  pub body : Body

-- What the relay takes from the standard library's codecs and from upstream: `rat_of` is
-- `(*big.Rat).SetString`, `decode_envelope` and `decode_model` are `json.Unmarshal` with its error
-- ignored, `accepts_url` is whether `http.NewRequest` accepts the address.
pub record Services : Type 0 where
  pub rat_of : Str → Option Rat
  pub sha256 : Str → Str
  pub base64_encode : Str → Str
  pub base64_decode : Str → Option Str
  pub unmarshal_payment : Str → Option PaymentPayload
  pub marshal_settlement : SettlementResponse → Str
  pub decode_envelope : Str → Envelope
  pub decode_model : Str → Str
  pub accepts_url : Str → Bool
  pub upstream : UpstreamRequest → Option UpstreamResponse

-- The clocks at a request, and whether the database fails at its statement.
pub record Moment : Type 0 where
  pub now : Nanos
  pub unix_nano : ℤ
  pub db_now : ℤ
  pub db_fault : Bool
