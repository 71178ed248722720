-- ===== src/Types.antt =====
-- internal/types/types.go: the x402 wire format, without the fields that the code never sets:
-- `MimeType` of the requirements and `Error` of the response.
use xpay_server.Base.{Bool, List, Str, codes, ℤ, pos, Dict}

pub record TransferAuthorization : Type 0 where
  pub from : Str
  pub to : Str
  pub value : ℤ
  pub valid_after : ℤ
  pub valid_before : ℤ
  pub nonce : Str

pub record PaymentRequirements : Type 0 where
  pub scheme : Str
  pub network : Str
  pub max_amount_required : Str
  pub resource : Str
  pub description : Str
  pub pay_to : Str
  pub max_timeout_seconds : ℤ
  pub asset : Str
  pub extra : Dict Str Str

pub record PaymentRequiredResponse : Type 0 where
  pub x402_version : ℤ
  pub accepts : List PaymentRequirements

pub record AuthorizationPayload : Type 0 where
  pub from : Str
  pub to : Str
  pub value : Str
  pub valid_after : Str
  pub valid_before : Str
  pub nonce : Str

pub record ExactEvmPayload : Type 0 where
  pub signature : Str
  pub authorization : AuthorizationPayload

pub record ExactSolanaPayload : Type 0 where
  pub kind : Str
  pub transaction : Str
  pub request_id : Str

-- `payload` is raw JSON.
pub record PaymentPayload : Type 0 where
  pub x402_version : ℤ
  pub scheme : Str
  pub network : Str
  pub payload : Str

pub record SettlementResponse : Type 0 where
  pub success : Bool
  pub transaction : Str
  pub network : Str
  pub payer : Str

abbrev pub x402_version : ℤ
x402_version = pos 1

abbrev pub scheme_exact : Str
scheme_exact = codes "exact"

abbrev pub solana_pay_type : Str
solana_pay_type = codes "signed_transaction"
