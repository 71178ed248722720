-- ===== src/Client/Pay.antt =====
-- cmd/testpay/main.go: `main`, from the offer of the server to the request that pays. What it prints
-- is left out.
use xpay_server.Base.{
  Option, none, some, if◌then◌else◌, [], ◌∷◌, ◌++◌, is_empty, Str, codes, ℤ, pos, ◌+ℤ◌, to_int64,
  int_string, parse_int, lookup, Dict, Result, ok, ◌>>=◌, or_fail, str_eq, List, err, ◌>>◌, fail_if,
  not, ◌==◌, int_eq,
}
use xpay_server.Types.{PaymentRequirements, ExactEvmPayload}
use xpay_server.Cache.{hex, request_id}
use xpay_server.Settler.Authorization.{Ethereum}
use xpay_server.Client.Abi.{copy_at}
use xpay_server.Client.Sign.{
  ClientError, Transfer, sign_eip712, panics, unreadable_challenge, not_402,
}
use xpay_server.Handler.Server.{Request, Body, Response, Server, challenge}
use xpay_server.Client.Network.{network_to_chain_id}

-- `json:"payload"` is a structure here, not raw JSON as in `PaymentPayload`.
pub record ClientPayment : Type 0 where
  pub x402_version : ℤ
  pub scheme : Str
  pub network : Str
  pub payload : ExactEvmPayload

-- The key's address, and the clock when it is read for the deadline and for the nonce.
pub record Wallet : Type 0 where
  pub signer : Str
  pub now : ℤ
  pub unix_nano : ℤ

-- `req.Extra[key]`, empty where it is missing, and the client's own default for empty.
unfoldable pub extra_or : Str → Str → Dict Str Str → Str
extra_or key default extra = elim (lookup key extra) [
  | none ↦ default
  | some v ↦ if is_empty v then default else v
]

module _ (eth : Ethereum) (wallet : Wallet) where
  -- `make([]byte, 32)` with the hash copied into it
  unfoldable pub fresh_nonce : Str
  fresh_nonce = copy_at 0 (eth.keccak256 (codes "test-nonce-" ++ int_string wallet.unix_nano))

  unfoldable pub valid_before : PaymentRequirements → ℤ
  valid_before req = to_int64 (wallet.now +ℤ req.max_timeout_seconds)

  -- What is signed for an offer; an amount that is not a number is a nil pointer.
  unfoldable pub transfer_for : PaymentRequirements → Result ClientError Transfer
  transfer_for req = do
    amount ← or_fail (parse_int req.max_amount_required) panics
    ok (record {
      from = wallet.signer;
      to = eth.hex_to_address req.pay_to;
      value = amount;
      valid_before = valid_before req;
      nonce = fresh_nonce;
      name = extra_or (codes "name") (codes "USDC") req.extra;
      version = extra_or (codes "version") (codes "2") req.extra;
      chain_id = network_to_chain_id req.network;
      usdc = eth.hex_to_address req.asset;
    })

  unfoldable pub payment_of_signature : PaymentRequirements → Str → ClientPayment
  payment_of_signature req sig = record {
    x402_version = pos 1;
    scheme = codes "exact";
    network = req.network;
    payload = record {
      signature = codes "0x" ++ hex sig;
      authorization = record {
        from = eth.address_hex wallet.signer;
        to = req.pay_to;
        value = req.max_amount_required;
        valid_after = codes "0";
        valid_before = int_string (valid_before req);
        nonce = codes "0x" ++ hex fresh_nonce;
      };
    };
  }

  unfoldable pub pay : (Str → Option Str) → PaymentRequirements → Result ClientError ClientPayment
  pay sign req = do
    t ← transfer_for req
    sig ← sign_eip712 eth sign t
    ok (payment_of_signature req sig)

-- The first answer, as far as the client reads it; `accepts` is the decoded body, none if it does
-- not parse.
pub record FirstAnswer : Type 0 where
  pub status : ℤ
  pub request_id : Str
  pub accepts : Option (List PaymentRequirements)

-- The address is that of the first request.
unfoldable pub first_request : Str → Request
first_request body = record {
  path = codes "/v1/chat/completions";
  body = some body;
  payment = [];
  request_id = [];
  anthropic_version = [];
}

-- `marshal` is `json.Marshal` of a payment.
unfoldable pub second_request :
    (ClientPayment → Str) → (Str → Str) → Str → Str → ClientPayment → Request
second_request marshal base64_encode body request_id p = record {
  path = codes "/v1/chat/completions";
  body = some body;
  payment = base64_encode (marshal p);
  request_id = request_id;
  anthropic_version = [];
}

-- The offer that is paid: the first; without one the client panics.
unfoldable pub first_offer : FirstAnswer → Result ClientError PaymentRequirements
first_offer a = elim a.accepts [
  | none ↦ err unreadable_challenge
  | some [] ↦ err panics
  | some (req ∷ rest) ↦ ok req
]

-- The second request for the first answer.
unfoldable pub answer_challenge :
    Ethereum
    → (Str → Option Str)
    → (ClientPayment → Str)
    → (Str → Str)
    → Wallet
    → Str
    → FirstAnswer
    → Result ClientError Request
answer_challenge eth sign marshal base64_encode wallet body a = do
  fail_if (not (a.status == pos 402)) not_402
  req ← first_offer a
  p ← pay eth wallet sign req
  ok (second_request marshal base64_encode body a.request_id p)

-- `resp.Header.Get(key)`
abbrev pub header_or_empty : Str → Dict Str Str → Str
header_or_empty key headers = elim (lookup key headers) [ none ↦ [] | some v ↦ v ]

-- The body decoded; one that is no challenge comes with another status than 402.
abbrev pub offers_of : Body → Option (List PaymentRequirements)
offers_of (challenge c) = some c.accepts
offers_of _ = none

unfoldable pub read_answer : Response → FirstAnswer
read_answer r = record {
  status = r.status;
  request_id = header_or_empty (codes "X-PAYMENT-REQUEST-ID") r.headers;
  accepts = offers_of r.body;
}

-- Both exchanges with a server in the state `s`, which answers the one as `first` and the other as
-- `second`.
unfoldable pub converse :
    Ethereum
    → (Str → Option Str)
    → (ClientPayment → Str)
    → (Str → Str)
    → Wallet
    → (Server → Request → Response × Server)
    → (Server → Request → Response × Server)
    → Str
    → Server
    → Result ClientError (Response × Server)
converse eth sign marshal base64_encode wallet first second body s = do
  let (response, s') = first s (first_request body)
  req ← answer_challenge eth sign marshal base64_encode wallet body (read_answer response)
  ok (second s' req)
