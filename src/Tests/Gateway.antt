-- ===== src/Tests/Gateway.antt =====
-- internal/handler: one server, one upstream and one settler.
use xpay_server.Base.{codes, ℕ, some, pos, err, none, ok, false, [], ◌∷◌, true}
use xpay_server.Tests.Fixtures.{
  evm_config, one_entry, one_payment, two_model_table, two_model_entry, whole_rat,
}
use xpay_server.Handler.Server.{Server, Envelope, PaymentSettler, Moment, Request, Services}
use xpay_server.Types.{PaymentPayload, PaymentRequiredResponse}
use xpay_server.Settler.Outcome.{Settlement, bad_payload}
use xpay_server.Handler.Payment.{Pending}
use xpay_server.Pricing.Display.{Prices}
use xpay_server.Settler.Evm.{evm_requirements}

abbrev pub server : Server
server = record {
  cfg = evm_config;
  cache = one_entry;
  db = one_payment;
  prices = record { table = some two_model_table };
}

abbrev pub payment : PaymentPayload
payment = record {
  x402_version = pos 1;
  scheme = codes "exact";
  network = codes "eip155:84532";
  payload = codes "{}";
}

abbrev pub envelope : Envelope
envelope = record {
  model = codes "gpt-4o";
  prompt_tokens = pos 10;
  completion_tokens = pos 5;
  input_tokens = pos 0;
  output_tokens = pos 0;
  cache_read_tokens = pos 0;
  prompt_cached = pos 4;
  input_cached = pos 0;
}

-- The services, with an upstream that answers with a status.
abbrev pub services : ℕ → Services
services status = record {
  rat_of = whole_rat;
  sha256 = λ s. s;
  base64_encode = λ s. s;
  base64_decode = λ s. none;
  unmarshal_payment = λ s. some payment;
  marshal_settlement = λ r. r.transaction;
  decode_envelope = λ s. envelope;
  decode_model = λ s. codes "gpt";
  accepts_url = λ s. true;
  upstream = λ r. some (record { status = pos status; content_type = []; body = codes "answer" });
}

abbrev pub settlement : Settlement
settlement = record { tx_hash = codes "0xbb"; payer = codes "0xbuyer" }

abbrev pub settler : PaymentSettler
settler = record {
  build_requirements = evm_requirements evm_config;
  settle = λ p cost id. ok settlement;
}

abbrev pub refusing : PaymentSettler
refusing = record settler { settle = λ p cost id. err bad_payload }

abbrev pub moment : Moment
moment = record { now = pos 60; unix_nano = pos 60; db_now = pos 9; db_fault = false }

abbrev pub asking : Request
asking = record {
  path = codes "/v1/chat";
  body = some (codes "question");
  payment = [];
  request_id = [];
  anthropic_version = [];
}

abbrev pub paying : Request
paying = record asking { payment = codes "header"; request_id = codes "req_1" }

abbrev pub pending : Pending
pending = record { req_id = codes "req_1"; entry = two_model_entry; payment = payment }

abbrev pub quoted : PaymentRequiredResponse
quoted = record {
  x402_version = pos 1;
  accepts =
      evm_requirements evm_config (codes "/v1/chat")
        (codes "gpt-4o: 10 prompt + 5 completion tokens") (codes "req_7175657374696f6e7c3630")
        (pos 52) (pos 120)
      ∷ [];
}

abbrev pub prices : Prices
prices = record {
  input_per_m = codes "3.000000";
  cached_input_per_m = codes "1.000000";
  output_per_m = codes "6.000000";
}
