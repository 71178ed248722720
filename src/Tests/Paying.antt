-- ===== src/Tests/Paying.antt =====
-- cmd/testpay/main.go: the client against a server that offers a response for 42 units, with the JSON
-- of a payment as texts behind their lengths.
use xpay_server.Pricing.Price.{compile_price, micros_of, normalize_model, parse_usd_to_micros}
use xpay_server.Pricing.Table.{
  price_for, table_or_default, price_of_key, add_model, add_models, compile_default, default_table,
  first_prefix, new_table,
}
use xpay_server.Pricing.Cost.{cost_micro_usdc, cost_at, apply_markup, base_cost, max, min, ceil_rat}
use xpay_server.Base.{
  Str, ℤ, List, ℕ, length, ◌∷◌, ◌++◌, pos, ◌≡◌, [], Option, take, take-append, negsuc, suc, ap,
  some, drop, drop-append, zero, refl, none, ◌∙◌, codes, ok, ◌-ℤ◌, arith, ltb_ℤ, false, div, ◌+ℤ◌,
  ◌*ℤ◌, lookup, str_beq, quo, to_int64, insert, place, sort_by, has_prefix, lower, to_lower,
  trim_left, trim_right, trim_space,
}
use xpay_server.Types.{ExactEvmPayload, PaymentPayload}
use xpay_server.Client.Pay.{ClientPayment, Wallet, converse}
use xpay_server.Handler.Server.{Services, Server, raw, PaymentSettler, Response}
use xpay_server.Handler.Settling.{Chains, settler_of}
use xpay_server.Client.Served.{ReadsPayments}
use xpay_server.Settler.New.{EvmSettler, evm}
use xpay_server.Settler.Evm.{Call}
use xpay_server.Tests.Gateway.{services, server, moment, envelope}
use xpay_server.Tests.Relay.{answer}
use xpay_server.Tests.Keys.{
  eth, config, hash_struct, buyer, sign, eth-IsEthereum, standard, ready, signs,
}
use xpay_server.Tests.Solana.{lib}
use xpay_server.Handler.Relay.{handle}
use xpay_server.Handler.Initial.{has_no_usage, usage_of, model_of}
use xpay_server.Pricing.Manager.{manager_cost}
use xpay_server.Tests.Fixtures.{whole_rat}
use xpay_server.Client.Conversation.{converse_lem}

-- A text behind its length.
abbrev frame : Str → Str
frame s = length s ∷ s

abbrev read : Str → Str × Str
read [] = ([], [])
read (n ∷ s) = (take n s, drop n s)

abbrev encode_int : ℤ → Str
encode_int (pos n) = 0 ∷ n ∷ []
encode_int (negsuc n) = 1 ∷ n ∷ []

abbrev decode_int : Str → ℤ
decode_int (zero ∷ n ∷ s) = pos n
decode_int (suc k ∷ n ∷ s) = negsuc n
decode_int _ = pos 0

decode_int-encode_int : (n : ℤ) → decode_int (encode_int n) ≡ n
decode_int-encode_int (pos n) = refl
decode_int-encode_int (negsuc n) = refl

abbrev encode_texts : List Str → Str
encode_texts [] = []
encode_texts (s ∷ ss) = frame s ++ encode_texts ss

-- The texts of a payload, each read behind the one before.
abbrev payload_texts : ExactEvmPayload → List Str
payload_texts p =
    p.signature ∷ p.authorization.from ∷ p.authorization.to ∷ p.authorization.value
    ∷ p.authorization.valid_after ∷ p.authorization.valid_before ∷ p.authorization.nonce ∷ []

abbrev read_texts : ℕ → Str → List Str
read_texts zero s = []
read_texts (suc n) s = let (x, rest) = read s in x ∷ read_texts n rest

read_texts-encode_texts : (ss : List Str) → read_texts (length ss) (encode_texts ss) ≡ ss
read_texts-encode_texts [] = refl
read_texts-encode_texts (s ∷ ss) =
    rw
      (
        take-append (length s) s (encode_texts ss) refl,
        drop-append (length s) s (encode_texts ss) refl,
      )
      (ap (λ t. s ∷ t) (read_texts-encode_texts ss))

abbrev payload_of : List Str → Option ExactEvmPayload
payload_of (signature ∷ from ∷ to ∷ value ∷ after ∷ before ∷ nonce ∷ []) = some (record {
  signature = signature;
  authorization = record {
    from = from;
    to = to;
    value = value;
    valid_after = after;
    valid_before = before;
    nonce = nonce;
  };
})
payload_of _ = none

abbrev unmarshal : Str → Option ExactEvmPayload
unmarshal s = payload_of (read_texts 7 s)

abbrev wire : ClientPayment → PaymentPayload
wire p = record {
  x402_version = p.x402_version;
  scheme = p.scheme;
  network = p.network;
  payload = encode_texts (payload_texts p.payload);
}

abbrev marshal : ClientPayment → Str
marshal p =
    encode_texts (
      encode_int p.x402_version
      ∷ p.scheme
      ∷ p.network
      ∷ encode_texts (payload_texts p.payload)
      ∷ [])

abbrev payment_of_texts : List Str → Option PaymentPayload
payment_of_texts (version ∷ scheme ∷ network ∷ payload ∷ []) = some (record {
  x402_version = decode_int version;
  scheme = scheme;
  network = network;
  payload = payload;
})
payment_of_texts _ = none

abbrev unmarshal_payment : Str → Option PaymentPayload
unmarshal_payment s = payment_of_texts (read_texts 4 s)

unmarshal-encode_texts : (p : ExactEvmPayload) → unmarshal (encode_texts (payload_texts p)) ≡ some p
unmarshal-encode_texts p = ap payload_of (read_texts-encode_texts (payload_texts p))

unmarshal_payment-marshal : (p : ClientPayment) → unmarshal_payment (marshal p) ≡ some (wire p)
unmarshal_payment-marshal p =
    ap payment_of_texts (
      read_texts-encode_texts (
        encode_int p.x402_version
        ∷ p.scheme
        ∷ p.network
        ∷ encode_texts (payload_texts p.payload)
        ∷ []))
    ∙ rw (decode_int-encode_int p.x402_version) refl

abbrev paying_services : Services
paying_services = record (services 200) {
  base64_decode = λ s. some s;
  unmarshal_payment = unmarshal_payment;
}

abbrev transact : Call → Option Str
transact call = some (codes "0xhash")

abbrev chains : Chains
chains = record {
  now = pos 1_050;
  eth = eth;
  hash_struct = hash_struct;
  unmarshal_evm = unmarshal;
  transact = transact;
  lib = lib;
  unmarshal_solana = λ s. none;
  send = λ t. none;
  polls = [];
}

codec : ReadsPayments paying_services chains marshal
codec = record {
  wire = wire;
  base64_read = λ x. refl;
  nonempty = λ p. refl;
  payment_read = unmarshal_payment-marshal;
  version_kept = λ p. refl;
  scheme_kept = λ p. refl;
  network_kept = λ p. refl;
  payload_read = λ p. unmarshal-encode_texts p.payload;
}

abbrev selling : Server
selling = record server { cfg = config }

abbrev contract : EvmSettler
contract = record { contract = some (codes "usdc"); gas_wallet = some (codes "gas") }

abbrev selling_settler : PaymentSettler
selling_settler = settler_of chains config (evm contract)

reported : has_no_usage (usage_of envelope) ≡ false
unfolding usage_of
reported = refl

costs :
    manager_cost whole_rat selling.prices
      (model_of paying_services selling_settler moment (codes "question") (codes "gpt-4o"))
      (usage_of envelope)
      config.markup
    ≡ some (pos 52)
unfolding manager_cost cost_micro_usdc price_for table_or_default cost_at apply_markup base_cost div
    ◌+ℤ◌ ◌*ℤ◌ ◌-ℤ◌ max usage_of min price_of_key lookup str_beq quo to_int64 insert place sort_by
    has_prefix lower to_lower trim_left trim_right trim_space ceil_rat compile_price micros_of
    normalize_model parse_usd_to_micros add_model add_models compile_default default_table
    first_prefix new_table model_of
costs = refl

still_fresh : ltb_ℤ (pos 100) (pos 60 -ℤ pos 60) ≡ false
unfolding ◌-ℤ◌
still_fresh = refl

converse_lem_example :
    let wallet : Wallet = record { signer = buyer; now = pos 1_000; unix_nano = pos 7 } in
    (last : Response × Server) × (converse eth sign marshal
        (λ s. s)
        wallet
        (handle paying_services selling_settler moment)
        (handle paying_services selling_settler moment)
        (codes "question")
        selling
      ≡ ok last)
    × (last.0.body ≡ raw (codes "application/json") (codes "answer"))
converse_lem_example =
    converse_lem paying_services chains marshal codec eth-IsEthereum standard [] buyer sign signs
      contract moment moment selling ready 1_000 120 52 1_050 (pos 7) (codes "question") answer refl
      refl refl reported costs refl refl still_fresh (omega arith) (omega arith) (omega arith)
      (omega arith) refl (λ call. (codes "0xhash", refl))
