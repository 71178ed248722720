-- ===== src/Tests/Relay.antt =====
-- internal/handler/relay.go at one server, one upstream and one settler.
use xpay_server.Handler.History.{handle_payment_once, Reaches, stay, next, asked, swept}
use xpay_server.Pricing.Price.{compile_price, micros_of, normalize_model, parse_usd_to_micros}
use xpay_server.Cache.{request_id, hex, hex_digit, store, get, is_expired, sweep}
use xpay_server.Pricing.Table.{
  price_for, table_or_default, add_model, add_models, compile_default, default_table, first_prefix,
  new_table, price_of_key,
}
use xpay_server.Pricing.Cost.{cost_micro_usdc, cost_at, apply_markup, base_cost, max, ceil_rat, min}
use xpay_server.Base.{
  ◌≡◌, refl, Str, codes, some, pos, ℤ, ok, false, [], ◌≢◌, int_string, decimal, div, digits, ◌+ℤ◌,
  ◌*ℤ◌, ◌-ℤ◌, quo, to_int64, insert, lookup, place, sort_by, has_prefix, lower, str_beq, to_lower,
  trim_left, trim_right, trim_space, ◌≤ℤ◌, ◌⊎◌, length,
}
use xpay_server.Tests.Fixtures.{whole_rat, two_model_entry}
use xpay_server.Handler.Server.{Server, Request, UpstreamResponse, challenge, raw, not_staged}
use xpay_server.Types.{PaymentPayload}
use xpay_server.Settler.Outcome.{Settlement}
use xpay_server.Handler.Payment.{
  handle_payment, finish_payment, begin_payment, decode_payment_header, delivery, payment_row,
}
use xpay_server.Pricing.Display.{
  float_string, six_digits, usdc_units_to_usd, prices_for, prices_of, micros_to_usd,
}
use xpay_server.Handler.Initial.{
  handle_initial, upstream_request, fail, price_and_stage, usage_of, stage, describe, staged_id,
  model_of, entry_for, has_no_usage, content_type_of,
}
use xpay_server.Pricing.Manager.{manager_prices, manager_cost}
use xpay_server.Handler.Staging.{IsStaged, handle_initial-stages, handle_initial_unpaid}
use xpay_server.Handler.Delivery.{IsPaid, handle_payment-IsPaid}
use xpay_server.Handler.Overlap.{finish_payment_twice}
use xpay_server.Settler.Evm.{evm_requirements}
use xpay_server.Handler.RoundTrip.{handle_payment-handle_initial}
use xpay_server.Tests.Gateway.{
  server, paying, services, prices, refusing, envelope, settler, moment, payment, asking, pending,
  quoted, settlement,
}
use xpay_server.Store.Payments.{record_payment, conflicts}

quotes :
    (handle_initial (services 200) settler moment server asking (codes "question")).0.body
    ≡ challenge quoted
unfolding handle_initial price_and_stage usage_of manager_cost cost_micro_usdc price_for
    table_or_default stage describe staged_id cost_at model_of request_id apply_markup int_string
    hex base_cost decimal hex_digit div digits ◌+ℤ◌ evm_requirements ◌*ℤ◌ ◌-ℤ◌ max quo to_int64
    insert lookup place sort_by has_prefix lower str_beq to_lower trim_left trim_right trim_space
    store entry_for upstream_request ceil_rat min float_string six_digits usdc_units_to_usd
    compile_price micros_of normalize_model parse_usd_to_micros add_model add_models compile_default
    default_table first_prefix new_table price_of_key
quotes = refl

passes_on :
    (handle_initial (services 429) settler moment server asking (codes "question")).0.body
    ≡ raw (codes "application/json") (codes "answer")
unfolding handle_initial
passes_on = refl

pub delivers :
    (handle_payment (services 200) settler moment server paying).0.body
    ≡ raw (codes "application/json") (codes "{}")
unfolding handle_payment begin_payment get lookup str_beq is_expired ◌-ℤ◌ decode_payment_header
    finish_payment manager_prices prices_for price_for table_or_default delivery
delivers = refl

pub has_prices : manager_prices whole_rat server.prices (codes "gpt-4o") ≡ some prices
unfolding manager_prices prices_for price_for table_or_default prices_of micros_to_usd float_string
    price_of_key lookup str_beq normalize_model to_lower trim_space trim_right trim_left lower
    first_prefix decimal digits quo to_int64 ◌*ℤ◌ insert place sort_by has_prefix six_digits
    compile_price micros_of parse_usd_to_micros add_model add_models compile_default default_table
    new_table
has_prices = refl

handle_initial-stages_example :
    IsStaged
      (services 200)
      settler
      moment
      server
      asking
      (codes "question")
      (handle_initial (services 200) settler moment server asking (codes "question"))
      quoted
handle_initial-stages_example =
    handle_initial-stages (services 200) settler moment server asking (codes "question") quoted
      quotes

handle_initial_unpaid_example :
    (resp : UpstreamResponse) × ((services 429).upstream
        (upstream_request (services 429) settler moment server asking (codes "question"))
      ≡ some resp)
    × ((resp.status ≤ℤ pos 199) ⊎ (pos 300 ≤ℤ resp.status))
    × (codes "answer" ≡ resp.body)
    × ((handle_initial (services 429) settler moment server asking (codes "question")).1 ≡ server)
handle_initial_unpaid_example =
    handle_initial_unpaid (services 429) settler moment server asking (codes "question")
      (codes "application/json") (codes "answer") passes_on

handle_payment-IsPaid_example :
    IsPaid (services 200) moment server paying settler (codes "application/json") (codes "{}")
handle_payment-IsPaid_example =
    handle_payment-IsPaid (services 200) moment server paying settler (codes "application/json")
      (codes "{}") delivers

refuses :
    (p : PaymentPayload) (cost : ℤ) (id : Str) (st : Settlement) → refusing.settle p cost id ≢ ok st
refuses p cost id st h = cc

quoted_id :
    staged_id (services 200) settler moment (codes "question") ≡ codes "req_7175657374696f6e7c3630"
unfolding staged_id request_id hex hex_digit int_string decimal digits
quoted_id = refl

-- The next request stages another answer.
other_id : staged_id (services 200) settler moment (codes "question") ≢ codes "req_1"
other_id h = cc (h, quoted_id)

-- The server after the paid request, that next one, and the sweep.
abbrev delivered : Server
delivered = (handle_payment (services 200) settler moment server paying).1

abbrev asked_again : Server
asked_again = (handle_initial (services 200) settler moment delivered asking (codes "question")).1

abbrev later : Server
later = record asked_again { cache = sweep (pos 70) asked_again.cache }

busy : Reaches (services 200) (codes "req_1") delivered later
busy =
    next asked_again later
      (next delivered asked_again stay
        (asked settler moment delivered asking (codes "question") other_id))
      (swept (pos 70) asked_again)

handle_payment_once_example :
    handle_payment (services 200) refusing moment later paying ≡ (fail (pos 410) not_staged, later)
handle_payment_once_example =
    handle_payment_once (services 200) settler refusing moment moment server later paying paying
      (codes "application/json") (codes "{}") delivers busy refl refl

begins : begin_payment (services 200) moment server paying ≡ ok pending
unfolding begin_payment get lookup str_beq is_expired ◌-ℤ◌ decode_payment_header
begins = refl

first_recorded :
    (record_payment false
      (pos 9)
      (payment_row (services 200) server pending settlement)
      server.db).0
    ≡ ok tt
unfolding record_payment conflicts str_beq payment_row
first_recorded = refl

finish_payment_twice_example :
    let (first, s') = finish_payment (services 200) settler moment server pending in
    let (second, s'') = finish_payment (services 200) settler moment s' pending in
    (two_model_entry ≡ two_model_entry)
    × (first.body ≡ raw (codes "application/json") (codes "{}"))
    × (second.body ≡ raw (codes "application/json") (codes "{}"))
    × (length s'.db.payments ≡ 2)
    × (s''.db ≡ s'.db)
finish_payment_twice_example =
    finish_payment_twice (services 200) settler moment moment server paying paying pending pending
      settlement settlement prices refl begins begins refl refl has_prices first_recorded

abbrev paying_next : Request
paying_next = record paying { request_id = codes "req_7175657374696f6e7c3630" }

abbrev pub answer : UpstreamResponse
answer = record { status = pos 200; content_type = []; body = codes "answer" }

usage_reported : has_no_usage (usage_of envelope) ≡ false
unfolding usage_of
usage_reported = refl

answer_costs :
    manager_cost whole_rat server.prices
      (model_of (services 200) settler moment (codes "question") (codes "gpt-4o"))
      (usage_of envelope)
      server.cfg.markup
    ≡ some (pos 52)
unfolding manager_cost cost_micro_usdc price_for table_or_default cost_at apply_markup base_cost div
    ◌+ℤ◌ ◌*ℤ◌ ◌-ℤ◌ max usage_of min price_of_key lookup str_beq quo to_int64 insert place sort_by
    has_prefix lower to_lower trim_left trim_right trim_space ceil_rat compile_price micros_of
    normalize_model parse_usd_to_micros add_model add_models compile_default default_table
    first_prefix new_table model_of
answer_costs = refl

asks_for_id : paying_next.request_id ≡ staged_id (services 200) settler moment (codes "question")
unfolding staged_id request_id hex hex_digit int_string decimal digits
asks_for_id = refl

pub header_decodes : decode_payment_header (services 200) (codes "header") ≡ ok payment
unfolding decode_payment_header str_beq
header_decodes = refl

handle_payment-handle_initial_example :
    let (first, s') =
      handle_initial (services 200) settler moment server asking (codes "question") in
    let (second, _) = handle_payment (services 200) settler moment s' paying_next in
    (first.status ≡ pos 402)
    × (second.status ≡ pos 200)
    × (second.body ≡ raw (content_type_of answer) (codes "answer"))
unfolding ◌-ℤ◌
handle_payment-handle_initial_example =
    handle_payment-handle_initial (services 200) settler moment moment server asking paying_next
      (codes "question") answer (pos 52) payment settlement refl refl refl usage_reported
      answer_costs refl asks_for_id header_decodes refl refl refl
