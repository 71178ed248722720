-- ===== src/Main/Routes.antt =====
-- cmd/server/main.go: the routes, with what stands in front of them. A panic is a reply of the handler.

use xpay_server.Base.{
  ◌*ℤ◌, ◌+ℤ◌, [], ◌==◌, str_eq, ◌++◌, ◌∷◌, Str, Bool, codes, List, Option, if◌then◌else◌, some,
  none, Float64, false, true, ℤ, ℕ, to_int64, pos, ◌+ℤ◌,
}
use Prim.Native.String.{String}
use xpay_server.Handler.Server.{Response, Services, Server, Request, PaymentSettler, Moment}
use xpay_server.Handler.Info.{AddressInfo, InfoReply, address, balance}
use xpay_server.Handler.Relay.{handle}
use xpay_server.Handler.Admin.{
  admin_auth, Reply, Faults, overview, save_settings, save_price, delete_price, reset_prices,
  PageReply, page_reply,
}
use xpay_server.Main.{cors_middleware, Config}
use xpay_server.Pricing.Price.{ModelPriceEntry}

pub data Endpoint : Type 0 where
  relay health info_address info_balance : Endpoint
  admin_page admin_overview admin_settings admin_save_price admin_delete_price admin_reset :
      Endpoint

pub record Route : Type 0 where
  pub method : Str
  pub pattern : Str
  pub guarded : Bool
  pub endpoint : Endpoint

abbrev pub route : String → Str → String → Endpoint → Route
route method base pattern endpoint = record {
  method = codes method;
  pattern = base ++ codes pattern;
  guarded = false;
  endpoint = endpoint;
}

-- A route of the group behind `AdminAuth`
abbrev pub admin_route : String → Str → String → Endpoint → Route
admin_route method base pattern endpoint = record {
  method = codes method;
  pattern = base ++ (codes "/admin/api" ++ codes pattern);
  guarded = true;
  endpoint = endpoint;
}

unfoldable pub routes : Str → List Route
routes base =
    route "POST" base "/v1/chat/completions" relay
    ∷ route "POST" base "/v1/responses" relay
    ∷ route "POST" base "/v1/messages" relay
    ∷ route "POST" base "/v1/completions" relay
    ∷ route "GET" base "/health" health
    ∷ route "GET" base "/v1/info/address" info_address
    ∷ route "GET" base "/v1/info/balance" info_balance
    ∷ route "GET" base "/admin" admin_page
    ∷ admin_route "GET" base "/overview" admin_overview
    ∷ admin_route "PUT" base "/settings" admin_settings
    ∷ admin_route "POST" base "/prices" admin_save_price
    ∷ admin_route "DELETE" base "/prices/:model" admin_delete_price
    ∷ admin_route "POST" base "/prices/reset-defaults" admin_reset
    ∷ []

-- A request as far as the server looks at it.
pub record HttpRequest : Type 0 where
  pub method : Str
  pub origin : Str
  pub x_admin_token : Str
  pub authorization : Str
  pub address : Str
  pub request : Request

pub data Answer : Type 0 where
  preflight no_route healthy : Answer
  page_of : PageReply → Answer
  relayed : Response → Answer
  address_of : AddressInfo → Answer
  balance_of : InfoReply → Answer
  administered : Reply → Answer

-- What a request meets outside: the services, the settler, the clocks and the database's faults;
-- `matches` is gin's matching of a pattern, with the parameter, and `bind_` its reading of JSON.
pub record Outside : Type 0 where
  pub sv : Services
  pub settler : PaymentSettler
  pub at : Moment
  pub faults : Faults
  pub sum_fault : Bool
  pub recent_fault : Bool
  pub format : Float64 → Str
  pub bind_markup : Str → Option Float64
  pub bind_price : Str → Option ModelPriceEntry
  pub base58 : Str → Option Str
  pub checksum : Str → Option Str
  pub asset : Option Str
  pub matches : Str → Str → Option Str

abbrev pub bound {ℓ} : {A : Type ℓ} → (Str → Option A) → Option Str → Option A
bound bind none = none
bound bind (some body) = bind body

module _ (o : Outside) where
  -- The route and its parameter. No two of the routes match one request.
  unfoldable pub find_route : Str → Str → List Route → Option (Route × Str)
  find_route method path [] = none
  find_route method path (r ∷ rs) =
      let rest = find_route method path rs in
      if r.method == method
      then elim (o.matches r.pattern path) [ none ↦ rest | some param ↦ some (r, param) ]
      else rest

  unfoldable pub run_endpoint : Endpoint → Str → HttpRequest → Server → Answer × Server
  run_endpoint relay param req s =
      let (response, s') = handle o.sv o.settler o.at s req.request in (relayed response, s')
  run_endpoint health param req s = (healthy, s)
  run_endpoint info_address param req s = (address_of (address s.cfg), s)
  run_endpoint info_balance param req s = (
    balance_of (balance o.base58 o.checksum o.sum_fault o.recent_fault s.cfg req.address s.db),
    s,
  )
  run_endpoint admin_page param req s = (page_of (page_reply o.asset), s)
  run_endpoint admin_overview param req s = (administered (overview o.faults s), s)
  run_endpoint admin_settings param req s =
      let (reply, s') = save_settings o.format o.faults (bound o.bind_markup req.request.body) s in
      (administered reply, s')
  run_endpoint admin_save_price param req s =
      let (reply, s') = save_price o.sv.rat_of o.faults (bound o.bind_price req.request.body) s in
      (administered reply, s')
  run_endpoint admin_delete_price param req s =
      let (reply, s') = delete_price o.sv.rat_of o.faults param s in (administered reply, s')
  run_endpoint admin_reset param req s =
      let (reply, s') = reset_prices o.sv.rat_of o.faults s in (administered reply, s')

  -- `AdminAuth` in front of the routes of its group
  unfoldable pub run_route : Route → Str → HttpRequest → Server → Answer × Server
  run_route r param req s =
      elim (if r.guarded
        then admin_auth s.cfg.admin_token req.x_admin_token req.authorization
        else none) [
          | some reply ↦ (administered reply, s)
          | none ↦ run_endpoint r.endpoint param req s
        ]

  unfoldable pub serve : Server → HttpRequest → Answer × Server
  serve s req =
      if (cors_middleware s.cfg.allowed_origins req.origin req.method).1
      then (preflight, s)
      else elim (find_route req.method req.request.path (routes s.cfg.base_url)) [
        | none ↦ (no_route, s)
        | some (r, param) ↦ run_route r param req s
      ]

abbrev seconds : ℤ → ℤ
seconds n = to_int64 (n *ℤ pos 1_000_000_000)

-- The timeouts of `http.Server` in nanoseconds, and its address.
pub record HttpServer : Type 0 where
  pub addr : Str
  pub read_header_timeout : ℤ
  pub read_timeout : ℤ
  pub write_timeout : ℤ
  pub idle_timeout : ℤ
  pub max_header_bytes : ℤ

unfoldable pub http_server : Config → HttpServer
http_server cfg = record {
  addr = b':' ∷ cfg.port;
  read_header_timeout = seconds (pos 10);
  read_timeout = seconds (to_int64 (cfg.upstream_timeout_secs +ℤ pos 10));
  write_timeout = seconds (to_int64 (cfg.upstream_timeout_secs +ℤ pos 60));
  idle_timeout = seconds (pos 60);
  max_header_bytes = pos 1_048_576;
}

-- Why the server stops: a signal, and whether the shutdown then succeeds, or the listener's end.
pub data Stop : Type 0 where
  signalled : Bool → Stop
  server_closed server_error : Stop

unfoldable pub exit_code : Stop → ℕ
exit_code (signalled true) = 0
exit_code (signalled false) = 1
exit_code server_closed = 0
exit_code server_error = 1
