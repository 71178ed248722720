-- ===== src/Tests/Web.antt =====
-- cmd/server/main.go: a request for a route of the administration without the token.
use xpay_server.Main.{cors_middleware}
use xpay_server.Base.{
  ◌≡◌, codes, [], some, refl, false, finite, rat_of_int, pos, none, if◌then◌else◌, ◌==◌, str_eq,
  str_beq,
}
use xpay_server.Main.Routes.{
  Outside, HttpRequest, serve, administered, find_route, routes, run_route,
}
use xpay_server.Handler.Server.{Server}
use xpay_server.Handler.Admin.{admin_auth, failed, unauthorized}
use xpay_server.Main.Guard.{IsKept, serve-IsKept}
use xpay_server.Tests.Gateway.{server, services, settler, paying, moment}
use xpay_server.Tests.Fixtures.{evm_config, never_fails}

abbrev outside : Outside
outside = record {
  sv = services 200;
  settler = settler;
  at = moment;
  faults = record {
    write = false;
    begin = false;
    commit = false;
    statements = never_fails;
    read = false;
  };
  sum_fault = false;
  recent_fault = false;
  format = λ m. codes "1";
  bind_markup = λ s. some (finite (rat_of_int (pos 2)));
  bind_price = λ s. none;
  base58 = λ s. some s;
  checksum = λ s. some s;
  asset = none;
  matches = λ pattern path. if pattern == path then some [] else none;
}

abbrev locked : Server
locked = record server { cfg = record evm_config { admin_token = codes "secret" } }

abbrev intruding : HttpRequest
intruding = record {
  method = codes "PUT";
  origin = [];
  x_admin_token = codes "guess";
  authorization = [];
  address = [];
  request = record paying { path = codes "/admin/api/settings"; body = some (codes "2") };
}

refusal : admin_auth (codes "secret") (codes "guess") [] ≡ some (failed 401 unauthorized)
unfolding admin_auth str_beq
refusal = refl

refused_answer : (serve outside locked intruding).0 ≡ administered (failed 401 unauthorized)
unfolding serve cors_middleware str_beq find_route routes run_route admin_auth
refused_answer = refl

serve-IsKept_example : IsKept locked (serve outside locked intruding).1
serve-IsKept_example = serve-IsKept outside locked intruding (failed 401 unauthorized) refusal
