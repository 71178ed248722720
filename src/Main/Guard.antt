-- ===== src/Main/Guard.antt =====
-- cmd/server/main.go: what a request without the administrator's token can do, and what every request
-- keeps.
use xpay_server.Base.{
  ◌==◌, str_eq, ◌≡◌, refl, Bool, ℤ, Str, arith, Option-cases, inl, inr, Bool-cases, is_empty, some,
  true, All, List, false, ◌⊎◌, ◌∷◌, subst, [],
}
use xpay_server.Handler.Server.{Server, Services, PaymentSettler, Moment, Request}
use xpay_server.Store.Payments.{record_payment}
use xpay_server.Store.Db.{Payment, Db}
use xpay_server.Handler.Payment.{handle_payment, settle_books, Pending, payment_row}
use xpay_server.Handler.Relay.{handle, read_body}
use xpay_server.Handler.Initial.{handle_initial}
use xpay_server.Handler.History.{handle_payment-cases, handle_initial-cases}
use xpay_server.Main.Routes.{
  Outside, HttpRequest, serve, Endpoint, run_endpoint, Route, routes, find_route, run_route, relay,
  health, info_address, info_balance, admin_page, admin_overview, admin_settings, admin_save_price,
  admin_delete_price, admin_reset,
}
use xpay_server.Settler.Outcome.{Settlement}
use xpay_server.Handler.Admin.{Reply, admin_auth}
use xpay_server.Main.{cors_middleware}

-- What only an administrator may change.
pub record IsKept (s t : Server) : Type 0 where
  pub cfg : t.cfg ≡ s.cfg
  pub prices : t.prices ≡ s.prices
  pub settings : t.db.settings ≡ s.db.settings
  pub model_prices : t.db.model_prices ≡ s.db.model_prices

kept : (s : Server) → IsKept s s
kept s = record { cfg = refl; prices = refl; settings = refl; model_prices = refl }

record_payment-kept :
    (fault : Bool) (now : ℤ) (p : Payment) (d : Db)
    → ((record_payment fault now p d).1.settings ≡ d.settings)
      × ((record_payment fault now p d).1.model_prices ≡ d.model_prices)
unfolding record_payment
record_payment-kept fault now p d = (ground arith, ground arith)

settle_books-IsKept :
    (sv : Services) (at : Moment) (s : Server) (p : Pending) (st : Settlement)
    → IsKept s (settle_books sv at s p st)
unfolding settle_books
settle_books-IsKept sv at s p st =
    let (settings, models) =
      record_payment-kept at.db_fault at.db_now (payment_row sv s p st) s.db in
    record { cfg = refl; prices = refl; settings = settings; model_prices = models }

handle_payment-IsKept :
    (sv : Services) (settler : PaymentSettler) (at : Moment) (s : Server) (req : Request)
    → IsKept s (handle_payment sv settler at s req).1
handle_payment-IsKept sv settler at s req = elim (handle_payment-cases sv settler at s req) [
  | inl same ↦ rw same (kept s)
  | inr (p, st, booked) ↦ rw booked (settle_books-IsKept sv at s p st)
]

handle_initial-IsKept :
    (sv : Services) (settler : PaymentSettler) (at : Moment) (s : Server) (req : Request)
    (body : Str)
    → IsKept s (handle_initial sv settler at s req body).1
handle_initial-IsKept sv settler at s req body =
    elim (handle_initial-cases sv settler at s req body) [
      | inl same ↦ rw same (kept s)
      | inr (e, staged) ↦
          rw staged (record { cfg = refl; prices = refl; settings = refl; model_prices = refl })
    ]

handle-IsKept :
    (sv : Services) (settler : PaymentSettler) (at : Moment) (s : Server) (req : Request)
    → IsKept s (handle sv settler at s req).1
unfolding handle
handle-IsKept sv settler at s req = elim (Option-cases (read_body s.cfg.max_body_bytes req.body)) [
  | inl failed ↦ rw (handle, failed) (kept s)
  | inr (body, read) ↦ elim (Bool-cases (is_empty req.payment)) [
    | inl y ↦ rw (handle, read, y) (handle_initial-IsKept sv settler at s req body)
    | inr n ↦ rw (handle, read, n) (handle_payment-IsKept sv settler at s req)
  ]
]

-- The endpoints that are open to everyone.
abbrev is_public : Endpoint → Bool
is_public relay = true
is_public health = true
is_public info_address = true
is_public info_balance = true
is_public admin_page = true
is_public _ = false

run_endpoint-IsKept :
    (o : Outside) (e : Endpoint) (param : Str) (req : HttpRequest) (s : Server)
    → is_public e ≡ true
    → IsKept s (run_endpoint o e param req s).1
unfolding run_endpoint
run_endpoint-IsKept o relay param req s h = handle-IsKept o.sv o.settler o.at s req.request
run_endpoint-IsKept o health param req s h = kept s
run_endpoint-IsKept o info_address param req s h = kept s
run_endpoint-IsKept o info_balance param req s h = kept s
run_endpoint-IsKept o admin_page param req s h = kept s
run_endpoint-IsKept o admin_overview param req s h = cc
run_endpoint-IsKept o admin_settings param req s h = cc
run_endpoint-IsKept o admin_save_price param req s h = cc
run_endpoint-IsKept o admin_delete_price param req s h = cc
run_endpoint-IsKept o admin_reset param req s h = cc

abbrev IsGuarded : Route → Type 0
IsGuarded r = (r.guarded ≡ true) ⊎ (is_public r.endpoint ≡ true)

routes-IsGuarded : (base : Str) → All IsGuarded (routes base)
unfolding routes
routes-IsGuarded base = (
  inr refl,
  (
    inr refl,
    (
      inr refl,
      (
        inr refl,
        (
          inr refl,
          (
            inr refl,
            (inr refl, (inr refl, (inl refl, (inl refl, (inl refl, (inl refl, (inl refl, tt))))))),
          ),
        ),
      ),
    ),
  ),
)

find_route-All :
    (o : Outside) (P : Route → Type 0) (method path : Str) (rs : List Route) (r : Route)
    (param : Str)
    → find_route o method path rs ≡ some (r, param)
    → All P rs
    → P r
unfolding find_route
find_route-All o P method path [] r param e h = cc
find_route-All o P method path (x ∷ rs) r param e h = elim (Bool-cases (x.method == method)) [
  | inr other ↦ find_route-All o P method path rs r param (ground arith) h.1
  | inl same ↦ elim (Option-cases (o.matches x.pattern path)) [
    | inl missed ↦ find_route-All o P method path rs r param (ground arith) h.1
    | inr (found, matched) ↦ subst P (ground arith) h.0
  ]
]

run_route-IsKept :
    (o : Outside) (r : Route) (param : Str) (req : HttpRequest) (s : Server) (reply : Reply)
    → admin_auth s.cfg.admin_token req.x_admin_token req.authorization ≡ some reply
    → IsGuarded r
    → IsKept s (run_route o r param req s).1
unfolding run_route
run_route-IsKept o r param req s reply refusal (inl guarded) =
    rw (run_route, guarded, refusal) (kept s)
run_route-IsKept o r param req s reply refusal (inr public) = elim (Bool-cases r.guarded) [
  | inl guarded ↦ rw (run_route, guarded, refusal) (kept s)
  | inr unguarded ↦ rw (run_route, unguarded) (run_endpoint-IsKept o r.endpoint param req s public)
]

-- With a token set, a request that does not carry it changes neither the settings nor the prices, in
-- memory or in the database, whatever its method and path.
pub serve-IsKept :
    (o : Outside) (s : Server) (req : HttpRequest) (reply : Reply)
    → admin_auth s.cfg.admin_token req.x_admin_token req.authorization ≡ some reply
    → IsKept s (serve o s req).1
unfolding serve
serve-IsKept o s req reply refusal =
    elim (Bool-cases (cors_middleware s.cfg.allowed_origins req.origin req.method).1) [
      | inl asked ↦ rw (serve, asked) (kept s)
      | inr other ↦
          let found = find_route o req.method req.request.path (routes s.cfg.base_url) in
          elim (Option-cases found) [
            | inl missing ↦ rw (serve, other, missing) (kept s)
            | inr ((r, param), matched) ↦
                rw (serve, other, matched)
                  (run_route-IsKept o r param req s reply refusal (
                    find_route-All o IsGuarded req.method req.request.path (routes s.cfg.base_url) r
                      param matched (routes-IsGuarded s.cfg.base_url)))
          ]
    ]
