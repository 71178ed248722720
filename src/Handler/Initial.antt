-- ===== src/Handler/Initial.antt =====
-- internal/handler/relay.go: `handleInitial`, the request that is answered with a price.
use xpay_server.Base.{
  Bool, ◌&&◌, none, some, [], ◌∷◌, ◌++◌, if◌then◌else◌, ◌==◌, int_eq, is_empty, Str, codes, ℤ, pos,
  ltb_ℤ, leb_ℤ, int_string,
}
use xpay_server.Types.{x402_version}
use xpay_server.Cache.{Entry, store, request_id}
use xpay_server.Pricing.Cost.{Usage}
use xpay_server.Pricing.Display.{usdc_units_to_usd}
use xpay_server.Pricing.Manager.{manager_cost}
use xpay_server.Handler.Server.{
  Server, PaymentSettler, Request, UpstreamRequest, UpstreamResponse, Envelope, RelayError,
  Response, Services, Moment, error, challenge, raw, cannot_build_request, upstream_failed,
  no_usage, panicked,
}

abbrev pub fail : ℤ → RelayError → Response
fail status e = record { status = status; headers = []; body = error e }

abbrev pub or_zero : ℤ → ℤ → ℤ
or_zero a b = if a == pos 0 then b else a

-- The token counts of either response shape.
unfoldable pub usage_of : Envelope → Usage
usage_of env =
    let openai = env.prompt_tokens == pos 0 && env.completion_tokens == pos 0 in
    record {
      prompt_tokens = if openai then env.input_tokens else env.prompt_tokens;
      completion_tokens = if openai then env.output_tokens else env.completion_tokens;
      cached_tokens = or_zero (or_zero env.prompt_cached env.input_cached) env.cache_read_tokens;
    }

abbrev pub has_no_usage : Usage → Bool
has_no_usage u = u.prompt_tokens == pos 0 && u.completion_tokens == pos 0

abbrev pub is_success : ℤ → Bool
is_success status = leb_ℤ (pos 200) status && ltb_ℤ status (pos 300)

abbrev pub content_type_of : UpstreamResponse → Str
content_type_of resp =
    if is_empty resp.content_type then codes "application/json" else resp.content_type

-- `fmt.Sprintf("%s: %d prompt + %d completion tokens", …)`
unfoldable pub describe : Str → Usage → Str
describe model u =
    model
    ++ (codes ": "
        ++ (int_string u.prompt_tokens
            ++ (codes " prompt + "
                ++ (int_string u.completion_tokens ++ codes " completion tokens"))))

module _ (sv : Services) (settler : PaymentSettler) (at : Moment) where
  unfoldable pub upstream_request : Server → Request → Str → UpstreamRequest
  upstream_request s req body = record {
    url = s.cfg.upstream_url ++ req.path;
    body = body;
    authorization = codes "Bearer " ++ s.cfg.upstream_token;
    anthropic_version = if is_empty req.anthropic_version then none else some req.anthropic_version;
  }

  -- `cache.RequestID` of the body and the clock
  unfoldable pub staged_id : Str → Str
  staged_id body = request_id sv.sha256 (body ++ (codes "|" ++ int_string at.unix_nano))

  unfoldable pub entry_for : UpstreamResponse → ℤ → Usage → Str → Entry
  entry_for resp cost u model = record {
    body = resp.body;
    status = resp.status;
    content_type = content_type_of resp;
    cost = cost;
    usage = u;
    model = model;
    created_at = pos 0;
  }

  -- Caching the priced response, and the challenge.
  unfoldable pub stage :
      Server → Request → Str → UpstreamResponse → Usage → Str → ℤ → Response × Server
  stage s req body resp u model cost =
      let id = staged_id body in
      (
        record {
          status = pos 402;
          headers =
              (codes "X-PAYMENT-REQUEST-ID", id)
              ∷ (codes "X-Cost", usdc_units_to_usd (some cost))
              ∷ [];
          body = challenge (record {
            x402_version = x402_version;
            accepts =
                settler.build_requirements req.path (describe model u) id cost
                  s.cfg.sig_timeout_secs
                ∷ [];
          });
        },
        record s { cache = store at.now id (entry_for resp cost u model) s.cache },
      )

  unfoldable pub model_of : Str → Str → Str
  model_of body model = if is_empty model then sv.decode_model body else model

  -- From a successful upstream response on.
  unfoldable pub price_and_stage : Server → Request → Str → UpstreamResponse → Response × Server
  price_and_stage s req body resp =
      let env = sv.decode_envelope resp.body in
      let u = usage_of env in
      let model = model_of body env.model in
      if has_no_usage u
      then (fail (pos 502) no_usage, s)
      else elim (manager_cost sv.rat_of s.prices model u s.cfg.markup) [
        | none ↦ (fail (pos 500) panicked, s)
        | some cost ↦ stage s req body resp u model cost
      ]

  unfoldable pub handle_initial : Server → Request → Str → Response × Server
  handle_initial s req body =
      let up = upstream_request s req body in
      if sv.accepts_url up.url
      then elim (sv.upstream up) [
        | none ↦ (fail (pos 502) upstream_failed, s)
        | some resp ↦ if is_success resp.status then price_and_stage s req body resp else (
          record {
            status = resp.status;
            headers = [];
            body = raw (content_type_of resp) resp.body;
          },
          s,
        )
      ]
      else (fail (pos 500) cannot_build_request, s)
