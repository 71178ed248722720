-- ===== src/Handler/Staging.antt =====
-- internal/handler/relay.go: what a client gets before it pays, and what is staged for it.
use xpay_server.Base.{
  ◌≡◌, refl, false, some, [], ◌∷◌, arith, Str, ℤ, Option-cases, Bool-cases, inr, inl, ◌≤ℤ◌, pos,
  Memᴰ, ◌⊎◌, codes, lookup, ◌≢◌, str_eq, if◌then◌else◌, ◌∙◌, ◌==◌, beq_of_eq, lookup-insert,
  str_beq_iff,
}
use xpay_server.Handler.Server.{
  Services, PaymentSettler, Moment, Server, Request, UpstreamResponse, challenge, raw, Response,
}
use xpay_server.Types.{PaymentRequiredResponse}
use xpay_server.Handler.Initial.{
  handle_initial, price_and_stage, stage, upstream_request, is_success, usage_of, has_no_usage,
  model_of, describe, staged_id, entry_for,
}
use xpay_server.Pricing.Cost.{Usage}
use xpay_server.Pricing.Manager.{manager_cost}
use xpay_server.Cache.{store, Entry}

unsuccessful : (status : ℤ) → is_success status ≡ false → (status ≤ℤ pos 199) ⊎ (pos 300 ≤ℤ status)
unsuccessful status h = ground arith

module _ (sv : Services) (settler : PaymentSettler) (at : Moment) (s : Server) (req : Request)
    (body : Str) where
  -- How a challenge came about, and what it left behind: the entry under the id that the header
  -- names is the response, with the price that is quoted.
  pub record IsStaged (reply : Response × Server) (ch : PaymentRequiredResponse) : Type 0 where
    pub resp : UpstreamResponse
    pub usage : Usage
    pub model : Str
    pub cost : ℤ
    pub answered : sv.upstream (upstream_request sv settler at s req body) ≡ some resp
    pub succeeded : (pos 200 ≤ℤ resp.status) × (resp.status ≤ℤ pos 299)
    pub usage_is : usage ≡ usage_of (sv.decode_envelope resp.body)
    pub used : has_no_usage usage ≡ false
    pub model_is : model ≡ model_of sv settler at body (sv.decode_envelope resp.body).model
    pub cost_is : manager_cost sv.rat_of s.prices model usage s.cfg.markup ≡ some cost
    pub quoted :
        ch.accepts
        ≡ settler.build_requirements req.path
            (describe model usage)
            (staged_id sv settler at body)
            cost
            s.cfg.sig_timeout_secs
          ∷ []
    pub staged :
        reply.1.cache
        ≡ store at.now
            (staged_id sv settler at body)
            (entry_for sv settler at resp cost usage model)
            s.cache
    pub named : Memᴰ (codes "X-PAYMENT-REQUEST-ID", staged_id sv settler at body) reply.0.headers
    pub status_is : reply.0.status ≡ pos 402
    pub entry : Entry
    pub found : lookup (staged_id sv settler at body) reply.1.cache.store ≡ some entry
    pub entry_cost : entry.cost ≡ cost
    pub entry_body : entry.body ≡ resp.body
    pub entry_status : entry.status ≡ resp.status
    pub entry_usage : entry.usage ≡ usage
    pub entry_model : entry.model ≡ model
    pub entry_created : entry.created_at ≡ at.now
    pub others :
        (k : Str)
        → k ≢ staged_id sv settler at body
        → lookup k reply.1.cache.store ≡ lookup k s.cache.store
    pub books : reply.1.db ≡ s.db

  -- What `stage` stores, and what it leaves.
  stage-lookup :
      (resp : UpstreamResponse) (u : Usage) (model : Str) (cost : ℤ) (k : Str)
      → lookup k (stage sv settler at s req body resp u model cost).1.cache.store ≡ (
          if staged_id sv settler at body == k
          then some (record (entry_for sv settler at resp cost u model) { created_at = at.now })
          else lookup k s.cache.store)
  unfolding stage store
  stage-lookup resp u model cost k =
      lookup-insert (staged_id sv settler at body) k
        (record (entry_for sv settler at resp cost u model) { created_at = at.now }) s.cache.store

  -- A challenge quotes the price of a successful upstream response, one of status 200 to 299. The
  -- response is staged, with that same price, under the id that the reply's header names; what is
  -- staged under other ids stays, and nothing is recorded.
  pub handle_initial-stages :
      (ch : PaymentRequiredResponse)
      → (handle_initial sv settler at s req body).0.body ≡ challenge ch
      → IsStaged (handle_initial sv settler at s req body) ch
  unfolding handle_initial price_and_stage stage store entry_for
  handle_initial-stages ch e =
      let up = upstream_request sv settler at s req body in
      elim (Bool-cases (sv.accepts_url up.url)) [
        | inr refused ↦ absurd (ground arith)
        | inl accepted ↦ elim (Option-cases (sv.upstream up)) [
          | inl failed ↦ absurd (ground arith)
          | inr (resp, answered) ↦ elim (Bool-cases (is_success resp.status)) [
            | inr bad ↦ absurd (ground arith)
            | inl good ↦
                let env = sv.decode_envelope resp.body in
                let u = usage_of env in
                let model = model_of sv settler at body env.model in
                elim (Bool-cases (has_no_usage u)) [
                  | inl unused ↦ absurd (ground arith)
                  | inr used ↦
                      elim (Option-cases (manager_cost sv.rat_of s.prices model u s.cfg.markup)) [
                        | inl panic ↦ absurd (ground arith)
                        | inr (cost, priced) ↦
                            let done : handle_initial sv settler at s req body
                                ≡ stage sv settler at s req body resp u model cost =
                              ground arith in
                            let here = stage-lookup resp u model cost in
                            let id = staged_id sv settler at body in
                            record {
                              resp = resp;
                              usage = u;
                              model = model;
                              cost = cost;
                              answered = answered;
                              succeeded = (ground arith, ground arith);
                              usage_is = refl;
                              used = used;
                              model_is = refl;
                              cost_is = priced;
                              quoted = ground arith;
                              staged = ground arith;
                              named = rw done (Memᴰ.head refl);
                              status_is = ground arith;
                              entry = record (entry_for sv settler at resp cost u model) {
                                created_at = at.now;
                              };
                              found = rw done (here id ∙ rw (beq_of_eq id id refl) refl);
                              entry_cost = refl;
                              entry_body = refl;
                              entry_status = refl;
                              entry_usage = refl;
                              entry_model = refl;
                              entry_created = refl;
                              others =
                                  λ k other. rw done (ground (arith, here k, str_beq_iff id k));
                              books = ground arith;
                            }
                      ]
                ]
          ]
        ]
      ]

  -- Without a payment, upstream's bytes are passed on only from a response whose status is below
  -- 200 or at least 300, and then nothing changes on the server.
  pub handle_initial_unpaid :
      (kind bytes : Str)
      → (handle_initial sv settler at s req body).0.body ≡ raw kind bytes
      → (resp : UpstreamResponse) × (sv.upstream (upstream_request sv settler at s req body)
          ≡ some resp)
        × ((resp.status ≤ℤ pos 199) ⊎ (pos 300 ≤ℤ resp.status))
        × (bytes ≡ resp.body)
        × ((handle_initial sv settler at s req body).1 ≡ s)
  unfolding handle_initial price_and_stage stage
  handle_initial_unpaid kind bytes e =
      let up = upstream_request sv settler at s req body in
      elim (Option-cases (sv.upstream up)) [
        | inl failed ↦ absurd (ground arith)
        | inr (resp, answered) ↦
            let failed : is_success resp.status ≡ false = ground arith in
            (resp, answered, unsuccessful resp.status failed, ground arith, ground arith)
      ]
