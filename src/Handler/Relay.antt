-- ===== src/Handler/Relay.antt =====
-- internal/handler/relay.go: `Handle`, the choice between the two phases.
use xpay_server.Base.{Option, none, some, if◌then◌else◌, is_empty, length, Str, ℤ, pos, ltb_ℤ}
use xpay_server.Handler.Server.{
  Server, PaymentSettler, Request, Response, Services, Moment, cannot_read_body,
}
use xpay_server.Handler.Initial.{fail, handle_initial}
use xpay_server.Handler.Payment.{handle_payment}

-- `io.ReadAll` of a `http.MaxBytesReader`: a body beyond the limit is an error.
unfoldable pub read_body : ℤ → Option Str → Option Str
read_body limit none = none
read_body limit (some body) = if ltb_ℤ limit (pos (length body)) then none else some body

module _ (sv : Services) (settler : PaymentSettler) (at : Moment) where
  unfoldable pub handle : Server → Request → Response × Server
  handle s req = elim (read_body s.cfg.max_body_bytes req.body) [
    | none ↦ (fail (pos 400) cannot_read_body, s)
    | some body ↦
        if is_empty req.payment
        then handle_initial sv settler at s req body
        else handle_payment sv settler at s req
  ]
