-- ===== src/Handler/Unconfirmed.antt =====
-- internal/handler/relay.go with internal/settler/solana.go: a transaction that is sent, but not
-- confirmed in time.
use xpay_server.Settler.SolanaLaws.{Undecided, IsChecked, check_solana_sound, solana_settle_sound}
use xpay_server.Settler.SolanaSettle.{
  wait_confirmed, Status, solana_settle, send_solana, check_solana,
}
use xpay_server.Settler.SolanaScan.{AreDistinct}
use xpay_server.Handler.Settling.{Chains, settler_of}
use xpay_server.Base.{
  Bool, List, Option, All, Str, ◌≡◌, err, ℤ, some, arith, ok, false, none, ◌≢◌, pos, inl, inr, refl,
  [], ◌∷◌,
}
use xpay_server.Settler.Outcome.{SettleError}
use xpay_server.Settler.Solana.{Transaction, SolanaSettler}
use xpay_server.Types.{PaymentPayload}
use xpay_server.Handler.Server.{Services, Moment, Server, Request, raw, settlement_failed}
use xpay_server.Handler.Payment.{
  handle_payment, finish_payment, decode_payment_header, Pending, begin_payment,
}
use xpay_server.Settler.New.{solana}
use xpay_server.Handler.Initial.{fail}
use xpay_server.Handler.Delivery.{handle_payment-IsPaid, begin_payment_sound}

wait_confirmed-Undecided :
    (finalized_only : Bool) (polls : List (Option Status))
    → All (Undecided finalized_only) polls
    → wait_confirmed finalized_only polls ≡ err SettleError.not_confirmed
unfolding wait_confirmed
wait_confirmed-Undecided f [] u = refl
wait_confirmed-Undecided f (none ∷ polls) u = wait_confirmed-Undecided f polls u.1
wait_confirmed-Undecided f (some status ∷ polls) u =
    rw (u.0.0, u.0.1) (wait_confirmed-Undecided f polls u.1)

-- The transaction of a payment is determined by its payload.
IsChecked-transaction :
    (w : Chains) (send' : Transaction → Option Str) (polls' : List (Option Status))
    (distinct : AreDistinct w.lib) (k : SolanaSettler) {payment payment' : PaymentPayload}
    {cost cost' : ℤ} {id id' : Str} {tx tx' : Transaction} {payer payer' : Str}
    → payment' ≡ payment
    → IsChecked w.lib w.unmarshal_solana w.send w.polls distinct k payment cost id tx payer
    → IsChecked w.lib w.unmarshal_solana send' polls' distinct k payment' cost' id' tx' payer'
    → tx' ≡ tx
IsChecked-transaction w send' polls' distinct k {tx = tx} {tx' = tx'} same c c' =
    let payloads : some c'.payload ≡ some c.payload = cc (same, c.payload_is, c'.payload_is) in
    let payload : c'.payload ≡ c.payload = ground arith in
    let both : some tx' ≡ some tx = cc (payload, c.transaction_is, c'.transaction_is) in
    ground arith

module _ (sv : Services) (w : Chains) (distinct : AreDistinct w.lib) (k : SolanaSettler) where
  -- A payment whose transaction the node refuses is not served.
  refused_again :
      (now' : ℤ) (send' : Transaction → Option Str) (polls' : List (Option Status)) (at : Moment)
      (s : Server) (req : Request) (payment : PaymentPayload) (cost : ℤ) (id : Str)
      (tx : Transaction) (payer : Str)
      → IsChecked w.lib w.unmarshal_solana w.send w.polls distinct k payment cost id tx payer
      → decode_payment_header sv req.payment ≡ ok payment
      → s.cfg.dry_run ≡ false
      → send' tx ≡ none
      → (kind bytes : Str)
      → (handle_payment sv
          (settler_of (record w { now = now'; send = send'; polls = polls' }) s.cfg (solana k))
          at
          s
          req).0.body
        ≢ raw kind bytes
  unfolding settler_of
  refused_again now' send' polls' at s req payment cost id tx payer checked decoded live refuses
        kind bytes e =
      let w' : Chains = record w { now = now'; send = send'; polls = polls' } in
      let paid = handle_payment-IsPaid sv at s req (settler_of w' s.cfg (solana k)) kind bytes e in
      let same : paid.pending.payment ≡ payment = ground (arith, decoded, paid.begun.decoded) in
      let (tx', payer', checked', named, sent) =
        solana_settle_sound w.lib w.unmarshal_solana send' polls' distinct k paid.pending.payment
          paid.pending.entry.cost req.request_id s.cfg.dry_run paid.settlement paid.settled in
      let tx_is = IsChecked-transaction w send' polls' distinct k same checked checked' in
      elim sent [
        | inl dry ↦ cc (dry, live)
        | inr (sig, accepted, hash, waited, final) ↦ cc (tx_is, accepted, refuses)
      ]

  -- The buyer of an undecided transaction is refused.
  refused_unconfirmed :
      (at : Moment) (s : Server) (req : Request) (p : Pending) (tx : Transaction) (payer sig : Str)
      → begin_payment sv at s req ≡ ok p
      → check_solana w.lib w.unmarshal_solana w.send w.polls k p.payment p.entry.cost p.req_id
        ≡ ok (tx, payer)
      → s.cfg.dry_run ≡ false
      → w.send tx ≡ some sig
      → wait_confirmed k.finalized_only w.polls ≡ err SettleError.not_confirmed
      → handle_payment sv (settler_of w s.cfg (solana k)) at s req
        ≡ (fail (pos 502) (settlement_failed SettleError.not_confirmed), s)
  unfolding handle_payment finish_payment settler_of solana_settle send_solana
  refused_unconfirmed at s req p tx payer sig begun checked live accepted waited = ground arith

  -- On Solana, a buyer whose transaction the node has accepted, but not decided by the end of the
  -- wait, is refused, and the server is as it was: nothing is recorded. Where the node then refuses
  -- the same transaction, no request with the same payment is served, whatever the state of the
  -- server. The server does not run dry, and the identifiers of the Solana programs differ.
  pub handle_payment-unconfirmed :
      (at at' : Moment) (s s' : Server) (req req' : Request) (p : Pending) (tx : Transaction)
      (payer sig : Str) (now' : ℤ) (send' : Transaction → Option Str)
      (polls' : List (Option Status)) (kind bytes : Str)
      → begin_payment sv at s req ≡ ok p
      → check_solana w.lib w.unmarshal_solana w.send w.polls k p.payment p.entry.cost p.req_id
        ≡ ok (tx, payer)
      → s.cfg.dry_run ≡ false
      → w.send tx ≡ some sig
      → All (Undecided k.finalized_only) w.polls
      → req'.payment ≡ req.payment
      → s'.cfg.dry_run ≡ false
      → send' tx ≡ none
      → (handle_payment sv (settler_of w s.cfg (solana k)) at s req
          ≡ (fail (pos 502) (settlement_failed SettleError.not_confirmed), s))
        × ((handle_payment sv
              (settler_of (record w { now = now'; send = send'; polls = polls' }) s'.cfg (solana k))
              at'
              s'
              req').0.body
            ≢ raw kind bytes)
  handle_payment-unconfirmed at at' s s' req req' p tx payer sig now' send' polls' kind bytes begun
        checked live accepted undecided same live' refuses =
      let waited = wait_confirmed-Undecided k.finalized_only w.polls undecided in
      let decoded : decode_payment_header sv req'.payment ≡ ok p.payment =
        rw same (begin_payment_sound sv at s req p begun).decoded in
      (
        refused_unconfirmed at s req p tx payer sig begun checked live accepted waited,
        refused_again now' send' polls' at' s' req' p.payment p.entry.cost p.req_id tx payer
            (check_solana_sound w.lib w.unmarshal_solana w.send w.polls distinct k p.payment
              p.entry.cost p.req_id tx payer checked)
            decoded live' refuses kind bytes,
      )
