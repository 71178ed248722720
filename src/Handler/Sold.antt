-- ===== src/Handler/Sold.antt =====
-- internal/handler/relay.go with internal/settler: what has been paid when a response is delivered.
use xpay_server.Base.{◌≡◌, ok, true, some, ◌⊎◌, Str, ℤ, inl, inr}
use xpay_server.Config.{Config}
use xpay_server.Types.{PaymentPayload}
use xpay_server.Settler.Outcome.{Settlement}
use xpay_server.Settler.Evm.{Call, Verified}
use xpay_server.Settler.EvmLaws.{IsVerified, evm_settle_sound}
use xpay_server.Settler.SolanaScan.{AreDistinct}
use xpay_server.Settler.SolanaLaws.{IsChecked, solana_settle_sound}
use xpay_server.Settler.New.{AnySettler, evm, solana, EvmSettler}
use xpay_server.Handler.Settling.{Chains, settler_of}
use xpay_server.Handler.Server.{Services, Moment, Server, Request, raw}
use xpay_server.Settler.Solana.{SolanaSettler, Transaction}
use xpay_server.Settler.SolanaSettle.{wait_confirmed}
use xpay_server.Cache.{Entry, get}
use xpay_server.Handler.Payment.{handle_payment, decode_payment_header}
use xpay_server.Handler.Delivery.{handle_payment-IsPaid}

-- What stands behind a settlement of `cost` for the request `id`, on either chain.
pub data IsSettled (w : Chains) (distinct : AreDistinct w.lib) (cfg : Config)
    (payment : PaymentPayload) (cost : ℤ) (id : Str) (st : Settlement) : AnySettler → Type 0 where
  on_evm :
      (s : EvmSettler) (v : Verified)
      → IsVerified w.eth w.hash_struct w.unmarshal_evm w.transact cfg w.now payment cost v
      → st.payer ≡ w.eth.address_hex v.auth.from
      → (cfg.dry_run ≡ true)
        ⊎ ((call : Call) × (call.auth ≡ v.auth) × (w.transact call ≡ some st.tx_hash))
      → IsSettled w distinct cfg payment cost id st (evm s)
  on_solana :
      (s : SolanaSettler) (tx : Transaction) (payer : Str)
      → IsChecked w.lib w.unmarshal_solana w.send w.polls distinct s payment cost id tx payer
      → st.payer ≡ w.lib.base58 payer
      → (cfg.dry_run ≡ true)
        ⊎ ((sig : Str) × (w.send tx ≡ some sig)
            × (st.tx_hash ≡ w.lib.base58 sig)
            × (wait_confirmed s.finalized_only w.polls ≡ ok tt))
      → IsSettled w distinct cfg payment cost id st (solana s)

settler_of-IsSettled :
    (w : Chains) (distinct : AreDistinct w.lib) (cfg : Config) (k : AnySettler)
    (payment : PaymentPayload) (cost : ℤ) (id : Str) (st : Settlement)
    → (settler_of w cfg k).settle payment cost id ≡ ok st
    → IsSettled w distinct cfg payment cost id st k
unfolding settler_of
settler_of-IsSettled w distinct cfg (evm s) payment cost id st e =
    let (v, checked, payer, sent) =
      evm_settle_sound w.eth w.hash_struct w.unmarshal_evm w.transact cfg w.now payment cost st e in
    on_evm s v checked payer sent
settler_of-IsSettled w distinct cfg (solana s) payment cost id st e =
    let (tx, payer, checked, named, sent) =
      solana_settle_sound w.lib w.unmarshal_solana w.send w.polls distinct s payment cost id
        cfg.dry_run st e in
    on_solana s tx payer checked named (elim sent [
      | inl dry ↦ inl dry
      | inr (sig, accepted, hash, waited, final) ↦ inr (sig, accepted, hash, waited)
    ])

module _ (sv : Services) (w : Chains) (distinct : AreDistinct w.lib) (k : AnySettler) (at : Moment)
    (s : Server) (req : Request) where
  -- A response that has been sold.
  pub record IsSold (bytes : Str) : Type 0 where
    pub entry : Entry
    pub payment : PaymentPayload
    pub settlement : Settlement
    pub staged : get at.now req.request_id s.cache ≡ some entry
    pub sent : decode_payment_header sv req.payment ≡ ok payment
    pub network : payment.network ≡ s.cfg.network
    pub settled : IsSettled w distinct s.cfg payment entry.cost req.request_id settlement k
    pub bytes_are : bytes ≡ entry.body

  -- Whichever chain the server is set up for, a response is delivered only if it was staged under
  -- the id, and only for a payment of exactly its price: on EVM an authorization that its payer
  -- signed, to the seller, inside its window; on Solana a transaction whose one transfer is to the
  -- seller, with the id as its memo. Unless the server runs dry, the chain has accepted it. The
  -- identifiers of the Solana programs differ.
  pub handle_payment-IsSold :
      (kind bytes : Str)
      → (handle_payment sv (settler_of w s.cfg k) at s req).0.body ≡ raw kind bytes
      → IsSold bytes
  handle_payment-IsSold kind bytes e =
      let paid = handle_payment-IsPaid sv at s req (settler_of w s.cfg k) kind bytes e in
      record {
        entry = paid.pending.entry;
        payment = paid.pending.payment;
        settlement = paid.settlement;
        staged = paid.begun.staged;
        sent = paid.begun.decoded;
        network = paid.begun.network;
        settled =
            settler_of-IsSettled w distinct s.cfg k paid.pending.payment paid.pending.entry.cost
              req.request_id paid.settlement paid.settled;
        bytes_are = paid.bytes_are;
      }
