-- ===== src/Settler/SolanaSettle.antt =====
-- internal/settler/solana.go: `Settle`, the submission and the wait, and the requirements.
use xpay_server.Base.{
  Bool, true, false, not, Option, none, some, List, [], ◌∷◌, ◌++◌, if◌then◌else◌, ◌==◌, str_eq,
  nat_eq, Str, codes, ℤ, int_string, Result, ok, err, ◌>>=◌, ◌>>◌, fail_if, or_fail,
}
use xpay_server.Types.{
  PaymentPayload, ExactSolanaPayload, PaymentRequirements, scheme_exact, solana_pay_type,
}
use xpay_server.Config.{Config}
use xpay_server.Settler.Outcome.{SettleError, Settled}
use xpay_server.Settler.Solana.{
  SolanaLib, SolanaSettler, Transaction, validate_transaction, solana_memo,
}

pub data Confirmation : Type 0 where
  processed confirmed finalized : Confirmation

-- One answer to `GetSignatureStatuses`: none where the call fails or knows no such signature.
pub record Status : Type 0 where
  pub failed : Bool
  pub confirmation : Confirmation

abbrev pub is_enough : Bool → Confirmation → Bool
is_enough finalized_only finalized = true
is_enough finalized_only confirmed = not finalized_only
is_enough finalized_only processed = false

-- `waitConfirmed`: the answers in turn, up to the end of the request's time.
unfoldable pub wait_confirmed : Bool → List (Option Status) → Result SettleError (Unit {0})
wait_confirmed finalized_only [] = err SettleError.not_confirmed
wait_confirmed finalized_only (none ∷ polls) = wait_confirmed finalized_only polls
wait_confirmed finalized_only (some status ∷ polls) =
    let rest = wait_confirmed finalized_only polls in
    if status.failed
    then err SettleError.transaction_failed
    else if is_enough finalized_only status.confirmation
    then ok tt
    else rest

abbrev pub first_signature : List Str → Str
first_signature [] = []
first_signature (s ∷ _) = s

-- `unmarshal` is `json.Unmarshal` into an `ExactSolanaPayload`; `send` is the node's answer to a
-- transaction, its signature or none; `polls` are its answers while the server waits.
module _ (lib : SolanaLib) (unmarshal : Str → Option ExactSolanaPayload)
    (send : Transaction → Option Str) (polls : List (Option Status)) where
  -- `Settle` up to the submission: the transaction and its payer.
  unfoldable pub check_solana :
      SolanaSettler → PaymentPayload → ℤ → Str → Result SettleError (Transaction × Str)
  check_solana settler payment cost req_id = do
    payload ← or_fail (unmarshal payment.payload) SettleError.bad_payload
    fail_if (not (payload.kind == solana_pay_type)) SettleError.unsupported_type
    fail_if (not (payload.request_id == req_id)) SettleError.request_id_mismatch
    tx ← or_fail (lib.transaction_from_base64 payload.transaction) SettleError.bad_transaction
    payer ← validate_transaction lib settler tx cost req_id
    ok (tx, payer)

  -- The transaction's hash, and the transaction itself if it was sent.
  unfoldable pub send_solana :
      SolanaSettler → Bool → Transaction → Result SettleError Str × Option Transaction
  send_solana settler true tx =
      (ok (codes "DRYRUN-" ++ lib.base58 (first_signature tx.signatures)), none)
  send_solana settler false tx = elim (send tx) [
    | none ↦ (err SettleError.submit_failed, some tx)
    | some sig ↦ (wait_confirmed settler.finalized_only polls >>= λ _. ok (lib.base58 sig), some tx)
  ]

  unfoldable pub solana_settle :
      SolanaSettler → Bool → PaymentPayload → ℤ → Str → Settled Transaction
  solana_settle settler dry_run payment cost req_id =
      elim (check_solana settler payment cost req_id) [
        | err e ↦ record { result = err e; sent = none }
        | ok (tx, payer) ↦
            let (hash, sent) = send_solana settler dry_run tx in
            record {
              result = hash >>= λ h. ok (record { tx_hash = h; payer = lib.base58 payer });
              sent = sent;
            }
      ]

unfoldable pub solana_requirements :
    SolanaLib → SolanaSettler → Config → Str → Str → Str → ℤ → ℤ → PaymentRequirements
solana_requirements lib settler cfg resource description req_id cost timeout = record {
  scheme = scheme_exact;
  network = cfg.network;
  max_amount_required = int_string cost;
  resource = resource;
  description = description;
  pay_to = lib.base58 settler.pay_to_wallet;
  max_timeout_seconds = timeout;
  asset = lib.base58 settler.mint;
  extra =
      (codes "requestId", req_id)
      ∷ (codes "decimals", codes "6")
      ∷ (codes "tokenProgram", lib.base58 lib.token_program)
      ∷ (codes "payToTokenAccount", lib.base58 settler.pay_to_token_ata)
      ∷ (codes "settlement", solana_pay_type)
      ∷ (codes "memo", solana_memo req_id)
      ∷ (
        codes "confirmation",
        if settler.finalized_only then codes "finalized" else codes "confirmed",
      )
      ∷ (codes "addressLookupTables", codes "unsupported")
      ∷ (codes "clientSubmitSupported", codes "false")
      ∷ [];
}
