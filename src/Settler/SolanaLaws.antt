-- ===== src/Settler/SolanaLaws.antt =====
-- internal/settler/solana.go: what a Solana settlement has checked before it sends.
use xpay_server.Base.{
  ◌≡◌, Option, none, some, List, [], ◌∷◌, arith, ok, Str, Option-cases, ◌⊎◌, inl, inr, Bool-cases,
  str_beq_iff, ◌∙◌, ap, refl, ℤ, true, Result-cases, Bool, false, ◌++◌, All,
}
use xpay_server.Settler.Solana.{
  SolanaLib, TransferChecked, Transaction, SolanaSettler, validate_transaction,
}
use xpay_server.Settler.SolanaSettle.{
  Confirmation, finalized, confirmed, processed, wait_confirmed, Status, is_enough, check_solana,
  solana_settle, send_solana,
}
use xpay_server.Types.{ExactSolanaPayload, PaymentPayload}
use xpay_server.Settler.Outcome.{Settlement}
use xpay_server.Settler.SolanaScan.{AreDistinct}
use xpay_server.Settler.SolanaPayment.{IsPayment, validate_transaction_sound}

-- An answer that decides nothing: unknown, or neither failed nor confirmed enough.
abbrev pub Undecided : Bool → Option Status → Type 0
Undecided finalized_only none = Unit
Undecided finalized_only (some status) =
    (status.failed ≡ false) × (is_enough finalized_only status.confirmation ≡ false)

-- The first answer that decides has not failed; it is final, or confirmed where that is enough.
abbrev pub IsConfirmed : Bool → List (Option Status) → Type 0
IsConfirmed finalized_only polls =
    (before : List (Option Status)) × (status : Status) × (after : List (Option Status)) × (polls
      ≡ before ++ some status ∷ after)
    × All (Undecided finalized_only) before
    × (status.failed ≡ false)
    × ((status.confirmation ≡ finalized)
        ⊎ ((status.confirmation ≡ confirmed) × (finalized_only ≡ false)))

is_enough_sound :
    (finalized_only : Bool) (c : Confirmation)
    → is_enough finalized_only c ≡ true
    → (c ≡ finalized) ⊎ ((c ≡ confirmed) × (finalized_only ≡ false))
is_enough_sound f finalized e = inl refl
is_enough_sound f confirmed e = inr (refl, ground arith)
is_enough_sound f processed e = cc

-- The wait ends well at the first answer that decides, if that one has not failed.
pub wait_confirmed_sound :
    (finalized_only : Bool) (polls : List (Option Status))
    → wait_confirmed finalized_only polls ≡ ok tt
    → IsConfirmed finalized_only polls
unfolding wait_confirmed
wait_confirmed_sound f [] e = cc
wait_confirmed_sound f (none ∷ polls) e =
    let (before, status, after, split, undecided, fine, enough) = wait_confirmed_sound f polls e in
    (none ∷ before, status, after, ap (λ t. none ∷ t) split, (tt, undecided), fine, enough)
wait_confirmed_sound f (some status ∷ polls) e = elim (Bool-cases status.failed) [
  | inl failed ↦ absurd (ground arith)
  | inr fine ↦ elim (Bool-cases (is_enough f status.confirmation)) [
    | inl enough ↦ ([], status, polls, refl, tt, fine, is_enough_sound f status.confirmation enough)
    | inr not_yet ↦
        let (before, last, after, split, undecided, fine', enough) =
          wait_confirmed_sound f polls (ground arith) in
        (
          some status ∷ before,
          last,
          after,
          ap (λ t. some status ∷ t) split,
          ((fine, not_yet), undecided),
          fine',
          enough,
        )
  ]
]

module _ (lib : SolanaLib) (unmarshal : Str → Option ExactSolanaPayload)
    (send : Transaction → Option Str) (polls : List (Option Status)) (distinct : AreDistinct lib)
    (settler : SolanaSettler) (payment : PaymentPayload) (cost : ℤ) (req_id : Str) where
  -- A payload for this request whose transaction is such a payment.
  pub record IsChecked (tx : Transaction) (payer : Str) : Type 0 where
    pub payload : ExactSolanaPayload
    pub payload_is : unmarshal payment.payload ≡ some payload
    pub for_request : payload.request_id ≡ req_id
    pub transaction_is : lib.transaction_from_base64 payload.transaction ≡ some tx
    pub transfer : TransferChecked
    pub pays : IsPayment lib tx settler cost req_id payer transfer

  pub check_solana_sound :
      (tx : Transaction) (payer : Str)
      → check_solana lib unmarshal send polls settler payment cost req_id ≡ ok (tx, payer)
      → IsChecked tx payer
  unfolding check_solana
  check_solana_sound tx payer e = elim (Option-cases (unmarshal payment.payload)) [
    | inl failed ↦ absurd (ground arith)
    | inr (payload, payload_is) ↦
        elim (Option-cases (lib.transaction_from_base64 payload.transaction)) [
          | inl failed ↦ absurd (ground arith)
          | inr (tx', read) ↦
              elim (Result-cases (validate_transaction lib settler tx' cost req_id)) [
                | inr (bad, failed) ↦ absurd (ground arith)
                | inl (payer', valid) ↦
                    let same : tx' ≡ tx = ground arith in
                    let who : payer' ≡ payer = ground arith in
                    let valid' : validate_transaction lib settler tx cost req_id ≡ ok payer =
                      ground arith in
                    let (tc, pays) =
                      validate_transaction_sound lib tx settler cost req_id payer distinct valid' in
                    record {
                      payload = payload;
                      payload_is = payload_is;
                      for_request = ground (arith, str_beq_iff payload.request_id req_id);
                      transaction_is = read ∙ ap some same;
                      transfer = tc;
                      pays = pays;
                    }
              ]
        ]
  ]

  -- A transaction is sent only if it is a payment for the request, and the server does not run dry.
  pub solana_settle-sends-IsChecked :
      (dry_run : Bool) (tx : Transaction)
      → (solana_settle lib unmarshal send polls settler dry_run payment cost req_id).sent ≡ some tx
      → (payer : Str) × IsChecked tx payer × (dry_run ≡ false)
  unfolding solana_settle send_solana
  solana_settle-sends-IsChecked dry_run tx e =
      elim (Result-cases (check_solana lib unmarshal send polls settler payment cost req_id)) [
        | inr (bad, failed) ↦ absurd (ground arith)
        | inl ((tx', payer), checked) ↦ elim (Bool-cases dry_run) [
          | inl dry ↦ absurd (ground arith)
          | inr live ↦ elim (Option-cases (send tx')) [
            | inl refused ↦
                let same : tx' ≡ tx = ground arith in
                (payer, check_solana_sound tx payer (ground arith), live)
            | inr (sig, sent) ↦
                let same : tx' ≡ tx = ground arith in
                (payer, check_solana_sound tx payer (ground arith), live)
          ]
        ]
      ]

  -- A settlement that succeeds is of a payment for the request; unless the server runs dry, its
  -- transaction was accepted by the node, and the node's first answer that decides is that it has
  -- not failed and is final, or confirmed where the server is not set to wait for finality.
  pub solana_settle_sound :
      (dry_run : Bool) (s : Settlement)
      → (solana_settle lib unmarshal send polls settler dry_run payment cost req_id).result ≡ ok s
      → (tx : Transaction) × (payer : Str) × IsChecked tx payer
        × (s.payer ≡ lib.base58 payer)
        × ((dry_run ≡ true)
            ⊎ ((sig : Str) × (send tx ≡ some sig)
                × (s.tx_hash ≡ lib.base58 sig)
                × (wait_confirmed settler.finalized_only polls ≡ ok tt)
                × IsConfirmed settler.finalized_only polls))
  unfolding solana_settle send_solana
  solana_settle_sound dry_run s e =
      elim (Result-cases (check_solana lib unmarshal send polls settler payment cost req_id)) [
        | inr (bad, failed) ↦ absurd (ground arith)
        | inl ((tx, payer), checked) ↦ elim (Bool-cases dry_run) [
          | inl dry ↦ (tx, payer, check_solana_sound tx payer checked, ground arith, inl dry)
          | inr live ↦ elim (Option-cases (send tx)) [
            | inl refused ↦ absurd (ground arith)
            | inr (sig, sent) ↦ elim (Result-cases (wait_confirmed settler.finalized_only polls)) [
              | inr (bad, failed) ↦ absurd (ground arith)
              | inl (tt', waited) ↦ (
                tx,
                payer,
                check_solana_sound tx payer checked,
                ground arith,
                inr (
                  sig,
                  sent,
                  ground arith,
                  ground arith,
                  wait_confirmed_sound settler.finalized_only polls (ground arith),
                ),
              )
            ]
          ]
        ]
      ]
