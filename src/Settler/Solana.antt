-- ===== src/Settler/Solana.antt =====
-- internal/settler/solana.go: `SolanaSettler`.
use xpay_server.Base.{
  ℕ, ◌+◌, Bool, true, false, ◌||◌, not, Option, none, some, List, [], ◌∷◌, ◌++◌, if◌then◌else◌,
  ◌==◌, str_eq, nat_eq, is_empty, leb, Str, codes, ℤ, pos, leb_ℤ, magnitude, two63, two64, Result,
  ok, err, ◌>>=◌, ◌>>◌, fail_if, or_fail,
}
use xpay_server.Settler.Outcome.{SettleError}

pub record Instruction : Type 0 where
  pub program_index : ℕ
  pub accounts : List ℕ
  pub payload : Str

-- A transaction: what the settler reads of it, and the rest as bytes.
pub record Transaction : Type 0 where
  pub signatures : List Str
  pub lookups : ℕ
  pub instructions : List Instruction
  pub message : Str

pub record TransferChecked : Type 0 where
  pub amount : Option ℕ
  pub decimals : Option ℕ
  pub mint : Str
  pub destination : Str
  pub owner : Str

pub data MemoInstruction : Type 0 where
  create : Str → MemoInstruction
  other_memo : MemoInstruction

pub data TokenInstruction : Type 0 where
  transfer_checked : TransferChecked → TokenInstruction
  other_token : TokenInstruction

-- What the settler takes from solana-go. A public key is its 32 bytes.
pub record SolanaLib : Type 0 where
  pub transaction_from_base64 : Str → Option Transaction
  pub verify_signatures : Transaction → Bool
  pub resolve_program : Transaction → ℕ → Option Str
  pub resolve_accounts : Transaction → Instruction → Option (List Str)
  pub decode_memo : List Str → Str → Option MemoInstruction
  pub decode_token : List Str → Str → Option TokenInstruction
  pub is_signer : Transaction → Str → Bool
  pub base58 : Str → Str
  pub compute_budget : Str
  pub memo_program : Str
  pub token_program : Str

pub record SolanaSettler : Type 0 where
  pub mint : Str
  pub pay_to_wallet : Str
  pub pay_to_token_ata : Str
  pub finalized_only : Bool

-- `PublicKey{}`
abbrev pub zero_key : Str
zero_key =
    0 ∷ 0 ∷ 0 ∷ 0 ∷ 0 ∷ 0 ∷ 0 ∷ 0 ∷ 0 ∷ 0 ∷ 0 ∷ 0 ∷ 0 ∷ 0 ∷ 0 ∷ 0 ∷ 0 ∷ 0 ∷ 0 ∷ 0 ∷ 0 ∷ 0 ∷ 0 ∷ 0
    ∷ 0 ∷ 0 ∷ 0 ∷ 0 ∷ 0 ∷ 0 ∷ 0 ∷ 0 ∷ []

unfoldable pub solana_memo : Str → Str
solana_memo req_id = codes "x402:" ++ req_id

-- The variables of the loop in `validateTransaction`.
pub record Scan : Type 0 where
  pub transfer : Option TransferChecked
  pub payer : Str
  pub memo_ok : Bool
  pub transfer_count : ℕ

abbrev pub start : Scan
start = record { transfer = none; payer = zero_key; memo_ok = false; transfer_count = 0 }

module _ (lib : SolanaLib) where
  unfoldable pub scan_memo : Str → List Str → Str → Scan → Result SettleError Scan
  scan_memo expected accounts payload s = elim (lib.decode_memo accounts payload) [
    | none ↦ err SettleError.bad_memo
    | some m ↦ elim m [
      | other_memo ↦ err SettleError.unsupported_memo
      | create message ↦ ok (if message == expected then record s { memo_ok = true } else s)
    ]
  ]

  unfoldable pub scan_token : List Str → Str → Scan → Result SettleError Scan
  scan_token accounts payload s = elim (lib.decode_token accounts payload) [
    | none ↦ err SettleError.bad_token
    | some t ↦ elim t [
      | other_token ↦ err SettleError.unsupported_token
      | transfer_checked tc ↦
          ok (record s {
            transfer = some tc;
            payer = tc.owner;
            transfer_count = s.transfer_count + 1;
          })
    ]
  ]

  -- The `switch` on the program.
  unfoldable pub scan_program : Str → Str → List Str → Str → Scan → Result SettleError Scan
  scan_program program expected accounts payload s =
      if program == lib.compute_budget
      then ok s
      else if program == lib.memo_program
      then scan_memo expected accounts payload s
      else if program == lib.token_program
      then scan_token accounts payload s
      else err SettleError.unsupported_program

  -- One round of the loop.
  unfoldable pub scan_instruction : Transaction → Str → Instruction → Scan → Result SettleError Scan
  scan_instruction tx expected ix s = do
    program ← or_fail (lib.resolve_program tx ix.program_index) SettleError.unresolved_program
    accounts ← or_fail (lib.resolve_accounts tx ix) SettleError.unresolved_accounts
    scan_program program expected accounts ix.payload s

  unfoldable pub scan_all : Transaction → Str → List Instruction → Scan → Result SettleError Scan
  scan_all tx expected [] s = ok s
  scan_all tx expected (ix ∷ rest) s =
      scan_instruction tx expected ix s >>= λ s'. scan_all tx expected rest s'

  -- The checks after the loop, on the one transfer.
  unfoldable pub check_transfer :
      SolanaSettler → Transaction → ℕ → Str → TransferChecked → Result SettleError Str
  check_transfer settler tx cost payer transfer = do
    fail_if (elim transfer.amount [ none ↦ true | some a ↦ not (a == cost) ])
        SettleError.amount_mismatch
    fail_if (elim transfer.decimals [ none ↦ true | some d ↦ not (d == 6) ])
        SettleError.decimals_mismatch
    fail_if (not (transfer.mint == settler.mint)) SettleError.mint_mismatch
    fail_if (not (transfer.destination == settler.pay_to_token_ata))
        SettleError.destination_mismatch
    fail_if (payer == zero_key || not (lib.is_signer tx payer)) SettleError.payer_not_signer
    ok payer

  unfoldable pub check_scan : SolanaSettler → Transaction → ℕ → Scan → Result SettleError Str
  check_scan settler tx cost s = do
    fail_if (not s.memo_ok) SettleError.missing_memo
    fail_if (not (s.transfer_count == 1)) SettleError.not_one_transfer
    transfer ← or_fail s.transfer SettleError.not_one_transfer
    check_transfer settler tx cost s.payer transfer

  unfoldable pub validate_transaction :
      SolanaSettler → Transaction → ℤ → Str → Result SettleError Str
  validate_transaction settler tx cost req_id = do
    fail_if (is_empty tx.signatures) SettleError.missing_signature
    fail_if (not (tx.lookups == 0)) SettleError.lookup_tables
    fail_if (not (lib.verify_signatures tx)) SettleError.bad_transaction_signature
    fail_if (leb_ℤ cost (pos 0) || leb_ℤ (pos two64) cost) SettleError.invalid_amount
    fail_if (leb two63 (magnitude cost)) SettleError.amount_out_of_range
    s ← scan_all tx (solana_memo req_id) tx.instructions start
    check_scan settler tx (magnitude cost) s
