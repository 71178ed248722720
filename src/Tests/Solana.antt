-- ===== src/Tests/Solana.antt =====
-- internal/settler/solana.go at one transaction: a memo and a transfer of 42 units.
use xpay_server.Base.{
  ◌≡◌, refl, Str, codes, ℕ, some, Option, List, ◌∷◌, not, false, pos, arith, true, [], is_empty,
  none, str_beq_iff, ok, err, ◌⊎◌, ◌==◌, str_eq, str_beq, suc, zero,
}
use xpay_server.Settler.Solana.{
  SolanaLib, TransferChecked, Transaction, SolanaSettler, validate_transaction, create,
  transfer_checked, scan_all, scan_instruction, scan_program, scan_token, scan_memo, check_scan,
  solana_memo, check_transfer,
}
use xpay_server.Types.{PaymentPayload, ExactSolanaPayload}
use xpay_server.Settler.SolanaScan.{AreDistinct}
use xpay_server.Settler.SolanaSettle.{
  wait_confirmed, solana_settle, Status, processed, confirmed, check_solana, send_solana,
}
use xpay_server.Settler.SolanaLaws.{
  IsChecked, solana_settle-sends-IsChecked, solana_settle_sound, IsConfirmed,
}
use xpay_server.Settler.Outcome.{missing_memo, not_confirmed}

abbrev program : ℕ → Str
program zero = codes "budget"
program (suc zero) = codes "memo"
program _ = codes "token"

abbrev transfer : TransferChecked
transfer = record {
  amount = some 42;
  decimals = some 6;
  mint = codes "usdc";
  destination = codes "seller-usdc";
  owner = codes "buyer";
}

abbrev pub tx : Transaction
tx = record {
  signatures = codes "signed" ∷ [];
  lookups = 0;
  instructions =
      record { program_index = 0; accounts = []; payload = [] }
      ∷ record { program_index = 2; accounts = []; payload = [] }
      ∷ record { program_index = 1; accounts = []; payload = codes "x402:req_1" }
      ∷ [];
  message = [];
}

abbrev pub lib : SolanaLib
lib = record {
  transaction_from_base64 = λ s. some tx;
  verify_signatures = λ t. not (is_empty t.signatures);
  resolve_program = λ t i. some (program i);
  resolve_accounts = λ t ix. some [];
  decode_memo = λ accounts payload. some (create payload);
  decode_token = λ accounts payload. some (transfer_checked transfer);
  is_signer = λ t key. key == codes "buyer";
  base58 = λ s. s;
  compute_budget = codes "budget";
  memo_program = codes "memo";
  token_program = codes "token";
}

abbrev pub settler : SolanaSettler
settler = record {
  mint = codes "usdc";
  pay_to_wallet = codes "seller";
  pay_to_token_ata = codes "seller-usdc";
  finalized_only = false;
}

abbrev pub unmarshal : Str → Option ExactSolanaPayload
unmarshal s =
    some (record { kind = codes "signed_transaction"; transaction = s; request_id = codes "req_1" })

abbrev pub send : Transaction → Option Str
send t = some (codes "signature")

abbrev polls : List (Option Status)
polls =
    none
    ∷ some (record { failed = false; confirmation = processed })
    ∷ some (record { failed = false; confirmation = confirmed })
    ∷ []

abbrev pub payment : PaymentPayload
payment = record {
  x402_version = pos 1;
  scheme = codes "exact";
  network = codes "solana:devnet";
  payload = codes "{}";
}

pub lib-AreDistinct : AreDistinct lib
lib-AreDistinct = record {
  token_not_budget = λ h. ground (arith, str_beq_iff (codes "token") (codes "budget"));
  token_not_memo = λ h. ground (arith, str_beq_iff (codes "token") (codes "memo"));
}

valid : validate_transaction lib settler tx (pos 42) (codes "req_1") ≡ ok (codes "buyer")
unfolding validate_transaction scan_all scan_instruction scan_program str_beq scan_token scan_memo
    check_scan solana_memo check_transfer
valid = refl

other_request : validate_transaction lib settler tx (pos 42) (codes "req_2") ≡ err missing_memo
unfolding validate_transaction scan_all scan_instruction scan_program str_beq scan_token scan_memo
    check_scan solana_memo
other_request = refl

confirms : wait_confirmed false polls ≡ ok tt
unfolding wait_confirmed
confirms = refl

not_final : wait_confirmed true polls ≡ err not_confirmed
unfolding wait_confirmed
not_final = refl

solana_settles :
    (solana_settle lib unmarshal send polls settler false payment (pos 42) (codes "req_1")).result
    ≡ ok (record { tx_hash = codes "signature"; payer = codes "buyer" })
unfolding solana_settle check_solana str_beq validate_transaction scan_all scan_instruction
    scan_program scan_token scan_memo check_scan solana_memo check_transfer send_solana
    wait_confirmed
solana_settles = refl

solana_sends :
    (solana_settle lib unmarshal send polls settler false payment (pos 42) (codes "req_1")).sent
    ≡ some tx
unfolding solana_settle check_solana str_beq validate_transaction scan_all scan_instruction
    scan_program scan_token scan_memo check_scan solana_memo check_transfer send_solana
solana_sends = refl

solana_settle-sends-IsChecked_example :
    (payer : Str) × IsChecked lib unmarshal send polls lib-AreDistinct settler payment
      (pos 42)
      (codes "req_1")
      tx
      payer
    × (false ≡ false)
solana_settle-sends-IsChecked_example =
    solana_settle-sends-IsChecked lib unmarshal send polls lib-AreDistinct settler payment (pos 42)
      (codes "req_1") false tx solana_sends

solana_settle_sound_example :
    (t : Transaction) × (payer : Str) × IsChecked lib unmarshal send polls lib-AreDistinct settler
      payment
      (pos 42)
      (codes "req_1")
      t
      payer
    × (codes "buyer" ≡ lib.base58 payer)
    × ((false ≡ true)
        ⊎ ((sig : Str) × (send t ≡ some sig)
            × (codes "signature" ≡ lib.base58 sig)
            × (wait_confirmed settler.finalized_only polls ≡ ok tt)
            × IsConfirmed settler.finalized_only polls))
solana_settle_sound_example =
    solana_settle_sound lib unmarshal send polls lib-AreDistinct settler payment (pos 42)
      (codes "req_1") false (record { tx_hash = codes "signature"; payer = codes "buyer" })
      solana_settles
