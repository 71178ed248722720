-- ===== src/Settler/Outcome.antt =====
-- internal/settler/settler.go: what a settlement returns, and its errors.
use xpay_server.Base.{Str, Result, Option}

pub record Settlement : Type 0 where
  pub tx_hash : Str
  pub payer : Str

pub data SettleError : Type 0 where
  bad_payload invalid_address invalid_value value_not_positive : SettleError
  invalid_valid_after valid_after_negative invalid_valid_before valid_before_not_positive :
      SettleError
  empty_window invalid_nonce amount_mismatch pay_to_mismatch not_yet_valid expired : SettleError
  bad_signature_encoding bad_signature_length bad_typed_data unrecoverable wrong_signer :
      SettleError
  bad_recovery_id bad_signature_values submit_failed : SettleError
  unsupported_type request_id_mismatch bad_transaction missing_signature lookup_tables : SettleError
  bad_transaction_signature invalid_amount amount_out_of_range unresolved_program : SettleError
  unresolved_accounts bad_memo unsupported_memo bad_token unsupported_token : SettleError
  unsupported_program missing_memo not_one_transfer decimals_mismatch mint_mismatch : SettleError
  destination_mismatch payer_not_signer transaction_failed not_confirmed : SettleError

-- The result, and what was submitted to the chain on the way, if anything.
pub record Settled (Call : Type 0) : Type 0 where
  pub result : Result SettleError Settlement
  pub sent : Option Call
