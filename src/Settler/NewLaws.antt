-- ===== src/Settler/NewLaws.antt =====
-- internal/settler: `New` on settings that `Load` accepts.
use xpay_server.Base.{
  ◌≡◌, err, true, false, some, none, Str, trim_prefix, codes, Bool-cases, inr, subst, inl,
  Option-cases, arith, Bool, str_beq, ◌==◌, ◌⊎◌, Result-cases, str_eq, refl,
}
use xpay_server.Config.{Config}
use xpay_server.Config.Load.{Platform}
use xpay_server.Settler.New.{
  NewLib, NewError, new_evm, dial_failed, transactor_failed, transfer_with_authorization_abi,
  bad_abi, no_token_account, new_solana, new_settler,
}
use xpay_server.Config.Valid.{IsReadyForEvm, IsReadyForSolana, IsValid}

-- `Load` and `New` parse keys with the same functions.
pub record Agrees (p : Platform) (lib : NewLib) : Type 0 where
  pub private_key : (s : Str) → p.is_private_key s ≡ true → (k : Str) × (lib.private_key s ≡ some k)
  pub public_key : (s : Str) → p.is_public_key s ≡ true → (k : Str) × (lib.from_base58 s ≡ some k)

-- An error for which the settings are not to blame.
pub data IsOutside (lib : NewLib) (c : Config) : NewError → Type 0 where
  no_node : lib.dial c.rpc_url ≡ false → IsOutside lib c dial_failed
  no_transactor :
      (key : Str) → lib.transactor key c.chain_id ≡ none → IsOutside lib c transactor_failed
  no_abi : lib.abi_json transfer_with_authorization_abi ≡ false → IsOutside lib c bad_abi
  no_account :
      (pay_to mint : Str) → lib.find_ata pay_to mint ≡ none → IsOutside lib c no_token_account

module _ (p : Platform) (lib : NewLib) (agrees : Agrees p lib) (c : Config) where
  new_evm_error :
      (e : NewError)
      → c.dry_run ≡ false
      → IsReadyForEvm p c
      → new_evm lib c ≡ err e
      → IsOutside lib c e
  unfolding new_evm
  new_evm_error e live ready h =
      let (key, found) =
        agrees.private_key (trim_prefix c.gas_priv_key_hex (codes "0x")) (ready.key_valid live) in
      elim (Bool-cases (lib.dial c.rpc_url)) [
        | inr down ↦ subst (IsOutside lib c) (ground arith) (no_node down)
        | inl up ↦ elim (Option-cases (lib.transactor key c.chain_id)) [
          | inl none_such ↦ subst (IsOutside lib c) (ground arith) (no_transactor key none_such)
          | inr (from, made) ↦ elim (Bool-cases (lib.abi_json transfer_with_authorization_abi)) [
            | inr bad ↦ subst (IsOutside lib c) (ground arith) (no_abi bad)
            | inl parsed ↦ absurd (ground arith)
          ]
        ]
      ]

  new_solana_error :
      (e : NewError) → IsReadyForSolana p c → new_solana lib c ≡ err e → IsOutside lib c e
  unfolding new_solana
  new_solana_error e ready h =
      let (mint, mint_is) = agrees.public_key c.usdc_address ready.usdc_valid in
      let (pay_to, pay_to_is) = agrees.public_key c.pay_to_address ready.pay_to_valid in
      elim (Option-cases (lib.find_ata pay_to mint)) [
        | inl none_such ↦ subst (IsOutside lib c) (ground arith) (no_account pay_to mint none_such)
        | inr (ata, found) ↦ absurd (ground arith)
      ]

  new_settler_chain :
      (e : NewError) (is_solana : Bool)
      → (c.payment_chain == codes "solana") ≡ is_solana
      → new_settler lib c ≡ err e
      → (is_solana ≡ true) × (new_solana lib c ≡ err e)
        ⊎ ((is_solana ≡ false) × (c.dry_run ≡ false) × (new_evm lib c ≡ err e))
  unfolding new_settler
  new_settler_chain e true chain h = elim (Result-cases (new_solana lib c)) [
    | inl (s, made) ↦ absurd (ground arith)
    | inr (e', failed) ↦ inl (refl, ground arith)
  ]
  new_settler_chain e false chain h = elim (Bool-cases c.dry_run) [
    | inl dry ↦ absurd (ground arith)
    | inr live ↦ elim (Result-cases (new_evm lib c)) [
      | inl (s, made) ↦ absurd (ground arith)
      | inr (e', failed) ↦ inr (refl, live, ground arith)
    ]
  ]

  chain_is_solana : c.payment_chain ≡ codes "solana" → (c.payment_chain == codes "solana") ≡ true
  unfolding str_beq
  chain_is_solana h = rw h refl

  chain_is_evm : c.payment_chain ≡ codes "evm" → (c.payment_chain == codes "solana") ≡ false
  unfolding str_beq
  chain_is_evm h = rw h refl

  -- Settings that `Load` accepts give a settler, unless the node cannot be dialled or a library
  -- fails on keys and addresses that parse: no error of `New` blames the settings, where the
  -- parsers of `Load` and `New` agree.
  pub new_settler_error :
      (e : NewError) → IsValid p c → new_settler lib c ≡ err e → IsOutside lib c e
  new_settler_error e valid h = elim valid.ready [
    | inl (is_evm, ready) ↦ elim (new_settler_chain e false (chain_is_evm is_evm) h) [
      | inl (wrong, _) ↦ absurd (ground arith)
      | inr (_, live, failed) ↦ new_evm_error e live ready failed
    ]
    | inr (is_solana, ready) ↦ elim (new_settler_chain e true (chain_is_solana is_solana) h) [
      | inl (_, failed) ↦ new_solana_error e ready failed
      | inr (wrong, _, _) ↦ absurd (ground arith)
    ]
  ]
