-- ===== src/Config/Valid.antt =====
-- internal/config/config.go: what settings `Load` lets a server start with.
use xpay_server.Base.{
  ◌≡◌, true, false, codes, is_empty, trim_prefix, ◌<ℤ◌, pos, le_zero, is_nan, is_inf, ok, arith,
  ◌⊎◌, Str, not, if◌then◌else◌, >>=-eq-ok, ◌==◌, ◌&&◌, Bool-cases, inl, beq→eq, inr, str_eq, sym,
  subst,
}
use xpay_server.Config.{Config}
use xpay_server.Config.Load.{
  Platform, check_limits, check_evm, check_solana, check_basics, validate, check_gas_key, is_evm,
  load, Numbers, read_numbers, build,
}

-- The limits of the server are positive, and the markup is a positive number.
pub record HasLimits (c : Config) : Type 0 where
  pub cache_ttl_pos : pos 0 <ℤ c.cache_ttl_secs
  pub sig_timeout_pos : pos 0 <ℤ c.sig_timeout_secs
  pub upstream_timeout_pos : pos 0 <ℤ c.upstream_timeout_secs
  pub shutdown_timeout_pos : pos 0 <ℤ c.shutdown_timeout_secs
  pub max_body_pos : pos 0 <ℤ c.max_body_bytes
  pub markup_pos : le_zero c.markup ≡ false
  pub markup_number : is_nan c.markup ≡ false
  pub markup_finite : is_inf c.markup ≡ false

module _ (p : Platform) where
  check_limits_sound : (c : Config) → check_limits p c ≡ ok tt → HasLimits c
  unfolding check_limits
  check_limits_sound c e = record {
    cache_ttl_pos = ground arith;
    sig_timeout_pos = ground arith;
    upstream_timeout_pos = ground arith;
    shutdown_timeout_pos = ground arith;
    max_body_pos = ground arith;
    markup_pos = ground arith;
    markup_number = ground arith;
    markup_finite = ground arith;
  }

  -- What an EVM settlement needs.
  pub record IsReadyForEvm (c : Config) : Type 0 where
    pub pay_to_valid : p.is_hex_address c.pay_to_address ≡ true
    pub usdc_given : is_empty c.usdc_address ≡ false
    pub usdc_valid : p.is_hex_address c.usdc_address ≡ true
    pub key_valid :
        c.dry_run ≡ false → p.is_private_key (trim_prefix c.gas_priv_key_hex (codes "0x")) ≡ true

  -- What a Solana settlement needs.
  pub record IsReadyForSolana (c : Config) : Type 0 where
    pub pay_to_valid : p.is_public_key c.pay_to_address ≡ true
    pub usdc_valid : p.is_public_key c.usdc_address ≡ true
    pub rpc_given : is_empty c.rpc_url ≡ false
    pub confirmation_known :
        (c.solana_confirmation ≡ codes "confirmed") ⊎ (c.solana_confirmation ≡ codes "finalized")

  check_evm_sound :
      (c : Config)
      → is_evm p c ≡ true
      → check_evm p c ≡ ok tt
      → check_gas_key p c ≡ ok tt
      → IsReadyForEvm c
  unfolding check_evm check_gas_key
  check_evm_sound c chain e key = record {
    pay_to_valid = ground arith;
    usdc_given = ground arith;
    usdc_valid = ground arith;
    key_valid = λ live. ground arith;
  }

  confirmation_known :
      (s : Str)
      → (not (s == codes "confirmed") && not (s == codes "finalized")) ≡ false
      → (s ≡ codes "confirmed") ⊎ (s ≡ codes "finalized")
  confirmation_known s e = elim (Bool-cases (s == codes "confirmed")) [
    | inl y ↦ inl (beq→eq s (codes "confirmed") y)
    | inr n ↦ inr (beq→eq s (codes "finalized") (ground arith))
  ]

  check_solana_sound : (c : Config) → check_solana p c ≡ ok tt → IsReadyForSolana c
  unfolding check_solana
  check_solana_sound c e = record {
    pay_to_valid = ground arith;
    usdc_valid = ground arith;
    rpc_given = ground arith;
    confirmation_known = confirmation_known c.solana_confirmation (ground arith);
  }

  -- What holds of the settings that a server starts with.
  pub record IsValid (c : Config) : Type 0 where
    pub upstream_given : is_empty c.upstream_url ≡ false
    pub token_given : is_empty c.upstream_token ≡ false
    pub limits : HasLimits c
    pub ready :
        ((c.payment_chain ≡ codes "evm") × IsReadyForEvm c)
        ⊎ ((c.payment_chain ≡ codes "solana") × IsReadyForSolana c)

  ready_of :
      (c : Config)
      → check_basics p c ≡ ok tt
      → (if is_evm p c then check_evm p c else check_solana p c) ≡ ok tt
      → check_gas_key p c ≡ ok tt
      → ((c.payment_chain ≡ codes "evm") × IsReadyForEvm c)
        ⊎ ((c.payment_chain ≡ codes "solana") × IsReadyForSolana c)
  unfolding check_basics
  ready_of c basics chain key = elim (Bool-cases (is_evm p c)) [
    | inl y ↦ inl (beq→eq c.payment_chain (codes "evm") y, check_evm_sound c y (ground arith) key)
    | inr n ↦ inr (
      beq→eq c.payment_chain (codes "solana") (ground arith),
      check_solana_sound c (ground arith),
    )
  ]

  basics_given :
      (c : Config)
      → check_basics p c ≡ ok tt
      → (is_empty c.upstream_url ≡ false) × (is_empty c.upstream_token ≡ false)
  unfolding check_basics
  basics_given c e = (ground arith, ground arith)

  validate_sound : (c : Config) → validate p c ≡ ok tt → IsValid c
  unfolding validate
  validate_sound c e =
      let (_, basics, e1) = >>=-eq-ok (check_basics p c) _ e in
      let (_, chain, e2) =
        >>=-eq-ok (if is_evm p c then check_evm p c else check_solana p c) _ e1 in
      let (_, limits, key) = >>=-eq-ok (check_limits p c) _ e2 in
      record {
        upstream_given = (basics_given c basics).0;
        token_given = (basics_given c basics).1;
        limits = check_limits_sound c limits;
        ready = ready_of c basics chain key;
      }

  -- The settings that `Load` returns are those read, with an upstream and a token, positive
  -- limits, a positive and finite markup, and what the chosen chain needs: valid addresses, for
  -- EVM a valid key unless the run is dry, for Solana an RPC endpoint and a known confirmation.
  pub load_sound :
      (c : Config)
      → load p ≡ ok c
      → IsValid c × ((n : Numbers) × (read_numbers p ≡ ok n) × (c ≡ build p n))
  unfolding load
  load_sound c e =
      let (n, read, e1) = >>=-eq-ok (read_numbers p) _ e in
      let (_, valid, e2) = >>=-eq-ok (validate p (build p n)) _ e1 in
      let same : build p n ≡ c = ground arith in
      (subst IsValid same (validate_sound (build p n) valid), (n, read, sym same))
