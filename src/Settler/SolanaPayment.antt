-- ===== src/Settler/SolanaPayment.antt =====
-- internal/settler/solana.go: what `validateTransaction` accepts.
use xpay_server.Base.{
  ◌≡◌, ◌≢◌, some, List, [], ◌∷◌, arith, ok, Str, Option-cases, inl, inr, str_beq_iff, length, ◌∙◌,
  Memᴰ, ap, refl, ℤ, magnitude, pos, true, ◌<ℤ◌, ◌<◌, sym, two63, Result-cases,
}
use xpay_server.Settler.Solana.{
  SolanaLib, TransferChecked, Transaction, Instruction, Scan, scan_all, SolanaSettler,
  validate_transaction, check_scan, check_transfer, solana_memo, zero_key, start,
}
use xpay_server.Settler.SolanaScan.{AreDistinct, transfers, memo_of, scan_all-Scanned}

module _ (lib : SolanaLib) (tx : Transaction) where
  -- A payment that the settler may send: the one transfer that it orders is of the cost, in the
  -- right token, to the seller's account, by a signer; and it carries the request's memo.
  pub record IsPayment (settler : SolanaSettler) (cost : ℤ) (req_id : Str) (payer : Str)
      (tc : TransferChecked) : Type 0 where
    pub only_transfer : transfers lib tx tx.instructions ≡ tc ∷ []
    pub pays_cost : tc.amount ≡ some (magnitude cost)
    pub cost_pos : pos 0 <ℤ cost
    pub cost_fits : magnitude cost < two63
    pub decimals : tc.decimals ≡ some 6
    pub mint : tc.mint ≡ settler.mint
    pub destination : tc.destination ≡ settler.pay_to_token_ata
    pub payer_is : payer ≡ tc.owner
    pub payer_named : payer ≢ zero_key
    pub payer_signs : lib.is_signer tx payer ≡ true
    pub verified : lib.verify_signatures tx ≡ true
    pub no_lookups : tx.lookups ≡ 0
    pub memo :
        (ix : Instruction) × Memᴰ ix tx.instructions
        × (memo_of lib tx ix ≡ some (solana_memo req_id))

  one_transfer :
      (ts : List TransferChecked) → length ts ≡ 1 → (tc : TransferChecked) × (ts ≡ tc ∷ [])
  one_transfer [] h = absurd (omega arith)
  one_transfer (tc ∷ []) h = (tc, refl)
  one_transfer (tc ∷ tc' ∷ ts) h = absurd (omega arith)

  module _ (settler : SolanaSettler) (cost : ℤ) (req_id : Str) where
    validate_transaction-parts :
        (payer : Str)
        → validate_transaction lib settler tx cost req_id ≡ ok payer
        → (s : Scan) × (scan_all lib tx (solana_memo req_id) tx.instructions start ≡ ok s)
          × (check_scan lib settler tx (magnitude cost) s ≡ ok payer)
          × (tx.lookups ≡ 0)
          × (lib.verify_signatures tx ≡ true)
          × (pos 0 <ℤ cost)
          × (magnitude cost < two63)
    unfolding validate_transaction
    validate_transaction-parts payer e =
        elim (Result-cases (scan_all lib tx (solana_memo req_id) tx.instructions start)) [
          | inr (bad, failed) ↦ absurd (ground arith)
          | inl (s, scanned) ↦
              (s, scanned, ground arith, ground arith, ground arith, ground arith, ground arith)
        ]

    check_scan-parts :
        (s : Scan) (payer : Str)
        → check_scan lib settler tx (magnitude cost) s ≡ ok payer
        → (tc : TransferChecked) × (s.transfer ≡ some tc)
          × (s.transfer_count ≡ 1)
          × (s.memo_ok ≡ true)
          × (check_transfer lib settler tx (magnitude cost) s.payer tc ≡ ok payer)
    unfolding check_scan
    check_scan-parts s payer e = elim (Option-cases s.transfer) [
      | inl missing ↦ absurd (ground arith)
      | inr (tc, found) ↦ (tc, found, ground arith, ground arith, ground arith)
    ]

    check_transfer-parts :
        (who : Str) (tc : TransferChecked) (payer : Str)
        → check_transfer lib settler tx (magnitude cost) who tc ≡ ok payer
        → (tc.amount ≡ some (magnitude cost))
          × (tc.decimals ≡ some 6)
          × (tc.mint ≡ settler.mint)
          × (tc.destination ≡ settler.pay_to_token_ata)
          × (payer ≡ who)
          × (who ≢ zero_key)
          × (lib.is_signer tx who ≡ true)
    unfolding check_transfer
    check_transfer-parts who tc payer e =
        let mints = str_beq_iff tc.mint settler.mint in
        let places = str_beq_iff tc.destination settler.pay_to_token_ata in
        let keys = str_beq_iff who zero_key in
        (
          ground arith,
          ground arith,
          ground (arith, mints),
          ground (arith, places),
          ground arith,
          ground (arith, keys),
          ground arith,
        )

    -- What `validateTransaction` accepts is such a payment, where the programs are different.
    pub validate_transaction_sound :
        (payer : Str)
        → AreDistinct lib
        → validate_transaction lib settler tx cost req_id ≡ ok payer
        → (tc : TransferChecked) × IsPayment settler cost req_id payer tc
    validate_transaction_sound payer distinct e =
        let (s, scanned, checked, lookups, signed, positive, fits) =
          validate_transaction-parts payer e in
        let (tc, found, count, memo, paid) = check_scan-parts s payer checked in
        let (amount, decimals, mint, place, who, named, signs) =
          check_transfer-parts s.payer tc payer paid in
        let r =
          scan_all-Scanned lib tx distinct (solana_memo req_id) tx.instructions start s scanned in
        let (tc', only) =
          one_transfer (transfers lib tx tx.instructions) (omega (arith, r.counted)) in
        let (last, owner) = r.single tc' only in
        let same : tc' ≡ tc = ground arith in
        (
          tc,
          record {
            only_transfer = only ∙ ap (λ t. t ∷ []) same;
            pays_cost = amount;
            cost_pos = positive;
            cost_fits = fits;
            decimals = decimals;
            mint = mint;
            destination = place;
            payer_is = who ∙ owner ∙ ap (λ (t : TransferChecked). t.owner) same;
            payer_named = λ z. named (sym who ∙ z);
            payer_signs = rw who signs;
            verified = signed;
            no_lookups = lookups;
            memo = elim r.flagged [ inl never ↦ absurd (ground arith) | inr found ↦ found ];
          },
        )
