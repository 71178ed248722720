-- ===== src/Settler/SolanaScan.antt =====
-- internal/settler/solana.go: what the loop over a transaction's instructions has found.
use xpay_server.Base.{
  ◌≡◌, ◌≢◌, Option, none, some, List, [], ◌∷◌, arith, ok, Str, Option-cases, ◌==◌, str_eq,
  if◌then◌else◌, ◌⊎◌, ◌+◌, inl, inr, Bool-cases, str_beq_iff, length, ◌∙◌, Memᴰ, >>=-eq-ok, ap,
  refl,
}
use xpay_server.Settler.Solana.{
  SolanaLib, TokenInstruction, MemoInstruction, TransferChecked, create, Transaction,
  transfer_checked, Instruction, scan_instruction, Scan, scan_program, scan_memo, scan_token,
  scan_all,
}

-- The programs that the settler tells apart are different.
pub record AreDistinct (lib : SolanaLib) : Type 0 where
  pub token_not_budget : lib.token_program ≢ lib.compute_budget
  pub token_not_memo : lib.token_program ≢ lib.memo_program

abbrev as_transfer : Option TokenInstruction → Option TransferChecked
as_transfer (some (transfer_checked tc)) = some tc
as_transfer _ = none

abbrev as_memo : Option MemoInstruction → Option Str
as_memo (some (create message)) = some message
as_memo _ = none

module _ (lib : SolanaLib) (tx : Transaction) where
  -- The token transfer that an instruction orders, if it does.
  unfoldable pub transfer_of : Instruction → Option TransferChecked
  transfer_of ix = elim (lib.resolve_program tx ix.program_index) [
    | none ↦ none
    | some program ↦ elim (lib.resolve_accounts tx ix) [
      | none ↦ none
      | some accounts ↦
          if program == lib.token_program
          then as_transfer (lib.decode_token accounts ix.payload)
          else none
    ]
  ]

  -- The memo that an instruction writes, if it does.
  unfoldable pub memo_of : Instruction → Option Str
  memo_of ix = elim (lib.resolve_program tx ix.program_index) [
    | none ↦ none
    | some program ↦ elim (lib.resolve_accounts tx ix) [
      | none ↦ none
      | some accounts ↦
          if program == lib.memo_program
          then as_memo (lib.decode_memo accounts ix.payload)
          else none
    ]
  ]

  -- All transfers that the transaction orders.
  pub transfers : List Instruction → List TransferChecked
  transfers [] = []
  transfers (ix ∷ rest) = elim (transfer_of ix) [
    | none ↦ transfers rest
    | some tc ↦ tc ∷ transfers rest
  ]

  -- What one round of the loop has done.
  abbrev Moved : Instruction → Scan → Scan → Type 0
  Moved ix s s' =
      ((transfer_of ix ≡ none)
        × (s'.transfer ≡ s.transfer)
        × (s'.payer ≡ s.payer)
        × (s'.transfer_count ≡ s.transfer_count))
      ⊎ ((tc : TransferChecked) × (transfer_of ix ≡ some tc)
          × (s'.transfer ≡ some tc)
          × (s'.payer ≡ tc.owner)
          × (s'.transfer_count ≡ s.transfer_count + 1))

  scan_token-ok :
      (accounts : List Str) (payload : Str) (s s' : Scan)
      → scan_token lib accounts payload s ≡ ok s'
      → (tc : TransferChecked) × (as_transfer (lib.decode_token accounts payload) ≡ some tc)
        × (s' ≡ record s {
          transfer = some tc;
          payer = tc.owner;
          transfer_count = s.transfer_count + 1;
        })
  unfolding scan_token
  scan_token-ok accounts payload s s' e =
      elim (Option-cases (as_transfer (lib.decode_token accounts payload))) [
        | inl no_transfer ↦ absurd (ground arith)
        | inr (tc, decoded) ↦ (tc, decoded, ground arith)
      ]

  -- A memo changes the flag alone, and sets it only if it is the expected one.
  scan_memo-ok :
      (expected : Str) (accounts : List Str) (payload : Str) (s s' : Scan)
      → scan_memo lib expected accounts payload s ≡ ok s'
      → (s'.transfer ≡ s.transfer)
        × (s'.payer ≡ s.payer)
        × (s'.transfer_count ≡ s.transfer_count)
        × ((s'.memo_ok ≡ s.memo_ok) ⊎ (as_memo (lib.decode_memo accounts payload) ≡ some expected))
  unfolding scan_memo
  scan_memo-ok expected accounts payload s s' e =
      elim (Option-cases (as_memo (lib.decode_memo accounts payload))) [
        | inl no_memo ↦ absurd (ground arith)
        | inr (message, decoded) ↦ elim (Bool-cases (message == expected)) [
          | inl same ↦ (
            ground arith,
            ground arith,
            ground arith,
            inr (decoded ∙ ap some ((str_beq_iff message expected).0 same)),
          )
          | inr other ↦ (ground arith, ground arith, ground arith, inl (ground arith))
        ]
      ]

  Flagged : Str → Instruction → Scan → Scan → Type 0
  Flagged expected ix s s' = (s'.memo_ok ≡ s.memo_ok) ⊎ (memo_of ix ≡ some expected)

  scan_instruction-ok :
      (distinct : AreDistinct lib) (expected : Str) (ix : Instruction) (s s' : Scan)
      → scan_instruction lib tx expected ix s ≡ ok s'
      → Moved ix s s' × Flagged expected ix s s'
  unfolding scan_instruction scan_program transfer_of memo_of Flagged
  scan_instruction-ok distinct expected ix s s' e =
      elim (Option-cases (lib.resolve_program tx ix.program_index)) [
        | inl failed ↦ absurd (ground arith)
        | inr (program, resolved) ↦ elim (Option-cases (lib.resolve_accounts tx ix)) [
          | inl failed ↦ absurd (ground arith)
          | inr (accounts, found) ↦
              let is_budget = str_beq_iff program lib.compute_budget in
              let is_memo = str_beq_iff program lib.memo_program in
              let is_token = str_beq_iff program lib.token_program in
              let apart = distinct.token_not_budget in
              let apart' = distinct.token_not_memo in
              elim (Bool-cases (program == lib.token_program)) [
                | inl token ↦
                    let (tc, decoded, made) =
                      scan_token-ok accounts ix.payload s s'
                        (ground (arith, is_budget, is_memo, is_token)) in
                    (
                      inr (tc, ground arith, ground arith, ground arith, ground arith),
                      inl (ground arith),
                    )
                | inr no_token ↦ elim (Bool-cases (program == lib.compute_budget)) [
                  | inl budget ↦ (
                    inl (ground arith, ground arith, ground arith, ground arith),
                    inl (ground arith),
                  )
                  | inr no_budget ↦ elim (Bool-cases (program == lib.memo_program)) [
                    | inr no_memo ↦ absurd (ground arith)
                    | inl memo ↦
                        let (same, payer, count, flag) =
                          scan_memo-ok expected accounts ix.payload s s' (ground arith) in
                        (
                          inl (ground arith, same, payer, count),
                          elim flag [ inl kept ↦ inl kept | inr written ↦ inr (ground arith) ],
                        )
                  ]
                ]
              ]
        ]
      ]

  -- What the loop has done by its end.
  pub record Scanned (expected : Str) (ixs : List Instruction) (s s' : Scan) : Type 0 where
    pub counted : s'.transfer_count ≡ s.transfer_count + length (transfers ixs)
    pub untouched : transfers ixs ≡ [] → (s'.transfer ≡ s.transfer) × (s'.payer ≡ s.payer)
    pub single :
        (tc : TransferChecked)
        → transfers ixs ≡ tc ∷ []
        → (s'.transfer ≡ some tc) × (s'.payer ≡ tc.owner)
    pub flagged :
        (s'.memo_ok ≡ s.memo_ok) ⊎ ((ix : Instruction) × Memᴰ ix ixs × (memo_of ix ≡ some expected))

  pub scan_all-Scanned :
      (distinct : AreDistinct lib) (expected : Str) (ixs : List Instruction) (s s' : Scan)
      → scan_all lib tx expected ixs s ≡ ok s'
      → Scanned expected ixs s s'
  unfolding scan_all transfers Flagged
  scan_all-Scanned distinct expected [] s s' e = record {
    counted = ground arith;
    untouched = λ h. (cc, cc);
    single = λ tc h. cc;
    flagged = inl (cc);
  }
  scan_all-Scanned distinct expected (ix ∷ rest) s s' e =
      let (next, here, later) = >>=-eq-ok (scan_instruction lib tx expected ix s) _ e in
      let (moved, flag) = scan_instruction-ok distinct expected ix s next here in
      let r = scan_all-Scanned distinct expected rest next s' later in
      elim moved [
        | inl (still, transfer, payer, count) ↦ record {
          counted = ground (arith, r.counted);
          untouched = λ h. let u = r.untouched (ground arith) in (u.0 ∙ transfer, u.1 ∙ payer);
          single = λ tc h. r.single tc (ground arith);
          flagged = flagged next flag r.flagged;
        }
        | inr (tc, ordered, transfer, payer, count) ↦ record {
          counted = ground (arith, r.counted);
          untouched = λ h. absurd (ground arith);
          single = λ tc' h.
              let last : transfers rest ≡ [] = ground arith in
              let same : tc ≡ tc' = ground arith in
              let u = r.untouched last in
              (
                u.0 ∙ transfer ∙ ap some same,
                u.1 ∙ payer ∙ ap (λ (t : TransferChecked). t.owner) same,
              );
          flagged = flagged next flag r.flagged;
        }
      ]
    where
      flagged :
          (next : Scan)
          → (next.memo_ok ≡ s.memo_ok) ⊎ (memo_of ix ≡ some expected)
          → (s'.memo_ok ≡ next.memo_ok)
            ⊎ ((ix' : Instruction) × Memᴰ ix' rest × (memo_of ix' ≡ some expected))
          → (s'.memo_ok ≡ s.memo_ok)
            ⊎ ((ix' : Instruction) × Memᴰ ix' (ix ∷ rest) × (memo_of ix' ≡ some expected))
      flagged next (inr written) _ = inr (ix, Memᴰ.head refl, written)
      flagged next (inl kept) (inl kept') = inl (kept' ∙ kept)
      flagged next (inl kept) (inr (ix', m, written)) = inr (ix', Memᴰ.tail m, written)
