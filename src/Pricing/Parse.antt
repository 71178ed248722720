-- ===== src/Pricing/Parse.antt =====
-- internal/pricing/pricing.go: what the parser of prices accepts, and what it makes of it.
use xpay_server.Base.{
  ℕ, ◌*◌, ◌≡◌, Option, ok, Str, ℤ, pos, to_int64, Rat, den, quo, negsuc, ◌%◌, is_empty,
  if◌then◌else◌, ◌↔◌, trim_space, eqb, false, suc, some, ◌/◌, Bool-cases, two63, err, inl, ◌≤◌,
  arith, ◌<◌, *ℤ-pos, inr, two64, Option-cases, ◌-◌, sym, to_int64-large, eqb_iff, refl, subst,
}
use xpay_server.Pricing.Price.{micros_of, parse_usd_to_micros, too_precise}
use native.Mathlib.Nat.{div-add-mod, mul-mod_left, mul-div_cancel}

-- `q` micro-dollars are exactly the rational `r`, which is not negative.
abbrev pub IsMicros : Rat → ℕ → Type 0
IsMicros r q = (n : ℕ) × (r.num ≡ pos n) × (n * 1_000_000 ≡ q * den r)

module _ (rat_of : Str → Option Rat) where
  micros_of-pos :
      (s : Str) (n d : ℕ)
      → micros_of rat_of s (record { num = pos n; den_pred = d }) ≡ (
          if eqb (n * 1_000_000 % suc d) 0
          then ok (to_int64 (pos (n * 1_000_000 / suc d)))
          else err (too_precise s))
  unfolding micros_of quo
  micros_of-pos s n d = simp *ℤ-pos

  micros_of_sound :
      (s : Str) (n : ℤ) (d : ℕ) {m : ℤ}
      → micros_of rat_of s (record { num = n; den_pred = d }) ≡ ok m
      → (q : ℕ) × IsMicros (record { num = n; den_pred = d }) q × (m ≡ to_int64 (pos q))
  unfolding micros_of
  micros_of_sound s (negsuc n) d e = cc
  micros_of_sound s (pos n) d e =
      let e' = rw (micros_of-pos s n d) at e in
      let whole = div-add-mod (n * 1_000_000) (suc d) in
      elim (Bool-cases (eqb (n * 1_000_000 % suc d) 0)) [
        | inr h ↦ absurd (ground arith)
        | inl h ↦ (
          n * 1_000_000 / suc d,
          (n, refl, omega (arith, (eqb_iff (n * 1_000_000 % suc d) 0).0 h)),
          ground arith,
        )
      ]

  micros_of_complete :
      (s : Str) (r : Rat) (q : ℕ) → IsMicros r q → micros_of rat_of s r ≡ ok (to_int64 (pos q))
  micros_of_complete s r q (n, sign, whole) =
      let exact : n * 1_000_000 % den r ≡ 0 = rw whole (mul-mod_left q (den r)) in
      let over : n * 1_000_000 / den r ≡ q = rw whole (mul-div_cancel q (omega arith)) in
      subst {A = Rat} (λ t. micros_of rat_of s t ≡ ok (to_int64 (pos q)))
        {x = record { num = pos n; den_pred = r.den_pred }} {y = r} (ground arith)
        (rw (micros_of-pos s n r.den_pred) (rw (exact, over) refl))

  -- The parser accepts exactly the texts of rationals that are whole numbers of micro-dollars and
  -- not negative, and gives that number, as far as it fits in 64 bits.
  pub parse_usd_to_micros_iff :
      (text : Str) (m : ℤ)
      → (parse_usd_to_micros rat_of text ≡ ok m) ↔ (
          (r : Rat) × (q : ℕ) × (is_empty (trim_space text) ≡ false)
          × (rat_of (trim_space text) ≡ some r)
          × IsMicros r q
          × (m ≡ to_int64 (pos q)))
  unfolding parse_usd_to_micros
  parse_usd_to_micros_iff text m = (there, back)
    where
      there :
          parse_usd_to_micros rat_of text ≡ ok m
          → (r : Rat) × (q : ℕ) × (is_empty (trim_space text) ≡ false)
            × (rat_of (trim_space text) ≡ some r)
            × IsMicros r q
            × (m ≡ to_int64 (pos q))
      there e = elim (Bool-cases (is_empty (trim_space text))) [
        | inl h ↦ absurd (ground arith)
        | inr h ↦ elim (Option-cases (rat_of (trim_space text))) [
          | inl bad ↦ absurd (ground arith)
          | inr (r, read) ↦
              let (q, exact, value) =
                micros_of_sound (trim_space text) r.num r.den_pred {m = m} (ground arith) in
              (r, q, h, read, exact, value)
        ]
      ]

      back :
          ((r : Rat) × (q : ℕ) × (is_empty (trim_space text) ≡ false)
            × (rat_of (trim_space text) ≡ some r)
            × IsMicros r q
            × (m ≡ to_int64 (pos q)))
          → parse_usd_to_micros rat_of text ≡ ok m
      back (r, q, h, read, exact, value) =
          ground (arith, micros_of_complete (trim_space text) r q exact)

  -- A price of 2^63 micro-dollars or more, but less than 2^64, is accepted as a negative price.
  pub parse_usd_to_micros-negative :
      (text : Str) (r : Rat) (q : ℕ)
      → is_empty (trim_space text) ≡ false
      → rat_of (trim_space text) ≡ some r
      → IsMicros r q
      → two63 ≤ q
      → q < two64
      → parse_usd_to_micros rat_of text ≡ ok (negsuc (two64 - q - 1))
  parse_usd_to_micros-negative text r q h read exact low high =
      (parse_usd_to_micros_iff text _).1 (r, q, h, read, exact, sym (to_int64-large q low high))
