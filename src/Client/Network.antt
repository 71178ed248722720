-- ===== src/Client/Network.antt =====
-- cmd/testpay/main.go: `networkToChainID`.
use xpay_server.Base.{
  ℕ, not, ◌&&◌, none, some, if◌then◌else◌, [], ◌∷◌, ◌||◌, eqb, Str, codes, trim_prefix, trim_left,
  is_space, ℤ, pos, is_digit, ◌≡◌, true, int_string, Bool, All, digits, refl, false, decimal, suc,
  arith, has_prefix, Bool-cases, negsuc, parse_int-int_string, ltb, ap, inl, inr, All-append, ◌/◌,
  zero, ◌++◌, str_beq, ◌∙◌,
}
use xpay_server.Config.Env.{parse_int64}
use xpay_server.Config.Load.{payment_network}
use xpay_server.Store.Payments.{fits_int64}

-- What `fmt.Sscanf` skips in front of a number.
abbrev pub is_blank : ℕ → Bool
is_blank c = is_space c && not (eqb c b'\n')

unfoldable pub leading_digits : Str → Str
leading_digits [] = []
leading_digits (c ∷ s) = let rest = leading_digits s in if is_digit c then c ∷ rest else []

abbrev pub is_sign : ℕ → Bool
is_sign c = eqb c b'+' || eqb c b'-'

-- A sign, if any, and the digits after it.
unfoldable pub scan_number : Str → Str
scan_number [] = []
scan_number (c ∷ s) = if is_sign c then c ∷ leading_digits s else leading_digits (c ∷ s)

-- `fmt.Sscanf(s, "%d", &id)`; `id` is 0 where no `int64` is read.
unfoldable pub scan_int64 : Str → ℤ
scan_int64 s = elim (parse_int64 (scan_number (trim_left is_blank s))) [ none ↦ pos 0 | some n ↦ n ]

unfoldable pub network_to_chain_id : Str → ℤ
network_to_chain_id network = scan_int64 (trim_prefix network (codes "eip155:"))

IsDecimal : Str → Type 0
IsDecimal s = All (λ c. is_digit c ≡ true) s

digits-IsDecimal : (fuel n : ℕ) → IsDecimal (digits fuel n)
unfolding digits IsDecimal
digits-IsDecimal zero n = tt
digits-IsDecimal (suc fuel) n = elim (Bool-cases (ltb n 10)) [
  | inl small ↦ rw small (ground arith, tt)
  | inr large ↦ rw large (
      All-append (λ c. is_digit c ≡ true) (digits fuel (n / 10)) _ (digits-IsDecimal fuel (n / 10))
        (ground arith, tt))
]

leading_digits_all : (s : Str) → IsDecimal s → leading_digits s ≡ s
unfolding leading_digits IsDecimal
leading_digits_all [] h = refl
leading_digits_all (c ∷ s) h = rw (h.0, leading_digits_all s h.1) refl

scan-IsDecimal : (s : Str) → IsDecimal s → scan_number (trim_left is_blank s) ≡ s
unfolding scan_number trim_left IsDecimal
scan-IsDecimal [] h = refl
scan-IsDecimal (c ∷ s) h =
    let keeps : is_blank c ≡ false = ground arith in
    let unsigned : is_sign c ≡ false = ground arith in
    rw (keeps, unsigned) (leading_digits_all (c ∷ s) h)

scan-int_string : (n : ℤ) → scan_number (trim_left is_blank (int_string n)) ≡ int_string n
unfolding int_string decimal scan_number trim_left
scan-int_string (pos n) = scan-IsDecimal (digits (suc n) n) (digits-IsDecimal (suc n) n)
scan-int_string (negsuc n) =
    ap (λ t. b'-' ∷ t)
      (leading_digits_all (digits (suc (suc n)) (suc n)) (digits-IsDecimal (suc (suc n)) (suc n)))

parse_int64-int_string : (n : ℤ) → fits_int64 n ≡ true → parse_int64 (int_string n) ≡ some n
unfolding parse_int64
parse_int64-int_string n fits = rw (parse_int64, parse_int-int_string n, fits) refl

scan_int64-int_string : (n : ℤ) → fits_int64 n ≡ true → scan_int64 (int_string n) ≡ n
unfolding scan_int64
scan_int64-int_string n fits =
    rw (scan_int64, scan-int_string n, parse_int64-int_string n fits) refl

trim_prefix-append : (s : Str) → trim_prefix (codes "eip155:" ++ s) (codes "eip155:") ≡ s
unfolding trim_prefix has_prefix
trim_prefix-append s = refl

payment_network-evm :
    (id : ℤ) (cluster : Str)
    → payment_network (codes "evm") id cluster ≡ codes "eip155:" ++ int_string id
unfolding payment_network str_beq
payment_network-evm id cluster = refl

-- The client reads out of the network's name the chain id that the server has written into it, for
-- an id of 64 bits.
pub network_to_chain_id-payment_network :
    (id : ℤ) (cluster : Str)
    → fits_int64 id ≡ true
    → network_to_chain_id (payment_network (codes "evm") id cluster) ≡ id
unfolding network_to_chain_id
network_to_chain_id-payment_network id cluster fits =
    ap network_to_chain_id (payment_network-evm id cluster)
    ∙ ap scan_int64 (trim_prefix-append (int_string id))
    ∙ scan_int64-int_string id fits
