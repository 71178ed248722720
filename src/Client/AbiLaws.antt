-- ===== src/Client/AbiLaws.antt =====
-- cmd/testpay/main.go: what the words of the client's encoding are.
use xpay_server.Base.{
  false, ltb, ◌∙◌, ◌≡◌, refl, ℕ, suc, zero, ◌+◌, ◌-◌, arith, List, [], ◌∷◌, ◌++◌, some, length, All,
  Str, length-append, ◌≤◌, ap, ◌/◌, sym, ◌<◌, ◌%◌, ◌^◌, pos, eqb, take_all, append_nil,
  append_assoc,
}
use xpay_server.Client.Abi.{
  zeros, copy_at, right_aligned, encode_abi, bytes_from, padded_big, big_bytes, padded_addr,
}

abbrev pub concat : List Str → Str
concat [] = []
concat (p ∷ parts) = p ++ concat parts

length-zeros : (n : ℕ) → length (zeros n) ≡ n
unfolding zeros
length-zeros zero = refl
length-zeros (suc n) = omega (arith, length-zeros n)

-- A slice that fits is copied whole.
copy_at-fits :
    (offset : ℕ) (p : Str)
    → offset + length p ≤ 32
    → copy_at offset p ≡ zeros offset ++ (p ++ zeros (32 - offset - length p))
unfolding copy_at
copy_at-fits offset p h = rw (take_all (32 - offset) p (omega arith)) refl

pub length-copy_at :
    (offset : ℕ) (p : Str) → offset + length p ≤ 32 → length (copy_at offset p) ≡ 32
length-copy_at offset p h =
    rw
      (
        copy_at-fits offset p h,
        length-append (zeros offset) (p ++ zeros (32 - offset - length p)),
        length-append p (zeros (32 - offset - length p)),
        length-zeros offset,
        length-zeros (32 - offset - length p),
      )
      (omega arith)

right_aligned-fits : (p : Str) → length p ≤ 32 → right_aligned p ≡ some (zeros (32 - length p) ++ p)
unfolding right_aligned zeros
right_aligned-fits p h =
    let fits : ltb 32 (length p) ≡ false = ground arith in
    let offset : 32 - length p + length p ≤ 32 = omega arith in
    let behind : 32 - (32 - length p) - length p ≡ 0 = omega arith in
    rw (fits, copy_at-fits (32 - length p) p offset, behind)
      (ap (λ t. some (zeros (32 - length p) ++ t)) (append_nil p))

-- A word is its own alignment.
right_aligned-word : (p : Str) → length p ≡ 32 → right_aligned p ≡ some p
unfolding zeros
right_aligned-word p h = right_aligned-fits p (omega arith) ∙ rw h refl

-- Words are encoded as they are, one after the other.
pub encode_abi-words :
    (parts : List Str) → All (λ p. length p ≡ 32) parts → encode_abi parts ≡ some (concat parts)
unfolding encode_abi
encode_abi-words [] h = refl
encode_abi-words (p ∷ parts) h =
    rw (encode_abi, right_aligned-word p h.0, encode_abi-words parts h.1) refl

-- `n` in `k` bytes, most significant byte first
unfoldable pub big_endian : ℕ → ℕ → Str
big_endian zero n = []
big_endian (suc k) n = big_endian k (n / 256) ++ (n % 256) ∷ []

pub length-big_endian : (k n : ℕ) → length (big_endian k n) ≡ k
unfolding big_endian
length-big_endian zero n = refl
length-big_endian (suc k) n =
    rw (length-append (big_endian k (n / 256)) ((n % 256) ∷ []))
      (omega (arith, length-big_endian k (n / 256)))

zeros_snoc : (n : ℕ) → zeros (suc n) ≡ zeros n ++ 0 ∷ []
unfolding zeros
zeros_snoc zero = refl
zeros_snoc (suc n) = ap (λ t. 0 ∷ t) (zeros_snoc n)

big_endian-zero : (k : ℕ) → big_endian k 0 ≡ zeros k
unfolding big_endian zeros
big_endian-zero zero = refl
big_endian-zero (suc k) = rw (big_endian-zero k) (sym (zeros_snoc k))

power_step : (k n : ℕ) → n < 256 ^ suc k → n / 256 < 256 ^ k
power_step k n h = omega arith

bytes_from-zero : (fuel : ℕ) → bytes_from fuel 0 ≡ []
unfolding bytes_from
bytes_from-zero zero = refl
bytes_from-zero (suc fuel) = refl

bytes_from-suc :
    (fuel n : ℕ)
    → bytes_from (suc fuel) (suc n) ≡ bytes_from fuel (suc n / 256) ++ (suc n % 256) ∷ []
unfolding bytes_from
bytes_from-suc fuel n = let positive : eqb (suc n) 0 ≡ false = ground arith in rw positive refl

-- The bytes of a number that fits, filled up with zeros in front; `n` steps are enough for it.
big_endian-bytes_from :
    (k fuel n : ℕ)
    → n < fuel
    → n < 256 ^ k
    → (length (bytes_from fuel n) ≤ k)
      × (zeros (k - length (bytes_from fuel n)) ++ bytes_from fuel n ≡ big_endian k n)
unfolding bytes_from zeros big_endian
big_endian-bytes_from k zero n enough h = absurd (omega arith)
big_endian-bytes_from zero (suc fuel) n enough h = ground (arith, bytes_from-zero fuel)
big_endian-bytes_from (suc k) (suc fuel) zero enough h =
    let offset : suc k - 0 ≡ suc k = omega arith in
    (omega arith, rw offset (append_nil (zeros (suc k)) ∙ sym (big_endian-zero (suc k))))
big_endian-bytes_from (suc k) (suc fuel) (suc n) enough h =
    let (fits, same) =
      big_endian-bytes_from k fuel (suc n / 256) (omega arith) (power_step k (suc n) h) in
    let b = bytes_from fuel (suc n / 256) in
    let len : length (b ++ (suc n % 256) ∷ []) ≡ suc (length b) =
      length-append b ((suc n % 256) ∷ []) ∙ omega arith in
    let offset : suc k - suc (length b) ≡ k - length b = omega arith in
    rw (bytes_from-suc fuel n, len)
      (
        omega (arith, fits),
        rw (offset) (
            append_assoc (zeros (k - length b)) b ((suc n % 256) ∷ [])
            ∙ ap (λ t. t ++ (suc n % 256) ∷ []) same),
      )

-- What a word holds of a number that fits in 256 bits.
pub padded_big_lem : (n : ℕ) → n < 256 ^ 32 → padded_big (pos n) ≡ some (big_endian 32 n)
unfolding padded_big big_bytes
padded_big_lem n h =
    let (fits, same) = big_endian-bytes_from 32 (suc n) n (omega arith) h in
    right_aligned-fits (bytes_from (suc n) n) fits ∙ ap some same

pub padded_addr_lem : (a : Str) → length a ≡ 20 → padded_addr a ≡ zeros 12 ++ a
unfolding padded_addr zeros
padded_addr_lem a h =
    let behind : 32 - 12 - length a ≡ 0 = omega arith in
    copy_at-fits 12 a (omega arith) ∙ rw behind (ap (λ t. zeros 12 ++ t) (append_nil a))

pub length-padded_addr : (a : Str) → length a ≡ 20 → length (padded_addr a) ≡ 32
unfolding padded_addr
length-padded_addr a h = length-copy_at 12 a (omega arith)

-- A slice of 32 bytes fills the array that it is copied into.
pub copy_at-word : (p : Str) → length p ≡ 32 → copy_at 0 p ≡ p
unfolding zeros
copy_at-word p h =
    let behind : 32 - 0 - length p ≡ 0 = omega arith in
    copy_at-fits 0 p (omega arith) ∙ rw behind (append_nil p)
