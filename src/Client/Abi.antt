-- ===== src/Client/Abi.antt =====
-- cmd/testpay/main.go: words of 32 bytes. A panic of the client is none.
use xpay_server.Base.{
  ℕ, zero, suc, ◌-◌, ◌/◌, ◌%◌, List, [], ◌∷◌, ◌++◌, Option, none, some, if◌then◌else◌, ltb, eqb,
  length, take, Str, ℤ, magnitude,
}

-- `n` zero bytes
unfoldable pub zeros : ℕ → Str
zeros zero = []
zeros (suc n) = 0 ∷ zeros n

-- `copy(padded[offset:], p)` over 32 zero bytes
unfoldable pub copy_at : ℕ → Str → Str
copy_at offset p = zeros offset ++ (take (32 - offset) p ++ zeros (32 - offset - length p))

-- The same at the end; the offset of a longer slice is negative, and the slicing panics.
unfoldable pub right_aligned : Str → Option Str
right_aligned p = if ltb 32 (length p) then none else some (copy_at (32 - length p) p)

unfoldable pub encode_abi : List Str → Option Str
encode_abi [] = some []
encode_abi (p ∷ parts) = elim (right_aligned p) [
  | none ↦ none
  | some word ↦ elim (encode_abi parts) [ none ↦ none | some rest ↦ some (word ++ rest) ]
]

-- The last byte first bound; a number has fewer bytes than its successor.
unfoldable pub bytes_from : ℕ → ℕ → Str
bytes_from zero n = []
bytes_from (suc fuel) n =
    let rest = bytes_from fuel (n / 256) in if eqb n 0 then [] else rest ++ (n % 256) ∷ []

-- `n.Bytes()`: the absolute value, most significant byte first
unfoldable pub big_bytes : ℤ → Str
big_bytes n = bytes_from (suc (magnitude n)) (magnitude n)

unfoldable pub padded_big : ℤ → Option Str
padded_big n = right_aligned (big_bytes n)

unfoldable pub padded_addr : Str → Str
padded_addr a = copy_at 12 a
