-- ===== src/Base/Text.antt =====
-- A Go string as its bytes, with the functions of package strings that the program calls.
-- Upper and lower case and space are those of ASCII.
use Prim.Native.Nat.{ℕ, ◌+◌}
use Prim.Native.Char.{code}
use Prim.Native.String.{String}
use mathlib.Core.Path.{◌≡◌, refl, ap₂}
use mathlib.Core.Logic.{◌↔◌}
use mathlib.Core.Bool.{Bool, true, false, ◌&&◌, ◌||◌}
use mathlib.Core.List.{List, [], ◌∷◌, map}
use native.Mathlib.Omega.{arith}
use xpay_server.Base.Tests.{eqb, leb, ltb, if◌then◌else◌, Comparable, ◌==◌}
use xpay_server.Base.Lists.{is_empty}

abbrev pub Str : Type 0
Str = List ℕ

-- The bytes of an ASCII literal.
abbrev pub codes : String → Str
codes String.[] = []
codes (String.◌∷◌ c s) = code c ∷ codes s

unfoldable pub str_beq : Str → Str → Bool
str_beq [] [] = true
str_beq (x ∷ xs) (y ∷ ys) = eqb x y && str_beq xs ys
str_beq _ _ = false

pub str_beq_sound : (s t : Str) → str_beq s t ≡ true → s ≡ t
unfolding str_beq
str_beq_sound [] [] h = refl
str_beq_sound (x ∷ xs) (y ∷ ys) h = ap₂ ◌∷◌ (ground arith) (str_beq_sound xs ys (ground arith))
str_beq_sound [] (y ∷ ys) h = cc
str_beq_sound (x ∷ xs) [] h = cc

str_beq_self : (s : Str) → str_beq s s ≡ true
unfolding str_beq
str_beq_self [] = refl
str_beq_self (x ∷ xs) = ground (arith, str_beq_self xs)

pub str_beq_iff : (s t : Str) → (str_beq s t ≡ true) ↔ (s ≡ t)
str_beq_iff s t = (str_beq_sound s t, λ e. rw e (str_beq_self t))

instance abbrev pub str_eq : Comparable Str
str_eq = record { same = str_beq; same_iff = str_beq_iff }

-- `s < t` on strings: byte by byte.
unfoldable pub str_ltb : Str → Str → Bool
str_ltb s [] = false
str_ltb [] (y ∷ ys) = true
str_ltb (x ∷ xs) (y ∷ ys) = ltb x y || (eqb x y && str_ltb xs ys)

-- `strings.HasPrefix`
unfoldable pub has_prefix : Str → Str → Bool
has_prefix s [] = true
has_prefix [] (y ∷ ys) = false
has_prefix (x ∷ xs) (y ∷ ys) = eqb x y && has_prefix xs ys

-- `strings.TrimPrefix`
unfoldable pub trim_prefix : Str → Str → Str
trim_prefix s [] = s
trim_prefix [] (y ∷ ys) = []
trim_prefix (x ∷ xs) (y ∷ ys) = if has_prefix (x ∷ xs) (y ∷ ys) then trim_prefix xs ys else x ∷ xs

module _ (cut : ℕ → Bool) where
  unfoldable pub trim_left : Str → Str
  trim_left [] = []
  trim_left (c ∷ s) = if cut c then trim_left s else c ∷ s

  unfoldable pub trim_right : Str → Str
  trim_right [] = []
  trim_right (c ∷ s) = let rest = trim_right s in if is_empty rest && cut c then [] else c ∷ rest

abbrev pub is_space : ℕ → Bool
is_space c = (leb 9 c && leb c 13) || eqb c 32

-- `strings.TrimSpace`
unfoldable pub trim_space : Str → Str
trim_space s = trim_right is_space (trim_left is_space s)

unfoldable pub lower : ℕ → ℕ
lower c = if leb b'A' c && leb c b'Z' then c + 32 else c

-- `strings.ToLower`
unfoldable pub to_lower : Str → Str
to_lower s = map lower s

-- `strings.EqualFold`
unfoldable pub equal_fold : Str → Str → Bool
equal_fold s t = to_lower s == to_lower t
