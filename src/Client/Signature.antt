-- ===== src/Client/Signature.antt =====
-- cmd/testpay/main.go and internal/settler/settler.go: a signature as the client sends it and as the
-- server reads it.
use xpay_server.Base.{
  ◌≡◌, ℕ, Str, Option, length, some, take, drop, ◌++◌, ◌∷◌, ◌-◌, [], arith, length-append, ◌+◌, ◌<◌,
  refl, ◌%◌, true, leb, false, ok, ◌==◌, ltb, nat_eq, drop-append, drop_whole, take-append,
  take_longer, drop_longer, length-drop,
}
use xpay_server.Settler.Authorization.{Ethereum}
use xpay_server.Settler.Signature.{
  last_byte, normalize_signature, split_signature, TypedData, Fields,
}
use xpay_server.Client.Sign.{legacy_signature}
use xpay_server.Client.Eip712.{IsBytes}

-- `crypto.Sign` with the key of `signer`: on a digest 64 bytes of values in range and a recovery id,
-- from which the address is recovered.
pub record SignsAs (eth : Ethereum) (sign : Str → Option Str) (signer digest : Str) : Type 0 where
  pub body : Str
  pub v : ℕ
  pub signed : sign digest ≡ some (body ++ v ∷ [])
  pub body_size : length body ≡ 64
  pub body_bytes : IsBytes body
  pub v_small : v < 2
  pub recovered : eth.sig_to_address digest (body ++ v ∷ []) ≡ some signer
  pub in_range : eth.validate_signature_values v (take 32 body) (take 32 (drop 32 body)) ≡ true

module _ (body : Str) (v : ℕ) (size : length body ≡ 64) where
  pub length-signature : length (body ++ v ∷ []) ≡ 65
  length-signature = omega (arith, length-append body (v ∷ []))

  last_byte_lem : last_byte (body ++ v ∷ []) ≡ v
  last_byte_lem = rw (last_byte, drop-append 64 body (v ∷ []) size) refl

  drop_all : drop 65 (body ++ v ∷ []) ≡ []
  drop_all = drop_whole 65 (body ++ v ∷ []) (omega (arith, length-signature))

  pub legacy_signature_lem :
      (eth : Ethereum)
      → legacy_signature eth (body ++ v ∷ []) ≡ some (body ++ ((v + 27) % 256) ∷ [])
  unfolding legacy_signature
  legacy_signature_lem eth =
      let long : leb (length (body ++ v ∷ [])) 64 ≡ false = ground (arith, length-signature) in
      rw (long, last_byte_lem, drop_all, take-append 64 body (v ∷ []) size) refl

-- The server takes the client's 27 off again.
pub normalize_signature_lem :
    (eth : Ethereum) (hash_struct : TypedData → Str → Fields → Option Str) (body : Str) (v : ℕ)
    → length body ≡ 64
    → v < 2
    → normalize_signature eth hash_struct (body ++ ((v + 27) % 256) ∷ []) ≡ body ++ v ∷ []
unfolding normalize_signature
normalize_signature_lem eth hash_struct body v size small =
    let w : ℕ = (v + 27) % 256 in
    let high : leb 27 w ≡ true = ground arith in
    let back : w - 27 ≡ v = omega arith in
    rw (take-append 64 body (w ∷ []) size, last_byte_lem body w size) (rw (high, back) refl)

pub split_signature_lem :
    (eth : Ethereum) (body : Str) (v : ℕ)
    → length body ≡ 64
    → v < 2
    → eth.validate_signature_values v (take 32 body) (take 32 (drop 32 body)) ≡ true
    → split_signature eth (body ++ ((v + 27) % 256) ∷ [])
      ≡ ok (record { r = take 32 body; s = take 32 (drop 32 body); v = v + 27 })
unfolding split_signature
split_signature_lem eth body v size small valid =
    let w : ℕ = (v + 27) % 256 in
    let whole : (length (body ++ w ∷ []) == 65) ≡ true =
      ground (arith, length-signature body w size) in
    let first = take_longer 32 body (w ∷ []) (omega arith) in
    let rest = drop_longer 32 body (w ∷ []) (omega arith) in
    let second = take_longer 32 (drop 32 body) (w ∷ []) (omega (arith, length-drop 32 body)) in
    let high : ltb w 27 ≡ false = ground arith in
    let w_is : w ≡ v + 27 = omega arith in
    let back : w - 27 ≡ v = omega arith in
    let low : ltb 1 v ≡ false = ground arith in
    rw (whole, first, rest, second, last_byte_lem body w size, high, back, low, valid, w_is) refl
