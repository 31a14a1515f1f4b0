-- ===== src/Negotiate/Signed.antt =====
-- src/negotiate.rs: the signed bytes of a request determine its fields.
use dyolo_kya.Prelude.{
  ℕ, zero, suc, ◌/◌, ◌%◌, ◌^◌, ◌<◌, ◌≡◌, refl, sym, ◌∙◌, All, length, append_assoc, Bool-cases,
  ◌==◌, inl, inr, ◌⊎◌, Result, List, [], ◌∷◌, ◌++◌, arith,
}
use dyolo_kya.Prelude.Bytes.{
  Bytes, split_at, text, le_bytes, u64_le, length-le_bytes, bytes_eq, bytes_beq_iff,
}
use dyolo_kya.Crypto.{Crypto, Hex}
use dyolo_kya.Prelude.Words.{u64_mod}
use dyolo_kya.HexFields.{prefixed}
use dyolo_kya.Negotiate.{encode_caps, request_input, request_signable_bytes}
use native.Mathlib.Nat.{pow-suc}

le_bytes_injective : (n x y : ℕ) → x < 256 ^ n → y < 256 ^ n → le_bytes n x ≡ le_bytes n y → x ≡ y
unfolding le_bytes
le_bytes_injective zero x y hx hy h = omega arith
le_bytes_injective (suc n) x y hx hy h =
    let low : x % 256 ≡ y % 256 = ground (arith, h) in
    let rest : le_bytes n (x / 256) ≡ le_bytes n (y / 256) = ground (arith, h) in
    let high =
      le_bytes_injective n (x / 256) (y / 256) (omega (arith, pow-suc 256 n))
        (omega (arith, pow-suc 256 n)) rest in
    omega (arith, low, high)

-- A `u64` in front.
u64_front :
    (x y : ℕ) (us vs : Bytes)
    → x < u64_mod
    → y < u64_mod
    → u64_le x ++ us ≡ u64_le y ++ vs
    → (x ≡ y) × (us ≡ vs)
u64_front x y us vs hx hy h =
    let (same, rest) =
      split_at (u64_le x) (u64_le y) us vs (omega (arith, length-le_bytes 8 x, length-le_bytes 8 y))
        h in
    (le_bytes_injective 8 x y hx hy same, rest)

prefixed_front :
    (s t us vs : Bytes)
    → length s < u64_mod
    → length t < u64_mod
    → prefixed s ++ us ≡ prefixed t ++ vs
    → (s ≡ t) × (us ≡ vs)
prefixed_front s t us vs hs ht h =
    let (size, rest) =
      u64_front (length s) (length t) (s ++ us) (t ++ vs) hs ht
        (sym (append_assoc (u64_le (length s)) s us) ∙ h ∙ append_assoc (u64_le (length t)) t vs) in
    split_at s t us vs size rest

encode_caps_injective :
    (xs ys : List Bytes)
    → length xs ≡ length ys
    → All (λ s. length s < u64_mod) xs
    → All (λ s. length s < u64_mod) ys
    → encode_caps xs ≡ encode_caps ys
    → xs ≡ ys
unfolding encode_caps
encode_caps_injective [] [] e hx hy h = refl
encode_caps_injective [] (y ∷ ys) e hx hy h = absurd (omega arith)
encode_caps_injective (x ∷ xs) [] e hx hy h = absurd (omega arith)
encode_caps_injective (x ∷ xs) (y ∷ ys) e hx hy h =
    let (same, rest) = prefixed_front x y (encode_caps xs) (encode_caps ys) hx.0 hy.0 h in
    rw (same, encode_caps_injective xs ys (omega arith) hx.1 hy.1 rest) refl

-- What a request signs.
pub record Signed : Type 0 where
  pub did : Bytes
  pub nonce : Bytes
  pub timestamp : ℕ
  pub ttl : ℕ
  pub intent : Bytes
  pub caps : List Bytes

-- Times and lengths are `u64`, and the nonce has 16 bytes.
pub record IsSized (r : Signed) : Type 0 where
  pub did : length r.did < u64_mod
  pub nonce : length r.nonce ≡ 16
  pub timestamp : r.timestamp < u64_mod
  pub ttl : r.ttl < u64_mod
  pub intent : length r.intent < u64_mod
  pub count : length r.caps < u64_mod
  pub caps : All (λ s. length s < u64_mod) r.caps

abbrev pub input_of : Signed → Bytes
input_of r = request_input r.did r.nonce r.timestamp r.ttl r.intent r.caps

input_injective : (r s : Signed) → IsSized r → IsSized s → input_of r ≡ input_of s → r ≡ s
unfolding request_input
input_injective r s hr hs h =
    let (did, h1) = prefixed_front r.did s.did _ _ hr.did hs.did h in
    let (nonce, h2) = split_at r.nonce s.nonce _ _ (hr.nonce ∙ sym hs.nonce) h1 in
    let (timestamp, h3) = u64_front r.timestamp s.timestamp _ _ hr.timestamp hs.timestamp h2 in
    let (ttl, h4) = u64_front r.ttl s.ttl _ _ hr.ttl hs.ttl h3 in
    let (intent, h5) = prefixed_front r.intent s.intent _ _ hr.intent hs.intent h4 in
    let (count, h6) = u64_front (length r.caps) (length s.caps) _ _ hr.count hs.count h5 in
    let caps = encode_caps_injective r.caps s.caps count hr.caps hs.caps h6 in
    ground (arith, did, nonce, timestamp, ttl, intent, caps)

-- The bytes that a request signs determine every signed field of it: two requests that sign the
-- same bytes agree in identifier, nonce, time, lifetime, intent and capabilities, unless their two
-- inputs differ and have the same hash. Lengths and times are assumed to fit in 64 bits.
pub request_signable_bytes_binds :
    (c : Crypto) (hex : Hex) (check_key : Bytes → Result Bytes (Unit {0})) (r s : Signed)
    → IsSized r
    → IsSized s
    → request_signable_bytes c hex check_key r.did r.nonce r.timestamp r.ttl r.intent r.caps
      ≡ request_signable_bytes c hex check_key s.did s.nonce s.timestamp s.ttl s.intent s.caps
    → (r ≡ s)
      ⊎ ((c.derive (text "a1::dyolo::negotiate::request::v2.8.0") (input_of r)
            ≡ c.derive (text "a1::dyolo::negotiate::request::v2.8.0") (input_of s))
          × ¬ (input_of r ≡ input_of s))
unfolding request_signable_bytes
request_signable_bytes_binds c hex check_key r s hr hs h =
    elim (Bool-cases (input_of r == input_of s)) [
      | inl e ↦ inl (input_injective r s hr hs ((bytes_beq_iff (input_of r) (input_of s)).0 e))
      | inr n ↦ inr (h, λ e. ground (arith, n, (bytes_beq_iff (input_of r) (input_of s)).1 e))
    ]
