-- ===== src/HexFields.antt =====
-- The text forms of keys, nonces and signatures that src/negotiate.rs and src/governance.rs share:
-- hexadecimal fields of a fixed length and `did:a1:` identifiers.
use dyolo_kya.Prelude.{
  ℕ, true, false, not, ◌==◌, nat_eq, ◌<◌, ◌≡◌, refl, All, if◌then◌else◌, length, [], ◌∷◌, ◌++◌,
  Option, some, none, Result, ok, ◌>>=◌, ◌>>◌, fail_if, ok_or, arith,
}
use dyolo_kya.Prelude.Bytes.{Bytes, text, u64_le}
use dyolo_kya.Error.{A1Error}
use dyolo_kya.Crypto.{Hex, IsHex}

-- A string behind its length.
abbrev pub prefixed : Bytes → Bytes
prefixed s = u64_le (length s) ++ s

-- An array of `n` bytes.
pub record IsArray (n : ℕ) (b : Bytes) : Type 0 where
  pub size : length b ≡ n
  pub bytes : All (λ x. x < 256) b

-- `str::strip_prefix`.
unfoldable pub strip_prefix : Bytes → Bytes → Option Bytes
strip_prefix [] s = some s
strip_prefix (p ∷ ps) [] = none
strip_prefix (p ∷ ps) (x ∷ xs) = let rest = strip_prefix ps xs in if p == x then rest else none

abbrev pub did_prefix : Bytes
did_prefix = text "did:a1:"

module _ (hex : Hex) where
  -- `format!("did:a1:{}", hex::encode(key))`.
  unfoldable pub did_of : Bytes → Bytes
  did_of key = did_prefix ++ hex.encode key

  -- `hex::decode` and `try_into` an array of `n` bytes.
  unfoldable pub decode_exact : ℕ → Bytes → Bytes → Bytes → Result A1Error Bytes
  decode_exact n bad_hex bad_length s = do
    b ← ok_or (hex.decode s) (A1Error.wire_format_error bad_hex)
    fail_if (not (length b == n)) (A1Error.wire_format_error bad_length)
    ok b

  pub decode_exact-encode :
      (n : ℕ) (bad_hex bad_length b : Bytes)
      → IsHex hex
      → All (λ x. x < 256) b
      → length b ≡ n
      → decode_exact n bad_hex bad_length (hex.encode b) ≡ ok b
  unfolding decode_exact
  decode_exact-encode n bad_hex bad_length b law bytes size =
      let same : not (length b == n) ≡ false = ground (arith, size) in
      rw (law.decode-encode b bytes, same) refl

pub strip_prefix-append : (p s : Bytes) → strip_prefix p (p ++ s) ≡ some s
unfolding strip_prefix
strip_prefix-append [] s = refl
strip_prefix-append (x ∷ p) s =
    let same : (x == x) ≡ true = ground arith in rw same (strip_prefix-append p s)

pub strip_prefix-did_of :
    (hex : Hex) (key : Bytes) → strip_prefix did_prefix (did_of hex key) ≡ some (hex.encode key)
unfolding did_of
strip_prefix-did_of hex key = strip_prefix-append did_prefix (hex.encode key)
