-- ===== src/Prelude/Bytes.antt =====
-- Byte strings: Rust's `[u8; N]`, `Vec<u8>` and the UTF-8 bytes of `&str`.
use Prim.Native.Char.{code}
use Prim.Native.String.{String}
use Prim.Native.Nat.{ℕ, zero, suc, ◌+◌, ◌*◌, ◌/◌, ◌%◌}
use mathlib.Core.Path.{◌≡◌, refl, ap}
use mathlib.Core.Logic.{◌↔◌}
use mathlib.Core.Bool.{Bool, true, false, ◌&&◌}
use mathlib.Core.List.{List, [], ◌∷◌, ◌++◌}
use native.Mathlib.Omega.{arith}
use dyolo_kya.Prelude.Tests.{PartialEq, ◌==◌, nat_eq}
use dyolo_kya.Prelude.Lists.{length}

abbrev pub Bytes : Type 0
Bytes = List ℕ

-- The bytes of an ASCII literal.
unfoldable pub text : String → Bytes
text String.[] = []
text (String.◌∷◌ c s) = code c ∷ text s

unfoldable pub bytes_beq : Bytes → Bytes → Bool
bytes_beq [] [] = true
bytes_beq [] (y ∷ ys) = false
bytes_beq (x ∷ xs) [] = false
bytes_beq (x ∷ xs) (y ∷ ys) = x == y && bytes_beq xs ys

pub bytes_beq_refl : (a : Bytes) → bytes_beq a a ≡ true
unfolding bytes_beq
bytes_beq_refl [] = refl
bytes_beq_refl (x ∷ xs) = ground (arith, bytes_beq_refl xs)

eq_of_bytes_beq : (a b : Bytes) → bytes_beq a b ≡ true → a ≡ b
unfolding bytes_beq
eq_of_bytes_beq [] [] h = refl
eq_of_bytes_beq [] (y ∷ ys) h = ground arith
eq_of_bytes_beq (x ∷ xs) [] h = ground arith
eq_of_bytes_beq (x ∷ xs) (y ∷ ys) h = ground (arith, eq_of_bytes_beq xs ys)

pub bytes_beq_iff : (a b : Bytes) → (bytes_beq a b ≡ true) ↔ (a ≡ b)
bytes_beq_iff a b = (eq_of_bytes_beq a b, λ e. rw e (bytes_beq_refl b))

instance abbrev pub bytes_eq : PartialEq Bytes
bytes_eq = record { eq = bytes_beq; eq_iff = bytes_beq_iff }

-- `x.to_le_bytes()` for an integer of `n` bytes.
unfoldable pub le_bytes : ℕ → ℕ → Bytes
le_bytes zero x = []
le_bytes (suc n) x = x % 256 ∷ le_bytes n (x / 256)

unfoldable pub from_le_bytes : Bytes → ℕ
from_le_bytes [] = 0
from_le_bytes (b ∷ bs) = b + 256 * from_le_bytes bs

-- `x.to_be_bytes()` for an integer of `n` bytes.
unfoldable pub be_bytes : ℕ → ℕ → Bytes
be_bytes zero x = []
be_bytes (suc n) x = be_bytes n (x / 256) ++ (x % 256 ∷ [])

abbrev pub u64_le : ℕ → Bytes
u64_le = le_bytes 8

abbrev pub u64_be : ℕ → Bytes
u64_be = be_bytes 8

pub length-le_bytes : (n x : ℕ) → length (le_bytes n x) ≡ n
unfolding le_bytes
length-le_bytes zero x = refl
length-le_bytes (suc n) x = ap suc (length-le_bytes n (x / 256))

-- Decimal digits, as `{}` prints an unsigned integer; 20 rounds print any `u64`.
unfoldable pub decimal_digits : ℕ → ℕ → Bytes → Bytes
decimal_digits zero n out = out
decimal_digits (suc fuel) n out =
    let d = b'0' + n % 10 in
    let rest = decimal_digits fuel (n / 10) (d ∷ out) in
    elim (n / 10) [ zero ↦ d ∷ out | suc m ↦ rest ]

unfoldable pub decimal : ℕ → Bytes
unfolding decimal_digits
decimal n = decimal_digits 20 n []

-- Two splits at the same length.
pub split_at :
    (xs ys us vs : Bytes) → length xs ≡ length ys → xs ++ us ≡ ys ++ vs → (xs ≡ ys) × (us ≡ vs)
split_at [] [] us vs e h = (refl, h)
split_at [] (y ∷ ys) us vs e h = absurd (omega arith)
split_at (x ∷ xs) [] us vs e h = absurd (omega arith)
split_at (x ∷ xs) (y ∷ ys) us vs e h =
    let first : x ≡ y = ground (arith, h) in
    let next : xs ++ us ≡ ys ++ vs = ground (arith, h) in
    let (same, rest) = split_at xs ys us vs (omega arith) next in (rw (first, same) refl, rest)
