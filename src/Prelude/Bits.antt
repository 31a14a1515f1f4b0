-- ===== src/Prelude/Bits.antt =====
-- Binary digits of the native numbers: `&`, `|` and `1 << k` digit by digit.
mod Step
use Step.{bit_or-lowest, bit_and-lowest, bit_and-zero_left}
use Prim.Native.Nat.{ℕ, zero, suc, ◌+◌, ◌*◌, ◌/◌, ◌%◌, ◌^◌, ◌≤◌, ◌<◌, min, max, bit_and, bit_or}
use mathlib.Core.Path.{◌≡◌, refl, ap}
use mathlib.Core.Logic.{◌≢◌, ◌↔◌}
use native.Mathlib.Nat.{pow-suc, one-le-pow}
use native.Mathlib.Omega.{arith}
use dyolo_kya.Prelude.Tests.{◌==◌, nat_eq, if◌then◌else◌}

-- Digit `k` of `a`.
unfoldable pub testbit : ℕ → ℕ → ℕ
testbit a zero = a % 2
testbit a (suc k) = testbit (a / 2) k

pub testbit-lt : (a k : ℕ) → testbit a k < 2
unfolding testbit
testbit-lt a zero = omega arith
testbit-lt a (suc k) = testbit-lt (a / 2) k

pub testbit-zero : (k : ℕ) → testbit 0 k ≡ 0
unfolding testbit
testbit-zero zero = refl
testbit-zero (suc k) = testbit-zero k

pub testbit-bit_and : (a b k : ℕ) → testbit (bit_and a b) k ≡ min (testbit a k) (testbit b k)
unfolding testbit
testbit-bit_and a b zero = omega (arith, bit_and-lowest a b)
testbit-bit_and a b (suc k) =
    let half : bit_and a b / 2 ≡ bit_and (a / 2) (b / 2) = omega (arith, bit_and-lowest a b) in
    rw half (testbit-bit_and (a / 2) (b / 2) k)

pub testbit-bit_or : (a b k : ℕ) → testbit (bit_or a b) k ≡ max (testbit a k) (testbit b k)
unfolding testbit
testbit-bit_or a b zero = omega (arith, bit_or-lowest a b)
testbit-bit_or a b (suc k) =
    let half : bit_or a b / 2 ≡ bit_or (a / 2) (b / 2) = omega (arith, bit_or-lowest a b) in
    rw half (testbit-bit_or (a / 2) (b / 2) k)

pub testbit-pow_self : (k : ℕ) → testbit (2 ^ k) k ≡ 1
unfolding testbit
testbit-pow_self zero = refl
testbit-pow_self (suc k) =
    let half : 2 ^ suc k / 2 ≡ 2 ^ k = omega (arith, pow-suc 2 k) in rw half (testbit-pow_self k)

pub testbit-pow_ne : (k j : ℕ) → k ≢ j → testbit (2 ^ k) j ≡ 0
unfolding testbit
testbit-pow_ne zero zero h = absurd (h refl)
testbit-pow_ne zero (suc j) h = testbit-zero j
testbit-pow_ne (suc k) zero h = omega (arith, pow-suc 2 k)
testbit-pow_ne (suc k) (suc j) h =
    let half : 2 ^ suc k / 2 ≡ 2 ^ k = omega (arith, pow-suc 2 k) in
    rw half (testbit-pow_ne k j (λ e. h (ap suc e)))

-- Two numbers with the same digits are equal; `n` digits suffice for a number below `2 ^ n`.
pub eq_of_testbit : (n a b : ℕ) → a ≤ n → b ≤ n → ((k : ℕ) → testbit a k ≡ testbit b k) → a ≡ b
unfolding testbit
eq_of_testbit zero a b ha hb h = omega arith
eq_of_testbit (suc n) a b ha hb h =
    let high : a / 2 ≡ b / 2 =
      eq_of_testbit n (a / 2) (b / 2) (omega arith) (omega arith) (λ k. h (suc k)) in
    omega (arith, high, h 0)

-- `a & (1 << k)` keeps exactly digit `k`.
pub bit_and-pow : (a k : ℕ) → bit_and a (2 ^ k) ≡ testbit a k * 2 ^ k
unfolding testbit
bit_and-pow a zero = omega (arith, bit_and-lowest a 1, bit_and-zero (a / 2))
  where
    bit_and-zero : (m : ℕ) → bit_and m 0 ≡ 0
    bit_and-zero m =
        eq_of_testbit (bit_and m 0) (bit_and m 0) 0 (omega arith) (omega arith)
          λ k. omega (arith, testbit-bit_and m 0 k, testbit-zero k)
bit_and-pow a (suc k) =
    let half : 2 ^ suc k / 2 ≡ 2 ^ k = omega (arith, pow-suc 2 k) in
    omega (
      arith,
      bit_and-lowest a (2 ^ suc k),
      ap (λ (t : ℕ). bit_and (a / 2) t) half,
      bit_and-pow (a / 2) k,
      pow-suc 2 k,
      ap (λ (t : ℕ). testbit (a / 2) k * t) (pow-suc 2 k),
    )

-- The test `a & (1 << k) == 0`.
pub bit_and-pow-eq-zero_iff : (a k : ℕ) → (bit_and a (2 ^ k) ≡ 0) ↔ (testbit a k ≡ 0)
bit_and-pow-eq-zero_iff a k = (
  λ h.
      zero_of_mul (testbit a k) (2 ^ k) (one-le-pow k 2 (omega arith)) (testbit-lt a k)
        (omega (arith, bit_and-pow a k)),
  λ h. omega (arith, bit_and-pow a k, ap (λ (t : ℕ). t * 2 ^ k) h),
)
  where
    zero_of_mul : (t p : ℕ) → 1 ≤ p → t < 2 → t * p ≡ 0 → t ≡ 0
    zero_of_mul zero p h l e = refl
    zero_of_mul (suc t) p h l e = absurd (grind arith)

pub bit_and-le : (n a b : ℕ) → a ≤ n → bit_and a b ≤ a
bit_and-le zero a b h =
    let nothing : a ≡ 0 = omega arith in rw (nothing, bit_and-zero_left b) (omega arith)
bit_and-le (suc n) a b h =
    omega (arith, bit_and-lowest a b, bit_and-le n (a / 2) (b / 2) (omega arith))

-- `n` digits suffice for `|` of two numbers of `n` digits.
pub bit_or-lt : (n a b : ℕ) → a < 2 ^ n → b < 2 ^ n → bit_or a b < 2 ^ n
bit_or-lt zero a b ha hb =
    let first : a ≡ 0 = omega arith in
    let second : b ≡ 0 = omega arith in rw (first, second) (ground arith)
bit_or-lt (suc n) a b ha hb = omega (
  arith,
  bit_or-lowest a b,
  pow-suc 2 n,
  bit_or-lt n (a / 2) (b / 2) (omega (arith, pow-suc 2 n)) (omega (arith, pow-suc 2 n)),
)
