-- ===== src/Provenance/Powers.antt =====
-- src/provenance.rs: `next_power_of_two` and `trailing_zeros`.
use dyolo_kya.Prelude.{
  ℕ, zero, suc, ◌+◌, ◌*◌, ◌/◌, ◌%◌, ◌^◌, ◌≤◌, ◌<◌, ◌≡◌, refl, ap, inl, inr, true, false, ltb, leb,
  ltb→lt, ◌==◌, nat_eq, arith, Bool-cases,
}
use dyolo_kya.Provenance.{double_until, next_power_of_two, count_zeros, trailing_zeros}
use native.Mathlib.Nat.{pow-suc, one-le-pow}

ltb→ge : (a b : ℕ) → ltb a b ≡ false → b ≤ a
ltb→ge a b h = ground arith

-- The loop stops at a power of two that is enough, and not twice too large.
double_until_lem :
    (fuel k n : ℕ)
    → n ≤ 2 ^ (k + fuel)
    → (j : ℕ) × (double_until fuel n (2 ^ k) ≡ 2 ^ j)
      × (n ≤ 2 ^ j)
      × (j ≤ k + fuel)
      × (k ≤ j)
      × (k < j → 2 ^ j < 2 * n)
unfolding double_until
double_until_lem zero k n h =
    let same : k + 0 ≡ k = omega arith in
    (k, refl, rw same at h, omega arith, omega arith, λ l. absurd (omega arith))
double_until_lem (suc fuel) k n h = elim (Bool-cases (ltb (2 ^ k) n)) [
  | inr e ↦ (k, rw e refl, ground (arith, e), omega arith, omega arith, λ l. absurd (omega arith))
  | inl e ↦
      let same : k + suc fuel ≡ suc k + fuel = omega arith in
      let (j, runs, enough, bound, above, tight) = double_until_lem fuel (suc k) n (rw same at h) in
      let doubled : 2 * 2 ^ k ≡ 2 ^ suc k = omega (arith, pow-suc 2 k) in
      (
        j,
        rw (e, doubled) runs,
        enough,
        omega (arith, bound),
        omega (arith, above),
        λ l. close j above tight (ltb→lt (2 ^ k) n e) doubled,
      )
]
  where
    close :
        (j : ℕ)
        → suc k ≤ j
        → (suc k < j → 2 ^ j < 2 * n)
        → 2 ^ k < n
        → 2 * 2 ^ k ≡ 2 ^ suc k
        → 2 ^ j < 2 * n
    close j above tight less doubled = elim (Bool-cases (ltb (suc k) j)) [
      | inl l ↦ tight (ltb→lt (suc k) j l)
      | inr l ↦
          let same : j ≡ suc k = omega (arith, above, ltb→ge (suc k) j l) in
          rw same (omega (arith, doubled, less))
    ]

pow-le : (a b : ℕ) → a ≤ b → 2 ^ a ≤ 2 ^ b
pow-le zero b h = one-le-pow b 2 (omega arith)
pow-le (suc a) zero h = absurd (omega arith)
pow-le (suc a) (suc b) h = omega (arith, pow-suc 2 a, pow-suc 2 b, pow-le a b (omega arith))

-- For a `usize` that a power of two can reach, the loop ends: the result is a power of two, it is
-- enough, and half of it is not.
pub next_power_of_two_lem :
    (n : ℕ)
    → n ≤ 2 ^ 63
    → (j : ℕ) × (next_power_of_two n ≡ 2 ^ j) × (n ≤ 2 ^ j) × (j ≤ 63) × (0 < j → 2 ^ j < 2 * n)
unfolding next_power_of_two
next_power_of_two_lem n h = elim (Bool-cases (leb n 1)) [
  | inl e ↦ (0, rw e refl, ground (arith, e), omega arith, λ l. absurd (omega arith))
  | inr e ↦
      let (j, runs, enough, bound, above, tight) = double_until_lem 64 0 n (omega arith) in
      (j, rw e runs, enough, below j tight, tight)
]
  where
    below : (j : ℕ) → (0 < j → 2 ^ j < 2 * n) → j ≤ 63
    below j tight = elim (Bool-cases (ltb 63 j)) [
      | inl l ↦
          absurd (omega (arith, tight (omega (arith, ltb→lt 63 j l)), pow-le 64 j (ltb→lt 63 j l)))
      | inr l ↦ ltb→ge 63 j l
    ]

pub trailing_zeros-pow : (j : ℕ) → j ≤ 63 → trailing_zeros (2 ^ j) ≡ j
unfolding trailing_zeros count_zeros
trailing_zeros-pow j h = counted 64 j (omega arith)
  where
    first : (fuel : ℕ) → count_zeros fuel (2 ^ 0) ≡ 0
    first zero = refl
    first (suc fuel) = refl

    counted : (fuel j : ℕ) → j ≤ fuel → count_zeros fuel (2 ^ j) ≡ j
    counted fuel zero h = first fuel
    counted zero (suc j) h = absurd (omega arith)
    counted (suc fuel) (suc j) h =
        let even : (2 ^ suc j % 2 == 0) ≡ true = ground (arith, pow-suc 2 j) in
        let halved : 2 ^ suc j / 2 ≡ 2 ^ j = omega (arith, pow-suc 2 j) in
        rw (even, halved) (ap suc (counted fuel j (omega arith)))
