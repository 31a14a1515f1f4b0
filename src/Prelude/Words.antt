-- ===== src/Prelude/Words.antt =====
-- Arithmetic of `u64`, and Bloom filters of 64-bit words: `load(w) & bit` and `fetch_or(w, bit)`.
use Prim.Native.Nat.{ℕ, ◌+◌, ◌*◌, ◌/◌, ◌%◌, ◌^◌, ◌-◌, ◌<◌, min, bit_and, bit_or}
use mathlib.Core.Path.{◌≡◌, ap}
use mathlib.Core.Logic.{◌↔◌, inl, inr}
use mathlib.Core.Bool.{Bool, true, not}
use mathlib.Core.List.{List}
use native.Mathlib.Decide.{ℕ_discrete}
use native.Mathlib.Omega.{arith}
use dyolo_kya.Prelude.Tests.{◌==◌, nat_eq, Bool-cases}
use dyolo_kya.Prelude.Lists.{length, get_or, set, length-set, get_or-set_self, get_or-set_ne}
use dyolo_kya.Prelude.Bits.{
  testbit, testbit-lt, testbit-bit_or, testbit-pow_self, bit_and-pow-eq-zero_iff,
}

abbrev pub u64_mod : ℕ
u64_mod = 18446744073709551616

abbrev pub u64_max : ℕ
u64_max = 18446744073709551615

unfoldable pub wrapping_mul : ℕ → ℕ → ℕ
wrapping_mul a b = a * b % u64_mod

unfoldable pub wrapping_add : ℕ → ℕ → ℕ
wrapping_add a b = (a + b) % u64_mod

-- `a.saturating_add(b)`.
unfoldable pub saturating_add : ℕ → ℕ → ℕ
saturating_add a b = min (a + b) u64_max

-- For a shift below 64.
unfoldable pub rotate_right : ℕ → ℕ → ℕ
rotate_right x k = x / 2 ^ k + x % 2 ^ k * 2 ^ (64 - k)

unfoldable pub rotate_left : ℕ → ℕ → ℕ
unfolding rotate_right
rotate_left x k = rotate_right x (64 - k)

-- Is the bit of `index`, a pair of a word and a mask, set?
unfoldable pub bloom_has : List ℕ → ℕ × ℕ → Bool
bloom_has bloom (word, bit) = not (bit_and (get_or bloom word 0) bit == 0)

unfoldable pub bloom_set : List ℕ → ℕ × ℕ → List ℕ
bloom_set bloom (word, bit) = set bloom word (bit_or (get_or bloom word 0) bit)

pub length-bloom_set : (bloom : List ℕ) (i : ℕ × ℕ) → length (bloom_set bloom i) ≡ length bloom
unfolding bloom_set
length-bloom_set bloom (word, bit) = length-set bloom word _

has_iff :
    (bloom : List ℕ) (word k : ℕ)
    → (bloom_has bloom (word, 2 ^ k) ≡ true) ↔ (testbit (get_or bloom word 0) k ≡ 1)
unfolding bloom_has
has_iff bloom word k =
    let w = get_or bloom word 0 in
    let z = bit_and-pow-eq-zero_iff w k in
    (
      λ h. elim (ℕ_discrete (testbit w k) 0) [
        | yes e ↦ absurd (ground (arith, z.1 e))
        | no n ↦ omega (arith, testbit-lt w k)
      ],
      λ h. elim (Bool-cases (bit_and w (2 ^ k) == 0)) [
        | inl e ↦ absurd (omega (arith, z.0 (ground arith)))
        | inr n ↦ rw n
      ],
    )

-- A bit that is set is there.
pub bloom_has-bloom_set_self :
    (bloom : List ℕ) (word k : ℕ)
    → word < length bloom
    → bloom_has (bloom_set bloom (word, 2 ^ k)) (word, 2 ^ k) ≡ true
bloom_has-bloom_set_self bloom word k h = (has_iff (bloom_set bloom (word, 2 ^ k)) word k).1 (
    unfold bloom_set in
    rw (get_or-set_self bloom word _ 0 h) (
      omega (
        arith,
        testbit-bit_or (get_or bloom word 0) (2 ^ k) k,
        testbit-pow_self k,
        testbit-lt (get_or bloom word 0) k,
      )))

-- No bit is ever cleared.
pub bloom_has-bloom_set_keep :
    (bloom : List ℕ) (word k w j : ℕ)
    → word < length bloom
    → bloom_has bloom (w, 2 ^ j) ≡ true
    → bloom_has (bloom_set bloom (word, 2 ^ k)) (w, 2 ^ j) ≡ true
bloom_has-bloom_set_keep bloom word k w j h was = (has_iff (bloom_set bloom (word, 2 ^ k)) w j).1 (
    unfold bloom_set in
    elim (ℕ_discrete word w) [
      | yes e ↦
          rw (← e, get_or-set_self bloom word _ 0 h)
            (omega (
              arith,
              testbit-bit_or (get_or bloom word 0) (2 ^ k) j,
              testbit-lt (2 ^ k) j,
              ap (λ (x : ℕ). testbit (get_or bloom x 0) j) e,
              (has_iff bloom w j).0 was,
            ))
      | no n ↦ rw (get_or-set_ne bloom word w _ 0 n) ((has_iff bloom w j).0 was)
    ])
