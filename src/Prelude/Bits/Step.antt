-- ===== src/Prelude/Bits/Step.antt =====
-- The native `&` and `|` by their lowest digit. Both are one recursion over digits on fuel, and
-- what they compute does not depend on the fuel once there is enough of it.
use Prim.Native.Nat.{
  ℕ, zero, suc, ◌+◌, ◌*◌, ◌/◌, ◌%◌, ◌≤◌, min, max, bit_and, bit_or, digits, bitwise,
  bit_and-bitwise, bit_or-bitwise,
}
use mathlib.Core.Path.{◌≡◌, refl}
use native.Mathlib.Omega.{arith}

module _ (rest : ℕ → ℕ) (join : ℕ → ℕ → ℕ) where
  enough_fuel :
      (bound fuel x y : ℕ)
      → fuel ≤ bound
      → x ≤ fuel
      → digits rest join fuel x y ≡ bitwise rest join x y
  enough_fuel bound fuel zero y in_bound enough = by_fuel fuel
    where
      by_fuel : (n : ℕ) → digits rest join n 0 y ≡ rest y
      by_fuel zero = refl
      by_fuel (suc n) = refl
  enough_fuel bound zero (suc x) y in_bound enough = absurd (omega arith)
  enough_fuel zero (suc fuel) (suc x) y in_bound enough = absurd (omega arith)
  enough_fuel (suc bound) (suc fuel) (suc x) y in_bound enough =
      let half = suc x / 2 in
      rw
        (
          enough_fuel bound fuel half (y / 2) (omega arith) (omega arith),
          enough_fuel bound x half (y / 2) (omega arith) (omega arith),
        )
        refl

  lowest_digit :
      (x y : ℕ)
      → bitwise rest join (suc x) y
        ≡ join (suc x % 2) (y % 2) + 2 * bitwise rest join (suc x / 2) (y / 2)
  lowest_digit x y = omega (arith, enough_fuel x x (suc x / 2) (y / 2) (omega arith) (omega arith))

pub bit_and-lowest : (x y : ℕ) → bit_and x y ≡ min (x % 2) (y % 2) + 2 * bit_and (x / 2) (y / 2)
bit_and-lowest zero y = simp bit_and-bitwise (omega arith)
bit_and-lowest (suc x) y = simp bit_and-bitwise (lowest_digit (λ y. 0) min x y)

pub bit_or-lowest : (x y : ℕ) → bit_or x y ≡ max (x % 2) (y % 2) + 2 * bit_or (x / 2) (y / 2)
bit_or-lowest zero y = simp bit_or-bitwise (omega arith)
bit_or-lowest (suc x) y = simp bit_or-bitwise (lowest_digit (λ y. y) max x y)

pub bit_and-zero_left : (y : ℕ) → bit_and 0 y ≡ 0
bit_and-zero_left y = simp bit_and-bitwise refl
