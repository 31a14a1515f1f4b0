-- ===== src/Narrowing/Words.antt =====
-- The 64-bit words of a mask, bit by bit.
use dyolo_kya.Prelude.{
  ℕ, zero, suc, ◌+◌, ◌*◌, ◌/◌, ◌%◌, ◌≤◌, ◌<◌, bit_and, ◌≡◌, ◌↔◌, refl, ap, ◌∙◌, sym, All, length,
  get_or, take, drop, [], ◌∷◌, arith,
}
use dyolo_kya.Prelude.Bytes.{Bytes, from_le_bytes}
use dyolo_kya.Prelude.Bits.{testbit, testbit-zero, testbit-bit_and, eq_of_testbit}
use dyolo_kya.Narrowing.{read_u64}

-- A mask of 32 bytes.
pub record IsMask (m : Bytes) : Type 0 where
  pub size : length m ≡ 32
  pub bytes : All (λ b. b < 256) m

-- Bit `i` of a mask.
abbrev pub bit : Bytes → ℕ → ℕ
bit m i = testbit (get_or m (i / 8) 0) (i % 8)

-- A byte below a number in base 256: its eight bits are the lowest ones.
testbit_low : (k b x : ℕ) → k < 8 → testbit (b + 256 * x) k ≡ testbit b k
unfolding testbit
testbit_low zero b x h = omega arith
testbit_low (suc zero) b x h = omega arith
testbit_low (suc (suc zero)) b x h = omega arith
testbit_low (suc (suc (suc zero))) b x h = omega arith
testbit_low (suc (suc (suc (suc zero)))) b x h = omega arith
testbit_low (suc (suc (suc (suc (suc zero))))) b x h = omega arith
testbit_low (suc (suc (suc (suc (suc (suc zero)))))) b x h = omega arith
testbit_low (suc (suc (suc (suc (suc (suc (suc zero))))))) b x h = omega arith
testbit_low (suc (suc (suc (suc (suc (suc (suc (suc k)))))))) b x h = absurd (omega arith)

testbit_high :
    (k b x : ℕ)
    → b < 256
    → testbit (b + 256 * x) (suc (suc (suc (suc (suc (suc (suc (suc k)))))))) ≡ testbit x k
unfolding testbit
testbit_high k b x h =
    let shifted : (b + 256 * x) / 2 / 2 / 2 / 2 / 2 / 2 / 2 / 2 ≡ x = omega arith in
    ap (λ (t : ℕ). testbit t k) shifted

get_or-drop : (n j : ℕ) (m : Bytes) → get_or (drop n m) j 0 ≡ get_or m (n + j) 0
get_or-drop zero j m = let same : 0 + j ≡ j = omega arith in rw same refl
get_or-drop (suc n) j [] = refl
get_or-drop (suc n) j (b ∷ m) =
    let same : suc n + j ≡ suc (n + j) = omega arith in rw same (get_or-drop n j m)

get_or-take : (n j : ℕ) (m : Bytes) → j < n → get_or (take n m) j 0 ≡ get_or m j 0
get_or-take zero j m h = absurd (omega arith)
get_or-take (suc n) j [] h = refl
get_or-take (suc n) zero (b ∷ m) h = refl
get_or-take (suc n) (suc j) (b ∷ m) h = get_or-take n j m (omega arith)

All-drop : (n : ℕ) (m : Bytes) → All (λ b. b < 256) m → All (λ b. b < 256) (drop n m)
All-drop zero m h = h
All-drop (suc n) [] h = tt
All-drop (suc n) (b ∷ m) h = All-drop n m h.1

All-take : (n : ℕ) (m : Bytes) → All (λ b. b < 256) m → All (λ b. b < 256) (take n m)
All-take zero m h = tt
All-take (suc n) [] h = tt
All-take (suc n) (b ∷ m) h = (h.0, All-take n m h.1)

pub get_or_past : (m : Bytes) (j : ℕ) → length m ≤ j → get_or m j 0 ≡ 0
get_or_past [] j h = refl
get_or_past (b ∷ m) zero h = absurd (omega arith)
get_or_past (b ∷ m) (suc j) h = get_or_past m j (omega arith)

-- The bits of a little-endian number are the bits of its bytes.
testbit-from_le_bytes :
    (m : Bytes) (k : ℕ) → All (λ b. b < 256) m → testbit (from_le_bytes m) k ≡ bit m k
unfolding from_le_bytes
testbit-from_le_bytes [] k h = testbit-zero k ∙ sym (testbit-zero (k % 8))
testbit-from_le_bytes (b ∷ m) zero h = testbit_low 0 b (from_le_bytes m) (omega arith)
testbit-from_le_bytes (b ∷ m) (suc zero) h = testbit_low 1 b (from_le_bytes m) (omega arith)
testbit-from_le_bytes (b ∷ m) (suc (suc zero)) h = testbit_low 2 b (from_le_bytes m) (omega arith)
testbit-from_le_bytes (b ∷ m) (suc (suc (suc zero))) h =
    testbit_low 3 b (from_le_bytes m) (omega arith)
testbit-from_le_bytes (b ∷ m) (suc (suc (suc (suc zero)))) h =
    testbit_low 4 b (from_le_bytes m) (omega arith)
testbit-from_le_bytes (b ∷ m) (suc (suc (suc (suc (suc zero))))) h =
    testbit_low 5 b (from_le_bytes m) (omega arith)
testbit-from_le_bytes (b ∷ m) (suc (suc (suc (suc (suc (suc zero)))))) h =
    testbit_low 6 b (from_le_bytes m) (omega arith)
testbit-from_le_bytes (b ∷ m) (suc (suc (suc (suc (suc (suc (suc zero))))))) h =
    testbit_low 7 b (from_le_bytes m) (omega arith)
testbit-from_le_bytes (b ∷ m) (suc (suc (suc (suc (suc (suc (suc (suc k)))))))) h =
    let next : (suc (suc (suc (suc (suc (suc (suc (suc k)))))))) / 8 ≡ suc (k / 8) = omega arith in
    let same : (suc (suc (suc (suc (suc (suc (suc (suc k)))))))) % 8 ≡ k % 8 = omega arith in
    rw (next, same) (testbit_high k b (from_le_bytes m) h.0 ∙ testbit-from_le_bytes m k h.1)

pub testbit-read_u64 :
    (m : Bytes) (w k : ℕ) → IsMask m → k < 64 → testbit (read_u64 m w) k ≡ bit m (64 * w + k)
unfolding read_u64
testbit-read_u64 m w k v h =
    let byte : (64 * w + k) / 8 ≡ 8 * w + k / 8 = omega arith in
    let place : (64 * w + k) % 8 ≡ k % 8 = omega arith in
    testbit-from_le_bytes (take 8 (drop (8 * w) m)) k
      (All-take 8 (drop (8 * w) m) (All-drop (8 * w) m v.bytes))
    ∙ rw (byte, place)
        (ap (λ (t : ℕ). testbit t (k % 8))
          (get_or-take 8 (k / 8) (drop (8 * w) m) (omega arith) ∙ get_or-drop (8 * w) (k / 8) m))

-- Inclusion of one number in another, digit by digit.
pub bit_and-eq_iff : (s p : ℕ) → (bit_and s p ≡ s) ↔ ((k : ℕ) → testbit s k ≤ testbit p k)
bit_and-eq_iff s p = (
  λ h k. omega (arith, testbit-bit_and s p k, ap (λ (t : ℕ). testbit t k) h),
  λ h.
      eq_of_testbit (bit_and s p + s) (bit_and s p) s (omega arith) (omega arith)
        λ k. omega (arith, testbit-bit_and s p k, h k),
)

length-take : (n : ℕ) (m : Bytes) → length (take n m) ≤ n
length-take zero m = omega arith
length-take (suc n) [] = omega arith
length-take (suc n) (b ∷ m) = omega (arith, length-take n m)

-- A word has no bit beyond its 64.
pub testbit-read_u64_past : (m : Bytes) (w k : ℕ) → IsMask m → 64 ≤ k → testbit (read_u64 m w) k ≡ 0
unfolding read_u64
testbit-read_u64_past m w k v h =
    testbit-from_le_bytes (take 8 (drop (8 * w) m)) k
      (All-take 8 (drop (8 * w) m) (All-drop (8 * w) m v.bytes))
    ∙ ap (λ (t : ℕ). testbit t (k % 8))
        (get_or_past (take 8 (drop (8 * w) m)) (k / 8)
          (omega (arith, length-take 8 (drop (8 * w) m))))
    ∙ testbit-zero (k % 8)
