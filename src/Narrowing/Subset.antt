-- ===== src/Narrowing/Subset.antt =====
-- src/identity/narrowing.rs: `is_subset_of` compares four words; it decides inclusion bit by bit.
use dyolo_kya.Prelude.{
  ℕ, zero, suc, ◌+◌, ◌*◌, ◌/◌, ◌%◌, ◌≤◌, ◌<◌, min, ◌≡◌, ◌↔◌, refl, ap, subst, ◌∙◌, true, all, All,
  length, get_or, [], ◌∷◌, arith, Bool-cases, ltb, inl, inr,
}
use dyolo_kya.Prelude.Bytes.{Bytes}
use dyolo_kya.Prelude.Bits.{testbit, testbit-zero, testbit-bit_and, bit_and-le}
use dyolo_kya.Narrowing.Words.{
  IsMask, bit, testbit-read_u64, testbit-read_u64_past, bit_and-eq_iff, get_or_past,
}
use dyolo_kya.Narrowing.{
  NarrowingMatrix, read_u64, word_is_subset, is_subset_of, intersect, intersect_bytes,
}

module _ (s p : Bytes) (vs : IsMask s) (vp : IsMask p) where
  word_iff :
      (w : ℕ)
      → (word_is_subset s p w ≡ true) ↔ ((k : ℕ) → k < 64 → bit s (64 * w + k) ≤ bit p (64 * w + k))
  unfolding word_is_subset
  word_iff w =
      let iff = bit_and-eq_iff (read_u64 s w) (read_u64 p w) in
      (
        λ h k l. omega (
          arith,
          testbit-read_u64 s w k vs l,
          testbit-read_u64 p w k vp l,
          iff.0 (ground (arith, h)) k,
        ),
        λ h. ground (arith, iff.1 λ k. below h k),
      )
    where
      below :
          ((k : ℕ) → k < 64 → bit s (64 * w + k) ≤ bit p (64 * w + k))
          → (k : ℕ) → testbit (read_u64 s w) k ≤ testbit (read_u64 p w) k
      below h k = elim (Bool-cases (ltb k 64)) [
        | inl l ↦ omega (
          arith,
          testbit-read_u64 s w k vs (ground (arith, l)),
          testbit-read_u64 p w k vp (ground (arith, l)),
          h k (ground (arith, l)),
        )
        | inr g ↦ omega (arith, testbit-read_u64_past s w k vs (ground (arith, g)))
      ]

  four_words :
      (all (word_is_subset s p) (0 ∷ 1 ∷ 2 ∷ 3 ∷ []) ≡ true)
      ↔ ((w : ℕ) → w < 4 → word_is_subset s p w ≡ true)
  four_words = (
    λ h w l. each w l h,
    λ h. ground (arith, h 0 (omega arith), h 1 (omega arith), h 2 (omega arith), h 3 (omega arith)),
  )
    where
      each :
          (w : ℕ)
          → w < 4
          → all (word_is_subset s p) (0 ∷ 1 ∷ 2 ∷ 3 ∷ []) ≡ true
          → word_is_subset s p w ≡ true
      each zero l h = ground (arith, h)
      each (suc zero) l h = ground (arith, h)
      each (suc (suc zero)) l h = ground (arith, h)
      each (suc (suc (suc zero))) l h = ground (arith, h)
      each (suc (suc (suc (suc w)))) l h = absurd (omega arith)

  subset_bits :
      (all (word_is_subset s p) (0 ∷ 1 ∷ 2 ∷ 3 ∷ []) ≡ true) ↔ ((i : ℕ) → bit s i ≤ bit p i)
  subset_bits = (λ h i. within h i, λ h. four_words.1 λ w l. (word_iff w).1 λ k m. h (64 * w + k))
    where
      within : all (word_is_subset s p) (0 ∷ 1 ∷ 2 ∷ 3 ∷ []) ≡ true → (i : ℕ) → bit s i ≤ bit p i
      within h i = elim (Bool-cases (ltb i 256)) [
        | inl l ↦
            let below : i < 256 = ground (arith, l) in
            let split : 64 * (i / 64) + i % 64 ≡ i = omega arith in
            subst (λ j. bit s j ≤ bit p j) split
              ((word_iff (i / 64)).0 (four_words.0 h (i / 64) (omega arith)) (i % 64) (omega arith))
        | inr g ↦
            let past : 256 ≤ i = ground (arith, g) in
            rw (get_or_past s (i / 8) (omega (arith, vs.size)))
              (omega (arith, testbit-zero (i % 8)))
      ]

-- Of two masks, `is_subset_of` holds exactly if every bit of the first is a bit of the second.
pub is_subset_of_iff :
    (m parent : NarrowingMatrix)
    → IsMask m.mask
    → IsMask parent.mask
    → (is_subset_of m parent ≡ true) ↔ ((i : ℕ) → bit m.mask i ≤ bit parent.mask i)
unfolding is_subset_of
is_subset_of_iff m parent vm vp = subset_bits m.mask parent.mask vm vp

bit-intersect_bytes :
    (x y : Bytes) (i j : ℕ)
    → length x ≡ length y
    → testbit (get_or (intersect_bytes x y) j 0) i
      ≡ min (testbit (get_or x j 0) i) (testbit (get_or y j 0) i)
unfolding intersect_bytes
bit-intersect_bytes [] [] i j e = omega (arith, testbit-zero i)
bit-intersect_bytes [] (b ∷ y) i j e = absurd (omega arith)
bit-intersect_bytes (a ∷ x) [] i j e = absurd (omega arith)
bit-intersect_bytes (a ∷ x) (b ∷ y) i zero e = testbit-bit_and a b i
bit-intersect_bytes (a ∷ x) (b ∷ y) i (suc j) e = bit-intersect_bytes x y i j (omega arith)

length-intersect_bytes :
    (x y : Bytes) → length x ≡ length y → length (intersect_bytes x y) ≡ length x
unfolding intersect_bytes
length-intersect_bytes [] y e = refl
length-intersect_bytes (a ∷ x) [] e = absurd (omega arith)
length-intersect_bytes (a ∷ x) (b ∷ y) e = ap suc (length-intersect_bytes x y (omega arith))

All-intersect_bytes :
    (x y : Bytes) → All (λ b. b < 256) x → All (λ b. b < 256) (intersect_bytes x y)
unfolding intersect_bytes
All-intersect_bytes [] y h = tt
All-intersect_bytes (a ∷ x) [] h = tt
All-intersect_bytes (a ∷ x) (b ∷ y) h =
    (omega (arith, bit_and-le a a b (omega arith), h.0), All-intersect_bytes x y h.1)

pub intersect-IsMask :
    (m n : NarrowingMatrix) → IsMask m.mask → IsMask n.mask → IsMask (intersect m n).mask
unfolding intersect
intersect-IsMask m n vm vn = record {
  size = length-intersect_bytes m.mask n.mask (omega (arith, vm.size, vn.size)) ∙ vm.size;
  bytes = All-intersect_bytes m.mask n.mask vm.bytes;
}

bit-intersect :
    (m n : NarrowingMatrix) (i : ℕ)
    → IsMask m.mask
    → IsMask n.mask
    → bit (intersect m n).mask i ≡ min (bit m.mask i) (bit n.mask i)
unfolding intersect
bit-intersect m n i vm vn =
    bit-intersect_bytes m.mask n.mask (i % 8) (i / 8) (omega (arith, vm.size, vn.size))

-- The intersection of two masks is the largest mask that is a subset of both: a mask is a subset of
-- the intersection exactly if it is a subset of each.
is_subset_of-intersect_iff :
    (q m n : NarrowingMatrix)
    → IsMask q.mask
    → IsMask m.mask
    → IsMask n.mask
    → (is_subset_of q (intersect m n) ≡ true)
      ↔ ((is_subset_of q m ≡ true) × (is_subset_of q n ≡ true))
is_subset_of-intersect_iff q m n vq vm vn =
    let both = is_subset_of_iff q (intersect m n) vq (intersect-IsMask m n vm vn) in
    let left = is_subset_of_iff q m vq vm in
    let right = is_subset_of_iff q n vq vn in
    let meet = λ (i : ℕ). bit-intersect m n i vm vn in
    (
      λ h. (
        left.1 λ i. omega (arith, both.0 h i, meet i),
        right.1 λ i. omega (arith, both.0 h i, meet i),
      ),
      λ h. both.1 λ i. omega (arith, left.0 h.0 i, right.0 h.1 i, meet i),
    )
