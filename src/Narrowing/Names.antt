-- ===== src/Narrowing/Names.antt =====
-- src/identity/narrowing.rs: the mask that `from_capabilities` builds, bit by bit.
use dyolo_kya.Prelude.{
  ℕ, zero, suc, ◌+◌, ◌*◌, ◌/◌, ◌%◌, ◌^◌, ◌≤◌, ◌<◌, bit_or, ◌≡◌, ◌≢◌, ◌↔◌, ◌⊎◌, inl, inr, refl, sym,
  ap, ◌∙◌, true, All, In, get_or, set, replicate, List, [], ◌∷◌, arith, length-set, get_or-set_self,
  get_or-set_ne,
}
use dyolo_kya.Prelude.Bytes.{Bytes}
use dyolo_kya.Prelude.Bits.{
  testbit-lt, testbit-zero, testbit-bit_or, testbit-pow_self, testbit-pow_ne, bit_or-lt,
}
use dyolo_kya.Crypto.{Crypto}
use dyolo_kya.Narrowing.{
  NarrowingMatrix, set_bit, capability_to_bit, set_capabilities, from_capabilities, is_subset_of,
}
use dyolo_kya.Narrowing.Words.{IsMask, bit}
use dyolo_kya.Narrowing.Subset.{is_subset_of_iff}
use native.Mathlib.Decide.{ℕ_discrete}

-- The number of a position in the mask.
abbrev pub index : ℕ × ℕ → ℕ
index (byte, k) = 8 * byte + k

abbrev pub InMask : ℕ × ℕ → Type 0
InMask (byte, k) = (byte < 32) × (k < 8)

pow_lt : (k : ℕ) → k < 8 → 2 ^ k < 256
pow_lt zero h = ground arith
pow_lt (suc zero) h = ground arith
pow_lt (suc (suc zero)) h = ground arith
pow_lt (suc (suc (suc zero))) h = ground arith
pow_lt (suc (suc (suc (suc zero)))) h = ground arith
pow_lt (suc (suc (suc (suc (suc zero))))) h = ground arith
pow_lt (suc (suc (suc (suc (suc (suc zero)))))) h = ground arith
pow_lt (suc (suc (suc (suc (suc (suc (suc zero))))))) h = ground arith
pow_lt (suc (suc (suc (suc (suc (suc (suc (suc k)))))))) h = absurd (omega arith)

All-set : (m : Bytes) (i v : ℕ) → All (λ b. b < 256) m → v < 256 → All (λ b. b < 256) (set m i v)
All-set [] i v h l = tt
All-set (b ∷ m) zero v h l = (l, h.1)
All-set (b ∷ m) (suc i) v h l = (h.0, All-set m i v h.1 l)

get_or_lt : (m : Bytes) (i : ℕ) → All (λ b. b < 256) m → get_or m i 0 < 256
get_or_lt [] i h = ground arith
get_or_lt (b ∷ m) zero h = h.0
get_or_lt (b ∷ m) (suc i) h = get_or_lt m i h.1

pub set_bit-IsMask : (m : Bytes) (q : ℕ × ℕ) → IsMask m → InMask q → IsMask (set_bit m q)
unfolding set_bit
set_bit-IsMask m (byte, k) v h = record {
  size = length-set m byte _ ∙ v.size;
  bytes =
      All-set m byte _ v.bytes
        (bit_or-lt 8 (get_or m byte 0) (2 ^ k) (get_or_lt m byte v.bytes) (pow_lt k h.1));
}

All-zeros : (n : ℕ) → All (λ b. b < 256) (replicate n 0)
All-zeros zero = tt
All-zeros (suc n) = (ground arith, All-zeros n)

pub zeros-IsMask : IsMask (replicate 32 0)
zeros-IsMask = record { size = refl; bytes = All-zeros 32 }

get_or_zeros : (n i : ℕ) → get_or {A = ℕ} (replicate n 0) i 0 ≡ 0
get_or_zeros zero i = refl
get_or_zeros (suc n) zero = refl
get_or_zeros (suc n) (suc i) = get_or_zeros n i

pub bit_zeros : (i : ℕ) → bit (replicate 32 0) i ≡ 0
bit_zeros i = rw (get_or_zeros 32 (i / 8)) (testbit-zero (i % 8))

bit-set_bit_self : (m : Bytes) (q : ℕ × ℕ) → IsMask m → InMask q → bit (set_bit m q) (index q) ≡ 1
unfolding set_bit
bit-set_bit_self m (byte, k) v h =
    let place : (8 * byte + k) / 8 ≡ byte = omega (arith, h) in
    let digit : (8 * byte + k) % 8 ≡ k = omega (arith, h) in
    rw
      (
        place,
        digit,
        get_or-set_self m byte (bit_or (get_or m byte 0) (2 ^ k)) 0 (omega (arith, v.size, h.0)),
      )
      (omega (
        arith,
        testbit-bit_or (get_or m byte 0) (2 ^ k) k,
        testbit-pow_self k,
        testbit-lt (get_or m byte 0) k,
      ))

bit-set_bit_ne :
    (m : Bytes) (q : ℕ × ℕ) (i : ℕ)
    → IsMask m
    → InMask q
    → i ≢ index q
    → bit (set_bit m q) i ≡ bit m i
unfolding set_bit
bit-set_bit_ne m (byte, k) i v h ne = elim (ℕ_discrete byte (i / 8)) [
  | no n ↦ rw (get_or-set_ne m byte (i / 8) (bit_or (get_or m byte 0) (2 ^ k)) 0 n) refl
  | yes e ↦
      let other : k ≢ i % 8 = λ d. ne (omega (arith, e, d)) in
      rw
        (
          ← e,
          get_or-set_self m byte (bit_or (get_or m byte 0) (2 ^ k)) 0 (omega (arith, v.size, h.0)),
        )
        (omega (
          arith,
          testbit-bit_or (get_or m byte 0) (2 ^ k) (i % 8),
          testbit-pow_ne k (i % 8) other,
          testbit-lt (get_or m byte 0) (i % 8),
        ))
]

-- `set_bit` adds its bit and no other.
pub bit-set_bit_iff :
    (m : Bytes) (q : ℕ × ℕ) (i : ℕ)
    → IsMask m
    → InMask q
    → (bit (set_bit m q) i ≡ 1) ↔ ((i ≡ index q) ⊎ (bit m i ≡ 1))
bit-set_bit_iff m q i v h = elim (ℕ_discrete i (index q)) [
  | yes e ↦ (λ s. inl e, λ s. rw e (bit-set_bit_self m q v h))
  | no n ↦ (
    λ s. inr (sym (bit-set_bit_ne m q i v h n) ∙ s),
    λ s. elim s [ inl e ↦ absurd (n e) | inr b ↦ bit-set_bit_ne m q i v h n ∙ b ],
  )
]

-- Of masks whose bits are known, the subset test in terms of what the bits say.
pub is_subset_of_known :
    (m n : NarrowingMatrix) (P Q : ℕ → Type 0)
    → IsMask m.mask
    → IsMask n.mask
    → ((i : ℕ) → (bit m.mask i ≡ 1) ↔ P i)
    → ((i : ℕ) → (bit n.mask i ≡ 1) ↔ Q i)
    → (is_subset_of m n ≡ true) ↔ ((i : ℕ) → P i → Q i)
is_subset_of_known m n P Q vm vn hm hn =
    let iff = is_subset_of_iff m n vm vn in
    (
      λ h i p.
          (hn i).0
            (omega (arith, iff.0 h i, (hm i).1 p, testbit-lt (get_or n.mask (i / 8) 0) (i % 8))),
      λ h. iff.1 λ i. below i (h i),
    )
  where
    below : (i : ℕ) → (P i → Q i) → bit m.mask i ≤ bit n.mask i
    below i f = elim (ℕ_discrete (bit m.mask i) 1) [
      | yes e ↦ omega (arith, e, (hn i).1 (f ((hm i).0 e)))
      | no ne ↦ omega (arith, testbit-lt (get_or m.mask (i / 8) 0) (i % 8))
    ]

module _ (c : Crypto) where
  -- The bit of a capability's name.
  abbrev pub place : Bytes → ℕ
  place name = index (capability_to_bit c name)

  pub capability_to_bit-InMask : (name : Bytes) → InMask (capability_to_bit c name)
  unfolding capability_to_bit
  capability_to_bit-InMask name = (omega arith, omega arith)

  -- The bit of some name of the list.
  abbrev pub IsPlace : List Bytes → ℕ → Type 0
  IsPlace caps i = (name : Bytes) × In name caps × (i ≡ place name)

  set_capabilities-IsMask :
      (m : Bytes) (caps : List Bytes) → IsMask m → IsMask (set_capabilities c m caps)
  unfolding set_capabilities
  set_capabilities-IsMask m [] v = v
  set_capabilities-IsMask m (cap ∷ caps) v =
      set_capabilities-IsMask (set_bit m (capability_to_bit c cap)) caps
        (set_bit-IsMask m (capability_to_bit c cap) v (capability_to_bit-InMask cap))

  bit-set_capabilities_iff :
      (m : Bytes) (caps : List Bytes) (i : ℕ)
      → IsMask m
      → (bit (set_capabilities c m caps) i ≡ 1) ↔ (IsPlace caps i ⊎ (bit m i ≡ 1))
  unfolding set_capabilities
  bit-set_capabilities_iff m [] i v = (inr, λ s. elim s [ inl p ↦ absurd p.1 | inr b ↦ b ])
  bit-set_capabilities_iff m (cap ∷ caps) i v =
      let q = capability_to_bit c cap in
      let fits = capability_to_bit-InMask cap in
      let rest = bit-set_capabilities_iff (set_bit m q) caps i (set_bit-IsMask m q v fits) in
      let one = bit-set_bit_iff m q i v fits in
      (
        λ s. elim (rest.0 s) [
          | inl p ↦ inl (p.0, inr p.1, p.2)
          | inr b ↦ elim (one.0 b) [ inl e ↦ inl (cap, inl refl, e) | inr b' ↦ inr b' ]
        ],
        λ s. rest.1 (elim s [
          | inl (name, inl e, at) ↦ inr (one.1 (inl (at ∙ ap place e)))
          | inl (name, inr m', at) ↦ inl (name, m', at)
          | inr b ↦ inr (one.1 (inr b))
        ]),
      )

  pub from_capabilities-IsMask : (caps : List Bytes) → IsMask (from_capabilities c caps).mask
  unfolding from_capabilities
  from_capabilities-IsMask caps = set_capabilities-IsMask (replicate 32 0) caps zeros-IsMask

  pub bit-from_capabilities_iff :
      (caps : List Bytes) (i : ℕ) → (bit (from_capabilities c caps).mask i ≡ 1) ↔ IsPlace caps i
  unfolding from_capabilities
  bit-from_capabilities_iff caps i =
      let iff = bit-set_capabilities_iff (replicate 32 0) caps i zeros-IsMask in
      (
        λ h. elim (iff.0 h) [ inl p ↦ p | inr b ↦ absurd (omega (arith, bit_zeros i)) ],
        λ p. iff.1 (inl p),
      )

  -- A mask built of one list of names is a subset of the mask of another exactly if the bit of
  -- each name of the first list is the bit of some name of the second; names may share a bit.
  pub is_subset_of-from_capabilities_iff :
      (xs ys : List Bytes)
      → (is_subset_of (from_capabilities c xs) (from_capabilities c ys) ≡ true)
        ↔ ((x : Bytes) → In x xs → (y : Bytes) × In y ys × (place x ≡ place y))
  is_subset_of-from_capabilities_iff xs ys =
      let iff =
        is_subset_of_known (from_capabilities c xs) (from_capabilities c ys) (IsPlace xs)
          (IsPlace ys) (from_capabilities-IsMask xs) (from_capabilities-IsMask ys)
          (bit-from_capabilities_iff xs) (bit-from_capabilities_iff ys) in
      (
        λ h x m. iff.0 h (place x) (x, m, refl),
        λ h. iff.1 λ i p. let (y, m, e) = h p.0 p.1 in (y, m, p.2 ∙ e),
      )
