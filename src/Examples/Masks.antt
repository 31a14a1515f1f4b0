-- ===== src/Examples/Masks.antt =====
-- Capability masks with a few bits.
use dyolo_kya.Prelude.{
  ℕ, zero, suc, ◌<◌, ◌≡◌, ◌↔◌, refl, true, false, replicate, All, In, [], ◌∷◌, ok, arith,
}
use dyolo_kya.Prelude.Bytes.{Bytes, from_le_bytes, bytes_beq}
use dyolo_kya.Prelude.HashMap
use dyolo_kya.Narrowing.{NarrowingMatrix, is_subset_of, word_is_subset, read_u64, set_bit}
use dyolo_kya.Narrowing.Words.{IsMask}
use dyolo_kya.Narrowing.Slots.{
  CapabilityRegistry, new, register, register_at, register_all, and_then, build_mask, mark,
}
use dyolo_kya.Narrowing.Slots.Exact.{
  IsValid, Registers, new-IsValid, register-IsValid, register_all-IsValid,
  is_subset_of-build_mask_iff,
}

abbrev mask_of : ℕ → NarrowingMatrix
mask_of byte = record { mask = byte ∷ replicate 31 0 }

zero_bytes : (n : ℕ) → All (λ b. b < 256) (replicate n 0)
zero_bytes zero = tt
zero_bytes (suc n) = (ground arith, zero_bytes n)

mask_of-IsMask : (byte : ℕ) → byte < 256 → IsMask (mask_of byte).mask
mask_of-IsMask byte h = record { size = refl; bytes = (h, zero_bytes 31) }

reads_within : is_subset_of (mask_of 5) (mask_of 7) ≡ true
unfolding is_subset_of word_is_subset read_u64 from_le_bytes
reads_within = refl

reads_beyond : is_subset_of (mask_of 5) (mask_of 3) ≡ false
unfolding is_subset_of word_is_subset read_u64 from_le_bytes
reads_beyond = refl

abbrev first : Bytes
first = 5 ∷ 1 ∷ []

abbrev second : Bytes
second = 6 ∷ 2 ∷ []

-- A registry of two names.
abbrev registry : CapabilityRegistry
registry = (register_all (first ∷ second ∷ []) new).1

registry-IsValid : IsValid registry
registry-IsValid = register_all-IsValid (first ∷ second ∷ []) new new-IsValid

register-IsValid_example : Registers (7 ∷ []) registry (register (7 ∷ []) registry)
register-IsValid_example = register-IsValid (7 ∷ []) registry registry-IsValid

-- The masks of one name and of both: bits 0 and 1.
abbrev mask_one : NarrowingMatrix
mask_one = mask_of 1

abbrev mask_both : NarrowingMatrix
mask_both = mask_of 3

one_built : build_mask registry (first ∷ []) ≡ ok mask_one
unfolding build_mask mark register_all and_then register register_at new HashMap.get HashMap.insert
    set_bit bytes_beq
one_built = refl

both_built : build_mask registry (second ∷ first ∷ []) ≡ ok mask_both
unfolding build_mask mark register_all and_then register register_at new HashMap.get HashMap.insert
    set_bit bytes_beq
both_built = refl

is_subset_of-build_mask_iff_example :
    (is_subset_of mask_one mask_both ≡ true)
    ↔ ((x : Bytes) → In x (first ∷ []) → In x (second ∷ first ∷ []))
is_subset_of-build_mask_iff_example =
    is_subset_of-build_mask_iff registry registry-IsValid (first ∷ []) (second ∷ first ∷ [])
      mask_one mask_both one_built both_built
