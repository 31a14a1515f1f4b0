-- ===== src/Narrowing.antt =====
-- src/identity/narrowing.rs: the 256-bit capability mask, 32 bytes of eight bits, and the registry that
-- gives each capability name a bit of its own.
pub mod Words
pub mod Subset
pub mod Names
pub mod Slots
use dyolo_kya.Prelude.{
  ℕ, ◌+◌, ◌*◌, ◌/◌, ◌%◌, ◌^◌, bit_and, bit_or, Bool, true, false, ◌&&◌, leb, ◌==◌, nat_eq,
  if◌then◌else◌, all, get_or, set, length, not, ok_or, take, drop, replicate, List, [], ◌∷◌, ◌++◌,
  Option, some, none, Result, ok, err, ◌>>=◌,
}
use dyolo_kya.Prelude.Bytes.{Bytes, text, from_le_bytes}
use dyolo_kya.Error.{A1Error}
use dyolo_kya.Crypto.{Crypto, Hex}

pub record NarrowingMatrix : Type 0 where
  pub mask : Bytes

abbrev pub empty : NarrowingMatrix
empty = record { mask = replicate 32 0 }

abbrev pub full : NarrowingMatrix
full = record { mask = replicate 32 255 }

abbrev domain : Bytes
domain = text "a1::dyolo::narrowing::v2.8.0"

-- `mask[byte] |= 1 << bit`.
unfoldable pub set_bit : Bytes → ℕ × ℕ → Bytes
set_bit mask (byte, bit) = set mask byte (bit_or (get_or mask byte 0) (2 ^ bit))

module _ (c : Crypto) where
  unfoldable pub capability_to_bit : Bytes → ℕ × ℕ
  capability_to_bit name =
      let out = c.derive domain name in (get_or out 0 0 % 32, get_or out 1 0 % 8)

  unfoldable pub set_capabilities : Bytes → List Bytes → Bytes
  set_capabilities mask [] = mask
  set_capabilities mask (cap ∷ caps) = set_capabilities (set_bit mask (capability_to_bit cap)) caps

  unfoldable pub from_capabilities : List Bytes → NarrowingMatrix
  from_capabilities caps = record { mask = set_capabilities (replicate 32 0) caps }

  unfoldable pub commitment : NarrowingMatrix → Bytes
  commitment m = c.derive domain m.mask

-- The little-endian `u64` at bytes `8 * i .. 8 * i + 8`.
unfoldable pub read_u64 : Bytes → ℕ → ℕ
read_u64 mask i = from_le_bytes (take 8 (drop (8 * i) mask))

unfoldable pub word_is_subset : Bytes → Bytes → ℕ → Bool
word_is_subset sub parent i = bit_and (read_u64 sub i) (read_u64 parent i) == read_u64 sub i

unfoldable pub is_subset_of : NarrowingMatrix → NarrowingMatrix → Bool
is_subset_of m parent = all (word_is_subset m.mask parent.mask) (0 ∷ 1 ∷ 2 ∷ 3 ∷ [])

unfoldable pub enforce_narrowing : NarrowingMatrix → NarrowingMatrix → Result A1Error (Unit {0})
enforce_narrowing m parent =
    if is_subset_of m parent then ok tt else err A1Error.passport_narrowing_violation

-- Both masks have 32 bytes.
unfoldable pub intersect_bytes : Bytes → Bytes → Bytes
intersect_bytes (x ∷ xs) (y ∷ ys) = bit_and x y ∷ intersect_bytes xs ys
intersect_bytes _ _ = []

unfoldable pub intersect : NarrowingMatrix → NarrowingMatrix → NarrowingMatrix
intersect m other = record { mask = intersect_bytes m.mask other.mask }

unfoldable pub is_empty : NarrowingMatrix → Bool
is_empty m = all (λ b. b == 0) m.mask

-- `to_hex` and `from_hex`.
unfoldable pub to_hex : Hex → NarrowingMatrix → Bytes
to_hex h m = h.encode m.mask

-- A byte string that is long enough.
unfoldable pub of_bytes : Bytes → Result A1Error NarrowingMatrix
of_bytes b =
    if not (length b == 32)
    then err (A1Error.wire_format_error (text "narrowing matrix must be exactly 32 bytes"))
    else ok (record { mask = b })

unfoldable pub from_hex : Hex → Bytes → Result A1Error NarrowingMatrix
from_hex h s = do
  b ← ok_or (h.decode s) (A1Error.wire_format_error (text "invalid narrowing matrix hex"))
  of_bytes b
