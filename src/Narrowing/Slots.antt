-- ===== src/Narrowing/Slots.antt =====
-- src/identity/narrowing.rs: `CapabilityRegistry`, which gives each name a bit of its own.
pub mod Exact
use dyolo_kya.Prelude.{
  ℕ, ◌+◌, ◌/◌, ◌%◌, leb, ◌==◌, nat_eq, Bool, if◌then◌else◌, replicate, List, [], ◌∷◌, ◌++◌, Option,
  some, none, Result, ok, err, ◌>>=◌, ok_or,
}
use dyolo_kya.Prelude.Bytes.{Bytes, text}
use dyolo_kya.Prelude.HashMap
use dyolo_kya.Prelude.HashMap.{HashMap}
use dyolo_kya.Error.{A1Error}
use dyolo_kya.Narrowing.{NarrowingMatrix, set_bit}

pub record CapabilityRegistry : Type 0 where
  pub slots : HashMap ℕ
  pub next : ℕ
  pub count : ℕ

unfoldable pub new : CapabilityRegistry
new = record { slots = []; next = 0; count = 0 }

unfoldable pub slot_of : CapabilityRegistry → Bytes → Option ℕ
slot_of reg name = HashMap.get name reg.slots

unfoldable pub len : CapabilityRegistry → ℕ
len reg = reg.count

unfoldable pub is_empty : CapabilityRegistry → Bool
is_empty reg = reg.count == 0

abbrev pub full_message : Bytes
full_message = text "CapabilityRegistry is full: maximum 256 capabilities per registry"

-- Behind the look-up of the name. `next` is a `u8` and wraps.
unfoldable pub register_at :
    Bytes → CapabilityRegistry → Option ℕ → Result A1Error ℕ × CapabilityRegistry
register_at name reg (some slot) = (ok slot, reg)
register_at name reg none =
    if leb 256 reg.count then (err (A1Error.wire_format_error full_message), reg) else (
      ok reg.next,
      record {
        slots = HashMap.insert name reg.next reg.slots;
        next = (reg.next + 1) % 256;
        count = reg.count + 1;
      },
    )

unfoldable pub register : Bytes → CapabilityRegistry → Result A1Error ℕ × CapabilityRegistry
register name reg = register_at name reg (HashMap.get name reg.slots)

-- The rest of the loop, unless the name is refused.
unfoldable pub and_then :
    Result A1Error ℕ × CapabilityRegistry
    → Result A1Error (Unit {0}) × CapabilityRegistry
    → Result A1Error (Unit {0}) × CapabilityRegistry
and_then (ok slot, reg) rest = rest
and_then (err e, reg) rest = (err e, reg)

unfoldable pub register_all :
    List Bytes → CapabilityRegistry → Result A1Error (Unit {0}) × CapabilityRegistry
register_all [] reg = (ok tt, reg)
register_all (name ∷ names) reg =
    and_then (register name reg) (register_all names (register name reg).1)

abbrev pub not_registered : Bytes → A1Error
not_registered name =
    A1Error.wire_format_error
      (text "capability '" ++ (name ++ text "' is not registered; call register() first"))

-- The loop of `build_mask`.
unfoldable pub mark : CapabilityRegistry → Bytes → List Bytes → Result A1Error Bytes
mark reg mask [] = ok mask
mark reg mask (cap ∷ caps) = do
  slot ← ok_or (HashMap.get cap reg.slots) (not_registered cap)
  mark reg (set_bit mask (slot / 8, slot % 8)) caps

unfoldable pub build_mask : CapabilityRegistry → List Bytes → Result A1Error NarrowingMatrix
build_mask reg caps = do mask ← mark reg (replicate 32 0) caps; ok (record { mask = mask })

-- The loop of `build_full_mask`.
unfoldable pub mark_slots : Bytes → HashMap ℕ → Bytes
mark_slots mask [] = mask
mark_slots mask ((name, slot) ∷ slots) = mark_slots (set_bit mask (slot / 8, slot % 8)) slots

unfoldable pub build_full_mask : CapabilityRegistry → NarrowingMatrix
build_full_mask reg = record { mask = mark_slots (replicate 32 0) reg.slots }
