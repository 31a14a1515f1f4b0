-- ===== src/Narrowing/Slots/Exact.antt =====
-- src/identity/narrowing.rs: no two names of a registry share a bit, so that its masks are exact.
use dyolo_kya.Prelude.{
  ℕ, ◌+◌, ◌/◌, ◌%◌, ◌≤◌, ◌<◌, ◌≡◌, ◌↔◌, ◌⊎◌, inl, inr, refl, sym, ap, subst, ◌∙◌, true, false, leb,
  In, replicate, List, [], ◌∷◌, Option, some, none, Result, ok, err, is_ok, ok_injective, arith,
  Option-cases, Bool-cases, Result-cases,
}
use dyolo_kya.Prelude.Bytes.{Bytes, bytes_eq, bytes_beq_iff}
use dyolo_kya.Prelude.HashMap
use dyolo_kya.Prelude.HashMap.{get-insert}
use dyolo_kya.Error.{A1Error}
use dyolo_kya.Narrowing.{NarrowingMatrix, set_bit, is_subset_of}
use dyolo_kya.Narrowing.Words.{IsMask, bit}
use dyolo_kya.Narrowing.Names.{
  index, InMask, zeros-IsMask, bit_zeros, set_bit-IsMask, bit-set_bit_iff, is_subset_of_known,
}
use dyolo_kya.Narrowing.Slots.{
  CapabilityRegistry, new, slot_of, register_at, register, and_then, register_all, mark, build_mask,
}

-- Slots are given out in order, each to one name, and the registry has no more than 256.
pub record IsValid (reg : CapabilityRegistry) : Type 0 where
  pub bounded : reg.count ≤ 256
  pub wrapped : reg.next ≡ reg.count % 256
  pub below : (name : Bytes) (s : ℕ) → HashMap.get name reg.slots ≡ some s → s < reg.count
  pub apart :
      (x y : Bytes) (s : ℕ)
      → HashMap.get x reg.slots ≡ some s
      → HashMap.get y reg.slots ≡ some s
      → x ≡ y

pub new-IsValid : IsValid new
unfolding new HashMap.get
new-IsValid = record {
  bounded = ground arith;
  wrapped = refl;
  below = λ name s h. cc h;
  apart = λ x y s h. cc h;
}

-- The registry with one more name.
with_name : Bytes → CapabilityRegistry → CapabilityRegistry
with_name name reg = record {
  slots = HashMap.insert name reg.next reg.slots;
  next = (reg.next + 1) % 256;
  count = reg.count + 1;
}

with_name-IsValid :
    (name : Bytes) (reg : CapabilityRegistry)
    → HashMap.get name reg.slots ≡ none
    → leb 256 reg.count ≡ false
    → IsValid reg
    → IsValid (with_name name reg)
unfolding with_name
with_name-IsValid name reg fresh room v =
    let next : reg.next ≡ reg.count = ground (arith, v.wrapped) in
    record {
      bounded = ground arith;
      wrapped = ground (arith, next);
      below = λ x s h.
          let was = v.below x s in ground (arith, next, get-insert name x reg.next reg.slots, was);
      apart = λ x y s hx hy.
          let was = v.apart x y s in
          ground (
            arith,
            next,
            get-insert name x reg.next reg.slots,
            get-insert name y reg.next reg.slots,
            bytes_beq_iff name x,
            bytes_beq_iff name y,
            v.below x s,
            v.below y s,
            was,
          );
    }

-- What a registration of `name` does to a valid registry.
abbrev pub Registers : Bytes → CapabilityRegistry → Result A1Error ℕ × CapabilityRegistry → Type 0
Registers name reg (r, after) =
    IsValid after
    × ((x : Bytes) (s : ℕ) → slot_of reg x ≡ some s → slot_of after x ≡ some s)
    × ((s : ℕ) → r ≡ ok s → slot_of after name ≡ some s)
    × ((is_ok r ≡ false) ↔ ((slot_of reg name ≡ none) × (reg.count ≡ 256)))

register_at-IsValid :
    (name : Bytes) (reg : CapabilityRegistry) (found : Option ℕ)
    → HashMap.get name reg.slots ≡ found
    → IsValid reg
    → Registers name reg (register_at name reg found)
unfolding register_at slot_of with_name
register_at-IsValid name reg (some slot) h v =
    (v, λ x s k. k, λ s k. ground (arith, h, k), (λ k. cc, λ k. cc (h, k.0)))
register_at-IsValid name reg none h v = elim (Bool-cases (leb 256 reg.count)) [
  | inl full ↦
      rw full (v, λ x s k. k, λ s k. cc k, (λ k. (h, ground (arith, full, v.bounded)), λ k. refl))
  | inr room ↦ rw room (
    with_name-IsValid name reg h room v,
    λ x s k. ground (arith, get-insert name x reg.next reg.slots, bytes_beq_iff name x, k, h),
    λ s k. ground (arith, get-insert name name reg.next reg.slots, bytes_beq_iff name name, k),
    (λ k. cc, λ k. absurd (ground (arith, room, k.1))),
  )
]

-- A registration keeps the registry valid: slots are below the count, which is at most 256, and no
-- two names share one. Every name keeps its slot, the slot that is returned is the name's, and
-- the registration fails exactly if the name is new and the registry holds 256 names.
pub register-IsValid :
    (name : Bytes) (reg : CapabilityRegistry) → IsValid reg → Registers name reg (register name reg)
unfolding register
register-IsValid name reg v = register_at-IsValid name reg (HashMap.get name reg.slots) refl v

and_then-IsValid :
    (first : Result A1Error ℕ × CapabilityRegistry)
    (rest : Result A1Error (Unit {0}) × CapabilityRegistry)
    → IsValid first.1
    → IsValid rest.1
    → IsValid (and_then first rest).1
unfolding and_then
and_then-IsValid (ok s, reg) rest v w = w
and_then-IsValid (err e, reg) rest v w = v

pub register_all-IsValid :
    (names : List Bytes) (reg : CapabilityRegistry)
    → IsValid reg
    → IsValid (register_all names reg).1
unfolding register_all
register_all-IsValid [] reg v = v
register_all-IsValid (name ∷ names) reg v =
    let one = (register-IsValid name reg v).0 in
    and_then-IsValid (register name reg) (register_all names (register name reg).1) one
      (register_all-IsValid names (register name reg).1 one)

module _ (reg : CapabilityRegistry) (v : IsValid reg) where
  -- The slot of some name of the list.
  abbrev IsSlot : List Bytes → ℕ → Type 0
  IsSlot caps i = (name : Bytes) × In name caps × (HashMap.get name reg.slots ≡ some i)

  slot-InMask : (name : Bytes) (s : ℕ) → HashMap.get name reg.slots ≡ some s → InMask (s / 8, s % 8)
  slot-InMask name s h = (omega (arith, v.below name s h, v.bounded), omega arith)

  mark-IsMask :
      (m out : Bytes) (caps : List Bytes)
      → IsMask m
      → mark reg m caps ≡ ok out
      → IsMask out × ((i : ℕ) → (bit out i ≡ 1) ↔ (IsSlot caps i ⊎ (bit m i ≡ 1)))
  unfolding mark
  mark-IsMask m out [] w h =
      let same : m ≡ out = ok_injective m out h in
      rw (← same) (w, λ i. (inr, λ s. elim s [ inl p ↦ absurd p.1 | inr b ↦ b ]))
  mark-IsMask m out (cap ∷ caps) w h = elim (Option-cases (HashMap.get cap reg.slots)) [
    | inl missing ↦ absurd (ground (arith, missing))
    | inr (s, found) ↦
        let fits = slot-InMask cap s found in
        let next = set_bit-IsMask m (s / 8, s % 8) w fits in
        let rest = mark-IsMask (set_bit m (s / 8, s % 8)) out caps next (ground (arith, found)) in
        (
          rest.0,
          λ i.
              marked cap caps s m out i found (bit-set_bit_iff m (s / 8, s % 8) i w fits)
                (rest.1 i),
        )
  ]
    where
      marked :
          (cap : Bytes) (caps : List Bytes) (s : ℕ) (m out : Bytes) (i : ℕ)
          → HashMap.get cap reg.slots ≡ some s
          → (bit (set_bit m (s / 8, s % 8)) i ≡ 1) ↔ ((i ≡ index (s / 8, s % 8)) ⊎ (bit m i ≡ 1))
          → (bit out i ≡ 1) ↔ (IsSlot caps i ⊎ (bit (set_bit m (s / 8, s % 8)) i ≡ 1))
          → (bit out i ≡ 1) ↔ (IsSlot (cap ∷ caps) i ⊎ (bit m i ≡ 1))
      marked cap caps s m out i found one rest =
          let whole : index (s / 8, s % 8) ≡ s = omega arith in
          (
            λ b. elim (rest.0 b) [
              | inl p ↦ inl (p.0, inr p.1, p.2)
              | inr b' ↦ elim (one.0 b') [
                | inl e ↦ inl (cap, inl refl, found ∙ ap some (sym (e ∙ whole)))
                | inr b'' ↦ inr b''
              ]
            ],
            λ t. rest.1 (elim t [
              | inl (name, inl e, at) ↦ inr (one.1 (inl (ground (arith, found, at, e, whole))))
              | inl (name, inr n, at) ↦ inl (name, n, at)
              | inr b ↦ inr (one.1 (inr b))
            ]),
          )

  mark-found :
      (m out : Bytes) (caps : List Bytes)
      → mark reg m caps ≡ ok out
      → (x : Bytes) → In x caps
      → (s : ℕ) × (HashMap.get x reg.slots ≡ some s)
  unfolding mark
  mark-found m out [] h x n = absurd n
  mark-found m out (cap ∷ caps) h x n = elim (Option-cases (HashMap.get cap reg.slots)) [
    | inl missing ↦ absurd (ground (arith, missing))
    | inr (s, found) ↦ elim n [
      | inl e ↦ (s, rw e found)
      | inr k ↦ mark-found (set_bit m (s / 8, s % 8)) out caps (ground (arith, found)) x k
    ]
  ]

  record Built (caps : List Bytes) (m : NarrowingMatrix) : Type 0 where
    mask : IsMask m.mask
    bits : (i : ℕ) → (bit m.mask i ≡ 1) ↔ IsSlot caps i
    found : (x : Bytes) → In x caps → (s : ℕ) × (HashMap.get x reg.slots ≡ some s)

  built : (caps : List Bytes) (m : NarrowingMatrix) → build_mask reg caps ≡ ok m → Built caps m
  unfolding build_mask
  built caps m h = elim (Result-cases (mark reg (replicate 32 0) caps)) [
    | inr (e, q) ↦ absurd (ground (arith, q))
    | inl (out, q) ↦
        let same : m ≡ record { mask = out } = ground (arith, q) in
        let marked = mark-IsMask (replicate 32 0) out caps zeros-IsMask q in
        rw same (record {
          mask = marked.0;
          bits = λ i. (
            λ b. elim ((marked.1 i).0 b) [
              | inl p ↦ p
              | inr z ↦ absurd (omega (arith, bit_zeros i))
            ],
            λ p. (marked.1 i).1 (inl p),
          );
          found = mark-found (replicate 32 0) out caps q;
        })
  ]

  -- Of two masks that a valid registry builds, the first is a subset of the second exactly if
  -- every name of the first list is a name of the second.
  pub is_subset_of-build_mask_iff :
      (xs ys : List Bytes) (m n : NarrowingMatrix)
      → build_mask reg xs ≡ ok m
      → build_mask reg ys ≡ ok n
      → (is_subset_of m n ≡ true) ↔ ((x : Bytes) → In x xs → In x ys)
  is_subset_of-build_mask_iff xs ys m n hm hn =
      let bm = built xs m hm in
      let bn = built ys n hn in
      let iff = is_subset_of_known m n (IsSlot xs) (IsSlot ys) bm.mask bn.mask bm.bits bn.bits in
      (
        λ h x k.
            let (s, slot) = bm.found x k in
            let (y, member, other) = iff.0 h s (x, k, slot) in
            subst (λ z. In z ys) (v.apart y x s other slot) member,
        λ h. iff.1 λ i p. (p.0, h p.0 p.1, p.2),
      )
