-- ===== src/Extensions/Bounds.antt =====
-- src/cert_extensions.rs: what `set_checked` keeps.
use dyolo_kya.Prelude.{
  ℕ, ◌+◌, ◌≤◌, ◌≡◌, false, ltb, ◌==◌, if◌then◌else◌, is_empty, length, refl, [], ◌∷◌, some, ok,
  ok_injective, arith, Bool-cases, inl, inr,
}
use dyolo_kya.Prelude.Bytes.{Bytes, bytes_eq}
use dyolo_kya.Prelude.BTreeMap
use dyolo_kya.Prelude.BTreeMap.{BTreeMap}
use dyolo_kya.Extensions.{
  ExtValue, CertExtensions, max_extension_bytes, value_bytes, restored, set_checked, get,
}

-- The bytes of the keys and the values that a map holds.
abbrev pub held_bytes : BTreeMap ExtValue → ℕ
held_bytes [] = 0
held_bytes ((k, v) ∷ m) = length k + value_bytes v + held_bytes m

-- The count is at least what the map holds, and within the limit.
pub record IsBounded (e : CertExtensions) : Type 0 where
  pub counted : held_bytes e.fields ≤ e.byte_count
  pub limited : e.byte_count ≤ max_extension_bytes

held_bytes-insert :
    (k : Bytes) (v : ExtValue) (m : BTreeMap ExtValue)
    → held_bytes (BTreeMap.insert k v m) ≤ length k + value_bytes v + held_bytes m
unfolding BTreeMap.insert
held_bytes-insert k v [] = omega arith
held_bytes-insert k v ((j, w) ∷ m) = ground (arith, held_bytes-insert k v m)

-- A map whose count covers the bytes that it holds and is within the limit keeps both when
-- `set_checked` succeeds, whose key is then not empty, has the new value and leaves every other key its
-- own. A map read back from its serialized form has the count 0: the same call succeeds on it too,
-- whatever it holds, and counts the new entry alone.
pub set_checked-IsBounded :
    (e e' : CertExtensions) (k j : Bytes) (v : ExtValue) (m : BTreeMap ExtValue)
    → IsBounded e
    → set_checked e k v ≡ ok e'
    → IsBounded e'
      × (is_empty k ≡ false)
      × (get e' j ≡ (if k == j then some v else get e j))
      × (set_checked (restored m) k v
          ≡ ok (record { fields = BTreeMap.insert k v m; byte_count = length k + value_bytes v }))
unfolding set_checked get restored
set_checked-IsBounded e e' k j v m b h = elim (Bool-cases (is_empty k)) [
  | inl empty ↦ absurd (ground (arith, h))
  | inr named ↦
      elim (Bool-cases (ltb max_extension_bytes (e.byte_count + (length k + value_bytes v)))) [
        | inl over ↦ absurd (ground (arith, h))
        | inr fits ↦
            let same = ok_injective _ e' (rw (named, fits) at h) in
            let alone : ltb max_extension_bytes (0 + (length k + value_bytes v)) ≡ false =
              ground (arith, fits) in
            let count : 0 + (length k + value_bytes v) ≡ length k + value_bytes v = omega arith in
            rw (← same) (
              record {
                counted = omega (arith, held_bytes-insert k v e.fields, b.counted);
                limited = ground (arith, fits);
              },
              named,
              BTreeMap.get-insert k j v e.fields,
              rw (named, alone, count) refl,
            )
      ]
]
