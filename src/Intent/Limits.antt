-- ===== src/Intent/Limits.antt =====
-- src/intent.rs: the limits that `new` and `try_param` keep.
use dyolo_kya.Prelude.{
  suc, ◌≤◌, ◌≡◌, refl, ltb, leb, ◌==◌, ◌&&◌, if◌then◌else◌, length, All, [], ◌∷◌, some, ok,
  ok_injective, is_ok, arith, Bool-cases, inl, inr,
}
use dyolo_kya.Prelude.Bytes.{Bytes, bytes_eq}
use dyolo_kya.Prelude.BTreeMap
use dyolo_kya.Prelude.BTreeMap.{BTreeMap}
use dyolo_kya.Intent.{Intent, try_param, max_param_key_len, max_param_value_len, max_intent_params}

abbrev pub Fits : Bytes × Bytes → Type 0
Fits q = (length q.0 ≤ max_param_key_len) × (length q.1 ≤ max_param_value_len)

pub record IsWithin (it : Intent) : Type 0 where
  pub count : length it.params ≤ max_intent_params
  pub fits : All Fits it.params

length-insert : (k v : Bytes) (m : BTreeMap Bytes) → length (BTreeMap.insert k v m) ≤ suc (length m)
unfolding BTreeMap.insert
length-insert k v [] = omega arith
length-insert k v ((j, w) ∷ m) = ground (arith, length-insert k v m)

All-insert :
    (k v : Bytes) (m : BTreeMap Bytes) → Fits (k, v) → All Fits m → All Fits (BTreeMap.insert k v m)
unfolding BTreeMap.insert
All-insert k v [] f h = (f, tt)
All-insert k v ((j, w) ∷ m) f h = ground (arith, All-insert k v m f h.1)

-- What a call that succeeds has checked and made.
made :
    (normalize : Bytes → Bytes) (it : Intent) (key value j : Bytes) (it' : Intent)
    → IsWithin it
    → try_param normalize it key value ≡ ok it'
    → IsWithin it'
      × (it'.action ≡ it.action)
      × (BTreeMap.get j it'.params
          ≡ (if normalize key == j then some (normalize value) else BTreeMap.get j it.params))
unfolding try_param
made normalize it key value j it' w h =
    let k = normalize key in
    let v = normalize value in
    elim (Bool-cases (leb max_intent_params (length it.params))) [
      | inl crowded ↦ absurd (ground (arith, h))
      | inr room ↦ elim (Bool-cases (ltb max_param_key_len (length k))) [
        | inl long ↦ absurd (ground (arith, h))
        | inr short ↦ elim (Bool-cases (ltb max_param_value_len (length v))) [
          | inl long ↦ absurd (ground (arith, h))
          | inr fits ↦
              let same = ok_injective _ it' (rw (room, short, fits) at h) in
              rw (← same) (
                record {
                  count = ground (arith, length-insert k v it.params, room);
                  fits =
                      All-insert k v it.params (ground (arith, short), ground (arith, fits)) w.fits;
                },
                refl,
                BTreeMap.get-insert k j v it.params,
              )
        ]
      ]
    ]

-- `try_param` succeeds exactly if there is room for one more parameter, even where the key is present,
-- and the normalized key and value are not too long. It then keeps an intent within its
-- limits, keeps the action, gives the normalized key its value, and changes no other key.
pub try_param-IsWithin :
    (normalize : Bytes → Bytes) (it : Intent) (key value j : Bytes)
    → IsWithin it
    → (is_ok (try_param normalize it key value) ≡ (
        ltb (length it.params) max_intent_params
        && leb (length (normalize key)) max_param_key_len
        && leb (length (normalize value)) max_param_value_len))
      × ((it' : Intent)
          → try_param normalize it key value ≡ ok it'
          → IsWithin it'
            × (it'.action ≡ it.action)
            × (BTreeMap.get j it'.params ≡ (
                if normalize key == j then some (normalize value) else BTreeMap.get j it.params)))
unfolding try_param
try_param-IsWithin normalize it key value j w =
    (ground arith, λ it' h. made normalize it key value j it' w h)
