-- ===== src/Examples/Intents.antt =====
-- An intent with one parameter.
use dyolo_kya.Prelude.{
  ◌≡◌, refl, ltb, leb, ◌==◌, ◌&&◌, if◌then◌else◌, length, [], ◌∷◌, some, ok, is_ok, arith,
}
use dyolo_kya.Prelude.Bytes.{Bytes, bytes_eq}
use dyolo_kya.Prelude.BTreeMap
use dyolo_kya.Intent.{Intent, try_param, max_param_key_len, max_param_value_len, max_intent_params}
use dyolo_kya.Intent.Limits.{IsWithin, try_param-IsWithin}

abbrev trade : Intent
trade = record { action = 116 ∷ []; params = [] }

abbrev as_written : Bytes → Bytes
as_written b = b

abbrev side : Bytes
side = 115 ∷ []

abbrev long_side : Bytes
long_side = 108 ∷ []

trade-IsWithin : IsWithin trade
trade-IsWithin = record { count = ground arith; fits = tt }

side_set :
    try_param as_written trade side long_side
    ≡ ok (record { action = 116 ∷ []; params = (side, long_side) ∷ [] })
unfolding try_param BTreeMap.insert
side_set = refl

try_param-IsWithin_example :
    (is_ok (try_param as_written trade side long_side) ≡ (
      ltb (length trade.params) max_intent_params
      && leb (length side) max_param_key_len
      && leb (length long_side) max_param_value_len))
    × ((it' : Intent)
        → try_param as_written trade side long_side ≡ ok it'
        → IsWithin it'
          × (it'.action ≡ trade.action)
          × (BTreeMap.get side it'.params
              ≡ (if side == side then some long_side else BTreeMap.get side trade.params)))
try_param-IsWithin_example = try_param-IsWithin as_written trade side long_side side trade-IsWithin
