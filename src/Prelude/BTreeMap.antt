-- ===== src/Prelude/BTreeMap.antt =====
-- `std::collections::BTreeMap` with byte-string keys, as an association list in key order.
use mathlib.Core.Path.{◌≡◌, refl}
use mathlib.Core.Option.{Option, none, some}
use mathlib.Core.List.{List, [], ◌∷◌}
use native.Mathlib.Omega.{arith}
use dyolo_kya.Prelude.Tests.{◌==◌, if◌then◌else◌}
use dyolo_kya.Prelude.Bytes.{Bytes, bytes_eq, bytes_beq_iff}
use dyolo_kya.Prelude.Sort.{bytes_lt}

abbrev pub BTreeMap : Type 0 → Type 0
BTreeMap V = List (Bytes × V)

module _ {V : Type 0} where
  unfoldable pub get : Bytes → BTreeMap V → Option V
  get k [] = none
  get k ((j, v) ∷ m) = if j == k then some v else get k m

  unfoldable pub insert : Bytes → V → BTreeMap V → BTreeMap V
  insert k v [] = (k, v) ∷ []
  insert k v ((j, w) ∷ m) =
      if j == k
      then (k, v) ∷ m
      else if bytes_lt k j
      then (k, v) ∷ (j, w) ∷ m
      else (j, w) ∷ insert k v m

  pub get-insert :
      (k j : Bytes) (v : V) (m : BTreeMap V)
      → get j (insert k v m) ≡ (if k == j then some v else get j m)
  unfolding get insert
  get-insert k j v [] = refl
  get-insert k j v ((i, w) ∷ m) =
      ground (arith, bytes_beq_iff k j, bytes_beq_iff i k, bytes_beq_iff i j, get-insert k j v m)
