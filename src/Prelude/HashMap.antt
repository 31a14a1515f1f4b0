-- ===== src/Prelude/HashMap.antt =====
-- `std::collections::HashMap` with byte-string keys, as an association list with one entry a key.
-- Nothing in the code depends on the order of its entries.
use mathlib.Core.Path.{◌≡◌, refl, ap}
use mathlib.Core.Bool.{Bool}
use mathlib.Core.Option.{Option, none, some}
use mathlib.Core.List.{List, [], ◌∷◌}
use native.Mathlib.Omega.{arith}
use dyolo_kya.Prelude.Tests.{◌==◌, if◌then◌else◌}
use dyolo_kya.Prelude.Bytes.{Bytes, bytes_eq, bytes_beq_iff}

abbrev pub HashMap : Type 0 → Type 0
HashMap V = List (Bytes × V)

module _ {V : Type 0} where
  unfoldable pub get : Bytes → HashMap V → Option V
  get k [] = none
  get k ((j, v) ∷ m) = if j == k then some v else get k m

  unfoldable pub insert : Bytes → V → HashMap V → HashMap V
  insert k v [] = (k, v) ∷ []
  insert k v ((j, w) ∷ m) = if j == k then (k, v) ∷ m else (j, w) ∷ insert k v m

  unfoldable pub remove : Bytes → HashMap V → HashMap V
  remove k [] = []
  remove k ((j, v) ∷ m) = if j == k then m else (j, v) ∷ remove k m

  -- The values, in the order of the entries.
  unfoldable pub values : HashMap V → List V
  values [] = []
  values ((k, v) ∷ m) = v ∷ values m

  -- `retain`, by a test on the value.
  unfoldable pub retain : (V → Bool) → HashMap V → HashMap V
  retain keep [] = []
  retain keep ((k, v) ∷ m) = if keep v then (k, v) ∷ retain keep m else retain keep m

  -- No key stands twice.
  abbrev pub IsDistinct : HashMap V → Type 0
  IsDistinct [] = Unit
  IsDistinct ((k, v) ∷ m) = (get k m ≡ none) × IsDistinct m

  pub get-insert :
      (k j : Bytes) (v : V) (m : HashMap V)
      → get j (insert k v m) ≡ (if k == j then some v else get j m)
  unfolding get insert
  get-insert k j v [] = refl
  get-insert k j v ((i, w) ∷ m) =
      ground (arith, bytes_beq_iff k j, bytes_beq_iff i k, bytes_beq_iff i j, get-insert k j v m)

  pub insert-IsDistinct :
      (k : Bytes) (v : V) (m : HashMap V) → IsDistinct m → IsDistinct (insert k v m)
  unfolding insert
  insert-IsDistinct k v [] d = (unfold get in refl, tt)
  insert-IsDistinct k v ((j, w) ∷ m) d =
      ground (
        arith,
        bytes_beq_iff j k,
        bytes_beq_iff k j,
        get-insert k j v m,
        insert-IsDistinct k v m d.1,
      )

  get-retain-none :
      (keep : V → Bool) (k : Bytes) (m : HashMap V) → get k m ≡ none → get k (retain keep m) ≡ none
  unfolding get retain
  get-retain-none keep k [] h = refl
  get-retain-none keep k ((j, v) ∷ m) h = ground (arith, get-retain-none keep k m)

  pub retain-IsDistinct :
      (keep : V → Bool) (m : HashMap V) → IsDistinct m → IsDistinct (retain keep m)
  unfolding retain
  retain-IsDistinct keep [] d = tt
  retain-IsDistinct keep ((k, v) ∷ m) d =
      ground (arith, get-retain-none keep k m d.0, retain-IsDistinct keep m d.1)

  abbrev pub filter_value : (V → Bool) → Option V → Option V
  filter_value keep none = none
  filter_value keep (some v) = if keep v then some v else none

  pub get-retain :
      (keep : V → Bool) (k : Bytes) (m : HashMap V)
      → IsDistinct m
      → get k (retain keep m) ≡ filter_value keep (get k m)
  unfolding get retain
  get-retain keep k [] d = refl
  get-retain keep k ((j, v) ∷ m) d =
      ground (arith, bytes_beq_iff j k, get-retain keep k m d.1, get-retain-none keep k m)

  pub get-remove :
      (k j : Bytes) (m : HashMap V)
      → IsDistinct m
      → get j (remove k m) ≡ (if k == j then none else get j m)
  unfolding get remove
  get-remove k j [] d = ground arith
  get-remove k j ((i, w) ∷ m) d = ground (
    arith,
    bytes_beq_iff k j,
    bytes_beq_iff i k,
    bytes_beq_iff i j,
    get-remove k j m d.1,
    d.0,
    ap (λ x. get x m),
  )

  pub remove-IsDistinct : (k : Bytes) (m : HashMap V) → IsDistinct m → IsDistinct (remove k m)
  unfolding remove
  remove-IsDistinct k [] d = tt
  remove-IsDistinct k ((j, v) ∷ m) d =
      ground (arith, bytes_beq_iff j k, get-remove k j m d.1, remove-IsDistinct k m d.1)
