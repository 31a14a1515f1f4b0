-- ===== src/Provenance/Hashed.antt =====
-- src/provenance.rs: the pairs that a root and a proof hash, and what leads to the root.
use dyolo_kya.Prelude.{
  ℕ, zero, suc, ◌+◌, ◌-◌, ◌*◌, ◌/◌, ◌%◌, ◌^◌, ◌≤◌, ◌<◌, ◌≡◌, refl, sym, ◌∙◌, inl, inr, ◌⊎◌, true,
  false, Bool, if◌then◌else◌, ◌==◌, nat_eq, length, get_or, List, [], ◌∷◌, ◌++◌, arith, In,
  In-append_left, In-append_right, Subset, Subset-append-append, subst,
}
use dyolo_kya.Prelude.Bytes.{Bytes, bytes_eq}
use dyolo_kya.Crypto.Collision.{chunks, Collision, Collision-widen, same_children}
use dyolo_kya.Provenance.Perfect.{apex, half, above}
use dyolo_kya.Provenance.{climb, pair_up}
use native.Mathlib.Nat.{pow-suc}

module _ (node : Bytes → Bytes → Bytes) where
  -- The pairs that are hashed on the way from a layer to the one that is so many layers above.
  abbrev pub layer_pairs : ℕ → List Bytes → List (Bytes × Bytes)
  layer_pairs zero layer = []
  layer_pairs (suc d) layer = chunks layer ++ layer_pairs d (pair_up node layer)

  -- More layers hash more pairs.
  pub layer_pairs-Subset :
      (d fuel : ℕ) (layer : List Bytes)
      → d ≤ fuel
      → Subset (layer_pairs d layer) (layer_pairs fuel layer)
  layer_pairs-Subset zero fuel layer l q m = elim m [ ]
  layer_pairs-Subset (suc d) zero layer l q m = absurd (omega arith)
  layer_pairs-Subset (suc d) (suc fuel) layer l q m =
      Subset-append-append (chunks layer) (layer_pairs d (pair_up node layer)) (chunks layer)
        (layer_pairs fuel (pair_up node layer)) (λ q m. m)
        (layer_pairs-Subset d fuel (pair_up node layer) (omega arith)) q m

  -- The pair of a step and the value above it, by the side that the position is on.
  abbrev pub sided : Bool → Bytes → Bytes → Bytes × Bytes
  sided b current s = if b then (current, s) else (s, current)

  abbrev joined : Bool → Bytes → Bytes → Bytes
  joined b current s = if b then node current s else node s current

  -- The pairs that are hashed when a proof is verified for a value at a position.
  abbrev pub climb_pairs : Bytes → ℕ → List Bytes → List (Bytes × Bytes)
  climb_pairs current idx [] = []
  climb_pairs current idx (s ∷ ss) =
      sided (idx % 2 == 0) current s ∷ climb_pairs (joined (idx % 2 == 0) current s) (idx / 2) ss

  get_or-In-chunks :
      (xs : List Bytes) (j : ℕ)
      → 2 * j + 1 < length xs
      → In (get_or xs (2 * j) [], get_or xs (2 * j + 1) []) (chunks xs)
  get_or-In-chunks [] j h = absurd (omega arith)
  get_or-In-chunks (a ∷ []) j h = absurd (omega arith)
  get_or-In-chunks (a ∷ b ∷ r) zero h = inl refl
  get_or-In-chunks (a ∷ b ∷ r) (suc j) h =
      let left : 2 * suc j ≡ suc (suc (2 * j)) = omega arith in
      let right : 2 * suc j + 1 ≡ suc (suc (2 * j + 1)) = omega arith in
      let xs = a ∷ b ∷ r in
      subst (λ n. In (get_or xs n [], get_or xs (2 * suc j + 1) []) (chunks xs)) (sym left)
        (subst (λ n. In (get_or xs (suc (suc (2 * j))) [], get_or xs n []) (chunks xs)) (sym right)
          (inr (get_or-In-chunks r j (omega arith))))

  -- The other child of the node above a position.
  abbrev beside : Bool → List Bytes → ℕ → Bytes
  beside b layer idx = get_or layer (if b then idx + 1 else idx - 1) []

  -- The node above a position is hashed from the position and the one beside it.
  above_hashed :
      (d : ℕ) (layer : List Bytes) (idx : ℕ)
      → length layer ≡ 2 ^ suc d
      → idx < 2 ^ suc d
      → let b = idx % 2 == 0 in
        (get_or (pair_up node layer) (idx / 2) []
          ≡ joined b (get_or layer idx []) (beside b layer idx))
        × In (sided b (get_or layer idx []) (beside b layer idx)) (chunks layer)
  above_hashed d layer idx h l =
      let Hashed = λ (b : Bool).
        (get_or (pair_up node layer) (idx / 2) []
          ≡ joined b (get_or layer idx []) (beside b layer idx))
        × In (sided b (get_or layer idx []) (beside b layer idx)) (chunks layer) in
      elim (above node d layer idx h l) [
        | inl (e, parent) ↦
            let even : idx % 2 ≡ 0 = ground (arith, e) in
            let left : 2 * (idx / 2) ≡ idx = omega (arith, even) in
            subst Hashed (sym e) (
              parent,
              rw left at (get_or-In-chunks layer (idx / 2) (omega (arith, h, even, pow-suc 2 d))),
            )
        | inr (e, parent) ↦
            let odd : idx % 2 ≡ 1 = ground (arith, e) in
            let left : 2 * (idx / 2) ≡ idx - 1 = omega (arith, odd) in
            let right : 2 * (idx / 2) + 1 ≡ idx = omega (arith, odd) in
            subst Hashed (sym e) (
              parent,
              rw (right, left) at
                  (get_or-In-chunks layer (idx / 2) (omega (arith, h, odd, pow-suc 2 d))),
            )
      ]

  -- Two hashed steps with one value are the same step, or they collide.
  same_step :
      (b : Bool) (ps : List (Bytes × Bytes)) (current s x y : Bytes)
      → In (sided b current s) ps
      → In (sided b x y) ps
      → joined b current s ≡ joined b x y
      → (current ≡ x) ⊎ Collision node ps
  same_step true ps current s x y m n e = elim (same_children node ps current s x y m n e) [
    | inl q ↦ inl q.0
    | inr k ↦ inr k
  ]
  same_step false ps current s x y m n e = elim (same_children node ps s current y x m n e) [
    | inl q ↦ inl q.1
    | inr k ↦ inr k
  ]

  -- As many siblings as there are layers lead to the root from one value alone, unless two of the pairs
  -- that are hashed collide.
  pub climb_sound :
      (d : ℕ) (layer : List Bytes) (idx : ℕ) (current : Bytes) (siblings : List Bytes)
      → length siblings ≡ d
      → length layer ≡ 2 ^ d
      → idx < 2 ^ d
      → climb node current idx siblings ≡ apex node d layer
      → (current ≡ get_or layer idx [])
        ⊎ Collision node (climb_pairs current idx siblings ++ layer_pairs d layer)
  unfolding climb
  climb_sound zero layer idx current [] e h l k =
      let first : idx ≡ 0 = omega arith in inl (rw first k)
  climb_sound zero layer idx current (s ∷ ss) e h l k = absurd (omega arith)
  climb_sound (suc d) layer idx current [] e h l k = absurd (omega arith)
  climb_sound (suc d) layer idx current (s ∷ ss) e h l k =
      let b = idx % 2 == 0 in
      let up = pair_up node layer in
      let steps = climb_pairs current idx (s ∷ ss) in
      let pairs = steps ++ layer_pairs (suc d) layer in
      let (parent, paired) = above_hashed d layer idx h l in
      elim (climb_sound d up (idx / 2) (joined b current s) ss (omega arith) (half node d layer h)
        (omega (arith, pow-suc 2 d)) k) [
          | inr c ↦ inr (
              Collision-widen node
                (climb_pairs (joined b current s) (idx / 2) ss ++ layer_pairs d up) pairs
                (Subset-append-append (climb_pairs (joined b current s) (idx / 2) ss)
                  (layer_pairs d up) steps (layer_pairs (suc d) layer) (λ q m. inr m)
                  (λ q m. In-append_right q (chunks layer) (layer_pairs d up) m))
                c)
          | inl same ↦
              same_step b pairs current s (get_or layer idx []) (beside b layer idx) (inl refl)
                (In-append_right _ steps (layer_pairs (suc d) layer)
                  (In-append_left _ (chunks layer) (layer_pairs d up) paired))
                (same ∙ parent)
        ]
