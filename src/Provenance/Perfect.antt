-- ===== src/Provenance/Perfect.antt =====
-- src/provenance.rs: layers whose length is a power of two.
use dyolo_kya.Prelude.{
  ℕ, zero, suc, ◌+◌, ◌-◌, ◌*◌, ◌/◌, ◌%◌, ◌^◌, ◌≤◌, ◌<◌, ◌≡◌, refl, sym, ap, ◌∙◌, inl, inr, ◌⊎◌,
  true, false, Bool, if◌then◌else◌, ltb, ◌==◌, nat_eq, length, get_or, List, [], ◌∷◌, arith,
  Bool-cases,
}
use dyolo_kya.Prelude.Bytes.{Bytes, bytes_eq}
use dyolo_kya.Provenance.{climb, pair_up, top, siblings_of}
use native.Mathlib.Nat.{pow-suc, one-le-pow}

module _ (node : Bytes → Bytes → Bytes) where
  pub length-pair_up : (xs : List Bytes) → length (pair_up node xs) ≡ length xs / 2
  unfolding pair_up
  length-pair_up [] = refl
  length-pair_up (a ∷ []) = refl
  length-pair_up (a ∷ b ∷ r) = omega (arith, length-pair_up r)

  pub get_or-pair_up :
      (xs : List Bytes) (j : ℕ)
      → 2 * j + 1 < length xs
      → get_or (pair_up node xs) j [] ≡ node (get_or xs (2 * j) []) (get_or xs (2 * j + 1) [])
  unfolding pair_up
  get_or-pair_up [] j h = absurd (omega arith)
  get_or-pair_up (a ∷ []) j h = absurd (omega arith)
  get_or-pair_up (a ∷ b ∷ r) zero h = refl
  get_or-pair_up (a ∷ b ∷ r) (suc j) h =
      let left : 2 * suc j ≡ suc (suc (2 * j)) = omega arith in
      let right : 2 * suc j + 1 ≡ suc (suc (2 * j + 1)) = omega arith in
      rw (right, left) (get_or-pair_up r j (omega arith))

  -- The root of a layer of `2 ^ d` nodes.
  abbrev pub apex : ℕ → List Bytes → Bytes
  apex zero layer = get_or layer 0 []
  apex (suc d) layer = apex d (pair_up node layer)

  pub half :
      (d : ℕ) (layer : List Bytes) → length layer ≡ 2 ^ suc d → length (pair_up node layer) ≡ 2 ^ d
  half d layer h = omega (arith, length-pair_up layer, pow-suc 2 d)

  -- Fuel that is at least the depth is enough for the loop over the layers.
  pub top-eq-apex :
      (fuel d : ℕ) (layer : List Bytes)
      → length layer ≡ 2 ^ d
      → d ≤ fuel
      → top node fuel layer ≡ apex d layer
  unfolding top
  top-eq-apex zero zero layer h l = refl
  top-eq-apex zero (suc d) layer h l = absurd (omega arith)
  top-eq-apex (suc fuel) zero layer h l =
      let single : ltb 1 (length layer) ≡ false = ground (arith, h) in rw single refl
  top-eq-apex (suc fuel) (suc d) layer h l =
      let several : ltb 1 (length layer) ≡ true =
        ground (arith, h, pow-suc 2 d, one-le-pow d 2 (omega arith)) in
      rw several (top-eq-apex fuel d (pair_up node layer) (half d layer h) (omega arith))

  pub length-siblings_of :
      (d : ℕ) (layer : List Bytes) (idx : ℕ) → length (siblings_of node d layer idx) ≡ d
  unfolding siblings_of
  length-siblings_of zero layer idx = refl
  length-siblings_of (suc d) layer idx =
      ap suc (length-siblings_of d (pair_up node layer) (idx / 2))

  -- The node above a position, by the side that the position is on.
  pub above :
      (d : ℕ) (layer : List Bytes) (idx : ℕ)
      → length layer ≡ 2 ^ suc d
      → idx < 2 ^ suc d
      → (((idx % 2 == 0) ≡ true)
          × (get_or (pair_up node layer) (idx / 2) []
              ≡ node (get_or layer idx []) (get_or layer (idx + 1) [])))
        ⊎ (((idx % 2 == 0) ≡ false)
            × (get_or (pair_up node layer) (idx / 2) []
                ≡ node (get_or layer (idx - 1) []) (get_or layer idx [])))
  above d layer idx h l = elim (Bool-cases (idx % 2 == 0)) [
    | inl e ↦
        let even : idx % 2 ≡ 0 = ground (arith, e) in
        let left : 2 * (idx / 2) ≡ idx = omega (arith, even) in
        inl (e, rw left at (get_or-pair_up layer (idx / 2) (omega (arith, h, even, pow-suc 2 d))))
    | inr e ↦
        let odd : idx % 2 ≡ 1 = ground (arith, e) in
        let left : 2 * (idx / 2) ≡ idx - 1 = omega (arith, odd) in
        let right : 2 * (idx / 2) + 1 ≡ idx = omega (arith, odd) in
        inr (
          e,
          rw (right, left) at (get_or-pair_up layer (idx / 2) (omega (arith, h, odd, pow-suc 2 d))),
        )
  ]

  -- The siblings of a position lead to the root.
  pub climb-siblings_of :
      (d : ℕ) (layer : List Bytes) (idx : ℕ)
      → length layer ≡ 2 ^ d
      → idx < 2 ^ d
      → climb node (get_or layer idx []) idx (siblings_of node d layer idx) ≡ apex d layer
  unfolding climb siblings_of
  climb-siblings_of zero layer idx h l = let first : idx ≡ 0 = omega arith in rw first refl
  climb-siblings_of (suc d) layer idx h l =
      let cur = get_or layer idx [] in
      let up = siblings_of node d (pair_up node layer) (idx / 2) in
      let step = λ (b : Bool).
        let s = get_or layer (if b then idx + 1 else idx - 1) [] in
        climb node (if b then node cur s else node s cur) (idx / 2) up in
      let rest =
        climb-siblings_of d (pair_up node layer) (idx / 2) (half d layer h)
          (omega (arith, pow-suc 2 d)) in
      elim (above d layer idx h l) [
        | inl (even, parent) ↦
            ap step even ∙ ap (λ z. climb node z (idx / 2) up) (sym parent) ∙ rest
        | inr (odd, parent) ↦ ap step odd ∙ ap (λ z. climb node z (idx / 2) up) (sym parent) ∙ rest
      ]
