-- ===== src/Merkle/Complete.antt =====
-- src/intent.rs: a tree proves each of its leaves, and `verify` accepts the proof.
use dyolo_kya.Prelude.{
  ℕ, zero, suc, ◌+◌, ◌-◌, ◌/◌, ◌%◌, ◌≤◌, ◌≡◌, refl, subst, In-of_get_elem?, true, ltb, ◌==◌, nat_eq,
  if◌then◌else◌, length, get_elem?, last_or, List, [], ◌∷◌, ◌++◌, some, none, Option-cases,
  Bool-cases, ok, err, inl, inr, In, arith,
}
use dyolo_kya.Prelude.Bytes.{Bytes, bytes_eq, bytes_beq_iff, bytes_beq_refl}
use dyolo_kya.Prelude.Sort.{sort, dedup, In-dedup-sort}
use dyolo_kya.Error.{A1Error}
use dyolo_kya.Crypto.{Crypto, merkle_node}
use dyolo_kya.Merkle.{
  SiblingNode, MerkleProof, IntentTree, climb, proof_verify, next_layer, build_layers, build, root,
  binary_search, sibling_at, path, prove,
}

-- The position found holds the value searched.
get_elem?-binary_search :
    (x : Bytes) (xs : List Bytes) (i : ℕ) → binary_search x xs ≡ some i → get_elem? xs i ≡ some x
unfolding binary_search
get_elem?-binary_search x [] i h = cc
get_elem?-binary_search x (y ∷ ys) i h = elim (Option-cases (binary_search x ys)) [
  | inl e ↦ ground (arith, bytes_beq_iff x y)
  | inr (j, e) ↦ ground (arith, bytes_beq_iff x y, get_elem?-binary_search x ys j e)
]

-- Every member is found.
binary_search_of_In :
    (x : Bytes) (xs : List Bytes) → In x xs → (i : ℕ) × (binary_search x xs ≡ some i)
unfolding binary_search
binary_search_of_In x [] m = elim m [ ]
binary_search_of_In x (y ∷ ys) m = elim (Bool-cases (x == y)) [
  | inl same ↦ (0, rw same)
  | inr differ ↦
      let (j, e) = binary_search_of_In x ys (ground (arith, bytes_beq_iff x y)) in
      (suc j, rw (differ, e))
]

sibling_at-suc-suc :
    (a b : Bytes) (r : List Bytes) (pos : ℕ)
    → sibling_at (a ∷ b ∷ r) (suc (suc pos)) ≡ sibling_at r pos
unfolding sibling_at
sibling_at-suc-suc a b r pos =
    let parity : suc (suc pos) % 2 ≡ pos % 2 = omega arith in
    elim (Bool-cases (pos % 2 == 0)) [
      | inl even ↦
          let right : suc (suc pos) + 1 ≡ suc (suc (pos + 1)) = omega arith in
          rw (parity, even, right) (ground arith)
      | inr odd ↦
          let left : suc (suc pos) - 1 ≡ suc (suc (pos - 1)) = ground arith in
          rw (parity, odd, left) (ground arith)
    ]

module _ (c : Crypto) where
  next_layer-get :
      (cur : List Bytes) (pos : ℕ) (x : Bytes)
      → get_elem? cur pos ≡ some x
      → get_elem? (next_layer c cur) (pos / 2) ≡ some (climb c x (sibling_at cur pos))
  unfolding next_layer climb
  next_layer-get [] pos x h = cc
  next_layer-get (a ∷ []) zero x h = unfold sibling_at in ground arith
  next_layer-get (a ∷ []) (suc pos) x h = cc
  next_layer-get (a ∷ b ∷ r) zero x h = unfold sibling_at in ground arith
  next_layer-get (a ∷ b ∷ r) (suc zero) x h = unfold sibling_at in ground arith
  next_layer-get (a ∷ b ∷ r) (suc (suc pos)) x h =
      let half : suc (suc pos) / 2 ≡ suc (pos / 2) = omega arith in
      rw (half, sibling_at-suc-suc) (next_layer-get r pos x h)

  length-next_layer : (cur : List Bytes) → length (next_layer c cur) ≡ (length cur + 1) / 2
  unfolding next_layer
  length-next_layer [] = refl
  length-next_layer (a ∷ []) = refl
  length-next_layer (a ∷ b ∷ r) = omega (arith, length-next_layer r)

  climb-append :
      (x : Bytes) (ns ms : List SiblingNode) → climb c x (ns ++ ms) ≡ climb c (climb c x ns) ms
  unfolding climb
  climb-append x [] ms = refl
  climb-append x (n ∷ ns) ms =
      climb-append (if n.is_left then merkle_node c n.hash x else merkle_node c x n.hash) ns ms

  -- `build_layers` is never empty, so that `path` and `last` see past its first layer.
  path-cons :
      (fuel pos : ℕ) (layer cur : List Bytes)
      → path pos (layer ∷ build_layers c fuel cur)
        ≡ sibling_at layer pos ++ path (pos / 2) (build_layers c fuel cur)
  unfolding path build_layers
  path-cons zero pos layer cur = refl
  path-cons (suc fuel) pos layer cur = ground arith

  last_or-cons :
      (fuel : ℕ) (d e cur : List Bytes)
      → last_or (build_layers c fuel cur) d ≡ last_or (build_layers c fuel cur) e
  unfolding build_layers
  last_or-cons zero d e cur = refl
  last_or-cons (suc fuel) d e cur = ground arith

  single_of_short :
      (cur : List Bytes) (pos : ℕ) (x : Bytes)
      → length cur ≤ 1
      → get_elem? cur pos ≡ some x
      → cur ≡ x ∷ []
  single_of_short [] pos x fits h = cc
  single_of_short (a ∷ []) zero x fits h = ground arith
  single_of_short (a ∷ []) (suc pos) x fits h = cc
  single_of_short (a ∷ b ∷ r) pos x fits h = absurd (omega arith)

  -- Climbing the path of a position ends at the one element of the last layer.
  climb-path :
      (fuel : ℕ) (cur : List Bytes) (pos : ℕ) (x : Bytes)
      → length cur ≤ suc fuel
      → get_elem? cur pos ≡ some x
      → last_or (build_layers c fuel cur) [] ≡ climb c x (path pos (build_layers c fuel cur)) ∷ []
  unfolding build_layers
  climb-path zero cur pos x fits h = unfold path climb in single_of_short cur pos x fits h
  climb-path (suc fuel) cur pos x fits h = elim (Bool-cases (ltb 1 (length cur))) [
    | inr short ↦
        rw (build_layers, short) (unfold path climb in single_of_short cur pos x (ground arith) h)
    | inl long ↦
        rw (build_layers, long)
          (cc (
            last_or-cons fuel cur [] (next_layer c cur),
            path-cons fuel pos cur (next_layer c cur),
            climb-append x (sibling_at cur pos)
                (path (pos / 2) (build_layers c fuel (next_layer c cur))),
            climb-path fuel (next_layer c cur) (pos / 2) (climb c x (sibling_at cur pos))
                (ground (arith, length-next_layer cur)) (next_layer-get cur pos x h),
          ))
  ]

  -- The two fields of a built tree.
  pub tree_fields :
      (xs : List Bytes) (t : IntentTree)
      → build c xs ≡ ok t
      → (t.leaves ≡ dedup (sort xs)) × (t.layers ≡ build_layers c (length t.leaves) t.leaves)
  unfolding build
  tree_fields [] t h = cc
  tree_fields (x ∷ xs) t h = ground arith

  module _ (xs : List Bytes) (t : IntentTree) (built : build c xs ≡ ok t) where
    -- A tree proves every intent that it was built from, `verify` accepts the proof against the
    -- root, and the last layer holds the root alone, so that `root` indexes a layer that has it.
    pub prove-verify :
        (x : Bytes)
        → In x xs
        → (p : MerkleProof) × (prove t x ≡ ok p)
          × (proof_verify c p x (root t) ≡ true)
          × (last_or t.layers [] ≡ root t ∷ [])
    unfolding prove proof_verify root
    prove-verify x m =
        let fields = tree_fields xs t built in
        let (i, found) = binary_search_of_In x t.leaves (rw fields.0 ((In-dedup-sort x xs).1 m)) in
        let last =
          climb-path (length t.leaves) t.leaves i x (omega arith)
            (get_elem?-binary_search x t.leaves i found) in
        let top : last_or t.layers [] ≡ climb c x (path i t.layers) ∷ [] = cc (fields.1, last) in
        (
          record { siblings = path i t.layers },
          rw (found, prove),
          rw top (bytes_beq_refl _),
          rw top,
        )

    binary_search-none : (x : Bytes) (ys : List Bytes) → ¬ In x ys → binary_search x ys ≡ none
    unfolding binary_search
    binary_search-none x [] n = refl
    binary_search-none x (y ∷ ys) n =
        let rest = binary_search-none x ys (λ m. n (inr m)) in
        ground (arith, bytes_beq_iff x y, rest)

    -- An intent that the tree was not built from has no proof.
    prove_missing : (x : Bytes) → ¬ In x xs → prove t x ≡ err A1Error.intent_not_found
    unfolding prove
    prove_missing x n =
        let fields = tree_fields xs t built in
        let miss =
          binary_search-none x t.leaves (λ m. n ((In-dedup-sort x xs).0 (rw fields.0 at m))) in
        rw (miss, prove)

    -- What the tree proves is one of its intents.
    pub In-of_prove : (x : Bytes) (p : MerkleProof) → prove t x ≡ ok p → In x xs
    unfolding prove
    In-of_prove x p h = elim (Option-cases (binary_search x t.leaves)) [
      | inl e ↦ absurd (ground (arith, e, h))
      | inr (i, e) ↦ (In-dedup-sort x xs).0 (
          subst (In x) (tree_fields xs t built).0
            (In-of_get_elem? t.leaves i x (get_elem?-binary_search x t.leaves i e)))
    ]
