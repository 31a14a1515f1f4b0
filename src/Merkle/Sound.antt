-- ===== src/Merkle/Sound.antt =====
-- src/intent.rs: what an accepted Merkle proof shows. A value that `verify` accepts against the
-- root of a tree is a leaf of that tree, unless the tree and the proof exhibit a break of the hash.
use dyolo_kya.Prelude.{
  ℕ, zero, suc, ◌≡◌, refl, sym, subst, Bool, true, false, ltb, if◌then◌else◌, length, last_or, List,
  [], ◌∷◌, ◌++◌, ok, inl, inr, In, Subset, ◌⊎◌, In-append_left, In-append_right, In-append-cases,
}
use dyolo_kya.Prelude.Bytes.{Bytes, bytes_beq_iff}
use dyolo_kya.Prelude.Sort.{In-dedup-sort}
use dyolo_kya.Crypto.{Crypto, merkle_node}
use dyolo_kya.Crypto.Collision.{chunks, Collision, Collision-widen, same_children}
use dyolo_kya.Merkle.{
  SiblingNode, MerkleProof, IntentTree, climb, proof_verify, next_layer, build_layers, build, root,
}
use dyolo_kya.Merkle.Complete.{tree_fields, prove-verify}

-- A break of the node hash among given leaf values and given pairs of children: two different pairs
-- with one hash, or a leaf value that is the hash of a pair.
pub data HashBreak (c : Crypto) (leaves : List Bytes) (pairs : List (Bytes × Bytes)) : Type 0 where
  collision : Collision (merkle_node c) pairs → HashBreak c leaves pairs
  leaf_is_node :
      (l a b : Bytes)
      → In l leaves
      → In (a, b) pairs
      → l ≡ merkle_node c a b
      → HashBreak c leaves pairs

-- The pairs that are hashed when a tree is built, from its layers.
abbrev pub tree_pairs : List (List Bytes) → List (Bytes × Bytes)
tree_pairs [] = []
tree_pairs (l ∷ ls) = chunks l ++ tree_pairs ls

-- The pair that one step of a proof hashes.
abbrev pub step_pair : SiblingNode → Bytes → Bytes × Bytes
step_pair n x = if n.is_left then (n.hash, x) else (x, n.hash)

-- The pairs that are hashed when a proof is verified for a value.
abbrev pub climb_pairs : Crypto → Bytes → List SiblingNode → List (Bytes × Bytes)
climb_pairs c x [] = []
climb_pairs c x (n ∷ ns) =
    step_pair n x
    ∷ climb_pairs c (if n.is_left then merkle_node c n.hash x else merkle_node c x n.hash) ns

abbrev nodes : List (List Bytes) → List Bytes
nodes [] = []
nodes (l ∷ ls) = l ++ nodes ls

module _ (c : Crypto) where
  -- A value is the hash of two values, which are hashed as a pair.
  abbrev IsNodeOf : List Bytes → List (Bytes × Bytes) → Bytes → Type 0
  IsNodeOf ns ps y =
      (a : Bytes) × (b : Bytes) × In a ns × In b ns × In (a, b) ps × (y ≡ merkle_node c a b)

  next_layer-cases :
      (y : Bytes) (cur : List Bytes)
      → In y (next_layer c cur)
      → In y cur ⊎ IsNodeOf cur (chunks cur) y
  unfolding next_layer
  next_layer-cases y [] m = elim m [ ]
  next_layer-cases y (a ∷ []) m = inl m
  next_layer-cases y (a ∷ b ∷ r) (inl e) = inr (a, b, inl refl, inr (inl refl), inl refl, e)
  next_layer-cases y (a ∷ b ∷ r) (inr m) = elim (next_layer-cases y r m) [
    | inl h ↦ inl (inr (inr h))
    | inr (p, q, hp, hq, hpq, e) ↦ inr (p, q, inr (inr hp), inr (inr hq), inr hpq, e)
  ]

  -- One layer more below layers of which the claim holds.
  above :
      (fuel : ℕ) (cur : List Bytes) (y : Bytes)
      → let rest = build_layers c fuel (next_layer c cur) in
        In y (nodes (cur ∷ rest))
        → (In y (nodes rest) → In y (next_layer c cur) ⊎ IsNodeOf (nodes rest) (tree_pairs rest) y)
        → In y cur ⊎ IsNodeOf (nodes (cur ∷ rest)) (tree_pairs (cur ∷ rest)) y
  above fuel cur y m ih =
      let rest = build_layers c fuel (next_layer c cur) in
      elim (In-append-cases y cur (nodes rest) m) [
        | inl low ↦ inl low
        | inr high ↦ elim (ih high) [
          | inr (a, b, ha, hb, hp, e) ↦ inr (
            a,
            b,
            In-append_right a cur (nodes rest) ha,
            In-append_right b cur (nodes rest) hb,
            In-append_right (a, b) (chunks cur) (tree_pairs rest) hp,
            e,
          )
          | inl next ↦ elim (next_layer-cases y cur next) [
            | inl low ↦ inl low
            | inr (a, b, ha, hb, hp, e) ↦ inr (
              a,
              b,
              In-append_left a cur (nodes rest) ha,
              In-append_left b cur (nodes rest) hb,
              In-append_left (a, b) (chunks cur) (tree_pairs rest) hp,
              e,
            )
          ]
        ]
      ]

  -- Every node of the layers is in the lowest one or is the hash of two nodes.
  layers-cases :
      (fuel : ℕ) (cur : List Bytes) (y : Bytes)
      → let layers = build_layers c fuel cur in
        In y (nodes layers) → In y cur ⊎ IsNodeOf (nodes layers) (tree_pairs layers) y
  unfolding build_layers
  layers-cases zero cur y m = elim (In-append-cases y cur [] m) [
    | inl h ↦ inl h
    | inr h ↦ elim h [ ]
  ]
  layers-cases (suc fuel) cur y m =
      (elim (ltb 1 (length cur))
          as (λ b.
            let layers = if b then cur ∷ build_layers c fuel (next_layer c cur) else cur ∷ [] in
            In y (nodes layers) → In y cur ⊎ IsNodeOf (nodes layers) (tree_pairs layers) y) [
              | true ↦ λ h. above fuel cur y h (layers-cases fuel (next_layer c cur) y)
              | false ↦
                  λ h. elim (In-append-cases y cur [] h) [ inl l ↦ inl l | inr r ↦ elim r [ ] ]
            ])
        m

  pub widen :
      (xs ys : List Bytes) (ps qs : List (Bytes × Bytes))
      → Subset xs ys
      → Subset ps qs
      → HashBreak c xs ps
      → HashBreak c ys qs
  widen xs ys ps qs f g (HashBreak.collision k) =
      HashBreak.collision (Collision-widen (merkle_node c) ps qs g k)
  widen xs ys ps qs f g (HashBreak.leaf_is_node l a b m n e) =
      HashBreak.leaf_is_node l a b (f l m) (g (a, b) n) e

  module _ (fuel : ℕ) (cur : List Bytes) where
    abbrev layers : List (List Bytes)
    layers = build_layers c fuel cur

    -- A break among the values of the tree and the pairs `ps`.
    abbrev Broken : List (Bytes × Bytes) → Type 0
    Broken ps = HashBreak c cur (ps ++ tree_pairs layers)

    -- The children of a node of the tree are nodes of the tree, or the hash is broken.
    children :
        (a b : Bytes) (ps : List (Bytes × Bytes))
        → In (a, b) ps
        → In (merkle_node c a b) (nodes layers)
        → (In a (nodes layers) × In b (nodes layers)) ⊎ Broken ps
    children a b ps step m =
        let here = In-append_left (a, b) ps (tree_pairs layers) step in
        elim (layers-cases fuel cur (merkle_node c a b) m) [
          | inl low ↦ inr (HashBreak.leaf_is_node (merkle_node c a b) a b low here refl)
          | inr (a', b', ha, hb, hp, e) ↦
              elim (same_children (merkle_node c) (ps ++ tree_pairs layers) a b a' b' here
                (In-append_right (a', b') ps (tree_pairs layers) hp) e) [
                  | inl (p, q) ↦ inl (
                    subst (λ z. In z (nodes layers)) (sym p) ha,
                    subst (λ z. In z (nodes layers)) (sym q) hb,
                  )
                  | inr k ↦ inr (HashBreak.collision k)
                ]
        ]

    step-node :
        (n : SiblingNode) (x : Bytes) (ps : List (Bytes × Bytes)) (left : Bool)
        → In (if left then (n.hash, x) else (x, n.hash)) ps
        → In (if left then merkle_node c n.hash x else merkle_node c x n.hash) (nodes layers)
        → In x (nodes layers) ⊎ Broken ps
    step-node n x ps true step m = elim (children n.hash x ps step m) [
      | inl (h, k) ↦ inl k
      | inr broken ↦ inr broken
    ]
    step-node n x ps false step m = elim (children x n.hash ps step m) [
      | inl (h, k) ↦ inl h
      | inr broken ↦ inr broken
    ]

    -- Whatever climbs to a node of the tree is a node of the tree, or the hash is broken.
    climb-node :
        (ns : List SiblingNode) (x : Bytes)
        → In (climb c x ns) (nodes layers)
        → In x (nodes layers) ⊎ Broken (climb_pairs c x ns)
    unfolding climb
    climb-node [] x m = inl m
    climb-node (n ∷ ns) x m =
        elim (climb-node ns (if n.is_left then merkle_node c n.hash x else merkle_node c x n.hash)
          m) [
            | inl h ↦ step-node n x (climb_pairs c x (n ∷ ns)) n.is_left (inl refl) h
            | inr broken ↦ inr (widen cur cur _ _ (λ l k. k) (λ q k. inr k) broken)
          ]

  nodes-last_or :
      (ls : List (List Bytes)) (d : List Bytes) (x : Bytes)
      → In x (last_or ls d)
      → In x d ⊎ In x (nodes ls)
  nodes-last_or [] d x m = inl m
  nodes-last_or (l ∷ ls) d x m = elim (nodes-last_or ls l x m) [
    | inl h ↦ inr (In-append_left x l (nodes ls) h)
    | inr h ↦ inr (In-append_right x l (nodes ls) h)
  ]

  root-In-nodes :
      (xs : List Bytes) (t : IntentTree) → build c xs ≡ ok t → In (root t) (nodes t.layers)
  root-In-nodes [] t built = unfold build in cc built
  root-In-nodes (y ∷ ys) t built =
      let (p, _, _, top) = prove-verify c (y ∷ ys) t built y (inl refl) in
      elim (nodes-last_or t.layers [] (root t) (rw top (inl refl))) [
        | inl h ↦ elim h [ ]
        | inr h ↦ h
      ]

  -- A value that `verify` accepts against the root of a tree is one of the intents that the tree was
  -- built from, unless the hash breaks among what is hashed when the tree is built and the proof is
  -- verified: two different pairs of children there have one hash, or an intent of the tree or the
  -- accepted value is the hash of one of these pairs.
  pub verify_sound :
      (xs : List Bytes) (t : IntentTree) (p : MerkleProof) (x : Bytes)
      → build c xs ≡ ok t
      → proof_verify c p x (root t) ≡ true
      → In x xs ⊎ HashBreak c (x ∷ xs) (climb_pairs c x p.siblings ++ tree_pairs t.layers)
  unfolding proof_verify
  verify_sound xs t p x built accepted =
      let fields = tree_fields c xs t built in
      let leaf =
        λ (l : Bytes) (m : In l t.leaves). (In-dedup-sort l xs).0 (subst (In l) fields.0 m) in
      let at_root : In (climb c x p.siblings) (nodes t.layers) =
        subst (λ z. In z (nodes t.layers)) (sym ((bytes_beq_iff _ _).0 accepted))
          (root-In-nodes xs t built) in
      let pairs = climb_pairs c x p.siblings ++ tree_pairs t.layers in
      let grow =
        λ (k : HashBreak c t.leaves
            (climb_pairs c x p.siblings ++ tree_pairs (build_layers c (length t.leaves) t.leaves))).
          widen t.leaves (x ∷ xs) pairs pairs (λ l m. inr (leaf l m)) (λ q m. m)
            (subst (λ z. HashBreak c t.leaves (climb_pairs c x p.siblings ++ tree_pairs z))
              (sym fields.1) k) in
      elim (climb-node (length t.leaves) t.leaves p.siblings x
        (subst (λ z. In (climb c x p.siblings) (nodes z)) fields.1 at_root)) [
          | inr broken ↦ inr (grow broken)
          | inl h ↦ elim (layers-cases (length t.leaves) t.leaves x h) [
            | inl low ↦ inl (leaf x low)
            | inr (a, b, _, _, q, e) ↦ inr (
                HashBreak.leaf_is_node x a b (inl refl)
                  (In-append_right (a, b) (climb_pairs c x p.siblings) (tree_pairs t.layers)
                    (subst (λ z. In (a, b) (tree_pairs z)) (sym fields.1) q))
                  e)
          ]
        ]
