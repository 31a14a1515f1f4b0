-- ===== src/Examples/Trees.antt =====
-- Trees and sub-scope proofs over two intents.
use dyolo_kya.Prelude.{
  ◌≡◌, ◌↔◌, ◌⊎◌, inl, inr, refl, true, false, All, In, [], ◌∷◌, ◌++◌, sym, ap, ◌∙◌, last_or, ok,
  arith,
}
use dyolo_kya.Prelude.Bytes.{Bytes, bytes_beq}
use dyolo_kya.Prelude.Sort.{sort, dedup, bytes_lt}
use dyolo_kya.Crypto.{derive_key, merkle_node}
use dyolo_kya.Merkle.{
  IntentTree, MerkleProof, SubScopeProof, build, build_layers, next_layer, binary_search, path,
  sibling_at, root, prove, proof_verify, climb, sub_scope_build, verify_and_derive_root,
  verify_each,
}
use dyolo_kya.Merkle.Complete.{prove-verify}
use dyolo_kya.Merkle.Sound.{HashBreak, climb_pairs, tree_pairs, verify_sound}
use dyolo_kya.Merkle.Canonical.{build_canonical}
use dyolo_kya.Merkle.SubScope.{scope_pairs, derive-build, derive_sound}
use dyolo_kya.Examples.World.{toy, buy, sell, tree, buy_proof, buy_only}

-- The tree does not depend on the order of the intents.
pub tree_built : build toy (sell ∷ buy ∷ []) ≡ ok tree
unfolding build build_layers next_layer merkle_node derive_key sort dedup bytes_lt bytes_beq
tree_built = refl

abbrev buy_tree : IntentTree
buy_tree = record { leaves = buy ∷ []; layers = (buy ∷ []) ∷ [] }

buy_tree_built : build toy (buy ∷ []) ≡ ok buy_tree
unfolding build build_layers sort dedup
buy_tree_built = refl

tree_proves : prove tree buy ≡ ok buy_proof
unfolding prove binary_search path sibling_at bytes_beq
tree_proves = refl

pub tree-root : root tree ≡ 1 ∷ 10 ∷ 20 ∷ []
unfolding root
tree-root = refl

tree_accepts : proof_verify toy buy_proof buy (root tree) ≡ true
unfolding proof_verify climb root merkle_node derive_key bytes_beq
tree_accepts = refl

tree_rejects : proof_verify toy buy_proof sell (root tree) ≡ false
unfolding proof_verify climb root merkle_node derive_key bytes_beq
tree_rejects = refl

subset_derives : verify_and_derive_root toy buy_only (root tree) ≡ ok buy
unfolding verify_and_derive_root verify_each proof_verify climb root merkle_node derive_key
    bytes_beq build build_layers sort dedup
subset_derives = refl

prove-verify_example :
    (p : MerkleProof) × (prove tree sell ≡ ok p)
    × (proof_verify toy p sell (root tree) ≡ true)
    × (last_or tree.layers [] ≡ root tree ∷ [])
prove-verify_example = prove-verify toy (sell ∷ buy ∷ []) tree tree_built sell (inl refl)

verify_sound_example :
    In buy (sell ∷ buy ∷ [])
    ⊎ HashBreak toy
        (buy ∷ sell ∷ buy ∷ [])
        (climb_pairs toy buy buy_proof.siblings ++ tree_pairs tree.layers)
verify_sound_example = verify_sound toy (sell ∷ buy ∷ []) tree buy_proof buy tree_built tree_accepts

-- The tree and the proof hash one pair, and nothing breaks there.
one_pair :
    (p : Bytes × Bytes)
    → In p (climb_pairs toy buy buy_proof.siblings ++ tree_pairs tree.layers)
    → p ≡ (buy, sell)
one_pair p (inl e) = e
one_pair p (inr (inl e)) = e
one_pair p (inr (inr m)) = elim m [ ]

unbroken :
    ¬ HashBreak toy
      (buy ∷ sell ∷ buy ∷ [])
      (climb_pairs toy buy buy_proof.siblings ++ tree_pairs tree.layers)
unfolding merkle_node derive_key
unbroken (HashBreak.collision k) =
    let e = one_pair k.first k.first_in ∙ sym (one_pair k.second k.second_in) in
    k.different (ap (λ z. z.0) e, ap (λ z. z.1) e)
unbroken (HashBreak.leaf_is_node l a b m n e) =
    let q = one_pair (a, b) n in
    let node : l ≡ 1 ∷ 10 ∷ 20 ∷ [] = e ∙ ap (λ z. merkle_node toy z.0 z.1) q in
    elim m [
      | inl i ↦ cc (i, node)
      | inr (inl i) ↦ cc (i, node)
      | inr (inr (inl i)) ↦ cc (i, node)
      | inr (inr (inr i)) ↦ i
    ]

same_intents : (a : Bytes) → In a (sell ∷ buy ∷ buy ∷ []) ↔ In a (buy ∷ sell ∷ [])
same_intents a = (λ m. ground (arith, m), λ m. ground (arith, m))

build_canonical_example : build toy (sell ∷ buy ∷ buy ∷ []) ≡ build toy (buy ∷ sell ∷ [])
build_canonical_example = build_canonical toy (sell ∷ buy ∷ buy ∷ []) (buy ∷ sell ∷ []) same_intents

derive-build_example :
    (s : SubScopeProof) × (sub_scope_build tree (buy ∷ []) ≡ ok s)
    × (verify_and_derive_root toy s (root tree) ≡ ok (root buy_tree))
derive-build_example =
    derive-build toy (sell ∷ buy ∷ []) tree tree_built (buy ∷ []) buy_tree (inr (inl refl), tt)
      buy_tree_built

derive_sound_example :
    ((buy_only.subset_intents ≡ []) × (buy ≡ root tree))
    ⊎ ((sub : IntentTree) × (build toy buy_only.subset_intents ≡ ok sub)
        × (buy ≡ root sub)
        × All
            (λ y.
              In y (sell ∷ buy ∷ [])
              ⊎ HashBreak toy (y ∷ sell ∷ buy ∷ []) (
                  scope_pairs toy buy_only.subset_intents buy_only.proofs
                  ++ tree_pairs tree.layers))
            buy_only.subset_intents)
derive_sound_example =
    derive_sound toy (sell ∷ buy ∷ []) tree tree_built buy_only buy subset_derives
