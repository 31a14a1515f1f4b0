-- ===== src/Merkle/SubScope.antt =====
-- src/intent.rs: `SubScopeProof` narrows a scope to a subset of its intents, and to no more.
use dyolo_kya.Prelude.{
  ◌≡◌, refl, true, List, [], ◌∷◌, ◌++◌, In, In-append_left, In-append_right, Subset, Subset-append,
  All, ◌⊎◌, inl, inr, ok, length, arith, nat_eq, Result-cases,
}
use dyolo_kya.Prelude.Bytes.{Bytes}
use dyolo_kya.Crypto.{Crypto}
use dyolo_kya.Merkle.{
  MerkleProof, SubScopeProof, IntentTree, build, root, prove, prove_all, sub_scope_build,
  verify_each, verify_and_derive_root,
}
use dyolo_kya.Merkle.Complete.{prove-verify, In-of_prove}
use dyolo_kya.Merkle.Sound.{HashBreak, climb_pairs, tree_pairs, widen, verify_sound}

-- The pairs that are hashed when the proofs of a scope are verified.
abbrev pub scope_pairs : Crypto → List Bytes → List MerkleProof → List (Bytes × Bytes)
scope_pairs c (y ∷ ys) (p ∷ ps) = climb_pairs c y p.siblings ++ scope_pairs c ys ps
scope_pairs c _ _ = []

module _ (c : Crypto) (xs : List Bytes) (t : IntentTree) (built : build c xs ≡ ok t) where
  prove_all-verify_each :
      (ys : List Bytes)
      → All (λ y. In y xs) ys
      → (ps : List MerkleProof) × (prove_all t ys ≡ ok ps)
        × (length ys ≡ length ps)
        × (verify_each c (root t) ys ps ≡ true)
  unfolding prove_all verify_each
  prove_all-verify_each [] h = ([], refl, refl, refl)
  prove_all-verify_each (y ∷ ys) h =
      let (p, proved, accepted, _) = prove-verify c xs t built y h.0 in
      let (ps, rest, lengths, checked) = prove_all-verify_each ys h.1 in
      (p ∷ ps, rw (proved, rest), ground arith, rw (accepted, checked))

  -- A proof that `SubScopeProof::build` makes for intents of the parent tree, at least one of
  -- them, is accepted against the parent's root, and derives the root of the tree of those
  -- intents.
  pub derive-build :
      (ys : List Bytes) (sub : IntentTree)
      → All (λ y. In y xs) ys
      → build c ys ≡ ok sub
      → (s : SubScopeProof) × (sub_scope_build t ys ≡ ok s)
        × (verify_and_derive_root c s (root t) ≡ ok (root sub))
  unfolding sub_scope_build verify_and_derive_root
  derive-build [] sub h made = unfold build in cc made
  derive-build (y ∷ ys) sub h made =
      let (ps, proved, lengths, checked) = prove_all-verify_each (y ∷ ys) h in
      (
        record { subset_intents = y ∷ ys; proofs = ps },
        rw proved,
        rw (made, checked) (ground arith),
      )

  prove_all-In :
      (ys : List Bytes) (ps : List MerkleProof) → prove_all t ys ≡ ok ps → All (λ y. In y xs) ys
  unfolding prove_all
  prove_all-In [] ps h = tt
  prove_all-In (y ∷ ys) ps h = elim (Result-cases (prove t y)) [
    | inr (e, q) ↦ absurd (ground (arith, q, h))
    | inl (p, q) ↦ elim (Result-cases (prove_all t ys)) [
      | inr (e, r) ↦ absurd (ground (arith, q, r, h))
      | inl (rest, r) ↦ (In-of_prove c xs t built y p q, prove_all-In ys rest r)
    ]
  ]

  -- A sub-scope proof is made for intents of the tree alone.
  pub sub_scope_build-In :
      (ys : List Bytes) (s : SubScopeProof)
      → sub_scope_build t ys ≡ ok s
      → (s.subset_intents ≡ ys) × All (λ y. In y xs) ys
  unfolding sub_scope_build
  sub_scope_build-In ys s h = elim (Result-cases (prove_all t ys)) [
    | inr (e, q) ↦ absurd (ground (arith, q, h))
    | inl (ps, q) ↦ (ground (arith, q, h), prove_all-In ys ps q)
  ]

  -- An intent of the tree, or a break among the pairs.
  abbrev Inside : List (Bytes × Bytes) → Bytes → Type 0
  Inside pairs y = In y xs ⊎ HashBreak c (y ∷ xs) pairs

  verify_each_sound :
      (ys : List Bytes) (ps : List MerkleProof) (pairs : List (Bytes × Bytes))
      → length ys ≡ length ps
      → verify_each c (root t) ys ps ≡ true
      → Subset (scope_pairs c ys ps ++ tree_pairs t.layers) pairs
      → All (Inside pairs) ys
  unfolding verify_each
  verify_each_sound [] ps pairs e h f = tt
  verify_each_sound (y ∷ ys) [] pairs e h f = absurd (omega arith)
  verify_each_sound (y ∷ ys) (p ∷ ps) pairs e h f =
      let one = climb_pairs c y p.siblings in
      let rest = scope_pairs c ys ps in
      let tree = tree_pairs t.layers in
      let above : Subset tree pairs = λ q m. f q (In-append_right q (one ++ rest) tree m) in
      let first : Subset one pairs =
        λ q m. f q (In-append_left q (one ++ rest) tree (In-append_left q one rest m)) in
      let others : Subset rest pairs =
        λ q m. f q (In-append_left q (one ++ rest) tree (In-append_right q one rest m)) in
      (
        elim (verify_sound c xs t p y built (ground (arith, h))) [
          | inl m ↦ inl m
          | inr k ↦ inr (
              widen c (y ∷ xs) (y ∷ xs) (one ++ tree) pairs (λ l m. m)
                (Subset-append one tree pairs first above) k)
        ],
        verify_each_sound ys ps pairs (omega arith) (ground (arith, h))
            (Subset-append rest tree pairs others above),
      )

  derive_parts :
      (y : Bytes) (ys : List Bytes) (ps : List MerkleProof) (r : Bytes)
      → verify_and_derive_root c (record { subset_intents = y ∷ ys; proofs = ps }) (root t) ≡ ok r
      → (sub : IntentTree) × (build c (y ∷ ys) ≡ ok sub)
        × (r ≡ root sub)
        × (length (y ∷ ys) ≡ length ps)
        × (verify_each c (root t) (y ∷ ys) ps ≡ true)
  unfolding verify_and_derive_root
  derive_parts y ys ps r h = elim (Result-cases (build c (y ∷ ys))) [
    | inl (sub, made) ↦ (sub, made, ground arith, ground arith, ground arith)
    | inr (e, made) ↦ absurd (ground arith)
  ]

  derive_cases :
      (ys : List Bytes) (ps : List MerkleProof) (r : Bytes)
      → verify_and_derive_root c (record { subset_intents = ys; proofs = ps }) (root t) ≡ ok r
      → ((ys ≡ []) × (r ≡ root t))
        ⊎ ((sub : IntentTree) × (build c ys ≡ ok sub)
            × (r ≡ root sub)
            × All (Inside (scope_pairs c ys ps ++ tree_pairs t.layers)) ys)
  derive_cases [] ps r h = inl (refl, unfold verify_and_derive_root in cc h)
  derive_cases (y ∷ ys) ps r h =
      let (sub, made, e, lengths, checked) = derive_parts y ys ps r h in
      inr (sub, made, e, verify_each_sound (y ∷ ys) ps _ lengths checked (λ q m. m))

  -- A sub-scope proof that is accepted against the root of a tree derives either that same root, where
  -- it names no intent, or the root of the tree of its intents, each of which belongs to the parent's
  -- tree, unless the hash breaks among what is hashed when that tree is built and the proofs are
  -- verified: two different pairs of children there have one hash, or an intent is the hash of one of
  -- these pairs.
  pub derive_sound :
      (s : SubScopeProof) (r : Bytes)
      → verify_and_derive_root c s (root t) ≡ ok r
      → ((s.subset_intents ≡ []) × (r ≡ root t))
        ⊎ ((sub : IntentTree) × (build c s.subset_intents ≡ ok sub)
            × (r ≡ root sub)
            × All
                (λ y.
                  In y xs
                  ⊎ HashBreak c
                      (y ∷ xs)
                      (scope_pairs c s.subset_intents s.proofs ++ tree_pairs t.layers))
                s.subset_intents)
  derive_sound s r h = derive_cases s.subset_intents s.proofs r h
