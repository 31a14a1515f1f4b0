-- ===== src/Chain/Within.antt =====
-- src/chain.rs: a chain hands on no more than its principal's intents, however many certificates it
-- has.
use dyolo_kya.Prelude.{
  ℕ, ◌≡◌, ◌⊎◌, inl, inr, refl, sym, subst, ◌∙◌, true, All, In, List, [], ◌∷◌, ◌++◌, ok, All-lookup,
  Subset, Subset-append, Subset-append-append, In-append_left, In-append_right, Result, err,
}
use dyolo_kya.Prelude.Bytes.{Bytes, bytes_eq}
use dyolo_kya.Crypto.{Crypto}
use dyolo_kya.Error.{A1Error}
use dyolo_kya.Merkle.{MerkleProof, SiblingNode, IntentTree, build, root, climb, proof_verify}
use dyolo_kya.Merkle.Sound.{HashBreak, climb_pairs, tree_pairs, verify_sound, widen}
use dyolo_kya.Merkle.SubScope.{scope_pairs, derive_sound}
use dyolo_kya.Cert.{DelegationCert}
use dyolo_kya.Chain.{DyoloChain, ChainValidationResult, intent_authorized, validate_structure}
use dyolo_kya.Chain.Spec.{Scoped, last_scope, IsBatchVerifier}
use dyolo_kya.Chain.Validate.{validate-IsValidChain}

-- The intents that the certificates' scope proofs name.
abbrev pub named : List DelegationCert → List Bytes
named [] = []
named (t ∷ ts) = t.scope_proof.subset_intents ++ named ts

-- The pairs that are hashed when a tree is built.
abbrev pub built_pairs : Result A1Error IntentTree → List (Bytes × Bytes)
built_pairs (ok t) = tree_pairs t.layers
built_pairs (err e) = []

-- The pairs that are hashed when the certificates' scope proofs are checked: the proofs of their
-- intents, and the trees of these.
abbrev pub cert_pairs : Crypto → List DelegationCert → List (Bytes × Bytes)
cert_pairs c [] = []
cert_pairs c (t ∷ ts) =
    scope_pairs c t.scope_proof.subset_intents t.scope_proof.proofs
    ++ (built_pairs (build c t.scope_proof.subset_intents) ++ cert_pairs c ts)

module _ (c : Crypto) where
  -- The chain's test of the intent is that of its Merkle proof.
  pub intent_authorized-eq-verify :
      (ns : List SiblingNode) (intent scope : Bytes)
      → intent_authorized c (record { siblings = ns }) intent scope
        ≡ proof_verify c (record { siblings = ns }) intent scope
  unfolding intent_authorized proof_verify climb
  intent_authorized-eq-verify [] intent scope = refl
  intent_authorized-eq-verify (n ∷ ns) intent scope = refl

  module _ (intent : Bytes) (proof : MerkleProof) where
    abbrev proof_pairs : List (Bytes × Bytes)
    proof_pairs = climb_pairs c intent proof.siblings

    -- What the chain leaves of the scope of a tree, with a break among the leaves and the pairs that are
    -- at hand.
    abbrev Within : List Bytes → IntentTree → List DelegationCert → Type 0
    Within xs tree ts =
        In intent xs
        ⊎ HashBreak c (intent ∷ (xs ++ named ts))
            (proof_pairs ++ (tree_pairs tree.layers ++ cert_pairs c ts))

    -- What is to be shown for the certificates `ts` below the tree of `xs`.
    abbrev Claim : List DelegationCert → List Bytes → IntentTree → Type 0
    Claim ts xs tree =
        build c xs ≡ ok tree
        → Scoped c (root tree) ts
        → intent_authorized c proof intent (last_scope (root tree) ts) ≡ true
        → Within xs tree ts

    module _ (t : DelegationCert) (ts : List DelegationCert) (xs : List Bytes)
        (tree : IntentTree) where
      abbrev ys : List Bytes
      ys = t.scope_proof.subset_intents

      abbrev proofs : List (Bytes × Bytes)
      proofs = scope_pairs c ys t.scope_proof.proofs

      abbrev sub_pairs : List (Bytes × Bytes)
      sub_pairs = built_pairs (build c ys)

      abbrev pairs : List (Bytes × Bytes)
      pairs = proof_pairs ++ (tree_pairs tree.layers ++ cert_pairs c (t ∷ ts))

      abbrev leaves : List Bytes
      leaves = intent ∷ (xs ++ named (t ∷ ts))

      intent_kept :
          (zs : List Bytes) → Subset zs (xs ++ named (t ∷ ts)) → Subset (intent ∷ zs) leaves
      intent_kept zs f l (inl e) = inl e
      intent_kept zs f l (inr m) = inr (f l m)

      below : Subset (cert_pairs c (t ∷ ts)) pairs
      below q m =
          In-append_right q proof_pairs (tree_pairs tree.layers ++ cert_pairs c (t ∷ ts))
            (In-append_right q (tree_pairs tree.layers) (cert_pairs c (t ∷ ts)) m)

      further : Subset (cert_pairs c ts) (cert_pairs c (t ∷ ts))
      further q m =
          In-append_right q proofs (sub_pairs ++ cert_pairs c ts)
            (In-append_right q sub_pairs (cert_pairs c ts) m)

      -- A certificate that hands the whole scope on.
      kept-Within : Within xs tree ts → Within xs tree (t ∷ ts)
      kept-Within (inl m) = inl m
      kept-Within (inr k) = inr (
          widen c (intent ∷ (xs ++ named ts)) leaves
            (proof_pairs ++ (tree_pairs tree.layers ++ cert_pairs c ts)) pairs
            (intent_kept (xs ++ named ts) (
              Subset-append-append xs (named ts) xs (named (t ∷ ts)) (λ l m. m)
                (λ l m. In-append_right l ys (named ts) m)))
            (Subset-append-append proof_pairs (tree_pairs tree.layers ++ cert_pairs c ts)
              proof_pairs (tree_pairs tree.layers ++ cert_pairs c (t ∷ ts)) (λ q m. m)
              (Subset-append-append (tree_pairs tree.layers) (cert_pairs c ts)
                (tree_pairs tree.layers) (cert_pairs c (t ∷ ts)) (λ q m. m) further))
            k)

      -- A certificate that narrows the scope to the tree `sub`.
      narrowed-Within :
          (sub : IntentTree)
          → build c ys ≡ ok sub
          → All (λ y. In y xs ⊎ HashBreak c (y ∷ xs) (proofs ++ tree_pairs tree.layers)) ys
          → Within ys sub ts
          → Within xs tree (t ∷ ts)
      narrowed-Within sub made inside (inr k) = inr (
          widen c (intent ∷ (ys ++ named ts)) leaves
            (proof_pairs ++ (tree_pairs sub.layers ++ cert_pairs c ts)) pairs
            (intent_kept (ys ++ named ts) (λ l m. In-append_right l xs (named (t ∷ ts)) m))
            (Subset-append proof_pairs (tree_pairs sub.layers ++ cert_pairs c ts) pairs
              (λ q m.
                In-append_left q proof_pairs (tree_pairs tree.layers ++ cert_pairs c (t ∷ ts)) m)
              (λ q m. below q (
                In-append_right q proofs (sub_pairs ++ cert_pairs c ts)
                  (subst (λ z. In q (built_pairs z ++ cert_pairs c ts)) (sym made) m))))
            k)
      narrowed-Within sub made inside (inl m) = elim (All-lookup _ ys intent inside m) [
        | inl h ↦ inl h
        | inr k ↦ inr (
            widen c (intent ∷ xs) leaves (proofs ++ tree_pairs tree.layers) pairs
              (intent_kept xs (λ l m. In-append_left l xs (named (t ∷ ts)) m))
              (Subset-append proofs (tree_pairs tree.layers) pairs
                (λ q m. below q (In-append_left q proofs (sub_pairs ++ cert_pairs c ts) m))
                (λ q m.
                  In-append_right q proof_pairs (tree_pairs tree.layers ++ cert_pairs c (t ∷ ts))
                    (In-append_left q (tree_pairs tree.layers) (cert_pairs c (t ∷ ts)) m)))
              k)
      ]

      step-Within :
          ((zs : List Bytes) (sub : IntentTree) → Claim ts zs sub)
          → build c xs ≡ ok tree
          → ((ys ≡ []) × (t.scope_root ≡ root tree))
            ⊎ ((sub : IntentTree) × (build c ys ≡ ok sub)
                × (t.scope_root ≡ root sub)
                × All (λ y. In y xs ⊎ HashBreak c (y ∷ xs) (proofs ++ tree_pairs tree.layers)) ys)
          → Scoped c t.scope_root ts
          → intent_authorized c proof intent (last_scope t.scope_root ts) ≡ true
          → Within xs tree (t ∷ ts)
      step-Within ih built (inl (none, same)) scoped h = kept-Within (
          ih xs tree built (subst (λ r. Scoped c r ts) same scoped)
            (subst (λ r. intent_authorized c proof intent (last_scope r ts) ≡ true) same h))
      step-Within ih built (inr (sub, made, same, inside)) scoped h =
          narrowed-Within sub made inside (
            ih ys sub made (subst (λ r. Scoped c r ts) same scoped)
              (subst (λ r. intent_authorized c proof intent (last_scope r ts) ≡ true) same h))

    -- If the principal's scope is the root of a tree, then an intent that the chain's scope proofs lead
    -- to is an intent of that tree, unless the hash breaks among what is hashed when the trees are
    -- built and the proofs are verified.
    pub authorized_within :
        (ts : List DelegationCert) (xs : List Bytes) (tree : IntentTree) → Claim ts xs tree
    authorized_within [] xs tree built scoped h =
        elim (verify_sound c xs tree proof intent built
          (sym (intent_authorized-eq-verify proof.siblings intent (root tree)) ∙ h)) [
            | inl m ↦ inl m
            | inr k ↦ inr (
                widen c (intent ∷ xs) (intent ∷ (xs ++ [])) (proof_pairs ++ tree_pairs tree.layers)
                  (proof_pairs ++ (tree_pairs tree.layers ++ []))
                  (λ l m. elim m [ inl e ↦ inl e | inr n ↦ inr (In-append_left l xs [] n) ])
                  (Subset-append-append proof_pairs (tree_pairs tree.layers) proof_pairs
                    (tree_pairs tree.layers ++ []) (λ q m. m)
                    (λ q m. In-append_left q (tree_pairs tree.layers) [] m))
                  k)
          ]
    authorized_within (t ∷ ts) xs tree built scoped h = elim scoped.0 [
      | inl (none, _, same) ↦
          step-Within t ts xs tree (authorized_within ts) built (inl (none, same)) scoped.1 h
      | inr (_, derived) ↦
          step-Within t ts xs tree (authorized_within ts) built
            (derive_sound c xs tree built t.scope_proof t.scope_root derived) scoped.1 h
    ]

-- If the principal's scope is the root of a tree, then the chain, when it validates for an intent,
-- authorizes an intent of that tree, however many certificates it has, unless the hash breaks among
-- what is hashed when the trees of the principal and the certificates are built and their proofs and
-- the intent's are verified: two different pairs of children there have one hash, or an intent is the
-- hash of one of these pairs. The batch verifier is assumed to accept exactly the batches whose every
-- signature verifies.
pub validate_within :
    (c : Crypto) (ch : DyoloChain) (agent intent : Bytes) (proof : MerkleProof) (now drift : ℕ)
    (v : ChainValidationResult) (xs : List Bytes) (tree : IntentTree)
    → IsBatchVerifier c
    → build c xs ≡ ok tree
    → ch.principal_scope ≡ root tree
    → validate_structure c ch agent intent proof now drift ≡ ok v
    → In intent xs
      ⊎ HashBreak c
          (intent ∷ (xs ++ named ch.certs))
          (climb_pairs c intent proof.siblings ++ (tree_pairs tree.layers ++ cert_pairs c ch.certs))
validate_within c ch agent intent proof now drift v xs tree batched built anchored h =
    let valid = (validate-IsValidChain c ch agent intent proof now drift batched v h).0 in
    authorized_within c intent proof ch.certs xs tree built
      (subst (λ r. Scoped c r ch.certs) anchored valid.scoped)
      (subst (λ r. intent_authorized c proof intent (last_scope r ch.certs) ≡ true) anchored
        valid.authorized)
