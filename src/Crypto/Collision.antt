-- ===== src/Crypto/Collision.antt =====
-- src/crypto.rs: collisions of the node hash among given pairs of children. A soundness theorem
-- names the pairs that the code hashes in the run at hand, so that the collision is one that the
-- run exhibits, never one that merely exists.
use dyolo_kya.Prelude.{
  ℕ, ◌≢◌, sym, ◌∙◌, All, All-lookup, length, ◌++◌, ◌≡◌, ◌⊎◌, inl, inr, In, List, [], ◌∷◌, ◌==◌,
  arith, Bool-cases,
}
use dyolo_kya.Prelude.Bytes.{Bytes, bytes_eq, bytes_beq_iff, split_at}
use dyolo_kya.Crypto.{Crypto, derive_key, merkle_node, domain_merkle_node, cert_version}

-- The pairs that one round over a layer hashes.
abbrev pub chunks : List Bytes → List (Bytes × Bytes)
chunks [] = []
chunks (a ∷ []) = []
chunks (a ∷ b ∷ r) = (a, b) ∷ chunks r

module _ (node : Bytes → Bytes → Bytes) where
  -- Two different pairs of the list with one hash.
  pub record Collision (pairs : List (Bytes × Bytes)) : Type 0 where
    pub first : Bytes × Bytes
    pub second : Bytes × Bytes
    pub first_in : In first pairs
    pub second_in : In second pairs
    pub same : node first.0 first.1 ≡ node second.0 second.1
    pub different : ¬ ((first.0 ≡ second.0) × (first.1 ≡ second.1))

  pub Collision-widen :
      (ps qs : List (Bytes × Bytes))
      → ((p : Bytes × Bytes) → In p ps → In p qs)
      → Collision ps
      → Collision qs
  Collision-widen ps qs f k = record {
    first = k.first;
    second = k.second;
    first_in = f k.first k.first_in;
    second_in = f k.second k.second_in;
    same = k.same;
    different = k.different;
  }

  -- Two pairs with one hash are the same pair, or they collide.
  pub same_children :
      (ps : List (Bytes × Bytes)) (a b a' b' : Bytes)
      → In (a, b) ps
      → In (a', b') ps
      → node a b ≡ node a' b'
      → ((a ≡ a') × (b ≡ b')) ⊎ Collision ps
  same_children ps a b a' b' m m' e =
      let broken : ¬ ((a ≡ a') × (b ≡ b')) → Collision ps = λ n. record {
        first = (a, b);
        second = (a', b');
        first_in = m;
        second_in = m';
        same = e;
        different = n;
      } in
      elim (Bool-cases (a == a')) [
        | inr n ↦ inr (broken λ q. ground (arith, n, bytes_beq_iff a a', q.0))
        | inl p ↦ elim (Bool-cases (b == b')) [
          | inr n ↦ inr (broken λ q. ground (arith, n, bytes_beq_iff b b', q.1))
          | inl q ↦ inl ((bytes_beq_iff a a').0 p, (bytes_beq_iff b b').0 q)
        ]
      ]

-- A collision of pairs whose first values have one length, as the 32 bytes of the source have, is one
-- of the hash itself: two different strings with one hash.
pub Collision-derive :
    (c : Crypto) (n : ℕ) (ps : List (Bytes × Bytes))
    → All (λ p. length p.0 ≡ n) ps
    → Collision (merkle_node c) ps
    → (m : Bytes) × (m' : Bytes) × (c.derive domain_merkle_node m ≡ c.derive domain_merkle_node m')
      × (m ≢ m')
unfolding merkle_node derive_key
Collision-derive c n ps sized k =
    let (a, b) = k.first in
    let (a', b') = k.second in
    let equal : length a ≡ length a' =
      All-lookup _ ps k.first sized k.first_in ∙ sym (All-lookup _ ps k.second sized k.second_in) in
    (
      cert_version ∷ (a ++ b),
      cert_version ∷ (a' ++ b'),
      k.same,
      λ e. k.different (split_at a a' b b' equal (ground (arith, e))),
    )
