-- ===== src/Passport/Issued.antt =====
-- src/passport/mod.rs: what `issue` and the first steps of `issue_sub` establish.
use dyolo_kya.Prelude.{
  ℕ, ◌≡◌, ◌<◌, refl, ap, subst, ◌∙◌, inl, inr, false, leb, All, In, List, [], ◌∷◌, some, ok, arith,
  Result-cases, Option-cases, Bool-cases, All-lookup,
}
use dyolo_kya.Prelude.Bytes.{Bytes}
use dyolo_kya.Crypto.{Crypto, Hex}
use dyolo_kya.Merkle.{IntentTree, build, root}
use dyolo_kya.Extensions
use dyolo_kya.Extensions.{CertExtensions}
use dyolo_kya.Cert
use dyolo_kya.Cert.{Signer, DelegationCert}
use dyolo_kya.Cert.Builder
use dyolo_kya.Cert.Builder.{CertBuilder}
use dyolo_kya.Narrowing.{from_capabilities}
use dyolo_kya.Passport.{
  DyoloPassport, set_all, with_extensions, or_return, cap_hash, cap_hashes, tree_of,
  root_extensions, root_builder, issue_root, issue,
}

pub All-self : (xs ys : List Bytes) → ((x : Bytes) → In x xs → In x ys) → All (λ x. In x ys) xs
All-self [] ys f = tt
All-self (x ∷ xs) ys f = (f x (inl refl), All-self xs ys (λ z m. f z (inr m)))

-- The certificate that a builder makes.
abbrev pub cert_of : Crypto → CertBuilder → Signer → DelegationCert
cert_of c b signer =
    Cert.issue c signer b.delegate_pk b.scope_root b.scope_proof b.nonce b.issued_at
      b.expiration_unix b.max_depth b.extensions

module _ (c : Crypto) where
  pub build-cert_of :
      (b : CertBuilder) (signer : Signer) (t : DelegationCert)
      → Builder.build c b signer ≡ ok t
      → (b.issued_at < b.expiration_unix) × (t ≡ cert_of c b signer)
  unfolding Builder.build
  build-cert_of b signer t h = elim (Bool-cases (leb b.expiration_unix b.issued_at)) [
    | inl e ↦ absurd (ground (arith, h))
    | inr e ↦ (ground (arith, e), ground (arith, h))
  ]

  pub build_lasting :
      (b : CertBuilder) (signer : Signer)
      → b.issued_at < b.expiration_unix
      → Builder.build c b signer ≡ ok (cert_of c b signer)
  unfolding Builder.build
  build_lasting b signer h =
      let lasts : leb b.expiration_unix b.issued_at ≡ false = ground arith in rw lasts refl

  -- What a passport that was issued for `caps` is.
  pub record IsIssued (caps : List Bytes) (signer : Signer) (p : DyoloPassport) : Type 0 where
    pub hashes : List Bytes
    pub tree : IntentTree
    pub hashed : cap_hashes c caps ≡ ok hashes
    pub built : build c hashes ≡ ok tree
    pub mask : p.capability_mask ≡ from_capabilities c caps
    pub named : p.capabilities ≡ caps
    pub scope : p.cert.scope_root ≡ root tree
    pub holder : p.cert.delegator_pk ≡ signer.verifying_key

  tree_of-parts :
      (caps : List Bytes) (tree : IntentTree)
      → tree_of c caps ≡ ok tree
      → (hashes : List Bytes) × (cap_hashes c caps ≡ ok hashes) × (build c hashes ≡ ok tree)
  unfolding tree_of
  tree_of-parts caps tree h = elim (Result-cases (cap_hashes c caps)) [
    | inl (hashes, q) ↦ (hashes, q, ground (arith, q, h))
    | inr (e, q) ↦ absurd (ground (arith, q, h))
  ]

  module _ (hex : Hex) (nonce namespace : Bytes) (caps : List Bytes) (ttl now : ℕ) (signer : Signer)
      (p : DyoloPassport) where
    root-IsIssued :
        (tree : IntentTree) (ext : CertExtensions)
        → tree_of c caps ≡ ok tree
        → issue_root c nonce namespace caps ttl signer now tree ext ≡ ok p
        → IsIssued caps signer p
    unfolding issue_root root_builder Builder.new Cert.issue
    root-IsIssued tree ext treed h =
        let b = root_builder nonce signer (root tree) now ttl ext in
        elim (Result-cases (Builder.build c b signer)) [
          | inr (e, q) ↦ absurd (ground (arith, q, h))
          | inl (t, q) ↦
              let made = (build-cert_of b signer t q).1 in
              let (hashes, hashed, built) = tree_of-parts caps tree treed in
              let same : p ≡ record {
                namespace = namespace;
                capability_mask = from_capabilities c caps;
                capabilities = caps;
                cert = t;
              } =
                ground (arith, q, h) in
              record {
                hashes = hashes;
                tree = tree;
                hashed = hashed;
                built = built;
                mask = rw same refl;
                named = rw same refl;
                scope = rw (same, made) refl;
                holder = rw (same, made) refl;
              }
        ]

    pub issue-IsIssued :
        issue c hex nonce namespace caps ttl signer now ≡ some (ok p) → IsIssued caps signer p
    unfolding issue or_return with_extensions
    issue-IsIssued h = elim (Result-cases (tree_of c caps)) [
      | inr (e, q) ↦ absurd (ground (arith, q, h))
      | inl (tree, q) ↦
          elim (Option-cases (
            set_all Extensions.new
              (root_extensions c hex namespace (from_capabilities c caps) caps))) [
                | inl panics ↦ absurd (ground (arith, q, panics, h))
                | inr (ext, sets) ↦ root-IsIssued tree ext q (ground (arith, q, sets, h))
              ]
    ]

  hashes_of_In :
      (caps hs : List Bytes) (x : Bytes)
      → cap_hashes c caps ≡ ok hs
      → In x caps
      → (h : Bytes) × (cap_hash c x ≡ ok h) × In h hs
  unfolding cap_hashes
  hashes_of_In [] hs x e m = absurd m
  hashes_of_In (cap ∷ caps) hs x e m = elim (Result-cases (cap_hash c cap)) [
    | inr (f, q) ↦ absurd (ground (arith, q, e))
    | inl (h, q) ↦ elim (Result-cases (cap_hashes c caps)) [
      | inr (f, r) ↦ absurd (ground (arith, q, r, e))
      | inl (rest, r) ↦
          let same : h ∷ rest ≡ hs = ground (arith, q, r, e) in
          elim m [
            | inl i ↦ (h, ap (cap_hash c) i ∙ q, subst (In h) same (inl refl))
            | inr i ↦
                let (k, hashed, within) = hashes_of_In caps rest x r i in
                (k, hashed, subst (In k) same (inr within))
          ]
    ]
  ]

  -- Capabilities of the list hash to hashes of the list.
  pub cap_hashes-All :
      (caps hs ys : List Bytes)
      → cap_hashes c caps ≡ ok hs
      → All (λ y. In y caps) ys
      → (ks : List Bytes) × (cap_hashes c ys ≡ ok ks) × All (λ k. In k hs) ks
  unfolding cap_hashes
  cap_hashes-All caps hs [] e h = ([], refl, tt)
  cap_hashes-All caps hs (y ∷ ys) e h =
      let (k, hashed, within) = hashes_of_In caps hs y e h.0 in
      let (ks, rest, inside) = cap_hashes-All caps hs ys e h.1 in
      (k ∷ ks, rw (hashed, rest) refl, (within, inside))

  -- The hash of each capability, and where it stands.
  pub cap_hashes-each :
      (ys ks hs : List Bytes)
      → cap_hashes c ys ≡ ok ks
      → All (λ k. In k hs) ks
      → (y : Bytes) → In y ys
      → (h : Bytes) × (cap_hash c y ≡ ok h) × In h hs
  cap_hashes-each ys ks hs e h y m =
      let (k, hashed, within) = hashes_of_In ys ks y e m in (k, hashed, All-lookup _ ks k h within)

  -- The tree of a list that is not empty.
  pub built_nonempty :
      (y : Bytes) (ys ks : List Bytes)
      → cap_hashes c (y ∷ ys) ≡ ok ks
      → (sub : IntentTree) × (build c ks ≡ ok sub)
  unfolding cap_hashes
  built_nonempty y ys ks e = elim (Result-cases (cap_hash c y)) [
    | inr (f, q) ↦ absurd (ground (arith, q, e))
    | inl (h, q) ↦ elim (Result-cases (cap_hashes c ys)) [
      | inr (f, r) ↦ absurd (ground (arith, q, r, e))
      | inl (rest, r) ↦
          let same : h ∷ rest ≡ ks = ground (arith, q, r, e) in
          subst (λ z. (sub : IntentTree) × (build c z ≡ ok sub)) same (of_cons h rest)
    ]
  ]
    where
      of_cons : (h : Bytes) (rest : List Bytes) → (sub : IntentTree) × (build c (h ∷ rest) ≡ ok sub)
      of_cons h rest = unfold build in (_, refl)
