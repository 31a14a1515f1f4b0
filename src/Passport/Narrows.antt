-- ===== src/Passport/Narrows.antt =====
-- src/passport/mod.rs: a certificate that `issue_sub` makes covers capabilities of the passport
-- alone, and every list of them.
use dyolo_kya.Prelude.{
  ℕ, ◌≡◌, ◌<◌, refl, sym, ap, subst, ◌∙◌, inl, inr, true, All, In, List, ◌∷◌, some, ok,
  ok_injective, arith, Result-cases, Option-cases, All-lookup,
}
use dyolo_kya.Prelude.Bytes.{Bytes}
use dyolo_kya.Prelude.Words.{saturating_add}
use dyolo_kya.Crypto.{Crypto, Hex}
use dyolo_kya.Merkle.{
  IntentTree, SubScopeProof, build, root, sub_scope_build, verify_and_derive_root,
}
use dyolo_kya.Merkle.SubScope.{derive-build, sub_scope_build-In}
use dyolo_kya.Extensions
use dyolo_kya.Extensions.{CertExtensions}
use dyolo_kya.Cert
use dyolo_kya.Cert.{Signer, DelegationCert}
use dyolo_kya.Cert.Builder
use dyolo_kya.Narrowing.{from_capabilities, is_subset_of, enforce_narrowing}
use dyolo_kya.Narrowing.Names.{place, is_subset_of-from_capabilities_iff}
use dyolo_kya.Passport.{
  DyoloPassport, set_all, with_extensions, or_return, cap_hash, cap_hashes, tree_of,
  capability_tree, passport_extensions, sub_builder, narrow_scope, issue, issue_sub,
}
use dyolo_kya.Passport.Issued.{
  IsIssued, issue-IsIssued, cert_of, build-cert_of, build_lasting, cap_hashes-All, cap_hashes-each,
  built_nonempty,
}

-- Some capability of the passport has the bit of this one.
abbrev pub IsHeld : Crypto → List Bytes → Bytes → Type 0
IsHeld c caps y = (x : Bytes) × In x caps × (place c y ≡ place c x)

module _ (c : Crypto) (caps : List Bytes) (signer : Signer) (p : DyoloPassport)
    (issued : IsIssued c caps signer p) where
  -- The scope of a sub-certificate for the capabilities `ys`.
  pub record Narrowed (ys : List Bytes) (s : SubScopeProof) (sub : IntentTree) : Type 0 where
    pub hashes : List Bytes
    pub hashed : cap_hashes c ys ≡ ok hashes
    pub inside : All (λ h. In h issued.hashes) hashes
    pub named : s.subset_intents ≡ hashes
    pub built : build c hashes ≡ ok sub
    pub derives : verify_and_derive_root c s (root issued.tree) ≡ ok (root sub)
    pub held : (y : Bytes) → In y ys → IsHeld c caps y

  tree_again : capability_tree c p ≡ ok issued.tree
  unfolding capability_tree tree_of
  tree_again = rw (issued.named, issued.hashed) issued.built

  enforced-held :
      (ys : List Bytes)
      → enforce_narrowing (from_capabilities c ys) p.capability_mask ≡ ok tt
      → (y : Bytes) → In y ys
      → IsHeld c caps y
  unfolding enforce_narrowing
  enforced-held ys h =
      (is_subset_of-from_capabilities_iff c ys caps).0 (
        subst (λ m. is_subset_of (from_capabilities c ys) m ≡ true) issued.mask (ground (arith, h)))

  pub narrow_scope-Narrowed :
      (ys : List Bytes) (s : SubScopeProof) (sub : IntentTree)
      → narrow_scope c p ys ≡ ok (s, sub)
      → Narrowed ys s sub
  unfolding narrow_scope
  narrow_scope-Narrowed ys s sub h =
      elim (Result-cases (enforce_narrowing (from_capabilities c ys) p.capability_mask)) [
        | inr (e, q) ↦ absurd (ground (arith, q, h))
        | inl (u, q) ↦ elim (Result-cases (cap_hashes c ys)) [
          | inr (e, r) ↦ absurd (ground (arith, q, r, tree_again, h))
          | inl (ks, r) ↦ elim (Result-cases (sub_scope_build issued.tree ks)) [
            | inr (e, m) ↦ absurd (ground (arith, q, r, m, tree_again, h))
            | inl (s', m) ↦ elim (Result-cases (build c ks)) [
              | inr (e, n) ↦ absurd (ground (arith, q, r, m, n, tree_again, h))
              | inl (sub', n) ↦
                  let (same, inside) =
                    sub_scope_build-In c issued.hashes issued.tree issued.built ks s' m in
                  let first : s' ≡ s = ground (arith, q, r, m, n, tree_again, h) in
                  let second : sub' ≡ sub = ground (arith, q, r, m, n, tree_again, h) in
                  let (t, made, derives) =
                    derive-build c issued.hashes issued.tree issued.built ks sub' inside n in
                  record {
                    hashes = ks;
                    hashed = r;
                    inside = inside;
                    named = ap (λ z. z.subset_intents) (sym first) ∙ same;
                    built = n ∙ ap ok second;
                    derives =
                        rw (← first, ← second)
                          (ap (λ z. verify_and_derive_root c z (root issued.tree))
                              (ok_injective s' t (sym m ∙ made))
                            ∙ derives);
                    held = enforced-held ys q;
                  }
            ]
          ]
        ]
      ]

  -- Capabilities of the passport, at least one of them, are not refused.
  pub narrow_scope_held :
      (y : Bytes) (ys : List Bytes)
      → All (λ z. In z caps) (y ∷ ys)
      → (s : SubScopeProof) × (sub : IntentTree) × (narrow_scope c p (y ∷ ys) ≡ ok (s, sub))
  unfolding narrow_scope enforce_narrowing
  narrow_scope_held y ys h =
      let (ks, hashed, inside) = cap_hashes-All c caps issued.hashes (y ∷ ys) issued.hashed h in
      let (sub, made) = built_nonempty c y ys ks hashed in
      let (s, scoped, derives) =
        derive-build c issued.hashes issued.tree issued.built ks sub inside made in
      let subset =
        subst (λ m. is_subset_of (from_capabilities c (y ∷ ys)) m ≡ true) (sym issued.mask)
          ((is_subset_of-from_capabilities_iff c (y ∷ ys) caps).1
            (λ x m. (x, All-lookup _ (y ∷ ys) x h m, refl))) in
      (s, sub, rw (subset, tree_again, hashed, scoped, made) refl)

module _ (c : Crypto) (hex : Hex) (nonce : Bytes) (p : DyoloPassport) (delegate : Bytes)
    (ys : List Bytes) (ttl : ℕ) (signer : Signer) (now : ℕ) where
  -- What `issue_sub` went through when it returned a certificate.
  pub record Subbed (t : DelegationCert) : Type 0 where
    pub proof : SubScopeProof
    pub tree : IntentTree
    pub extensions : CertExtensions
    pub narrowed : narrow_scope c p ys ≡ ok (proof, tree)
    pub made : t ≡ cert_of c (sub_builder nonce delegate (proof, tree) now ttl extensions) signer

  pub issue_sub-Subbed :
      (t : DelegationCert)
      → issue_sub c hex nonce p delegate ys ttl signer now ≡ some (ok t)
      → Subbed t
  unfolding issue_sub or_return with_extensions
  issue_sub-Subbed t h = elim (Result-cases (narrow_scope c p ys)) [
    | inr (e, q) ↦ absurd (ground (arith, q, h))
    | inl ((s, sub), q) ↦
        elim (Option-cases (
          set_all Extensions.new
            (passport_extensions c hex p.namespace (from_capabilities c ys)))) [
              | inl panics ↦ absurd (ground (arith, q, panics, h))
              | inr (ext, sets) ↦ record {
                proof = s;
                tree = sub;
                extensions = ext;
                narrowed = q;
                made =
                    (build-cert_of c (sub_builder nonce delegate (s, sub) now ttl ext) signer t
                      (ground (arith, q, sets, h))).1;
              }
            ]
  ]

  -- With room for the extensions and a lifetime, capabilities of the passport are delegated.
  pub issue_sub_held :
      (s : SubScopeProof) (sub : IntentTree) (ext : CertExtensions)
      → narrow_scope c p ys ≡ ok (s, sub)
      → set_all Extensions.new (passport_extensions c hex p.namespace (from_capabilities c ys))
        ≡ some ext
      → now < saturating_add now ttl
      → issue_sub c hex nonce p delegate ys ttl signer now
        ≡ some (ok (cert_of c (sub_builder nonce delegate (s, sub) now ttl ext) signer))
  unfolding issue_sub or_return with_extensions
  issue_sub_held s sub ext q sets lasts =
      rw (q, sets)
        (ap some (
          build_lasting c (sub_builder nonce delegate (s, sub) now ttl ext) signer
            (unfold sub_builder Builder.new in lasts)))

-- A certificate that a passport's `issue_sub` returns covers capabilities of the passport alone:
-- the bit of each is the bit of one of the passport's, its intent is an intent of the passport's
-- tree, and the certificate's scope proof derives its scope from the passport's.
pub issue_sub_narrows :
    (c : Crypto) (hex : Hex) (root_nonce nonce namespace delegate : Bytes) (caps ys : List Bytes)
    (root_ttl ttl issued_at now : ℕ) (signer issuer : Signer) (p : DyoloPassport)
    (t : DelegationCert)
    → issue c hex root_nonce namespace caps root_ttl signer issued_at ≡ some (ok p)
    → issue_sub c hex nonce p delegate ys ttl issuer now ≡ some (ok t)
    → ((y : Bytes)
        → In y ys
        → IsHeld c caps y
          × ((h : Bytes) × (hs : List Bytes) × (cap_hash c y ≡ ok h)
              × (cap_hashes c caps ≡ ok hs)
              × In h hs))
      × (verify_and_derive_root c t.scope_proof p.cert.scope_root ≡ ok t.scope_root)
unfolding sub_builder Builder.new Cert.issue
issue_sub_narrows c hex root_nonce nonce namespace delegate caps ys root_ttl ttl issued_at now
      signer issuer p t h k =
    let issued = issue-IsIssued c hex root_nonce namespace caps root_ttl issued_at signer p h in
    let subbed = issue_sub-Subbed c hex nonce p delegate ys ttl issuer now t k in
    let n =
      narrow_scope-Narrowed c caps signer p issued ys subbed.proof subbed.tree subbed.narrowed in
    (
      λ y m.
          let (key, hashed, within) =
            cap_hashes-each c ys n.hashes issued.hashes n.hashed n.inside y m in
          (n.held y m, (key, issued.hashes, hashed, issued.hashed, within)),
      rw (subbed.made, issued.scope) n.derives,
    )
