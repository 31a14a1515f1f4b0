-- ===== src/Passport/Guard.antt =====
-- src/passport/mod.rs: when the guard grants an intent, over any stores.
use dyolo_kya.Prelude.{
  ℕ, ◌≡◌, ◌↔◌, ◌⊎◌, refl, ap, subst, ◌∙◌, inl, true, In, List, [], ◌∷◌, ◌++◌, some, none, Result,
  ok, err, arith,
}
use dyolo_kya.Prelude.Bytes.{Bytes}
use dyolo_kya.Error.{A1Error}
use dyolo_kya.Crypto.{Crypto, Hex}
use dyolo_kya.Intent
use dyolo_kya.Intent.{Intent}
use dyolo_kya.Merkle.{MerkleProof, IntentTree, build, root}
use dyolo_kya.Merkle.Sound.{HashBreak, climb_pairs, tree_pairs}
use dyolo_kya.Cert.{Signer}
use dyolo_kya.Chain.{DyoloChain, intent_authorized}
use dyolo_kya.Chain.Spec.{IsBatchVerifier, Scoped, last_scope, nonces}
use dyolo_kya.Chain.Within.{named, cert_pairs, authorized_within}
use dyolo_kya.Narrowing.{from_capabilities, is_subset_of, enforce_narrowing}
use dyolo_kya.Narrowing.Names.{place, is_subset_of-from_capabilities_iff}
use dyolo_kya.Registry.{NonceStore, RevocationStore}
use dyolo_kya.Authorize.{AuthorizedAction, authorize, authorize_with_options, receipt_of}
use dyolo_kya.Authorize.Guarantees.{Admissible, authorize_inner-ok_iff, validated}
use dyolo_kya.Passport.{DyoloPassport, cap_hashes, issue, receipt_for, guard_narrowed, guard}
use dyolo_kya.Passport.Receipt
use dyolo_kya.Passport.Receipt.{ProvableReceipt}
use dyolo_kya.Passport.Issued.{issue-IsIssued}

module _ (c : Crypto) (hex : Hex) {R S : Type 0} (revocation : RevocationStore R)
    (store : NonceStore S) where
  receipt_for-ok_iff :
      (p : DyoloPassport) (q : Result A1Error AuthorizedAction × S) (r : ProvableReceipt)
      → ((receipt_for c hex revocation store p q).0 ≡ ok r) ↔ (
          (a : AuthorizedAction) × (q.0 ≡ ok a)
          × (r ≡ Receipt.new c hex a.receipt p.namespace p.capability_mask))
  unfolding receipt_for
  receipt_for-ok_iff p (ok b, s) r = (λ h. (b, refl, ground (arith, h)), λ h. ground (arith, h))
  receipt_for-ok_iff p (err e, s) r = (λ h. cc h, λ h. cc (h.1))

  guard_narrowed-ok_iff :
      (q : Result A1Error (Unit {0})) (answer : Result A1Error ProvableReceipt × S) (s : S)
      (r : ProvableReceipt)
      → ((guard_narrowed c hex revocation store q answer s).0 ≡ ok r)
        ↔ ((q ≡ ok tt) × (answer.0 ≡ ok r))
  unfolding guard_narrowed
  guard_narrowed-ok_iff (ok u) answer s r = (λ h. (refl, h), λ h. h.1)
  guard_narrowed-ok_iff (err e) answer s r = (λ h. cc h, λ h. cc (h.0))

  module _ (p : DyoloPassport) (ch : DyoloChain) (agent : Bytes) (it : Intent) (proof : MerkleProof)
      (now then_now : ℕ) (r : R) (s : S) (batched : IsBatchVerifier c) where
    pub guard-ok_iff :
        (receipt : ProvableReceipt)
        → ((guard c hex revocation store p ch agent it proof now then_now r s).0 ≡ ok receipt) ↔ (
            (is_subset_of (from_capabilities c (it.action ∷ [])) p.capability_mask ≡ true)
            × Admissible c revocation store ch agent (Intent.hash c it) proof now none r
            × ((store.try_consume_batch (nonces ch.certs) s).0 ≡ ok true)
            × (receipt
                ≡ Receipt.new c hex
                    (receipt_of ch
                      (Intent.hash c it)
                      now
                      (validated c revocation store ch agent (Intent.hash c it) proof now))
                    p.namespace
                    p.capability_mask))
    unfolding guard authorize authorize_with_options enforce_narrowing
    guard-ok_iff receipt =
        let q = enforce_narrowing (from_capabilities c (it.action ∷ [])) p.capability_mask in
        let answer =
          authorize c revocation store hex.encode ch agent (Intent.hash c it) proof now then_now r
            s in
        let outer =
          guard_narrowed-ok_iff q (receipt_for c hex revocation store p answer) s receipt in
        let inner = receipt_for-ok_iff p answer receipt in
        let core = λ (a : AuthorizedAction).
          authorize_inner-ok_iff c revocation store ch agent (Intent.hash c it) proof now batched
            none r s a in
        (
          λ h.
              let (narrow, answered) = outer.0 h in
              let (a, granted, made) = inner.0 answered in
              let (admissible, taken, same) = (core a).0 granted in
              (
                ground (arith, narrow),
                admissible,
                taken,
                made ∙ ap (λ z. Receipt.new c hex z.receipt p.namespace p.capability_mask) same,
              ),
          λ h.
              let a : AuthorizedAction = record {
                receipt =
                    receipt_of ch (Intent.hash c it) now
                      (validated c revocation store ch agent (Intent.hash c it) proof now);
              } in
              outer.1 (rw h.0 refl, inner.1 (a, (core a).1 (h.1, h.2, refl), h.3)),
        )

-- What the guard grants on a chain of an issued passport's scope lies within the passport: the bit
-- of the intent's action is the bit of one of its capabilities, and the intent is one of its
-- capabilities' intents, however many certificates the chain has, unless the hash breaks among what
-- is hashed when the trees of the passport and the certificates are built and their proofs and the
-- intent's are verified: two different pairs of children there have one hash, or an intent is the hash
-- of one of these pairs. The batch verifier is assumed to accept exactly the batches whose every
-- signature verifies.
pub guard_within :
    (c : Crypto) (hex : Hex) {R S : Type 0} (revocation : RevocationStore R) (store : NonceStore S)
    (root_nonce namespace : Bytes) (caps : List Bytes) (root_ttl issued_at : ℕ) (signer : Signer)
    (p : DyoloPassport) (ch : DyoloChain) (agent : Bytes) (it : Intent) (proof : MerkleProof)
    (now then_now : ℕ) (r : R) (s : S) (receipt : ProvableReceipt)
    → IsBatchVerifier c
    → issue c hex root_nonce namespace caps root_ttl signer issued_at ≡ some (ok p)
    → ch.principal_scope ≡ p.cert.scope_root
    → (guard c hex revocation store p ch agent it proof now then_now r s).0 ≡ ok receipt
    → ((x : Bytes) × In x caps × (place c it.action ≡ place c x))
      × ((hs : List Bytes) × (tree : IntentTree) × (cap_hashes c caps ≡ ok hs)
          × (build c hs ≡ ok tree)
          × (In (Intent.hash c it) hs
              ⊎ HashBreak c (Intent.hash c it ∷ (hs ++ named ch.certs)) (
                  climb_pairs c (Intent.hash c it) proof.siblings
                  ++ (tree_pairs tree.layers ++ cert_pairs c ch.certs))))
guard_within c hex revocation store root_nonce namespace caps root_ttl issued_at signer p ch agent
      it proof now then_now r s receipt batched h anchored granted =
    let issued = issue-IsIssued c hex root_nonce namespace caps root_ttl issued_at signer p h in
    let (subset, admissible, _, _) =
      (guard-ok_iff c hex revocation store p ch agent it proof now then_now r s batched receipt).0
        granted in
    let tied : ch.principal_scope ≡ root issued.tree = anchored ∙ issued.scope in
    (
      (is_subset_of-from_capabilities_iff c (it.action ∷ []) caps).0
          (subst (λ m. is_subset_of (from_capabilities c (it.action ∷ [])) m ≡ true) issued.mask
            subset)
          it.action (inl refl),
      (
        issued.hashes,
        issued.tree,
        issued.hashed,
        issued.built,
        authorized_within c (Intent.hash c it) proof ch.certs issued.hashes issued.tree issued.built
            (subst (λ z. Scoped c z ch.certs) tied admissible.valid.scoped)
            (subst
              (λ z. intent_authorized c proof (Intent.hash c it) (last_scope z ch.certs) ≡ true)
              tied admissible.valid.authorized),
      ),
    )
