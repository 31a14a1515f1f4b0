-- ===== src/Authorize/Revoked.antt =====
-- src/chain.rs over the revocation store of src/registry.rs: a revoked certificate authorizes
-- nothing any more.
use dyolo_kya.Prelude.{
  ℕ, ◌≡◌, ◌≢◌, inl, inr, refl, sym, subst, ◌∙◌, true, false, All, In, List, [], ◌∷◌, map, Option,
  ok, arith,
}
use dyolo_kya.Prelude.Bytes.{Bytes, bytes_eq, bytes_beq_iff}
use dyolo_kya.Crypto.{Crypto}
use dyolo_kya.Merkle.{MerkleProof}
use dyolo_kya.Cert.{DelegationCert, fingerprint}
use dyolo_kya.Chain.{DyoloChain}
use dyolo_kya.Chain.Spec.{IsBatchVerifier}
use dyolo_kya.Policy.{DelegationPolicy}
use dyolo_kya.Registry.{NonceStore}
use dyolo_kya.Registry.Revocation.{MemoryRevocationStore, contains, is_revoked, revoke_batch}
use dyolo_kya.Registry.Revocation.Laws
use dyolo_kya.Registry.Revocation.Batch.{revoke_batch_refines}
use dyolo_kya.Authorize.{AuthorizedAction, authorize_inner}
use dyolo_kya.Authorize.Guarantees.{authorize_inner-ok_iff}
use dyolo_kya.Authorize.Stores.{revocations}

-- The store behind a sequence of calls of `revoke_batch`.
abbrev pub after_all : List (List Bytes) → MemoryRevocationStore → MemoryRevocationStore
after_all [] s = s
after_all (fps ∷ more) s = after_all more (revoke_batch fps s).1

-- What is revoked stays revoked.
after_all-keeps :
    (more : List (List Bytes)) (fp : Bytes) (s : MemoryRevocationStore)
    → Laws.IsValid s
    → is_revoked fp s ≡ ok true
    → is_revoked fp (after_all more s) ≡ ok true
after_all-keeps [] fp s v h = h
after_all-keeps (fps ∷ more) fp s v h =
    let r = revoke_batch_refines fps fp s v in after_all-keeps more fp _ r.2 (ground (arith, r.1))

In-contains : (fp : Bytes) (fps : List Bytes) → In fp fps → contains fps fp ≡ true
In-contains fp [] m = elim m [ ]
In-contains fp (x ∷ fps) (inl e) = ground (arith, bytes_beq_iff x fp)
In-contains fp (x ∷ fps) (inr m) = ground (arith, In-contains fp fps m)

-- A batch of revocations lasts.
pub revoked_after :
    (fps : List Bytes) (more : List (List Bytes)) (fp : Bytes) (r : MemoryRevocationStore)
    → Laws.IsValid r
    → In fp fps
    → is_revoked fp (after_all more (revoke_batch fps r).1) ≡ ok true
revoked_after fps more fp r v m =
    let q = revoke_batch_refines fps fp r v in
    after_all-keeps more fp _ q.2 (q.1 ∙ rw (In-contains fp fps m) refl)

All-map_In :
    {A : Type 0} (P : Bytes → Type 0) (f : A → Bytes) (t : A) (ts : List A)
    → In t ts
    → All P (map f ts)
    → P (f t)
All-map_In P f t [] m a = elim m [ ]
All-map_In P f t (u ∷ ts) (inl e) a = subst (λ x. P (f x)) (sym e) a.0
All-map_In P f t (u ∷ ts) (inr m) a = All-map_In P f t ts m a.1

module _ (c : Crypto) (batched : IsBatchVerifier c) {S : Type 0} (store : NonceStore S) where
  -- When a batch of revocations that names a certificate's fingerprint has been written to a valid
  -- store, no chain with that certificate is authorized, for no intent, policy or nonce store,
  -- whatever else is revoked in between. The batch verifier is assumed to accept exactly the
  -- batches whose every signature verifies.
  pub revoked_refused :
      (fps : List Bytes) (more : List (List Bytes)) (t : DelegationCert) (ch : DyoloChain)
      (agent intent : Bytes) (proof : MerkleProof) (now : ℕ)
      (policy : Option (List DelegationPolicy)) (r : MemoryRevocationStore) (s : S)
      (a : AuthorizedAction)
      → Laws.IsValid r
      → In (fingerprint c t) fps
      → In t ch.certs
      → (authorize_inner c revocations store ch agent intent proof now policy
          (after_all more (revoke_batch fps r).1)
          s).0
        ≢ ok a
  revoked_refused fps more t ch agent intent proof now policy r s a v m k h =
      let r' = after_all more (revoke_batch fps r).1 in
      let granted =
        (authorize_inner-ok_iff c revocations store ch agent intent proof now batched policy r' s
            a).0
          h in
      let kept = revoked_after fps more (fingerprint c t) r v m in
      let free =
        All-map_In (λ fp. is_revoked fp r' ≡ ok false) (fingerprint c) t ch.certs k
          granted.0.unrevoked in
      ground (arith, kept, free)
