-- ===== src/Authorize/Awaits/Races.antt =====
-- src/chain.rs over the stores of src/registry.rs: asynchronous authorizations whose calls of the
-- stores are interleaved with those of other tasks.
use dyolo_kya.Prelude.{
  ℕ, suc, ◌≡◌, ◌≢◌, ◌≤◌, ap, subst, ◌∙◌, inl, inr, true, false, In, List, [], ◌∷◌, map, Option,
  Result, ok, arith,
}
use dyolo_kya.Prelude.Bytes.{Bytes}
use dyolo_kya.Error.{A1Error}
use dyolo_kya.Crypto.{Crypto}
use dyolo_kya.Merkle.{MerkleProof}
use dyolo_kya.Cert.{DelegationCert, fingerprint}
use dyolo_kya.Chain.{DyoloChain}
use dyolo_kya.Chain.Spec.{IsBatchVerifier, nonces}
use dyolo_kya.Policy.{DelegationPolicy}
use dyolo_kya.Registry.{NonceStore, RevocationStore}
use dyolo_kya.Registry.Nonce
use dyolo_kya.Registry.Nonce.{MemoryNonceStore, expiry_of}
use dyolo_kya.Registry.Revocation.{MemoryRevocationStore, is_revoked, revoke_batch}
use dyolo_kya.Registry.Revocation.Laws
use dyolo_kya.Authorize.{AuthorizedAction}
use dyolo_kya.Authorize.Stores.{nonces_at, revocations, Run, IsSound, answer-after}
use dyolo_kya.Authorize.Replay.{Attempt, spent_refused}
use dyolo_kya.Authorize.Revoked.{after_all, revoked_after}
use dyolo_kya.Authorize.Awaits.{authorize_block}
use dyolo_kya.Authorize.Awaits.Granted.{Unrevoked, authorize_block-ok_iff, authorize_block-Admitted}

module _ (c : Crypto) (batched : IsBatchVerifier c) {R : Type 0}
    (revocation : RevocationStore R) where
  -- The asynchronous attempt whose call of the nonce store is made at the time `t`.
  abbrev pub attempt_async :
      ℕ → Attempt → (ℕ → R) → MemoryNonceStore → Result A1Error AuthorizedAction × MemoryNonceStore
  attempt_async t a r s =
      authorize_block c revocation (nonces_at t) a.chain a.agent a.intent a.proof a.now a.policy r s

  -- What a grant says of the nonce store.
  grant_lem :
      (t : ℕ) (a : Attempt) (r : ℕ → R) (s : MemoryNonceStore) (act : AuthorizedAction)
      → (attempt_async t a r s).0 ≡ ok act
      → ((Nonce.try_consume_batch t (nonces a.chain.certs) s).0 ≡ ok true)
        × ((attempt_async t a r s).1 ≡ (Nonce.try_consume_batch t (nonces a.chain.certs) s).1)
  grant_lem t a r s act h =
      let granted =
        (authorize_block-ok_iff c revocation (nonces_at t) a.chain a.agent a.intent a.proof a.now
            batched a.policy r s act).0
          h in
      (
        granted.1,
        ap (λ q. q.1)
              (authorize_block-Admitted c revocation (nonces_at t) a.chain a.agent a.intent a.proof
                a.now batched a.policy r s granted.0)
            ∙ answer-after c revocation (nonces_at t) _ _,
      )

  -- Of two asynchronous authorizations whose chains share a nonce, at most one is granted on a sound
  -- in-memory store, up to the nonces' expiry (which is the largest time where the store has no time
  -- to live): the one whose call of the store comes second is refused, whatever either has read of
  -- the revocation store at its awaits, and whatever synchronous and asynchronous authorizations,
  -- batches and consumptions the store has answered between the two calls. The batch verifier is
  -- assumed to accept exactly the batches whose every signature verifies.
  pub attempt_async_once :
      (t until : ℕ) (first second : Attempt) (r1 r2 : ℕ → R) (s s' : MemoryNonceStore)
      (act act' : AuthorizedAction) (n : Bytes)
      → IsSound s
      → t ≤ until
      → until ≤ expiry_of t s.ttl_secs
      → In n (nonces first.chain.certs)
      → In n (nonces second.chain.certs)
      → (attempt_async t first r1 s).0 ≡ ok act
      → Run c revocation until (attempt_async t first r1 s).1 s'
      → (attempt_async until second r2 s').0 ≢ ok act'
  attempt_async_once t until first second r1 r2 s s' act act' n i le fits m m' h run h' =
      let spent = grant_lem t first r1 s act h in
      spent_refused c revocation t until (nonces first.chain.certs) (nonces second.chain.certs) s s'
        n i le fits m m' spent.0 (subst (λ z. Run c revocation until z s') spent.1 run)
        (grant_lem until second r2 s' act' h').0

-- A fingerprint that no state of the sequence leaves free.
Unrevoked-In :
    (c : Crypto) {S : Type 0} (store : NonceStore S) (t : DelegationCert) (ts : List DelegationCert)
    (r : ℕ → MemoryRevocationStore)
    → In t ts
    → Unrevoked c revocations store (map (fingerprint c) ts) r
    → (i : ℕ) × (is_revoked (fingerprint c t) (r i) ≡ ok false)
Unrevoked-In c store t [] r m u = elim m [ ]
Unrevoked-In c store t (x ∷ ts) r (inl e) u =
    (0, ap (λ z. is_revoked (fingerprint c z) (r 0)) e ∙ u.0)
Unrevoked-In c store t (x ∷ ts) r (inr m) u =
    let (i, free) = Unrevoked-In c store t ts (λ i. r (suc i)) m u.1 in (suc i, free)

-- When a batch of revocations that names a certificate's fingerprint has been written to a valid
-- store, no chain with that certificate is authorized asynchronously, whatever other tasks revoke
-- before each of the queries. The batch verifier is assumed to accept exactly the batches whose
-- every signature verifies.
pub revoked_async_refused :
    (c : Crypto) (batched : IsBatchVerifier c) {S : Type 0} (store : NonceStore S)
    (fps : List Bytes) (more : ℕ → List (List Bytes)) (t : DelegationCert) (ch : DyoloChain)
    (agent intent : Bytes) (proof : MerkleProof) (now : ℕ) (policy : Option (List DelegationPolicy))
    (r : MemoryRevocationStore) (s : S) (a : AuthorizedAction)
    → Laws.IsValid r
    → In (fingerprint c t) fps
    → In t ch.certs
    → (authorize_block c revocations store ch agent intent proof now policy
        (λ i. after_all (more i) (revoke_batch fps r).1)
        s).0
      ≢ ok a
revoked_async_refused c batched store fps more t ch agent intent proof now policy r s a v m k h =
    let granted =
      (authorize_block-ok_iff c revocations store ch agent intent proof now batched policy
          (λ i. after_all (more i) (revoke_batch fps r).1) s a).0
        h in
    let (i, free) = Unrevoked-In c store t ch.certs _ k granted.0.unrevoked in
    ground (arith, revoked_after fps (more i) (fingerprint c t) r v m, free)
