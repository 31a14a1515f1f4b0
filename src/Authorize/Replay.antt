-- ===== src/Authorize/Replay.antt =====
-- src/chain.rs over the stores of src/registry.rs: replayed nonces and revoked certificates.
use dyolo_kya.Prelude.{
  ℕ, ◌≡◌, ◌≢◌, ◌≤◌, inl, inr, ap, subst, ◌∙◌, true, false, ◌==◌, any, In, List, [], ◌∷◌, Option,
  Result, ok, arith,
}
use dyolo_kya.Prelude.Bytes.{Bytes, bytes_eq, bytes_beq_iff}
use dyolo_kya.Error.{A1Error}
use dyolo_kya.Crypto.{Crypto}
use dyolo_kya.Merkle.{MerkleProof}
use dyolo_kya.Chain.{DyoloChain}
use dyolo_kya.Chain.Spec.{IsBatchVerifier, nonces}
use dyolo_kya.Policy.{DelegationPolicy}
use dyolo_kya.Registry.{RevocationStore}
use dyolo_kya.Registry.Nonce
use dyolo_kya.Registry.Nonce.{MemoryNonceStore, expiry_of}
use dyolo_kya.Registry.Nonce.Laws.{held, try_consume_batch_refines}
use dyolo_kya.Authorize.{AuthorizedAction, authorize_inner}
use dyolo_kya.Authorize.Guarantees.{authorize_inner-ok_iff, authorize_inner-Admissible}
use dyolo_kya.Authorize.Stores.{
  nonces_at, Run, IsSound, any-held, batch-IsSound, Run-held, answer-after,
}

-- The arguments of an authorization, but for the stores.
pub record Attempt : Type 0 where
  pub chain : DyoloChain
  pub agent : Bytes
  pub intent : Bytes
  pub proof : MerkleProof
  pub now : ℕ
  pub policy : Option (List DelegationPolicy)

In-any : (n : Bytes) (ns : List Bytes) → In n ns → any (λ x. x == n) ns ≡ true
In-any n [] m = elim m [ ]
In-any n (x ∷ ns) (inl e) = ground (arith, bytes_beq_iff x n)
In-any n (x ∷ ns) (inr m) = ground (arith, In-any n ns m)

-- What one call has taken, no later call takes, whatever the store has answered in between.
pub spent_refused :
    (c : Crypto) {R : Type 0} (revocation : RevocationStore R) (t until : ℕ) (ns ns' : List Bytes)
    (s s' : MemoryNonceStore) (n : Bytes)
    → IsSound s
    → t ≤ until
    → until ≤ expiry_of t s.ttl_secs
    → In n ns
    → In n ns'
    → (Nonce.try_consume_batch t ns s).0 ≡ ok true
    → Run c revocation until (Nonce.try_consume_batch t ns s).1 s'
    → (Nonce.try_consume_batch until ns' s').0 ≢ ok true
spent_refused c revocation t until ns ns' s s' n i le fits m m' taken run again =
    let q = try_consume_batch_refines t until ns s n i.valid i.sound le in
    let free : any (held t s) ns ≡ false = ground (arith, taken, q.0) in
    let kept : held until (Nonce.try_consume_batch t ns s).1 n ≡ true =
      q.1 ∙ rw (free, In-any n ns m) (ground (arith, fits)) in
    let later = Run-held c revocation until _ s' n (batch-IsSound t ns s i) kept run in
    let q' =
      try_consume_batch_refines until until ns' s' n later.0.valid later.0.sound (omega arith) in
    let used = any-held until s' n ns' later.1 (In-any n ns' m') in
    ground (arith, again, q'.0, used)

module _ (c : Crypto) (batched : IsBatchVerifier c) {R : Type 0}
    (revocation : RevocationStore R) where
  -- The attempt, at the time `t` of the nonce store.
  abbrev pub attempt :
      ℕ → Attempt → R → MemoryNonceStore → Result A1Error AuthorizedAction × MemoryNonceStore
  attempt t a r s =
      authorize_inner c revocation (nonces_at t) a.chain a.agent a.intent a.proof a.now a.policy r s

  -- What a grant says of the nonce store.
  grant_lem :
      (t : ℕ) (a : Attempt) (r : R) (s : MemoryNonceStore) (act : AuthorizedAction)
      → (attempt t a r s).0 ≡ ok act
      → ((Nonce.try_consume_batch t (nonces a.chain.certs) s).0 ≡ ok true)
        × ((attempt t a r s).1 ≡ (Nonce.try_consume_batch t (nonces a.chain.certs) s).1)
  grant_lem t a r s act h =
      let granted =
        (authorize_inner-ok_iff c revocation (nonces_at t) a.chain a.agent a.intent a.proof a.now
            batched a.policy r s act).0
          h in
      (
        granted.1,
        ap (λ q. q.1)
              (authorize_inner-Admissible c revocation (nonces_at t) a.chain a.agent a.intent
                a.proof a.now batched a.policy r s granted.0)
            ∙ answer-after c revocation (nonces_at t) _ _,
      )

  -- When an attempt has been granted on a sound in-memory store, an attempt whose chain carries
  -- one of the same nonces is not granted at any time up to the nonces' expiry (which is the
  -- largest time where the store has no time to live), whatever authorizations, batches and
  -- consumptions the store has answered up to that time. The batch verifier is assumed to accept
  -- exactly the batches whose every signature verifies.
  pub replay_refused :
      (t until : ℕ) (first second : Attempt) (r1 r2 : R) (s s' : MemoryNonceStore)
      (act act' : AuthorizedAction) (n : Bytes)
      → IsSound s
      → t ≤ until
      → until ≤ expiry_of t s.ttl_secs
      → In n (nonces first.chain.certs)
      → In n (nonces second.chain.certs)
      → (attempt t first r1 s).0 ≡ ok act
      → Run c revocation until (attempt t first r1 s).1 s'
      → (attempt until second r2 s').0 ≢ ok act'
  replay_refused t until first second r1 r2 s s' act act' n i le fits m m' h run h' =
      let spent = grant_lem t first r1 s act h in
      spent_refused c revocation t until (nonces first.chain.certs) (nonces second.chain.certs) s s'
        n i le fits m m' spent.0 (subst (λ z. Run c revocation until z s') spent.1 run)
        (grant_lem until second r2 s' act' h').0
