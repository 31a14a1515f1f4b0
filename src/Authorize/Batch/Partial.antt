-- ===== src/Authorize/Batch/Partial.antt =====
-- src/chain.rs: a batch of which some intents pass and some do not.
use dyolo_kya.Prelude.{
  ℕ, ◌≡◌, refl, true, false, All, List, ◌∷◌, map, some, none, length, Bool-cases, inl, inr,
  if◌then◌else◌,
}
use dyolo_kya.Prelude.Bytes.{Bytes}
use dyolo_kya.Crypto.{Crypto}
use dyolo_kya.Merkle.{MerkleProof}
use dyolo_kya.Cert.{fingerprint}
use dyolo_kya.Chain.{DyoloChain, intent_authorized}
use dyolo_kya.Chain.Spec.{IsBatchVerifier, last_scope}
use dyolo_kya.Chain.Validate.{described, validate_complete}
use dyolo_kya.Registry.{NonceStore, RevocationStore}
use dyolo_kya.Authorize.{
  receipt_of, check_items, settle_batch, finish_batch, run_batch, authorize_batch,
}
use dyolo_kya.Authorize.Guarantees.{Admissible}
use dyolo_kya.Authorize.Batch.{check_items-All, check_items-receipts}
use dyolo_kya.Authorize.Batch.Single.{batch_revoked_iff}

module _ (c : Crypto) {R S : Type 0} (revocation : RevocationStore R) (store : NonceStore S) where
  -- When the first intent of a batch passes every check but that of the nonces, and some intent is not in
  -- the chain's last scope, the batch is not authorized as a whole; it still returns a receipt
  -- for each intent that is in that scope, and it leaves the nonce store as it was. The batch
  -- verifier is assumed to accept exactly the batches whose every signature verifies.
  pub authorize_batch-partial :
      (batched : IsBatchVerifier c) (ch : DyoloChain) (agent : Bytes) (now checked : ℕ) (r : R)
      (s : S) (first : Bytes × MerkleProof) (items : List (Bytes × MerkleProof))
      → Admissible c revocation store ch agent first.0 first.1 checked none r
      → ¬ All
          (λ q. intent_authorized c q.1 q.0 (last_scope ch.principal_scope ch.certs) ≡ true)
          items
      → let (result, after) =
          authorize_batch c revocation store ch agent (first ∷ items) now checked r s in
        (result.all_authorized ≡ false)
        × (result.receipts
            ≡ map
                (λ q.
                  if intent_authorized c q.1 q.0 (last_scope ch.principal_scope ch.certs)
                  then some (
                      receipt_of ch q.0 now
                        (described c ch agent first.0 first.1 checked ch.drift_tolerance_secs))
                  else none)
                (first ∷ items))
        × (after ≡ s)
  unfolding authorize_batch run_batch finish_batch settle_batch check_items
  authorize_batch-partial batched ch agent now checked r s first items a some_out =
      let v = described c ch agent first.0 first.1 checked ch.drift_tolerance_secs in
      let passed = check_items c revocation store ch now v 0 (first ∷ items) in
      let out : passed.all_authorized ≡ false = elim (Bool-cases passed.all_authorized) [
        | inl k ↦
            absurd
              (some_out ((check_items-All c revocation store ch now v 0 (first ∷ items)).0 k).1)
        | inr k ↦ k
      ] in
      rw
        (
          validate_complete c ch agent first.0 first.1 checked ch.drift_tolerance_secs batched
              a.valid,
          (batch_revoked_iff c revocation store (length (first ∷ items))
                (map (fingerprint c) ch.certs) r).1
              a.unrevoked,
          out,
        )
        (out, check_items-receipts c revocation store ch now v 0 (first ∷ items), refl)
