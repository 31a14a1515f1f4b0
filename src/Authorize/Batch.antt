-- ===== src/Authorize/Batch.antt =====
-- src/chain.rs: a batch of intents against the authorization of each intent alone.
pub mod Single
pub mod Partial
use dyolo_kya.Prelude.{
  ℕ, zero, suc, ◌≡◌, ◌≢◌, ◌↔◌, ◌⊎◌, inl, inr, refl, sym, ap, ◌∙◌, Bool, true, false, All, List, [],
  ◌∷◌, map, Option, some, none, length, replicate, is_ok, Result, ok, err, arith, Result-cases,
  Bool-cases, Option-cases, if◌then◌else◌,
}
use dyolo_kya.Prelude.Bytes.{Bytes}
use dyolo_kya.Error.{A1Error, A1StorageError}
use dyolo_kya.Crypto.{Crypto}
use dyolo_kya.Merkle.{MerkleProof}
use dyolo_kya.Cert.{fingerprint}
use dyolo_kya.Chain.{
  DyoloChain, VerificationReceipt, ChainValidationResult, validate_structure, intent_authorized,
}
use dyolo_kya.Chain.Spec.{IsValidChain, IsBatchVerifier, nonces, last_scope}
use dyolo_kya.Chain.Validate.{described, validate-IsValidChain, validate_complete}
use dyolo_kya.Registry.{NonceStore, RevocationStore}
use dyolo_kya.Authorize.{
  BatchAuthorizeResult, receipt_of, all_failed, errors_from, batch_revoked, check_items,
  answer_batch, settle_batch, finish_batch, run_batch, authorize_batch,
}

module _ (c : Crypto) {R S : Type 0} (revocation : RevocationStore R) (store : NonceStore S) where
  answer_batch-after :
      (n : ℕ) (b : BatchAuthorizeResult) (q : Result A1StorageError Bool × S)
      → (answer_batch c revocation store n b q).1 ≡ q.1
  unfolding answer_batch
  answer_batch-after n b (ok true, s) = refl
  answer_batch-after n b (ok false, s) = refl
  answer_batch-after n b (err e, s) = refl

  settle_batch-after :
      (n : ℕ) (seen : List Bytes) (s : S) (b : BatchAuthorizeResult)
      → (settle_batch c revocation store n seen s b).1
        ≡ (if b.all_authorized then (store.try_consume_batch seen s).1 else s)
  unfolding settle_batch
  settle_batch-after n seen s b =
      ground (arith, answer_batch-after n b (store.try_consume_batch seen s))

  -- A batch calls the nonce store once or not at all.
  pub finish_batch-after :
      (ch : DyoloChain) (now : ℕ) (items : List (Bytes × MerkleProof)) (s : S)
      (v : ChainValidationResult) (failed : Option (List (Option A1Error)))
      → ((finish_batch c revocation store ch now items s v failed).1 ≡ s)
        ⊎ ((ns : List Bytes) × ((finish_batch c revocation store ch now items s v failed).1
              ≡ (store.try_consume_batch ns s).1))
  unfolding finish_batch
  finish_batch-after ch now items s v (some errors) = inl refl
  finish_batch-after ch now items s v none =
      let passed = check_items c revocation store ch now v 0 items in
      let after = settle_batch-after (length items) v.seen_nonces s passed in
      elim (Bool-cases passed.all_authorized) [
        | inl k ↦ inr (v.seen_nonces, after ∙ rw k refl)
        | inr k ↦ inl (after ∙ rw k refl)
      ]

  run_batch-after :
      (ch : DyoloChain) (now : ℕ) (items : List (Bytes × MerkleProof)) (r : R) (s : S)
      (q : Result A1Error ChainValidationResult)
      → ((run_batch c revocation store ch now items r s q).1 ≡ s)
        ⊎ ((ns : List Bytes) × ((run_batch c revocation store ch now items r s q).1
              ≡ (store.try_consume_batch ns s).1))
  unfolding run_batch
  run_batch-after ch now items r s (err e) = inl refl
  run_batch-after ch now items r s (ok v) = finish_batch-after ch now items s v _

  pub authorize_batch-after :
      (ch : DyoloChain) (agent : Bytes) (items : List (Bytes × MerkleProof)) (now checked : ℕ)
      (r : R) (s : S)
      → ((authorize_batch c revocation store ch agent items now checked r s).1 ≡ s)
        ⊎ ((ns : List Bytes) × ((authorize_batch c revocation store ch agent items now checked r
                s).1
              ≡ (store.try_consume_batch ns s).1))
  unfolding authorize_batch
  authorize_batch-after ch agent [] now checked r s = inl refl
  authorize_batch-after ch agent ((intent, proof) ∷ items) now checked r s =
      run_batch-after ch now ((intent, proof) ∷ items) r s _

  -- The list of items against the intents that pass.
  pub check_items-All :
      (ch : DyoloChain) (now : ℕ) (v : ChainValidationResult) (i : ℕ)
      (items : List (Bytes × MerkleProof))
      → ((check_items c revocation store ch now v i items).all_authorized ≡ true)
        ↔ All (λ q. intent_authorized c q.1 q.0 v.verified_scope_root ≡ true) items
  unfolding check_items
  check_items-All ch now v i [] = (λ h. tt, λ h. refl)
  check_items-All ch now v i ((intent, proof) ∷ items) = (
    λ h. ground (arith, (check_items-All ch now v (suc i) items).0),
    λ h. ground (arith, (check_items-All ch now v (suc i) items).1),
  )

  pub check_items-receipts :
      (ch : DyoloChain) (now : ℕ) (v : ChainValidationResult) (i : ℕ)
      (items : List (Bytes × MerkleProof))
      → (check_items c revocation store ch now v i items).receipts
        ≡ map
            (λ q.
              if intent_authorized c q.1 q.0 v.verified_scope_root
              then some (receipt_of ch q.0 now v)
              else none)
            items
  unfolding check_items
  check_items-receipts ch now v i [] = refl
  check_items-receipts ch now v i ((intent, proof) ∷ items) =
      ground (arith, check_items-receipts ch now v (suc i) items)
