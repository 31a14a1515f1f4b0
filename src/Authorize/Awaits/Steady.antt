-- ===== src/Authorize/Awaits/Steady.antt =====
-- src/chain.rs: the asynchronous authorizations where no other task writes to the revocation store.
use dyolo_kya.Prelude.{ℕ, ◌≡◌, refl, List, [], ◌∷◌, Option, none, Result, ok, err, ◌>>=◌, ◌>>◌}
use dyolo_kya.Prelude.Bytes.{Bytes}
use dyolo_kya.Error.{A1Error}
use dyolo_kya.Crypto.{Crypto}
use dyolo_kya.Merkle.{MerkleProof}
use dyolo_kya.Chain.{DyoloChain, ChainValidationResult, validate_structure}
use dyolo_kya.Policy.{DelegationPolicy}
use dyolo_kya.Registry.{NonceStore, RevocationStore}
use dyolo_kya.Authorize.{
  check_policies, check_revoked, screen, authorize_inner, authorize_with_options, authorize,
  batch_revoked, run_batch, authorize_batch,
}
use dyolo_kya.Authorize.Awaits.{
  check_revoked_async, screen_async, authorize_block, authorize_async_with_options, authorize_async,
  batch_revoked_async, run_batch_async, authorize_batch_async,
}

module _ (c : Crypto) {R S : Type 0} (revocation : RevocationStore R) (store : NonceStore S)
    (r : R) where
  check_revoked_async_steady :
      (fps : List Bytes)
      → check_revoked_async c revocation store fps (λ i. r) ≡ check_revoked c revocation store fps r
  unfolding check_revoked_async check_revoked
  check_revoked_async_steady [] = refl
  check_revoked_async_steady (fp ∷ fps) = rw (check_revoked_async_steady fps) refl

  batch_revoked_async_steady :
      (n : ℕ) (fps : List Bytes)
      → batch_revoked_async c revocation store n fps (λ i. r)
        ≡ batch_revoked c revocation store n fps r
  unfolding batch_revoked_async batch_revoked
  batch_revoked_async_steady n [] = refl
  batch_revoked_async_steady n (fp ∷ fps) = rw (batch_revoked_async_steady n fps) refl

  run_batch_async_steady :
      (ch : DyoloChain) (now : ℕ) (items : List (Bytes × MerkleProof)) (s : S)
      (q : Result A1Error ChainValidationResult)
      → run_batch_async c revocation store ch now items (λ i. r) s q
        ≡ run_batch c revocation store ch now items r s q
  unfolding run_batch_async run_batch
  run_batch_async_steady ch now items s (err e) = refl
  run_batch_async_steady ch now items s (ok v) =
      rw (batch_revoked_async_steady _ v.cert_fingerprints) refl

  module _ (ch : DyoloChain) (agent : Bytes) where
    screen_async_steady :
        (intent : Bytes) (proof : MerkleProof) (now : ℕ) (policy : Option (List DelegationPolicy))
        → screen_async c revocation store ch agent intent proof now policy (λ i. r)
          ≡ screen c revocation store ch agent intent proof now policy r
    unfolding screen_async screen
    screen_async_steady intent proof now policy = λ i. do
      check_policies policy ch
      v ← validate_structure c ch agent intent proof now ch.drift_tolerance_secs
      check_revoked_async_steady v.cert_fingerprints i
      ok v

    batch_steady :
        (items : List (Bytes × MerkleProof)) (now checked : ℕ) (s : S)
        → authorize_batch_async c revocation store ch agent items now checked (λ i. r) s
          ≡ authorize_batch c revocation store ch agent items now checked r s
    unfolding authorize_batch_async authorize_batch
    batch_steady [] now checked s = refl
    batch_steady ((intent, proof) ∷ items) now checked s = run_batch_async_steady ch now _ s _

    -- Where no other task writes to the revocation store between the queries, the asynchronous
    -- authorizations answer as the synchronous ones, with the same event and the same state of the
    -- nonce store: of one intent, with options and without, and of a batch.
    pub authorize_async_steady :
        (encode : Bytes → Bytes) (intent : Bytes) (proof : MerkleProof) (now then_now checked : ℕ)
        (policy : Option (List DelegationPolicy)) (items : List (Bytes × MerkleProof)) (s : S)
        → (authorize_async_with_options c revocation store encode ch agent intent proof now then_now
              policy
              (λ i. r)
              s
            ≡ authorize_with_options c revocation store encode ch agent intent proof now then_now
                policy r s)
          × (authorize_async c revocation store encode ch agent intent proof now then_now (λ i. r) s
              ≡ authorize c revocation store encode ch agent intent proof now then_now r s)
          × (authorize_batch_async c revocation store ch agent items now checked (λ i. r) s
              ≡ authorize_batch c revocation store ch agent items now checked r s)
    unfolding authorize_async authorize authorize_async_with_options authorize_with_options
        authorize_block authorize_inner
    authorize_async_steady encode intent proof now then_now checked policy items s = (
      rw (screen_async_steady intent proof now policy) refl,
      rw (screen_async_steady intent proof now none) refl,
      batch_steady items now checked s,
    )
