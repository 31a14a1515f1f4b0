-- ===== src/Authorize/Awaits.antt =====
-- src/chain.rs: the asynchronous authorizations. Other tasks run at an await, so that each query of
-- the revocation store reads a state of its own: `r i` is the one that query `i` of the call reads,
-- and `s` is the state of the nonce store at the await of its call.
pub mod Steady
pub mod Granted
pub mod Races
use dyolo_kya.Prelude.{
  ℕ, suc, ◌≡◌, ◌↔◌, refl, Bool, true, false, length, List, [], ◌∷◌, map, Option, some, none, Result,
  ok, err, ◌>>=◌, ◌>>◌, fail_if, map_err, arith, Result-cases,
}
use dyolo_kya.Prelude.Bytes.{Bytes}
use dyolo_kya.Error.{A1Error, to_string}
use dyolo_kya.Crypto.{Crypto}
use dyolo_kya.Merkle.{MerkleProof}
use dyolo_kya.Cert.{fingerprint}
use dyolo_kya.Audit
use dyolo_kya.Audit.{AuditEvent}
use dyolo_kya.Chain.{DyoloChain, ChainValidationResult, validate_structure}
use dyolo_kya.Chain.Spec.{IsValidChain, IsBatchVerifier, nonces}
use dyolo_kya.Chain.Validate.{validate-IsValidChain, validate_complete}
use dyolo_kya.Policy.{DelegationPolicy}
use dyolo_kya.Registry.{NonceStore, RevocationStore}
use dyolo_kya.Authorize.{
  AuthorizedAction, BatchAuthorizeResult, receipt_of, check_policies, outcome_of, describe_result,
  all_failed, errors_from, check_revoked, screen, consume, answer, authorize_inner,
  authorize_with_options, authorize, batch_turn, batch_revoked, finish_batch, run_batch,
  authorize_batch,
}
use dyolo_kya.Authorize.Guarantees.{MeetsAll, check_policies_iff, answer-ok_iff, validated}

module _ (c : Crypto) {R S : Type 0} (revocation : RevocationStore R) (store : NonceStore S) where
  unfoldable pub check_revoked_async : List Bytes → (ℕ → R) → Result A1Error (Unit {0})
  check_revoked_async [] r = ok tt
  check_revoked_async (fp ∷ fps) r = do
    revoked ← map_err A1Error.storage_failure (revocation.is_revoked fp (r 0))
    fail_if revoked A1Error.revoked
    check_revoked_async fps (λ i. r (suc i))

  -- What an authorization checks before it writes.
  unfoldable pub screen_async :
      DyoloChain
      → Bytes
      → Bytes
      → MerkleProof
      → ℕ
      → Option (List DelegationPolicy)
      → (ℕ → R)
      → Result A1Error ChainValidationResult
  screen_async ch agent intent proof now policy r = do
    check_policies policy ch
    v ← validate_structure c ch agent intent proof now ch.drift_tolerance_secs
    check_revoked_async v.cert_fingerprints r
    ok v

  -- The block that `authorize_async_with_options` awaits.
  unfoldable pub authorize_block :
      DyoloChain
      → Bytes
      → Bytes
      → MerkleProof
      → ℕ
      → Option (List DelegationPolicy)
      → (ℕ → R)
      → S
      → Result A1Error AuthorizedAction × S
  authorize_block ch agent intent proof now policy r s =
      consume c revocation store ch intent s (screen_async ch agent intent proof now policy r)

  unfoldable pub authorize_async_with_options :
      (Bytes → Bytes)
      → DyoloChain
      → Bytes
      → Bytes
      → MerkleProof
      → ℕ
      → ℕ
      → Option (List DelegationPolicy)
      → (ℕ → R)
      → S
      → Result A1Error AuthorizedAction × AuditEvent × S
  authorize_async_with_options encode ch agent intent proof now then_now policy r s =
      let (result, after) = authorize_block ch agent intent proof now policy r s in
      (
        result,
        describe_result encode result (
            Audit.new encode (outcome_of result) (encode ch.principal_pk) (encode agent)
              (length ch.certs) intent then_now),
        after,
      )

  unfoldable pub authorize_async :
      (Bytes → Bytes)
      → DyoloChain
      → Bytes
      → Bytes
      → MerkleProof
      → ℕ
      → ℕ
      → (ℕ → R)
      → S
      → Result A1Error AuthorizedAction × S
  authorize_async encode ch agent intent proof now then_now r s =
      let (result, event, after) =
        authorize_async_with_options encode ch agent intent proof now then_now none r s in
      (result, after)

  unfoldable pub batch_revoked_async : ℕ → List Bytes → (ℕ → R) → Option (List (Option A1Error))
  batch_revoked_async n [] r = none
  batch_revoked_async n (fp ∷ fps) r =
      batch_turn c revocation store n (revocation.is_revoked fp (r 0))
        (batch_revoked_async n fps (λ i. r (suc i)))

  -- Behind the validation of the chain with the first intent.
  unfoldable pub run_batch_async :
      DyoloChain
      → ℕ
      → List (Bytes × MerkleProof)
      → (ℕ → R)
      → S
      → Result A1Error ChainValidationResult
      → BatchAuthorizeResult × S
  run_batch_async ch now items r s (err e) =
      (all_failed (length items) (errors_from 0 (length items) (to_string e)), s)
  run_batch_async ch now items r s (ok v) =
      finish_batch c revocation store ch now items s v
        (batch_revoked_async (length items) v.cert_fingerprints r)

  unfoldable pub authorize_batch_async :
      DyoloChain
      → Bytes
      → List (Bytes × MerkleProof)
      → ℕ
      → ℕ
      → (ℕ → R)
      → S
      → BatchAuthorizeResult × S
  authorize_batch_async ch agent [] now checked r s =
      (record { receipts = []; errors = []; all_authorized = true }, s)
  authorize_batch_async ch agent ((intent, proof) ∷ items) now checked r s =
      run_batch_async ch now ((intent, proof) ∷ items) r s
        (validate_structure c ch agent intent proof checked ch.drift_tolerance_secs)
