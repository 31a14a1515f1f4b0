-- ===== src/Authorize.antt =====
-- src/chain.rs: the authorization of one intent and of a batch, over the stores; Awaits holds
-- the asynchronous variants.
pub mod Guarantees
pub mod Stores
pub mod Awaits
pub mod Batch
pub mod Replay
pub mod Revoked
use dyolo_kya.Prelude.{
  ℕ, zero, suc, Bool, true, false, is_empty, if◌then◌else◌, length, replicate, List, [], ◌∷◌,
  Option, some, none, Result, ok, err, ◌>>=◌, ◌>>◌, fail_if, map_err,
}
use dyolo_kya.Prelude.Bytes.{Bytes}
use dyolo_kya.Error.{A1Error, A1StorageError, is_transient_storage_failure, to_string}
use dyolo_kya.Crypto.{Crypto}
use dyolo_kya.Merkle.{MerkleProof}
use dyolo_kya.Audit
use dyolo_kya.Audit.{AuditOutcome, AuditEvent}
use dyolo_kya.Chain.{
  DyoloChain, VerificationReceipt, ChainValidationResult, validate_structure, intent_authorized,
}
use dyolo_kya.Policy.{DelegationPolicy, check_chain}
use dyolo_kya.Registry.{NonceStore, RevocationStore}

pub record AuthorizedAction : Type 0 where
  pub receipt : VerificationReceipt

pub record BatchAuthorizeResult : Type 0 where
  pub receipts : List (Option VerificationReceipt)
  pub errors : List (Option A1Error)
  pub all_authorized : Bool

unfoldable pub authorized_count : BatchAuthorizeResult → ℕ
authorized_count b = count b.receipts
  where
    count : List (Option VerificationReceipt) → ℕ
    count [] = 0
    count (some r ∷ rs) = suc (count rs)
    count (none ∷ rs) = count rs

unfoldable pub receipt_of : DyoloChain → Bytes → ℕ → ChainValidationResult → VerificationReceipt
receipt_of ch intent at v = record {
  chain_depth = v.depth;
  verified_scope_root = v.verified_scope_root;
  intent = intent;
  verified_at_unix = at;
  chain_fingerprint = v.chain_fingerprint;
  namespace = ch.namespace;
}

unfoldable pub check_policies :
    Option (List DelegationPolicy) → DyoloChain → Result A1Error (Unit {0})
check_policies none ch = ok tt
check_policies (some ps) ch = check_chain ps ch

-- The outcome that the audit event reports.
unfoldable pub outcome_of : Result A1Error AuthorizedAction → AuditOutcome
outcome_of (ok a) = AuditOutcome.authorized
outcome_of (err (A1Error.policy_violation m)) = AuditOutcome.policy_violation
outcome_of (err e) =
    if is_transient_storage_failure e then AuditOutcome.storage_error else AuditOutcome.denied

unfoldable pub describe_result :
    (Bytes → Bytes) → Result A1Error AuthorizedAction → AuditEvent → AuditEvent
describe_result encode (ok a) event =
    Audit.with_fingerprint encode event a.receipt.chain_fingerprint
describe_result encode (err e) event = Audit.with_error event (to_string e)

-- The same answer for every item of a batch.
unfoldable pub all_failed : ℕ → List (Option A1Error) → BatchAuthorizeResult
all_failed n errors = record {
  receipts = replicate n none;
  errors = errors;
  all_authorized = false;
}

-- One error an index, from `i` on.
unfoldable pub errors_from : ℕ → ℕ → Bytes → List (Option A1Error)
errors_from i zero reason = []
errors_from i (suc n) reason =
    some (A1Error.batch_item_failed i reason) ∷ errors_from (suc i) n reason

module _ (c : Crypto) {R S : Type 0} (revocation : RevocationStore R) (nonces : NonceStore S) where
  unfoldable pub check_revoked : List Bytes → R → Result A1Error (Unit {0})
  check_revoked [] r = ok tt
  check_revoked (fp ∷ fps) r = do
    revoked ← map_err A1Error.storage_failure (revocation.is_revoked fp r)
    fail_if revoked A1Error.revoked
    check_revoked fps r

  -- What an authorization checks before it writes.
  unfoldable pub screen :
      DyoloChain
      → Bytes
      → Bytes
      → MerkleProof
      → ℕ
      → Option (List DelegationPolicy)
      → R
      → Result A1Error ChainValidationResult
  screen ch agent intent proof now policy r = do
    check_policies policy ch
    v ← validate_structure c ch agent intent proof now ch.drift_tolerance_secs
    check_revoked v.cert_fingerprints r
    ok v

  -- The answer of the nonce store, with the state that it leaves.
  unfoldable pub answer :
      VerificationReceipt → Result A1StorageError Bool × S → Result A1Error AuthorizedAction × S
  answer receipt (ok true, s) = (ok (record { receipt = receipt }), s)
  answer receipt (ok false, s) = (err A1Error.nonce_replay, s)
  answer receipt (err e, s) = (err (A1Error.storage_failure e), s)

  unfoldable pub consume :
      DyoloChain
      → Bytes
      → S
      → Result A1Error ChainValidationResult
      → Result A1Error AuthorizedAction × S
  consume ch intent s (err e) = (err e, s)
  consume ch intent s (ok v) =
      answer (receipt_of ch intent v.verified_at_unix v) (nonces.try_consume_batch v.seen_nonces s)

  unfoldable pub authorize_inner :
      DyoloChain
      → Bytes
      → Bytes
      → MerkleProof
      → ℕ
      → Option (List DelegationPolicy)
      → R
      → S
      → Result A1Error AuthorizedAction × S
  authorize_inner ch agent intent proof now policy r s =
      consume ch intent s (screen ch agent intent proof now policy r)

  -- The result, the one event that the sink receives, and the state of the nonce store. `then_now`
  -- is the clock's reading for the event.
  unfoldable pub authorize_with_options :
      (Bytes → Bytes)
      → DyoloChain
      → Bytes
      → Bytes
      → MerkleProof
      → ℕ
      → ℕ
      → Option (List DelegationPolicy)
      → R
      → S
      → Result A1Error AuthorizedAction × AuditEvent × S
  authorize_with_options encode ch agent intent proof now then_now policy r s =
      let (result, after) = authorize_inner ch agent intent proof now policy r s in
      (
        result,
        describe_result encode result (
            Audit.new encode (outcome_of result) (encode ch.principal_pk) (encode agent)
              (length ch.certs) intent then_now),
        after,
      )

  -- With no policy, and a sink that drops the event.
  unfoldable pub authorize :
      (Bytes → Bytes)
      → DyoloChain
      → Bytes
      → Bytes
      → MerkleProof
      → ℕ
      → ℕ
      → R
      → S
      → Result A1Error AuthorizedAction × S
  authorize encode ch agent intent proof now then_now r s =
      let (result, event, after) =
        authorize_with_options encode ch agent intent proof now then_now none r s in
      (result, after)

  -- One turn of the revocation loop of a batch: the errors of `n` items that end it, or the rest.
  unfoldable pub batch_turn :
      ℕ
      → Result A1StorageError Bool
      → Option (List (Option A1Error))
      → Option (List (Option A1Error))
  batch_turn n (ok true) rest = some (replicate n (some A1Error.revoked))
  batch_turn n (ok false) rest = rest
  batch_turn n (err e) rest =
      some
        (replicate n (some (A1Error.batch_item_failed 0 (to_string (A1Error.storage_failure e)))))

  unfoldable pub batch_revoked : ℕ → List Bytes → R → Option (List (Option A1Error))
  batch_revoked n [] r = none
  batch_revoked n (fp ∷ fps) r = batch_turn n (revocation.is_revoked fp r) (batch_revoked n fps r)

  -- The loop over the intents, from index `i` on.
  unfoldable pub check_items :
      DyoloChain → ℕ → ChainValidationResult → ℕ → List (Bytes × MerkleProof) → BatchAuthorizeResult
  check_items ch now v i [] = record { receipts = []; errors = []; all_authorized = true }
  check_items ch now v i ((intent, proof) ∷ items) =
      let rest = check_items ch now v (suc i) items in
      if intent_authorized c proof intent v.verified_scope_root
      then record {
        receipts = some (receipt_of ch intent now v) ∷ rest.receipts;
        errors = none ∷ rest.errors;
        all_authorized = rest.all_authorized;
      }
      else record {
        receipts = none ∷ rest.receipts;
        errors =
            some (A1Error.batch_item_failed i (to_string A1Error.scope_violation)) ∷ rest.errors;
        all_authorized = false;
      }

  -- The nonce store's answer for a batch whose items have all passed.
  unfoldable pub answer_batch :
      ℕ → BatchAuthorizeResult → Result A1StorageError Bool × S → BatchAuthorizeResult × S
  answer_batch n passed (ok true, s) = (passed, s)
  answer_batch n passed (ok false, s) = (all_failed n (replicate n (some A1Error.nonce_replay)), s)
  answer_batch n passed (err e, s) = (
    all_failed n
        (replicate n (some (A1Error.batch_item_failed 0 (to_string (A1Error.storage_failure e))))),
    s,
  )

  -- A batch whose items have been checked: the nonces are taken only if every item has passed.
  unfoldable pub settle_batch : ℕ → List Bytes → S → BatchAuthorizeResult → BatchAuthorizeResult × S
  settle_batch n seen s passed =
      if passed.all_authorized
      then answer_batch n passed (nonces.try_consume_batch seen s)
      else (passed, s)

  -- Behind the revocation loop.
  unfoldable pub finish_batch :
      DyoloChain
      → ℕ
      → List (Bytes × MerkleProof)
      → S
      → ChainValidationResult
      → Option (List (Option A1Error))
      → BatchAuthorizeResult × S
  finish_batch ch now items s v (some errors) = (all_failed (length items) errors, s)
  finish_batch ch now items s v none =
      settle_batch (length items) v.seen_nonces s (check_items ch now v 0 items)

  -- Behind the validation of the chain with the first intent.
  unfoldable pub run_batch :
      DyoloChain
      → ℕ
      → List (Bytes × MerkleProof)
      → R
      → S
      → Result A1Error ChainValidationResult
      → BatchAuthorizeResult × S
  run_batch ch now items r s (err e) =
      (all_failed (length items) (errors_from 0 (length items) (to_string e)), s)
  run_batch ch now items r s (ok v) =
      finish_batch ch now items s v (batch_revoked (length items) v.cert_fingerprints r)

  -- `now` is the clock's reading for the receipts, `checked` the one for the certificates.
  unfoldable pub authorize_batch :
      DyoloChain → Bytes → List (Bytes × MerkleProof) → ℕ → ℕ → R → S → BatchAuthorizeResult × S
  authorize_batch ch agent [] now checked r s =
      (record { receipts = []; errors = []; all_authorized = true }, s)
  authorize_batch ch agent ((intent, proof) ∷ items) now checked r s =
      run_batch ch now ((intent, proof) ∷ items) r s
        (validate_structure c ch agent intent proof checked ch.drift_tolerance_secs)
