-- ===== src/Examples/Authorizations.antt =====
-- Authorizations of the chain of two certificates over the in-memory stores.
use dyolo_kya.Prelude.{
  ◌≡◌, ◌≢◌, ◌↔◌, ◌≤◌, inl, refl, true, false, if◌then◌else◌, All, In, [], ◌∷◌, map, some, none, ok,
  err, arith,
}
use dyolo_kya.Prelude.Bytes.{Bytes, bytes_beq, bytes_eq}
use dyolo_kya.Error.{A1Error, is_transient_storage_failure}
use dyolo_kya.Merkle.{MerkleProof}
use dyolo_kya.Cert.{fingerprint, issue}
use dyolo_kya.Audit.{AuditOutcome}
use dyolo_kya.Chain.{intent_authorized}
use dyolo_kya.Chain.Spec.{nonces, last_scope}
use dyolo_kya.Chain.Validate.{described}
use dyolo_kya.Registry.Nonce
use dyolo_kya.Registry.Nonce.Laws as NonceLaws
use dyolo_kya.Registry.Nonce.Laws.{held, try_consume_batch_refines}
use dyolo_kya.Registry.Revocation
use dyolo_kya.Registry.Revocation.{MemoryRevocationStore, revoke_batch}
use dyolo_kya.Registry.Revocation.Batch as RevocationBatch
use dyolo_kya.Authorize.{
  AuthorizedAction, authorize_inner, authorize_with_options, authorize_batch, receipt_of,
}
use dyolo_kya.Authorize.Guarantees.{
  Admissible, authorize_inner-ok_iff, authorize_with_options-event,
}
use dyolo_kya.Authorize.Stores.{nonces_at, revocations, Run, IsSound, next, done, consumes}
use dyolo_kya.Authorize.Replay.{Attempt, attempt, replay_refused}
use dyolo_kya.Authorize.Revoked.{after_all, revoked_refused}
use dyolo_kya.Authorize.Batch.Single.{Granted, authorize_batch-All_iff}
use dyolo_kya.Authorize.Batch.Partial.{authorize_batch-partial}
use dyolo_kya.Examples.World.{
  toy, toy-IsBatchVerifier, chain, first_cert, second_cert, buy, sell, no_siblings,
}
use dyolo_kya.Examples.Chains.{chain-IsValidChain}
use dyolo_kya.Examples.Stores.{empty_sound, first_use}

abbrev BuyAdmissible : Type 0
BuyAdmissible =
    Admissible toy revocations (nonces_at 500) chain (3 ∷ []) buy no_siblings 500 none
      Revocation.new

chain-Admissible : BuyAdmissible
chain-Admissible = record {
  meets = tt;
  valid = chain-IsValidChain;
  unrevoked = (
    RevocationBatch.new-IsValid.1 (fingerprint toy first_cert),
    (RevocationBatch.new-IsValid.1 (fingerprint toy second_cert), tt),
  );
}

abbrev pub granted : AuthorizedAction
granted = record {
  receipt = receipt_of chain buy 500 (described toy chain (3 ∷ []) buy no_siblings 500 15);
}

abbrev pub buy_attempt : Attempt
buy_attempt = record {
  chain = chain;
  agent = 3 ∷ [];
  intent = buy;
  proof = no_siblings;
  now = 500;
  policy = none;
}

pub nonces_taken : (Nonce.try_consume_batch 500 (nonces chain.certs) Nonce.new).0 ≡ ok true
unfolding issue
nonces_taken = first_use

buy_granted :
    (attempt toy toy-IsBatchVerifier revocations 500 buy_attempt Revocation.new Nonce.new).0
    ≡ ok granted
unfolding receipt_of
buy_granted =
    (authorize_inner-ok_iff toy revocations (nonces_at 500) chain (3 ∷ []) buy no_siblings 500
        toy-IsBatchVerifier none Revocation.new Nonce.new granted).1
      (chain-Admissible, nonces_taken, refl)

pub empty_IsSound : IsSound Nonce.new
empty_IsSound = record { valid = NonceLaws.new-IsValid; sound = empty_sound }

abbrev after_buy : Nonce.MemoryNonceStore
after_buy = (attempt toy toy-IsBatchVerifier revocations 500 buy_attempt Revocation.new Nonce.new).1

-- Another nonce is consumed before the replay.
abbrev after_other : Nonce.MemoryNonceStore
after_other = (Nonce.try_consume 550 (9 ∷ []) after_buy).1

other-Run : Run toy revocations 600 after_buy after_other
other-Run =
    next 550 after_buy after_other after_other (ground arith) (consumes (9 ∷ []) after_buy)
      (done after_other)

pub no_expiry : 600 ≤ Nonce.expiry_of 500 Nonce.new.ttl_secs
unfolding Nonce.new Nonce.expiry_of
no_expiry = ground arith

pub buy_nonce : In (7 ∷ []) (nonces chain.certs)
unfolding issue
buy_nonce = inl refl

replay_refused_example :
    (attempt toy toy-IsBatchVerifier revocations 600 buy_attempt Revocation.new after_other).0
    ≢ ok granted
replay_refused_example =
    replay_refused toy toy-IsBatchVerifier revocations 500 600 buy_attempt buy_attempt
      Revocation.new Revocation.new Nonce.new after_other granted granted (7 ∷ []) empty_IsSound
      (ground arith) no_expiry buy_nonce buy_nonce buy_granted other-Run

abbrev pub first_revoked : MemoryRevocationStore
first_revoked = (revoke_batch (fingerprint toy first_cert ∷ []) Revocation.new).1

revoked_refused_example :
    (authorize_inner toy revocations
      (nonces_at 500)
      chain
      (3 ∷ [])
      buy
      no_siblings
      500
      none
      (after_all (((9 ∷ []) ∷ []) ∷ []) first_revoked)
      Nonce.new).0
    ≢ ok granted
revoked_refused_example =
    revoked_refused toy toy-IsBatchVerifier (nonces_at 500) (fingerprint toy first_cert ∷ [])
      (((9 ∷ []) ∷ []) ∷ []) first_cert chain (3 ∷ []) buy no_siblings 500 none Revocation.new
      Nonce.new granted RevocationBatch.new-IsValid.0 (inl refl) (inl refl)

authorize_batch-All_iff_example :
    ((authorize_batch toy revocations
        (nonces_at 500)
        chain
        (3 ∷ [])
        ((buy, no_siblings) ∷ (sell, no_siblings) ∷ [])
        501
        500
        Revocation.new
        Nonce.new).0.all_authorized
      ≡ true)
    ↔ All
        (Granted toy revocations
          (nonces_at 500)
          toy-IsBatchVerifier
          chain
          (3 ∷ [])
          501
          500
          Revocation.new
          Nonce.new)
        ((buy, no_siblings) ∷ (sell, no_siblings) ∷ [])
authorize_batch-All_iff_example =
    authorize_batch-All_iff toy revocations (nonces_at 500) toy-IsBatchVerifier chain (3 ∷ []) 501
      500 Revocation.new Nonce.new ((buy, no_siblings) ∷ (sell, no_siblings) ∷ [])

sell_out :
    ¬ All
      (λ (q : Bytes × MerkleProof).
        intent_authorized toy q.1 q.0 (last_scope chain.principal_scope chain.certs) ≡ true)
      ((sell, no_siblings) ∷ [])
unfolding intent_authorized issue bytes_beq
sell_out h = cc h.0

authorize_batch-partial_example :
    let (result, after) =
      authorize_batch toy revocations
        (nonces_at 500)
        chain
        (3 ∷ [])
        ((buy, no_siblings) ∷ (sell, no_siblings) ∷ [])
        501
        500
        Revocation.new
        Nonce.new in
    (result.all_authorized ≡ false)
    × (result.receipts
        ≡ map
            (λ (q : Bytes × MerkleProof).
              if intent_authorized toy q.1 q.0 (last_scope chain.principal_scope chain.certs)
              then some
                  (receipt_of chain q.0 501 (described toy chain (3 ∷ []) buy no_siblings 500 15))
              else none)
            ((buy, no_siblings) ∷ (sell, no_siblings) ∷ []))
    × (after ≡ Nonce.new)
authorize_batch-partial_example =
    authorize_batch-partial toy revocations (nonces_at 500) toy-IsBatchVerifier chain (3 ∷ []) 501
      500 Revocation.new Nonce.new (buy, no_siblings) ((sell, no_siblings) ∷ []) chain-Admissible
      sell_out

abbrev bytes_as_they_are : Bytes → Bytes
bytes_as_they_are b = b

authorize_with_options-event_example :
    let (result, event, after) =
      authorize_with_options toy revocations
        (nonces_at 500)
        bytes_as_they_are
        chain
        (3 ∷ [])
        buy
        no_siblings
        500
        501
        none
        Revocation.new
        Nonce.new in
    ((event.outcome ≡ AuditOutcome.authorized) ↔ ((a : AuthorizedAction) × (result ≡ ok a)))
    × ((event.outcome ≡ AuditOutcome.storage_error)
        ↔ ((e : A1Error) × (result ≡ err e) × (is_transient_storage_failure e ≡ true)))
    × ((event.error_message ≡ none) ↔ ((a : AuthorizedAction) × (result ≡ ok a)))
authorize_with_options-event_example =
    authorize_with_options-event toy revocations (nonces_at 500) bytes_as_they_are chain (3 ∷ [])
      buy no_siblings 500 501 none Revocation.new Nonce.new
