-- ===== src/Examples/Awaits.antt =====
-- Asynchronous authorizations of the chain of two certificates over the in-memory stores.
use dyolo_kya.Prelude.{◌≡◌, ◌≢◌, inl, refl, [], ◌∷◌, none, ok, arith}
use dyolo_kya.Cert.{fingerprint}
use dyolo_kya.Registry.Nonce
use dyolo_kya.Registry.Nonce.{MemoryNonceStore}
use dyolo_kya.Registry.Revocation
use dyolo_kya.Registry.Revocation.{revoke_batch}
use dyolo_kya.Registry.Revocation.Batch as RevocationBatch
use dyolo_kya.Authorize.{authorize_with_options, authorize, authorize_batch, receipt_of}
use dyolo_kya.Authorize.Stores.{nonces_at, revocations, Run, next, done, consumes}
use dyolo_kya.Authorize.Revoked.{after_all}
use dyolo_kya.Authorize.Awaits.{
  authorize_block, authorize_async_with_options, authorize_async, authorize_batch_async,
}
use dyolo_kya.Authorize.Awaits.Steady.{authorize_async_steady}
use dyolo_kya.Authorize.Awaits.Granted.{authorize_block-ok_iff}
use dyolo_kya.Authorize.Awaits.Races.{attempt_async, attempt_async_once, revoked_async_refused}
use dyolo_kya.Examples.World.{
  toy, toy-IsBatchVerifier, chain, first_cert, second_cert, buy, sell, no_siblings,
}
use dyolo_kya.Examples.Chains.{chain-IsValidChain}
use dyolo_kya.Examples.Authorizations.{
  granted, buy_attempt, nonces_taken, empty_IsSound, no_expiry, buy_nonce, first_revoked,
}

granted_async :
    (attempt_async toy toy-IsBatchVerifier revocations 500 buy_attempt
      (λ i. Revocation.new)
      Nonce.new).0
    ≡ ok granted
unfolding receipt_of
granted_async =
    (authorize_block-ok_iff toy revocations (nonces_at 500) chain (3 ∷ []) buy no_siblings 500
        toy-IsBatchVerifier none (λ i. Revocation.new) Nonce.new granted).1
      (
        record {
          meets = tt;
          valid = chain-IsValidChain;
          unrevoked = (
            RevocationBatch.new-IsValid.1 (fingerprint toy first_cert),
            (RevocationBatch.new-IsValid.1 (fingerprint toy second_cert), tt),
          );
        },
        nonces_taken,
        refl,
      )

abbrev after_buy : MemoryNonceStore
after_buy =
    (attempt_async toy toy-IsBatchVerifier revocations 500 buy_attempt (λ i. Revocation.new)
      Nonce.new).1

-- Another task consumes a nonce before the second attempt.
abbrev after_other : MemoryNonceStore
after_other = (Nonce.try_consume 550 (9 ∷ []) after_buy).1

other-Run : Run toy revocations 600 after_buy after_other
other-Run =
    next 550 after_buy after_other after_other (ground arith) (consumes (9 ∷ []) after_buy)
      (done after_other)

attempt_async_once_example :
    (attempt_async toy toy-IsBatchVerifier revocations 600 buy_attempt
      (λ i. Revocation.new)
      after_other).0
    ≢ ok granted
attempt_async_once_example =
    attempt_async_once toy toy-IsBatchVerifier revocations 500 600 buy_attempt buy_attempt
      (λ i. Revocation.new) (λ i. Revocation.new) Nonce.new after_other granted granted (7 ∷ [])
      empty_IsSound (ground arith) no_expiry buy_nonce buy_nonce granted_async other-Run

revoked_async_refused_example :
    (authorize_block toy revocations
      (nonces_at 500)
      chain
      (3 ∷ [])
      buy
      no_siblings
      500
      none
      (λ i. after_all (((9 ∷ []) ∷ []) ∷ []) first_revoked)
      Nonce.new).0
    ≢ ok granted
revoked_async_refused_example =
    revoked_async_refused toy toy-IsBatchVerifier (nonces_at 500) (fingerprint toy first_cert ∷ [])
      (λ i. ((9 ∷ []) ∷ []) ∷ []) first_cert chain (3 ∷ []) buy no_siblings 500 none Revocation.new
      Nonce.new granted RevocationBatch.new-IsValid.0 (inl refl) (inl refl)

authorize_async_steady_example :
    (authorize_async_with_options toy revocations
        (nonces_at 500)
        (λ b. b)
        chain
        (3 ∷ [])
        buy
        no_siblings
        500
        501
        none
        (λ i. Revocation.new)
        Nonce.new
      ≡ authorize_with_options toy revocations
          (nonces_at 500)
          (λ b. b)
          chain
          (3 ∷ [])
          buy
          no_siblings
          500
          501
          none
          Revocation.new
          Nonce.new)
    × (authorize_async toy revocations
          (nonces_at 500)
          (λ b. b)
          chain
          (3 ∷ [])
          buy
          no_siblings
          500
          501
          (λ i. Revocation.new)
          Nonce.new
        ≡ authorize toy revocations
            (nonces_at 500)
            (λ b. b)
            chain
            (3 ∷ [])
            buy
            no_siblings
            500
            501
            Revocation.new
            Nonce.new)
    × (authorize_batch_async toy revocations
          (nonces_at 500)
          chain
          (3 ∷ [])
          ((buy, no_siblings) ∷ (sell, no_siblings) ∷ [])
          500
          500
          (λ i. Revocation.new)
          Nonce.new
        ≡ authorize_batch toy revocations
            (nonces_at 500)
            chain
            (3 ∷ [])
            ((buy, no_siblings) ∷ (sell, no_siblings) ∷ [])
            500
            500
            Revocation.new
            Nonce.new)
authorize_async_steady_example =
    authorize_async_steady toy revocations (nonces_at 500) Revocation.new chain (3 ∷ []) (λ b. b)
      buy no_siblings 500 501 500 none ((buy, no_siblings) ∷ (sell, no_siblings) ∷ []) Nonce.new
