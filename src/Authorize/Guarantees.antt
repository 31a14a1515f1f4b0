-- ===== src/Authorize/Guarantees.antt =====
-- src/chain.rs: when an authorization is granted, over any stores.
use dyolo_kya.Prelude.{
  ℕ, ◌≡◌, ◌↔◌, ◌⊎◌, inl, inr, refl, Bool, true, false, All, List, [], ◌∷◌, map, Option, some, none,
  length, if◌then◌else◌, Result, ok, err, arith, Result-cases,
}
use dyolo_kya.Prelude.Bytes.{Bytes}
use dyolo_kya.Error.{A1Error, A1StorageError, is_transient_storage_failure}
use dyolo_kya.Crypto.{Crypto}
use dyolo_kya.Merkle.{MerkleProof}
use dyolo_kya.Cert.{fingerprint}
use dyolo_kya.Audit
use dyolo_kya.Audit.{AuditOutcome}
use dyolo_kya.Chain.{DyoloChain, VerificationReceipt, ChainValidationResult, validate_structure}
use dyolo_kya.Chain.Spec.{IsValidChain, IsBatchVerifier, nonces}
use dyolo_kya.Chain.Validate.{described, validate-IsValidChain, validate_complete}
use dyolo_kya.Policy.{DelegationPolicy}
use dyolo_kya.Policy.Guarantees.{Meets, check_chain_iff}
use dyolo_kya.Registry.{NonceStore, RevocationStore}
use dyolo_kya.Authorize.{
  AuthorizedAction, receipt_of, check_policies, outcome_of, describe_result, check_revoked, screen,
  answer, consume, authorize_inner, authorize_with_options,
}

-- The chain meets every policy of the set, where there is one.
abbrev pub MeetsAll : Option (List DelegationPolicy) → DyoloChain → Type 0
MeetsAll none ch = Unit
MeetsAll (some ps) ch = All (λ p. Meets p ch) ps

pub check_policies_iff :
    (policy : Option (List DelegationPolicy)) (ch : DyoloChain)
    → (check_policies policy ch ≡ ok tt) ↔ MeetsAll policy ch
unfolding check_policies
check_policies_iff none ch = (λ h. tt, λ h. refl)
check_policies_iff (some ps) ch = check_chain_iff ps ch

outcome_of-err :
    (e : A1Error)
    → ((outcome_of (err e) ≡ AuditOutcome.policy_violation)
        × (is_transient_storage_failure e ≡ false))
      ⊎ (outcome_of (err e) ≡ (
          if is_transient_storage_failure e
          then AuditOutcome.storage_error
          else AuditOutcome.denied))
unfolding outcome_of is_transient_storage_failure
outcome_of-err (A1Error.policy_violation m) = inl (refl, refl)
outcome_of-err _ = inr refl

-- The classification of a result, as the event of any attempt carries it.
describe_result_lem :
    (encode : Bytes → Bytes) (result : Result A1Error AuthorizedAction) (pk agent intent : Bytes)
    (depth at : ℕ)
    → let event =
        describe_result encode result
          (Audit.new encode (outcome_of result) pk agent depth intent at) in
      ((event.outcome ≡ AuditOutcome.authorized) ↔ ((a : AuthorizedAction) × (result ≡ ok a)))
      × ((event.outcome ≡ AuditOutcome.storage_error)
          ↔ ((e : A1Error) × (result ≡ err e) × (is_transient_storage_failure e ≡ true)))
      × ((event.error_message ≡ none) ↔ ((a : AuthorizedAction) × (result ≡ ok a)))
unfolding describe_result Audit.new Audit.with_fingerprint Audit.with_error outcome_of
describe_result_lem encode (ok a) pk agent intent depth at =
    ((λ h. (a, refl), λ h. refl), (λ h. cc, λ h. cc (h.1)), (λ h. (a, refl), λ h. refl))
describe_result_lem encode (err e) pk agent intent depth at =
    let kind = outcome_of-err e in
    (
      (λ h. absurd (ground (arith, kind)), λ h. cc (h.1)),
      (λ h. (e, refl, ground (arith, kind)), λ h. ground (arith, kind)),
      (λ h. cc, λ h. cc (h.1)),
    )

module _ (c : Crypto) {R S : Type 0} (revocation : RevocationStore R) (store : NonceStore S) where
  pub check_revoked_iff :
      (fps : List Bytes) (r : R)
      → (check_revoked c revocation store fps r ≡ ok tt)
        ↔ All (λ fp. revocation.is_revoked fp r ≡ ok false) fps
  unfolding check_revoked
  check_revoked_iff [] r = (λ h. tt, λ h. refl)
  check_revoked_iff (fp ∷ fps) r = elim (Result-cases (revocation.is_revoked fp r)) [
    | inr (e, q) ↦ rw q (λ h. cc, λ h. cc h.0)
    | inl (true, q) ↦ rw q (λ h. cc, λ h. cc h.0)
    | inl (false, q) ↦
        rw q (λ h. (refl, (check_revoked_iff fps r).0 h), λ h. (check_revoked_iff fps r).1 h.1)
  ]

  pub answer-ok_iff :
      (receipt : VerificationReceipt) (q : Result A1StorageError Bool × S) (a : AuthorizedAction)
      → ((answer c revocation store receipt q).0 ≡ ok a)
        ↔ ((q.0 ≡ ok true) × (a ≡ record { receipt = receipt }))
  unfolding answer
  answer-ok_iff receipt (ok true, s) a = (λ h. (refl, ground arith), λ h. ground arith)
  answer-ok_iff receipt (ok false, s) a = (λ h. cc, λ h. absurd (ground arith))
  answer-ok_iff receipt (err e, s) a = (λ h. cc, λ h. absurd (ground arith))

  module _ (ch : DyoloChain) (agent intent : Bytes) (proof : MerkleProof) (now : ℕ) where
    abbrev pub validated : ChainValidationResult
    validated = described c ch agent intent proof now ch.drift_tolerance_secs

    -- What an authorization asks before it writes.
    pub record Admissible (policy : Option (List DelegationPolicy)) (r : R) : Type 0 where
      pub meets : MeetsAll policy ch
      pub valid : IsValidChain c ch agent intent proof now ch.drift_tolerance_secs
      pub unrevoked :
          All (λ fp. revocation.is_revoked fp r ≡ ok false) (map (fingerprint c) ch.certs)

    module _ (batched : IsBatchVerifier c) (policy : Option (List DelegationPolicy)) (r : R) where
      pub screen_sound :
          (v : ChainValidationResult)
          → screen c revocation store ch agent intent proof now policy r ≡ ok v
          → Admissible policy r × (v ≡ validated)
      unfolding screen
      screen_sound v h = elim (Result-cases (check_policies policy ch)) [
        | inr (e, q) ↦ absurd (ground arith)
        | inl (_, met) ↦
            elim (Result-cases
              (validate_structure c ch agent intent proof now ch.drift_tolerance_secs)) [
                | inr (e, q) ↦ absurd (ground arith)
                | inl (w, ran) ↦
                    let sound =
                      validate-IsValidChain c ch agent intent proof now ch.drift_tolerance_secs
                        batched w ran in
                    elim (Result-cases (check_revoked c revocation store w.cert_fingerprints r)) [
                      | inr (e, q) ↦ absurd (ground arith)
                      | inl (_, free) ↦ (
                        record {
                          meets = (check_policies_iff policy ch).0 met;
                          valid = sound.0;
                          unrevoked =
                              (check_revoked_iff (map (fingerprint c) ch.certs) r).0
                                (cc (sound.1, free));
                        },
                        ground (arith, sound.1),
                      )
                    ]
              ]
      ]

      pub screen_complete :
          Admissible policy r
          → screen c revocation store ch agent intent proof now policy r ≡ ok validated
      unfolding screen
      screen_complete a =
          rw
            (
              (check_policies_iff policy ch).1 a.meets,
              validate_complete c ch agent intent proof now ch.drift_tolerance_secs batched a.valid,
              (check_revoked_iff (map (fingerprint c) ch.certs) r).1 a.unrevoked,
            )
            refl

      -- A chain that passes leaves the answer to the nonce store.
      pub authorize_inner-Admissible :
          (s : S)
          → Admissible policy r
          → authorize_inner c revocation store ch agent intent proof now policy r s
            ≡ answer c revocation store
                (receipt_of ch intent now validated)
                (store.try_consume_batch (nonces ch.certs) s)
      unfolding authorize_inner consume
      authorize_inner-Admissible s a = rw (screen_complete a) refl

      -- A chain that does not pass is refused, and the nonce store is not called.
      pub Admissible-cases :
          (s : S)
          → Admissible policy r
            ⊎ ((e : A1Error) × (screen c revocation store ch agent intent proof now policy r
                  ≡ err e)
                × (authorize_inner c revocation store ch agent intent proof now policy r s
                    ≡ (err e, s)))
      unfolding authorize_inner consume
      Admissible-cases s =
          elim (Result-cases (screen c revocation store ch agent intent proof now policy r)) [
            | inl (v, q) ↦ inl (screen_sound v q).0
            | inr (e, q) ↦ inr (e, q, rw q refl)
          ]

      pub authorize_inner-ok_iff :
          (s : S) (a : AuthorizedAction)
          → ((authorize_inner c revocation store ch agent intent proof now policy r s).0 ≡ ok a) ↔ (
              Admissible policy r
              × ((store.try_consume_batch (nonces ch.certs) s).0 ≡ ok true)
              × (a ≡ record { receipt = receipt_of ch intent now validated }))
      authorize_inner-ok_iff s a = elim (Admissible-cases s) [
        | inl m ↦ rw (authorize_inner-Admissible s m) (
            let split =
              answer-ok_iff (receipt_of ch intent now validated)
                (store.try_consume_batch (nonces ch.certs) s) a in
            (λ h. (m, (split.0 h).0, (split.0 h).1), λ h. split.1 (h.1, h.2)))
        | inr (e, q, k) ↦
            (λ h. absurd (ground (arith, k)), λ h. absurd (ground (arith, screen_complete h.0)))
      ]

  -- The sink receives one event of each attempt. It says `authorized` exactly if the authorization
  -- is granted, `storage_error` exactly on a transient failure of a store, and it carries an error
  -- message exactly if the authorization is not granted.
  pub authorize_with_options-event :
      (encode : Bytes → Bytes) (ch : DyoloChain) (agent intent : Bytes) (proof : MerkleProof)
      (now then_now : ℕ) (policy : Option (List DelegationPolicy)) (r : R) (s : S)
      → let (result, event, after) =
          authorize_with_options c revocation store encode ch agent intent proof now then_now policy
            r s in
        ((event.outcome ≡ AuditOutcome.authorized) ↔ ((a : AuthorizedAction) × (result ≡ ok a)))
        × ((event.outcome ≡ AuditOutcome.storage_error)
            ↔ ((e : A1Error) × (result ≡ err e) × (is_transient_storage_failure e ≡ true)))
        × ((event.error_message ≡ none) ↔ ((a : AuthorizedAction) × (result ≡ ok a)))
  unfolding authorize_with_options
  authorize_with_options-event encode ch agent intent proof now then_now policy r s =
      describe_result_lem encode
        (authorize_inner c revocation store ch agent intent proof now policy r s).0
        (encode ch.principal_pk) (encode agent) intent (length ch.certs) then_now
