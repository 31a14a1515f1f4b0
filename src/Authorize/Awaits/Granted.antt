-- ===== src/Authorize/Awaits/Granted.antt =====
-- src/chain.rs: when an asynchronous authorization is granted.
use dyolo_kya.Prelude.{
  ℕ, suc, ◌≡◌, ◌↔◌, refl, sym, ap, ◌∙◌, inl, inr, true, false, List, [], ◌∷◌, map, Option, ok,
  arith, Result-cases,
}
use dyolo_kya.Prelude.Bytes.{Bytes}
use dyolo_kya.Crypto.{Crypto}
use dyolo_kya.Merkle.{MerkleProof}
use dyolo_kya.Cert.{fingerprint}
use dyolo_kya.Chain.{DyoloChain, ChainValidationResult, validate_structure}
use dyolo_kya.Chain.Spec.{IsValidChain, IsBatchVerifier, nonces}
use dyolo_kya.Chain.Validate.{validate-IsValidChain, validate_complete}
use dyolo_kya.Policy.{DelegationPolicy}
use dyolo_kya.Registry.{NonceStore, RevocationStore}
use dyolo_kya.Authorize.{AuthorizedAction, receipt_of, check_policies, answer, consume}
use dyolo_kya.Authorize.Guarantees.{MeetsAll, check_policies_iff, answer-ok_iff, validated}
use dyolo_kya.Authorize.Awaits.{check_revoked_async, screen_async, authorize_block}

module _ (c : Crypto) {R S : Type 0} (revocation : RevocationStore R) (store : NonceStore S) where
  -- Every fingerprint is free in the state that its query reads.
  abbrev pub Unrevoked : List Bytes → (ℕ → R) → Type 0
  Unrevoked [] r = Unit
  Unrevoked (fp ∷ fps) r =
      (revocation.is_revoked fp (r 0) ≡ ok false) × Unrevoked fps (λ i. r (suc i))

  check_revoked_async_iff :
      (fps : List Bytes) (r : ℕ → R)
      → (check_revoked_async c revocation store fps r ≡ ok tt) ↔ Unrevoked fps r
  unfolding check_revoked_async
  check_revoked_async_iff [] r = (λ h. tt, λ h. refl)
  check_revoked_async_iff (fp ∷ fps) r = elim (Result-cases (revocation.is_revoked fp (r 0))) [
    | inr (e, q) ↦ rw q (λ h. cc, λ h. cc h.0)
    | inl (true, q) ↦ rw q (λ h. cc, λ h. cc h.0)
    | inl (false, q) ↦
        let rest = check_revoked_async_iff fps (λ i. r (suc i)) in
        rw q (λ h. (refl, rest.0 h), λ h. rest.1 h.1)
  ]

  module _ (ch : DyoloChain) (agent intent : Bytes) (proof : MerkleProof) (now : ℕ)
      (batched : IsBatchVerifier c) (policy : Option (List DelegationPolicy)) (r : ℕ → R) where
    -- What an asynchronous authorization asks before it writes.
    pub record Admitted : Type 0 where
      pub meets : MeetsAll policy ch
      pub valid : IsValidChain c ch agent intent proof now ch.drift_tolerance_secs
      pub unrevoked : Unrevoked (map (fingerprint c) ch.certs) r

    abbrev outcome : ChainValidationResult
    outcome = validated c revocation store ch agent intent proof now

    screen_async_sound :
        (v : ChainValidationResult)
        → screen_async c revocation store ch agent intent proof now policy r ≡ ok v
        → Admitted × (v ≡ outcome)
    unfolding screen_async
    screen_async_sound v h = elim (Result-cases (check_policies policy ch)) [
      | inr (e, q) ↦ absurd (ground arith)
      | inl (_, met) ↦
          elim (Result-cases
            (validate_structure c ch agent intent proof now ch.drift_tolerance_secs)) [
              | inr (e, q) ↦ absurd (ground arith)
              | inl (w, ran) ↦
                  let sound =
                    validate-IsValidChain c ch agent intent proof now ch.drift_tolerance_secs
                      batched w ran in
                  elim (Result-cases
                    (check_revoked_async c revocation store w.cert_fingerprints r)) [
                      | inr (e, q) ↦ absurd (ground arith)
                      | inl (_, free) ↦ (
                        record {
                          meets = (check_policies_iff policy ch).0 met;
                          valid = sound.0;
                          unrevoked =
                              (check_revoked_async_iff (map (fingerprint c) ch.certs) r).0
                                (cc (sound.1, free));
                        },
                        ground (arith, sound.1),
                      )
                    ]
            ]
    ]

    screen_async_complete :
        Admitted → screen_async c revocation store ch agent intent proof now policy r ≡ ok outcome
    unfolding screen_async
    screen_async_complete a =
        rw
          (
            (check_policies_iff policy ch).1 a.meets,
            validate_complete c ch agent intent proof now ch.drift_tolerance_secs batched a.valid,
            (check_revoked_async_iff (map (fingerprint c) ch.certs) r).1 a.unrevoked,
          )
          refl

    -- A chain that passes leaves the answer to the nonce store.
    pub authorize_block-Admitted :
        (s : S)
        → Admitted
        → authorize_block c revocation store ch agent intent proof now policy r s
          ≡ answer c revocation store
              (receipt_of ch intent now outcome)
              (store.try_consume_batch (nonces ch.certs) s)
    unfolding authorize_block consume
    authorize_block-Admitted s a = rw (screen_async_complete a) refl

    -- An asynchronous authorization is granted exactly if the chain is valid for the agent and the
    -- intent, it meets every policy, each certificate is not revoked in the state that its own query
    -- reads, and the nonce store takes the nonces in the state that the last call finds. The batch
    -- verifier is assumed to accept exactly the batches whose every signature verifies.
    pub authorize_block-ok_iff :
        (s : S) (a : AuthorizedAction)
        → ((authorize_block c revocation store ch agent intent proof now policy r s).0 ≡ ok a) ↔ (
            Admitted
            × ((store.try_consume_batch (nonces ch.certs) s).0 ≡ ok true)
            × (a ≡ record { receipt = receipt_of ch intent now outcome }))
    unfolding authorize_block consume
    authorize_block-ok_iff s a =
        let answered =
          answer-ok_iff c revocation store (receipt_of ch intent now outcome)
            (store.try_consume_batch (nonces ch.certs) s) a in
        (
          (λ h.
              elim (Result-cases
                (screen_async c revocation store ch agent intent proof now policy r)) [
                  | inr (e, q) ↦ absurd (ground (arith, q, h))
                  | inl (v, q) ↦
                      let admitted = (screen_async_sound v q).0 in
                      let made = authorize_block-Admitted s admitted in
                      let got = answered.0 (sym (ap (λ z. z.0) made) ∙ h) in
                      (admitted, got.0, got.1)
                ]),
          (λ h. ap (λ z. z.0) (authorize_block-Admitted s h.0) ∙ answered.1 (h.1, h.2)),
        )
