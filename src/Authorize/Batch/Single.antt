-- ===== src/Authorize/Batch/Single.antt =====
-- src/chain.rs: `authorize_batch` against one authorization an intent.
use dyolo_kya.Prelude.{
  ℕ, ◌≡◌, ◌≢◌, ◌↔◌, inl, inr, refl, sym, ap, ◌∙◌, Bool, true, false, All, List, [], ◌∷◌, map,
  Option, none, length, is_ok, Result, ok, err, arith, Result-cases, Option-cases,
}
use dyolo_kya.Prelude.Bytes.{Bytes}
use dyolo_kya.Error.{A1Error, A1StorageError}
use dyolo_kya.Crypto.{Crypto}
use dyolo_kya.Merkle.{MerkleProof}
use dyolo_kya.Cert.{fingerprint}
use dyolo_kya.Chain.{DyoloChain, ChainValidationResult, validate_structure, intent_authorized}
use dyolo_kya.Chain.Spec.{IsBatchVerifier, nonces, last_scope}
use dyolo_kya.Chain.Validate.{described, validate-IsValidChain, validate_complete}
use dyolo_kya.Registry.{NonceStore, RevocationStore}
use dyolo_kya.Authorize.{
  BatchAuthorizeResult, all_failed, batch_revoked, batch_turn, check_items, answer_batch,
  settle_batch, finish_batch, run_batch, authorize_batch, authorize_inner,
}
use dyolo_kya.Authorize.Guarantees.{Admissible, authorize_inner-ok_iff}
use dyolo_kya.Authorize.Batch.{check_items-All}

module _ (c : Crypto) {R S : Type 0} (revocation : RevocationStore R) (store : NonceStore S) where
  batch_turn_iff :
      (n : ℕ) (q : Result A1StorageError Bool) (rest : Option (List (Option A1Error)))
      → (batch_turn c revocation store n q rest ≡ none) ↔ ((q ≡ ok false) × (rest ≡ none))
  unfolding batch_turn
  batch_turn_iff n (ok true) rest = (λ h. cc, λ h. cc (h.0))
  batch_turn_iff n (ok false) rest = (λ h. (refl, h), λ h. h.1)
  batch_turn_iff n (err e) rest = (λ h. cc, λ h. cc (h.0))

  pub batch_revoked_iff :
      (n : ℕ) (fps : List Bytes) (r : R)
      → (batch_revoked c revocation store n fps r ≡ none)
        ↔ All (λ fp. revocation.is_revoked fp r ≡ ok false) fps
  unfolding batch_revoked
  batch_revoked_iff n [] r = (λ h. tt, λ h. refl)
  batch_revoked_iff n (fp ∷ fps) r =
      let turn =
        batch_turn_iff n (revocation.is_revoked fp r) (batch_revoked c revocation store n fps r) in
      (
        λ h. ((turn.0 h).0, (batch_revoked_iff n fps r).0 (turn.0 h).1),
        λ h. turn.1 (h.0, (batch_revoked_iff n fps r).1 h.1),
      )

  answer_batch-all :
      (n : ℕ) (b : BatchAuthorizeResult) (q : Result A1StorageError Bool × S)
      → ((answer_batch c revocation store n b q).0.all_authorized ≡ true)
        ↔ ((b.all_authorized ≡ true) × (q.0 ≡ ok true))
  unfolding answer_batch all_failed
  answer_batch-all n b (ok true, s) = (λ h. (h, refl), λ h. h.0)
  answer_batch-all n b (ok false, s) = (λ h. cc, λ h. cc (h.1))
  answer_batch-all n b (err e, s) = (λ h. cc, λ h. cc (h.1))

  settle_batch-all :
      (n : ℕ) (seen : List Bytes) (s : S) (b : BatchAuthorizeResult)
      → ((settle_batch c revocation store n seen s b).0.all_authorized ≡ true)
        ↔ ((b.all_authorized ≡ true) × ((store.try_consume_batch seen s).0 ≡ ok true))
  unfolding settle_batch
  settle_batch-all n seen s b =
      let iff = answer_batch-all n b (store.try_consume_batch seen s) in
      (λ h. ground (arith, iff), λ h. ground (arith, iff))

  module _ (batched : IsBatchVerifier c) (ch : DyoloChain) (agent : Bytes) (now checked : ℕ) (r : R)
      (s : S) where
    -- The item's intent alone is granted.
    abbrev pub Granted : Bytes × MerkleProof → Type 0
    Granted q =
        is_ok (authorize_inner c revocation store ch agent q.0 q.1 checked none r s).0 ≡ true

    abbrev Admitted : Bytes × MerkleProof → Type 0
    Admitted q = Admissible c revocation store ch agent q.0 q.1 checked none r

    Granted-iff :
        (q : Bytes × MerkleProof)
        → Granted q ↔ (Admitted q × ((store.try_consume_batch (nonces ch.certs) s).0 ≡ ok true))
    Granted-iff q =
        let iff =
          authorize_inner-ok_iff c revocation store ch agent q.0 q.1 checked batched none r s in
        (
          λ h.
              elim (Result-cases
                (authorize_inner c revocation store ch agent q.0 q.1 checked none r s).0) [
                  | inl (a, k) ↦ (((iff a).0 k).0, ((iff a).0 k).1)
                  | inr (e, k) ↦ absurd (ground arith)
                ],
          λ h. rw ((iff _).1 (h.0, h.1, refl)) refl,
        )

    abbrev scope : Bytes
    scope = last_scope ch.principal_scope ch.certs

    -- Another intent of the same chain.
    Admitted-other :
        (p q : Bytes × MerkleProof)
        → Admitted p
        → intent_authorized c q.1 q.0 scope ≡ true
        → Admitted q
    Admitted-other p q a h = record {
      meets = tt;
      unrevoked = a.unrevoked;
      valid = record {
        nonempty = a.valid.nonempty;
        short = a.valid.short;
        linked = a.valid.linked;
        versions = a.valid.versions;
        in_window = a.valid.in_window;
        shrinking = a.valid.shrinking;
        deep_enough = a.valid.deep_enough;
        no_repeat = a.valid.no_repeat;
        scoped = a.valid.scoped;
        signed = a.valid.signed;
        authorized = h;
      };
    }

    abbrev validated : Bytes × MerkleProof → ChainValidationResult
    validated q = described c ch agent q.0 q.1 checked ch.drift_tolerance_secs

    run_batch-All :
        (items : List (Bytes × MerkleProof)) (q : Bytes × MerkleProof)
        → ((run_batch c revocation store ch now items r s (ok (validated q))).0.all_authorized
            ≡ true)
          ↔ (All (λ fp. revocation.is_revoked fp r ≡ ok false) (map (fingerprint c) ch.certs)
              × All (λ p. intent_authorized c p.1 p.0 scope ≡ true) items
              × ((store.try_consume_batch (nonces ch.certs) s).0 ≡ ok true))
    unfolding run_batch finish_batch all_failed
    run_batch-All items q =
        let free = batch_revoked_iff (length items) (map (fingerprint c) ch.certs) r in
        let passed = check_items c revocation store ch now (validated q) 0 items in
        let all = check_items-All c revocation store ch now (validated q) 0 items in
        let settled = settle_batch-all (length items) (nonces ch.certs) s passed in
        elim (Option-cases
          (batch_revoked c revocation store (length items) (map (fingerprint c) ch.certs) r)) [
            | inr (es, k) ↦ rw k (λ h. cc, λ h. absurd (ground (arith, free.1 h.0)))
            | inl k ↦ rw k (
              λ h. (free.0 k, all.0 (settled.0 h).0, (settled.0 h).1),
              λ h. settled.1 (all.1 h.1, h.2),
            )
          ]

    refused :
        (items : List (Bytes × MerkleProof)) (e : A1Error)
        → (run_batch c revocation store ch now items r s (err e)).0.all_authorized ≢ true
    unfolding run_batch all_failed
    refused items e h = cc

    All-of_Granted :
        (items : List (Bytes × MerkleProof))
        → All Granted items
        → All (λ p. intent_authorized c p.1 p.0 scope ≡ true) items
    All-of_Granted [] g = tt
    All-of_Granted (q ∷ items) g =
        (((Granted-iff q).0 g.0).0.valid.authorized, All-of_Granted items g.1)

    Granted-of_All :
        (p : Bytes × MerkleProof) (items : List (Bytes × MerkleProof))
        → Admitted p
        → (store.try_consume_batch (nonces ch.certs) s).0 ≡ ok true
        → All (λ q. intent_authorized c q.1 q.0 scope ≡ true) items
        → All Granted items
    Granted-of_All p [] a k h = tt
    Granted-of_All p (q ∷ items) a k h =
        ((Granted-iff q).1 (Admitted-other p q a h.0, k), Granted-of_All p items a k h.1)

    -- A batch is authorized as a whole exactly if each of its intents alone would be authorized, with
    -- no policy, on the same stores at the same time. The batch verifier is assumed to accept
    -- exactly the batches whose every signature verifies.
    pub authorize_batch-All_iff :
        (items : List (Bytes × MerkleProof))
        → ((authorize_batch c revocation store ch agent items now checked r s).0.all_authorized
            ≡ true)
          ↔ All Granted items
    unfolding authorize_batch
    authorize_batch-All_iff [] = (λ h. tt, λ h. refl)
    authorize_batch-All_iff (q ∷ items) =
        let run = run_batch-All (q ∷ items) q in
        (
          λ h.
              elim (Result-cases
                (validate_structure c ch agent q.0 q.1 checked ch.drift_tolerance_secs)) [
                  | inr (e, k) ↦ absurd (
                      refused (q ∷ items) e (
                        ap
                          (λ x.
                            (run_batch c revocation store ch now (q ∷ items) r s
                              x).0.all_authorized)
                          (sym k)
                        ∙ h))
                  | inl (v, k) ↦
                      let valid =
                        validate-IsValidChain c ch agent q.0 q.1 checked ch.drift_tolerance_secs
                          batched v k in
                      let all = run.0 (
                        ap
                          (λ x.
                            (run_batch c revocation store ch now (q ∷ items) r s
                              x).0.all_authorized)
                          (sym (k ∙ ap ok valid.1))
                        ∙ h) in
                      Granted-of_All q (q ∷ items)
                        (record { meets = tt; valid = valid.0; unrevoked = all.0 }) all.2 all.1
                ],
          λ g.
              let first = (Granted-iff q).0 g.0 in
              ap (λ x. (run_batch c revocation store ch now (q ∷ items) r s x).0.all_authorized)
                (validate_complete c ch agent q.0 q.1 checked ch.drift_tolerance_secs batched
                  first.0.valid)
              ∙ run.1 (first.0.unrevoked, All-of_Granted (q ∷ items) g, first.1),
        )
