-- ===== src/Chain/Validate.antt =====
-- `validate_structure` accepts exactly the chains that satisfy `IsValidChain`, and what it returns
-- describes the chain.
use dyolo_kya.Prelude.{
  ℕ, ◌≡◌, ◌≢◌, inl, inr, refl, sym, ap, subst, ◌∙◌, true, false, ltb, length, List, [], ◌∷◌, map,
  arith, ok, Result-cases,
}
use dyolo_kya.Prelude.Bytes.{Bytes, bytes_eq, bytes_beq_iff}
use dyolo_kya.Crypto.{Crypto}
use dyolo_kya.Merkle.{MerkleProof}
use dyolo_kya.Cert.{DelegationCert, cert_message, fingerprint}
use dyolo_kya.Chain.{
  DyoloChain, ChainValidationResult, HopState, start, check_root, check_hops, check_end,
  intent_authorized, validate_structure, chain_fingerprint,
}
use dyolo_kya.Chain.Spec.{Linked, nonces, last_scope, IsBatchVerifier, IsValidChain}
use dyolo_kya.Chain.Hops.{HopsPass, advance_all, check_hops_sound, check_hops_complete}
use dyolo_kya.Chain.Loop

-- The root checks, by the list.
nonempty_of_root :
    (c : Crypto) (principal : Bytes) (ts : List DelegationCert)
    → check_root c principal ts ≡ ok tt
    → ts ≢ []
unfolding check_root
nonempty_of_root c principal [] h e = ground arith
nonempty_of_root c principal (t ∷ ts) h e = cc

root_of_Linked :
    (c : Crypto) (principal to : Bytes) (ts : List DelegationCert)
    → ts ≢ []
    → Linked principal ts to
    → check_root c principal ts ≡ ok tt
unfolding check_root
root_of_Linked c principal to [] n l = absurd (n refl)
root_of_Linked c principal to (t ∷ ts) n l = ground (arith, bytes_beq_iff t.delegator_pk principal)

-- The last delegate is determined by the chain.
Linked-unique :
    (from a b : Bytes) (ts : List DelegationCert) → Linked from ts a → Linked from ts b → a ≡ b
Linked-unique from a b [] l k = sym l ∙ k
Linked-unique from a b (t ∷ ts) l k = Linked-unique t.delegate_pk a b ts l.1 k.1

module _ (c : Crypto) (ch : DyoloChain) (agent intent : Bytes) (proof : MerkleProof)
    (now drift : ℕ) where
  -- The result that describes the chain.
  abbrev pub described : ChainValidationResult
  described = record {
    depth = length ch.certs;
    verified_scope_root = last_scope ch.principal_scope ch.certs;
    verified_at_unix = now;
    seen_nonces = nonces ch.certs;
    cert_fingerprints = map (fingerprint c) ch.certs;
    chain_fingerprint = chain_fingerprint c ch;
  }

  abbrev last : HopState
  last = advance_all c (start c ch) ch.certs

  record Passed (v : ChainValidationResult) : Type 0 where
    rooted : check_root c ch.principal_pk ch.certs ≡ ok tt
    short : ltb 255 (length ch.certs) ≡ false
    hops : HopsPass c now drift (start c ch) ch.certs
    ended : check_end c ch agent intent proof last ≡ ok tt
    result : v ≡ described

  -- The result is read off the loop's last state.
  abbrev result_of : HopState → ChainValidationResult
  result_of st = record {
    depth = st.depth;
    verified_scope_root = st.current_scope;
    verified_at_unix = now;
    seen_nonces = st.seen_nonces;
    cert_fingerprints = st.cert_fingerprints;
    chain_fingerprint = chain_fingerprint c ch;
  }

  result_of-last : result_of last ≡ described
  unfolding start
  result_of-last =
      let all = Loop.advance_all-Collected c now drift (start c ch) ch.certs in
      let deep : last.depth ≡ length ch.certs = omega (arith, all.depth) in
      cc (deep, all.scope, all.seen, all.prints)

  passed :
      (v : ChainValidationResult)
      → validate_structure c ch agent intent proof now drift ≡ ok v
      → Passed v
  unfolding validate_structure
  passed v h = elim (Result-cases (check_root c ch.principal_pk ch.certs)) [
    | inr (e, k) ↦ absurd (ground arith)
    | inl (_, rooted) ↦ elim (Result-cases (check_hops c now drift 0 (start c ch) ch.certs)) [
      | inr (e, k) ↦ absurd (ground arith)
      | inl (st, ran) ↦
          let (hops, at_end) = check_hops_sound c now drift 0 (start c ch) st ch.certs ran in
          elim (Result-cases (check_end c ch agent intent proof st)) [
            | inr (e, k) ↦ absurd (ground arith)
            | inl (_, ended) ↦ record {
              rooted = ground arith;
              short = ground arith;
              hops = hops;
              ended = ground arith;
              result = ground (arith, result_of-last);
            }
          ]
    ]
  ]

  record Ends (st : HopState) : Type 0 where
    leaf : st.expected_delegator ≡ agent
    batch : c.verify_batch st.batch_msgs st.batch_sigs st.batch_pks ≡ true
    intended : intent_authorized c proof intent st.current_scope ≡ true

  Ends-of_check : (st : HopState) → check_end c ch agent intent proof st ≡ ok tt → Ends st
  unfolding check_end
  Ends-of_check st h = ground (arith, bytes_beq_iff st.expected_delegator agent)

  check_of_Ends : (st : HopState) → Ends st → check_end c ch agent intent proof st ≡ ok tt
  unfolding check_end
  check_of_Ends st e = ground (arith, bytes_beq_iff st.expected_delegator agent)

  -- A batch of the loop's messages, signatures and keys is the batch of the certificates.
  batch-last :
      c.verify_batch last.batch_msgs last.batch_sigs last.batch_pks
      ≡ c.verify_batch
          (map (cert_message c) ch.certs)
          (map (λ t. t.signature) ch.certs)
          (map (λ t. t.delegator_pk) ch.certs)
  unfolding start
  batch-last =
      let all = Loop.advance_all-Collected c now drift (start c ch) ch.certs in
      cc (all.msgs, all.sigs, all.pks)

  scope-last : last.current_scope ≡ last_scope ch.principal_scope ch.certs
  unfolding start
  scope-last = (Loop.advance_all-Collected c now drift (start c ch) ch.certs).scope

  module _ (batched : IsBatchVerifier c) where
    pub validate-IsValidChain :
        (v : ChainValidationResult)
        → validate_structure c ch agent intent proof now drift ≡ ok v
        → IsValidChain c ch agent intent proof now drift × (v ≡ described)
    validate-IsValidChain v h =
        let p = passed v h in
        let e = Ends-of_check last p.ended in
        (
          unfold start in
              record {
                nonempty = nonempty_of_root c ch.principal_pk ch.certs p.rooted;
                short = ground (arith, p.short);
                linked =
                    subst (Linked ch.principal_pk ch.certs) e.leaf
                      (Loop.hops-Linked c now drift (start c ch) ch.certs p.hops);
                versions = Loop.hops-versions c now drift (start c ch) ch.certs p.hops;
                in_window = Loop.hops-InWindow c now drift (start c ch) ch.certs p.hops;
                shrinking = Loop.hops-Shrinking c now drift (start c ch) ch.certs p.hops;
                deep_enough =
                    (Loop.hops-DeepEnough c now drift (start c ch) ch.certs (length ch.certs) p.hops
                      (omega arith)).0;
                no_repeat = Loop.hops-NoRepeat c now drift (start c ch) ch.certs p.hops;
                scoped = Loop.hops-Scoped c now drift (start c ch) ch.certs p.hops;
                signed = (batched.batch_iff ch.certs).0 (sym batch-last ∙ e.batch);
                authorized = rw (← scope-last) e.intended;
              },
          p.result,
        )

    hops_of_valid :
        IsValidChain c ch agent intent proof now drift → HopsPass c now drift (start c ch) ch.certs
    unfolding start
    hops_of_valid v =
        Loop.hops-pass c now drift (start c ch) ch.certs agent (length ch.certs) v.linked v.versions
          v.in_window v.shrinking (omega arith) v.deep_enough (omega (arith, v.short))
          (Loop.Fresh-of_NoRepeat [] (nonces ch.certs) (λ n m k. k) v.no_repeat) v.scoped

    Ends-of_valid : IsValidChain c ch agent intent proof now drift → Ends last
    Ends-of_valid v = record {
      leaf =
          Linked-unique ch.principal_pk last.expected_delegator agent ch.certs
            (unfold start in Loop.hops-Linked c now drift (start c ch) ch.certs (hops_of_valid v))
            v.linked;
      batch = batch-last ∙ (batched.batch_iff ch.certs).1 v.signed;
      intended = rw scope-last v.authorized;
    }

    pub validate_complete :
        IsValidChain c ch agent intent proof now drift
        → validate_structure c ch agent intent proof now drift ≡ ok described
    unfolding validate_structure
    validate_complete v =
        let rooted = root_of_Linked c ch.principal_pk agent ch.certs v.nonempty v.linked in
        let fits : ltb 255 (length ch.certs) ≡ false = ground (arith, v.short) in
        let ran = check_hops_complete c now drift 0 (start c ch) ch.certs (hops_of_valid v) in
        let ended = check_of_Ends last (Ends-of_valid v) in
        rw (rooted, fits, ran, ended) (ap ok result_of-last)
