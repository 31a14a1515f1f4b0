-- ===== src/Chain/Hops.antt =====
-- The loop of `validate_structure`: what the hops that pass have satisfied.
use dyolo_kya.Prelude.{
  ℕ, suc, ◌+◌, ◌-◌, ◌≤◌, ◌≡◌, ◌↔◌, inl, inr, refl, true, false, ◌==◌, nat_eq, is_empty, any, List,
  [], ◌∷◌, ok, Result-cases, arith,
}
use dyolo_kya.Prelude.Bytes.{Bytes, bytes_eq, bytes_beq_iff}
use dyolo_kya.Prelude.Words.{saturating_add}
use dyolo_kya.Crypto.{Crypto, cert_version}
use dyolo_kya.Merkle.{verify_and_derive_root}
use dyolo_kya.Cert.{DelegationCert}
use dyolo_kya.Chain.{HopState, check_scope, check_hop, check_hops, advance}
use dyolo_kya.Chain.Spec.{ScopeStep}

-- The tests of one hop, read as facts about the loop's variables.
pub record HopPasses (c : Crypto) (now drift : ℕ) (st : HopState) (t : DelegationCert)
    : Type 0 where
  pub linked : t.delegator_pk ≡ st.expected_delegator
  pub version : t.version ≡ cert_version
  pub not_early : t.issued_at ≤ saturating_add now drift
  pub not_late : now - drift ≤ t.expiration_unix
  pub shrinks : t.expiration_unix ≤ st.parent_expiry
  pub shallow : st.depth + 1 ≤ st.max_allowed_depth
  pub fresh : any (λ seen. seen == t.nonce) st.seen_nonces ≡ false
  pub scoped : ScopeStep c st.current_scope t

is_empty_iff {ℓ} : {A : Type ℓ} (xs : List A) → (is_empty xs ≡ true) ↔ (xs ≡ [])
is_empty_iff [] = (λ h. refl, λ h. refl)
is_empty_iff (x ∷ xs) = (λ h. cc, λ h. cc)

module _ (c : Crypto) where
  check_scope_sound :
      (i : ℕ) (parent : Bytes) (t : DelegationCert)
      → check_scope c i parent t ≡ ok tt
      → ScopeStep c parent t
  unfolding check_scope
  check_scope_sound i parent t h =
      elim (Result-cases (verify_and_derive_root c t.scope_proof parent)) [
        | inl (r, e) ↦ ground (
          arith,
          is_empty_iff t.scope_proof.subset_intents,
          is_empty_iff t.scope_proof.proofs,
          bytes_beq_iff t.scope_root parent,
          bytes_beq_iff r t.scope_root,
        )
        | inr (e, k) ↦ ground (
          arith,
          is_empty_iff t.scope_proof.subset_intents,
          is_empty_iff t.scope_proof.proofs,
          bytes_beq_iff t.scope_root parent,
        )
      ]

  check_scope_complete :
      (i : ℕ) (parent : Bytes) (t : DelegationCert)
      → ScopeStep c parent t
      → check_scope c i parent t ≡ ok tt
  unfolding check_scope
  check_scope_complete i parent t h = ground (
    arith,
    is_empty_iff t.scope_proof.subset_intents,
    is_empty_iff t.scope_proof.proofs,
    bytes_beq_iff t.scope_root parent,
    bytes_beq_iff t.scope_root t.scope_root,
  )

  -- A hop passes exactly if its certificate satisfies `HopPasses`, and then advances the state.
  check_hop_sound :
      (now drift i : ℕ) (st next : HopState) (t : DelegationCert)
      → check_hop c now drift i st t ≡ ok next
      → HopPasses c now drift st t × (next ≡ advance c st t)
  unfolding check_hop
  check_hop_sound now drift i st next t h =
      elim (Result-cases (check_scope c i st.current_scope t)) [
        | inl (tt, e) ↦ ground (
          arith,
          bytes_beq_iff t.delegator_pk st.expected_delegator,
          check_scope_sound i st.current_scope t e,
        )
        | inr (e, k) ↦ absurd (ground arith)
      ]

  check_hop_complete :
      (now drift i : ℕ) (st : HopState) (t : DelegationCert)
      → HopPasses c now drift st t
      → check_hop c now drift i st t ≡ ok (advance c st t)
  unfolding check_hop
  check_hop_complete now drift i st t p = ground (
    arith,
    bytes_beq_iff t.delegator_pk st.expected_delegator,
    check_scope_complete i st.current_scope t p.scoped,
  )

  -- The same for the whole loop.
  abbrev pub HopsPass : ℕ → ℕ → HopState → List DelegationCert → Type 0
  HopsPass now drift st [] = Unit
  HopsPass now drift st (t ∷ ts) =
      HopPasses c now drift st t × HopsPass now drift (advance c st t) ts

  abbrev pub advance_all : HopState → List DelegationCert → HopState
  advance_all st [] = st
  advance_all st (t ∷ ts) = advance_all (advance c st t) ts

  pub check_hops_sound :
      (now drift i : ℕ) (st last : HopState) (ts : List DelegationCert)
      → check_hops c now drift i st ts ≡ ok last
      → HopsPass now drift st ts × (last ≡ advance_all st ts)
  unfolding check_hops
  check_hops_sound now drift i st last [] h = (tt, ground arith)
  check_hops_sound now drift i st last (t ∷ ts) h =
      elim (Result-cases (check_hop c now drift i st t)) [
        | inr (e, k) ↦ absurd (ground arith)
        | inl (next, e) ↦
            let (passes, moved) = check_hop_sound now drift i st next t e in
            let rest : check_hops c now drift (suc i) (advance c st t) ts ≡ ok last =
              ground arith in
            let (more, at_end) = check_hops_sound now drift (suc i) (advance c st t) last ts rest in
            ((passes, more), at_end)
      ]

  pub check_hops_complete :
      (now drift i : ℕ) (st : HopState) (ts : List DelegationCert)
      → HopsPass now drift st ts
      → check_hops c now drift i st ts ≡ ok (advance_all st ts)
  unfolding check_hops
  check_hops_complete now drift i st [] h = refl
  check_hops_complete now drift i st (t ∷ ts) h =
      rw (check_hop_complete now drift i st t h.0)
        (check_hops_complete now drift (suc i) (advance c st t) ts h.1)
