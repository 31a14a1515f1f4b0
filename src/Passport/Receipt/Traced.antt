-- ===== src/Passport/Receipt/Traced.antt =====
-- src/identity/receipt.rs over src/provenance.rs: a receipt that carries a reasoning trace.
use dyolo_kya.Prelude.{ℕ, ◌≡◌, ◌<◌, refl, true, length, some, ok}
use dyolo_kya.Prelude.Bytes.{Bytes}
use dyolo_kya.Crypto.{Crypto, Hex, IsHex}
use dyolo_kya.Chain.{VerificationReceipt}
use dyolo_kya.Narrowing.{NarrowingMatrix}
use dyolo_kya.Narrowing.Words.{IsMask}
use dyolo_kya.Provenance.{
  ProvenanceRoot, ProvenanceStepProof, ReasoningTrace, u32_mod, step_proof, verify_chain_binding,
}
use dyolo_kya.Provenance.Traces.{IsNumbered, step_proof-verify}
use dyolo_kya.Passport.Receipt.{
  new, with_provenance, has_provenance, bind_reasoning_trace, verify_provenance_step,
  verify_commitment, verify_commitment-new,
}

-- A numbered trace that is not empty and has fewer than 2 ^ 32 steps can be bound to the receipt of
-- an authorization: the receipt is the same but for the root, which is bound to the chain of the
-- authorization, it accepts the proof of every step, and its commitment to the passport's mask still
-- verifies. `hex` is assumed to decode what it encodes.
pub bind_reasoning_trace_accepted :
    (c : Crypto) (h : Hex) (inner : VerificationReceipt) (namespace : Bytes) (m : NarrowingMatrix)
    (t : ReasoningTrace) (i at : ℕ)
    → IsHex h
    → IsMask m.mask
    → length t.steps < u32_mod
    → IsNumbered t
    → i < length t.steps
    → (p : ProvenanceStepProof) × (root : ProvenanceRoot) × (step_proof c t i ≡ some p)
      × (bind_reasoning_trace c (new c h inner namespace m) t at
          ≡ ok (with_provenance (new c h inner namespace m) root))
      × (verify_chain_binding c root inner.chain_fingerprint ≡ true)
      × (verify_provenance_step c (with_provenance (new c h inner namespace m) root) p ≡ true)
      × (has_provenance (with_provenance (new c h inner namespace m) root) ≡ true)
      × (verify_commitment c h (with_provenance (new c h inner namespace m) root) ≡ true)
unfolding bind_reasoning_trace verify_provenance_step has_provenance with_provenance new
bind_reasoning_trace_accepted c h inner namespace m t i at law mask short numbered within =
    let (p, root, found, made, accepted, bound) =
      step_proof-verify c t short i at inner.chain_fingerprint numbered within in
    let committed = (verify_commitment-new c h inner namespace m root law mask).2 in
    (p, root, found, rw made refl, bound, accepted, refl, committed)
