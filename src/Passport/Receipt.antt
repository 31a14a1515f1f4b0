-- ===== src/Passport/Receipt.antt =====
-- src/identity/receipt.rs: the receipt of a guarded authorization.
pub mod Traced
use dyolo_kya.Prelude.{
  ℕ, Bool, true, false, ◌==◌, ◌≡◌, refl, Option, some, none, Result, ok, err, ◌>>=◌,
}
use dyolo_kya.Prelude.Bytes.{Bytes, bytes_eq, bytes_beq_refl}
use dyolo_kya.Error.{A1Error}
use dyolo_kya.Crypto.{Crypto, Hex, IsHex}
use dyolo_kya.Chain.{VerificationReceipt}
use dyolo_kya.Narrowing.{NarrowingMatrix, commitment, to_hex, from_hex, of_bytes}
use dyolo_kya.Narrowing.Words.{IsMask}
use dyolo_kya.Provenance.{ProvenanceRoot, ProvenanceStepProof, ReasoningTrace, finalize, verify}

pub record ProvableReceipt : Type 0 where
  pub inner : VerificationReceipt
  pub passport_namespace : Bytes
  pub narrowing_commitment : Bytes
  pub capability_mask_hex : Bytes
  pub provenance : Option ProvenanceRoot

-- `with_provenance`.
unfoldable pub with_provenance : ProvableReceipt → ProvenanceRoot → ProvableReceipt
with_provenance r root = record r { provenance = some root }

unfoldable pub has_provenance : ProvableReceipt → Bool
has_provenance r = elim r.provenance [ none ↦ false | some root ↦ true ]

module _ (c : Crypto) where
  unfoldable pub bind_reasoning_trace :
      ProvableReceipt → ReasoningTrace → ℕ → Result A1Error ProvableReceipt
  bind_reasoning_trace r trace finalized_at_unix = do
    root ← finalize c trace finalized_at_unix r.inner.chain_fingerprint
    ok (with_provenance r root)

  unfoldable pub verify_provenance_step : ProvableReceipt → ProvenanceStepProof → Bool
  verify_provenance_step r proof = elim r.provenance [
    | none ↦ false
    | some root ↦ verify c proof root
  ]

module _ (c : Crypto) (h : Hex) where
  unfoldable pub new : VerificationReceipt → Bytes → NarrowingMatrix → ProvableReceipt
  new inner passport_namespace mask = record {
    inner = inner;
    passport_namespace = passport_namespace;
    narrowing_commitment = commitment c mask;
    capability_mask_hex = to_hex h mask;
    provenance = none;
  }

  -- Behind the decoding of the mask.
  unfoldable pub matches : Result A1Error NarrowingMatrix → Bytes → Bool
  matches (ok m) expected = commitment c m == expected
  matches (err e) expected = false

  unfoldable pub verify_commitment : ProvableReceipt → Bool
  verify_commitment r = matches (from_hex h r.capability_mask_hex) r.narrowing_commitment

  from_hex-to_hex : (m : NarrowingMatrix) → IsHex h → IsMask m.mask → from_hex h (to_hex h m) ≡ ok m
  unfolding from_hex to_hex of_bytes
  from_hex-to_hex m law v = rw (law.decode-encode m.mask v.bytes, v.size) refl

  -- Decoding the hexadecimal form of a mask gives the mask back, and a receipt that was made for a
  -- mask passes `verify_commitment`, with and without an attached provenance root. `hex` is assumed
  -- to decode what it encodes.
  pub verify_commitment-new :
      (inner : VerificationReceipt) (namespace : Bytes) (m : NarrowingMatrix)
      (root : ProvenanceRoot)
      → IsHex h
      → IsMask m.mask
      → (from_hex h (to_hex h m) ≡ ok m)
        × (verify_commitment (new inner namespace m) ≡ true)
        × (verify_commitment (with_provenance (new inner namespace m) root) ≡ true)
  unfolding verify_commitment matches new with_provenance
  verify_commitment-new inner namespace m root law v =
      let back = from_hex-to_hex m law v in
      let same = bytes_beq_refl (commitment c m) in
      (back, rw (back, same) refl, rw (back, same) refl)
