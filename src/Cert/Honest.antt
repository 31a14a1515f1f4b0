-- ===== src/Cert/Honest.antt =====
-- src/cert.rs: what the builder makes with an honest signer.
use dyolo_kya.Prelude.{
  ◌<◌, ◌≡◌, refl, subst, true, ltb, leb, ok, is_ok, ok_injective, arith, Bool-cases, inl, inr,
}
use dyolo_kya.Prelude.Bytes.{Bytes}
use dyolo_kya.Crypto.{Crypto, cert_version}
use dyolo_kya.Cert.{Signer, DelegationCert, cert_message, verify_signature, issue, ttl_secs}
use dyolo_kya.Cert.Builder.{CertBuilder, build}

-- The signer's signatures verify under its key, as Ed25519 documents.
abbrev pub IsHonest : Crypto → Signer → Type 0
IsHonest c signer =
    (message : Bytes) → c.verify signer.verifying_key message (signer.sign_message message) ≡ true

module _ (c : Crypto) (b : CertBuilder) (signer : Signer) (honest : IsHonest c signer) where
  -- A certificate in the signer's name that verifies and has a positive lifetime.
  abbrev pub IsSigned : DelegationCert → Type 0
  IsSigned t =
      (verify_signature c t ≡ true)
      × (t.delegator_pk ≡ signer.verifying_key)
      × (t.version ≡ cert_version)
      × (0 < ttl_secs t)

  issue-IsSigned :
      b.issued_at < b.expiration_unix
      → IsSigned (
          issue c signer b.delegate_pk b.scope_root b.scope_proof b.nonce b.issued_at
            b.expiration_unix b.max_depth b.extensions)
  unfolding issue verify_signature cert_message ttl_secs
  issue-IsSigned lasts = (honest _, refl, refl, omega arith)

  -- With an honest signer the builder makes a certificate exactly if the validity window is not
  -- empty. The certificate is in the signer's name and of the current version, its signature
  -- verifies, and it has a positive lifetime.
  pub build-IsSigned :
      (is_ok (build c b signer) ≡ ltb b.issued_at b.expiration_unix)
      × ((t : DelegationCert) → build c b signer ≡ ok t → IsSigned t)
  unfolding build
  build-IsSigned = elim (Bool-cases (leb b.expiration_unix b.issued_at)) [
    | inl empty ↦ rw empty (ground arith, λ t h. cc h)
    | inr lasts ↦
        rw lasts
          (ground arith, λ t h. subst IsSigned (ok_injective _ t h) (issue-IsSigned (ground arith)))
  ]
