-- ===== src/Cert.antt =====
-- src/cert.rs, built with the `wire` feature: delegation certificates and their builder.
pub mod Builder
pub mod Honest
use dyolo_kya.Prelude.{ℕ, ◌-◌, Bool, ◌∷◌, ◌++◌}
use dyolo_kya.Prelude.Bytes.{Bytes, text, u64_be}
use dyolo_kya.Crypto.{Crypto, derive_key, domain_cert_sig, domain_cert_fp, cert_version}
use dyolo_kya.Merkle.{SubScopeProof}
use dyolo_kya.Merkle
use dyolo_kya.Extensions.{CertExtensions}
use dyolo_kya.Extensions

-- `identity::Signer`: an Ed25519 key that signs.
pub record Signer : Type 0 where
  pub verifying_key : Bytes
  pub sign_message : Bytes → Bytes

pub record DelegationCert : Type 0 where
  pub version : ℕ
  pub delegator_pk : Bytes
  pub delegate_pk : Bytes
  pub scope_root : Bytes
  pub scope_proof : SubScopeProof
  pub nonce : Bytes
  pub issued_at : ℕ
  pub expiration_unix : ℕ
  pub max_depth : ℕ
  pub extensions : CertExtensions
  pub signature : Bytes

-- The hasher's input in `signable_bytes`, behind the version byte.
unfoldable pub signable_input : Bytes → Bytes → Bytes → Bytes → Bytes → ℕ → ℕ → ℕ → Bytes → Bytes
signable_input delegator delegate scope_root proof nonce issued_at expiration max_depth ext =
    text "a1::dyolo::cert::sig::v2.8.0"
    ++ (delegator
        ++ (delegate
            ++ (scope_root
                ++ (proof
                    ++ (nonce ++ (u64_be issued_at ++ (u64_be expiration ++ (max_depth ∷ ext))))))))

module _ (c : Crypto) where
  unfoldable pub signable_bytes :
      ℕ → Bytes → Bytes → Bytes → SubScopeProof → Bytes → ℕ → ℕ → ℕ → Bytes → Bytes
  unfolding signable_input
  signable_bytes version delegator delegate scope proof nonce issued_at expiration max_depth ext =
      derive_key c domain_cert_sig version (
        signable_input delegator delegate scope (Merkle.commitment c proof) nonce issued_at
          expiration max_depth ext)

  -- The message that the signature of a certificate is over.
  unfoldable pub cert_message : DelegationCert → Bytes
  unfolding signable_bytes
  cert_message t =
      signable_bytes t.version t.delegator_pk t.delegate_pk t.scope_root t.scope_proof t.nonce
        t.issued_at t.expiration_unix t.max_depth (Extensions.commitment c t.extensions)

  unfoldable pub verify_signature : DelegationCert → Bool
  unfolding cert_message
  verify_signature t = c.verify t.delegator_pk (cert_message t) t.signature

  unfoldable pub fingerprint : DelegationCert → Bytes
  fingerprint t =
      derive_key c domain_cert_fp t.version (text "a1::dyolo::cert::fp::v2.8.0" ++ t.signature)

  unfoldable pub issue :
      Signer → Bytes → Bytes → SubScopeProof → Bytes → ℕ → ℕ → ℕ → CertExtensions → DelegationCert
  unfolding signable_bytes
  issue delegator delegate scope proof nonce issued_at expiration max_depth extensions =
      let msg =
        signable_bytes cert_version delegator.verifying_key delegate scope proof nonce issued_at
          expiration max_depth (Extensions.commitment c extensions) in
      record {
        version = cert_version;
        delegator_pk = delegator.verifying_key;
        delegate_pk = delegate;
        scope_root = scope;
        scope_proof = proof;
        nonce = nonce;
        issued_at = issued_at;
        expiration_unix = expiration;
        max_depth = max_depth;
        extensions = extensions;
        signature = delegator.sign_message msg;
      }

-- `saturating_sub` stops at 0, as `-` does.
unfoldable pub ttl_secs : DelegationCert → ℕ
ttl_secs t = t.expiration_unix - t.issued_at
