-- ===== src/Cert/Builder.antt =====
-- src/cert.rs: `CertBuilder`.
use dyolo_kya.Prelude.{ℕ, leb, if◌then◌else◌, ◌++◌, Option, some, none, Result, ok, err}
use dyolo_kya.Prelude.Bytes.{Bytes, text, decimal}
use dyolo_kya.Error.{A1Error}
use dyolo_kya.Crypto.{Crypto}
use dyolo_kya.Merkle.{SubScopeProof, full_passthrough}
use dyolo_kya.Extensions.{CertExtensions}
use dyolo_kya.Extensions
use dyolo_kya.Cert.{Signer, DelegationCert, issue}

pub record CertBuilder : Type 0 where
  pub delegate_pk : Bytes
  pub scope_root : Bytes
  pub scope_proof : SubScopeProof
  pub nonce : Bytes
  pub issued_at : ℕ
  pub expiration_unix : ℕ
  pub max_depth : ℕ
  pub extensions : CertExtensions

-- The random nonce that `fresh_nonce` draws is an argument.
unfoldable pub new : Bytes → Bytes → Bytes → ℕ → ℕ → CertBuilder
unfolding full_passthrough Extensions.new
new fresh_nonce delegate scope issued_at expiration = record {
  delegate_pk = delegate;
  scope_root = scope;
  scope_proof = full_passthrough;
  nonce = fresh_nonce;
  issued_at = issued_at;
  expiration_unix = expiration;
  max_depth = 16;
  extensions = Extensions.new;
}

unfoldable pub build : Crypto → CertBuilder → Signer → Result A1Error DelegationCert
unfolding issue
build c b delegator =
    if leb b.expiration_unix b.issued_at
    then err (
        A1Error.wire_format_error (
          text "issued_at ("
          ++ (decimal b.issued_at
              ++ (text ") must be strictly less than expiration_unix ("
                  ++ (decimal b.expiration_unix ++ text ")")))))
    else ok (
        issue c delegator b.delegate_pk b.scope_root b.scope_proof b.nonce b.issued_at
          b.expiration_unix b.max_depth b.extensions)

-- `sign` is `build` with a panic, `none`, in place of its error.
unfoldable pub sign : Crypto → CertBuilder → Signer → Option DelegationCert
unfolding build
sign c b delegator = elim (build c b delegator) [ ok t ↦ some t | err e ↦ none ]
