-- ===== src/Chain.antt =====
-- src/chain.rs: `DyoloChain` and its structural validation, which needs no store.
pub mod Spec
pub mod Hops
pub mod Loop
pub mod Validate
pub mod Within
use dyolo_kya.Prelude.{
  ℕ, zero, suc, ◌+◌, ◌-◌, ◌^◌, Bool, true, false, not, ◌&&◌, min, ltb, ◌==◌, nat_eq, if◌then◌else◌,
  length, is_empty, any, List, [], ◌∷◌, ◌++◌, map, Option, some, none, Result, ok, err, ◌>>=◌, ◌>>◌,
  fail_if, map_err,
}
use dyolo_kya.Prelude.Bytes.{Bytes, bytes_eq, text, u64_le}
use dyolo_kya.Prelude.Words.{u64_max, saturating_add}
use dyolo_kya.Error.{A1Error}
use dyolo_kya.Crypto.{Crypto, domain_chain_fp, cert_version}
use dyolo_kya.Merkle.{MerkleProof, SubScopeProof, proof_verify, verify_and_derive_root}
use dyolo_kya.Cert.{DelegationCert, cert_message, verify_signature, fingerprint}

pub record VerificationReceipt : Type 0 where
  pub chain_depth : ℕ
  pub verified_scope_root : Bytes
  pub intent : Bytes
  pub verified_at_unix : ℕ
  pub chain_fingerprint : Bytes
  pub namespace : Option Bytes

pub record ChainValidationResult : Type 0 where
  pub depth : ℕ
  pub verified_scope_root : Bytes
  pub verified_at_unix : ℕ
  pub seen_nonces : List Bytes
  pub cert_fingerprints : List Bytes
  pub chain_fingerprint : Bytes

pub record DyoloChain : Type 0 where
  pub principal_pk : Bytes
  pub principal_scope : Bytes
  pub certs : List DelegationCert
  pub drift_tolerance_secs : ℕ
  pub namespace : Option Bytes

unfoldable pub new : Bytes → Bytes → DyoloChain
new principal_pk principal_scope = record {
  principal_pk = principal_pk;
  principal_scope = principal_scope;
  certs = [];
  drift_tolerance_secs = 15;
  namespace = none;
}

unfoldable pub with_drift_tolerance : DyoloChain → ℕ → DyoloChain
with_drift_tolerance ch secs = record ch { drift_tolerance_secs = secs }

unfoldable pub push : DyoloChain → DelegationCert → DyoloChain
push ch t = record ch { certs = ch.certs ++ (t ∷ []) }

unfoldable pub namespace_bytes : Option Bytes → Bytes
namespace_bytes none = u64_le 0
namespace_bytes (some ns) = u64_le (length ns) ++ ns

-- What the loop of `validate_structure` carries from certificate to certificate.
pub record HopState : Type 0 where
  pub current_scope : Bytes
  pub expected_delegator : Bytes
  pub depth : ℕ
  pub max_allowed_depth : ℕ
  pub parent_expiry : ℕ
  pub seen_nonces : List Bytes
  pub cert_fingerprints : List Bytes
  pub batch_sigs : List Bytes
  pub batch_pks : List Bytes
  pub batch_msgs : List Bytes

module _ (c : Crypto) where
  namespace_scope : Bytes → Bytes → Bytes
  namespace_scope namespace scope =
      c.derive (text "a1::dyolo::namespace::scope::v2.8.0")
        (u64_le (length namespace) ++ (namespace ++ scope))

  unfoldable pub with_namespace : DyoloChain → Bytes → DyoloChain
  unfolding namespace_scope
  with_namespace ch ns = record ch {
    principal_scope = namespace_scope ns ch.principal_scope;
    namespace = some ns;
  }

  fold_fingerprints : List DelegationCert → Bytes
  fold_fingerprints [] = []
  fold_fingerprints (t ∷ ts) = fingerprint c t ++ fold_fingerprints ts

  unfoldable pub chain_fingerprint : DyoloChain → Bytes
  unfolding fold_fingerprints namespace_bytes
  chain_fingerprint ch = c.derive domain_chain_fp (
      text "a1::dyolo::chain::v2.8.0"
      ++ (ch.principal_pk
          ++ (ch.principal_scope ++ (namespace_bytes ch.namespace ++ fold_fingerprints ch.certs))))

  -- The scope checks of one hop.
  unfoldable pub check_scope : ℕ → Bytes → DelegationCert → Result A1Error (Unit {0})
  check_scope i current_scope t =
      if is_empty t.scope_proof.subset_intents && is_empty t.scope_proof.proofs
      then fail_if (not (t.scope_root == current_scope)) (A1Error.scope_escalation i)
      else do
        derived ←
            map_err (λ _. A1Error.scope_escalation i)
              (verify_and_derive_root c t.scope_proof current_scope)
        fail_if (not (derived == t.scope_root)) (A1Error.scope_escalation i)

  -- What a hop that passes leaves in the loop's variables.
  unfoldable pub advance : HopState → DelegationCert → HopState
  advance st t = record {
    current_scope = t.scope_root;
    expected_delegator = t.delegate_pk;
    depth = st.depth + 1;
    max_allowed_depth =
        if ltb t.max_depth st.max_allowed_depth then t.max_depth else st.max_allowed_depth;
    parent_expiry = t.expiration_unix;
    seen_nonces = st.seen_nonces ++ (t.nonce ∷ []);
    cert_fingerprints = st.cert_fingerprints ++ (fingerprint c t ∷ []);
    batch_sigs = st.batch_sigs ++ (t.signature ∷ []);
    batch_pks = st.batch_pks ++ (t.delegator_pk ∷ []);
    batch_msgs = st.batch_msgs ++ (cert_message c t ∷ []);
  }

  -- The body of the loop, for the certificate at index `i`.
  unfoldable pub check_hop : ℕ → ℕ → ℕ → HopState → DelegationCert → Result A1Error HopState
  check_hop now drift i st t = do
    fail_if (not (t.delegator_pk == st.expected_delegator)) (A1Error.broken_linkage i)
    fail_if (not (t.version == cert_version)) (A1Error.unsupported_version cert_version t.version)
    fail_if (ltb (saturating_add now drift) t.issued_at) (A1Error.not_yet_valid i t.issued_at now)
    fail_if (ltb t.expiration_unix (now - drift)) (A1Error.expired i t.expiration_unix now)
    fail_if (ltb st.parent_expiry t.expiration_unix)
        (A1Error.temporal_violation i t.expiration_unix st.parent_expiry)
    fail_if (ltb st.max_allowed_depth (st.depth + 1))
        (A1Error.max_depth_exceeded i st.max_allowed_depth)
    fail_if (any (λ seen. seen == t.nonce) st.seen_nonces) A1Error.nonce_replay
    check_scope i st.current_scope t
    ok (advance st t)

  unfoldable pub check_hops : ℕ → ℕ → ℕ → HopState → List DelegationCert → Result A1Error HopState
  check_hops now drift i st [] = ok st
  check_hops now drift i st (t ∷ ts) =
      check_hop now drift i st t >>= λ next. check_hops now drift (suc i) next ts

  -- The index of the first certificate whose signature does not verify, or 0.
  unfoldable pub first_invalid : ℕ → List DelegationCert → ℕ
  first_invalid i [] = 0
  first_invalid i (t ∷ ts) =
      let rest = first_invalid (suc i) ts in if verify_signature c t then rest else i

  unfoldable pub intent_authorized : MerkleProof → Bytes → Bytes → Bool
  intent_authorized proof intent scope =
      if is_empty proof.siblings then intent == scope else proof_verify c proof intent scope

  unfoldable pub start : DyoloChain → HopState
  start ch = record {
    current_scope = ch.principal_scope;
    expected_delegator = ch.principal_pk;
    depth = 0;
    max_allowed_depth = 255;
    parent_expiry = u64_max;
    seen_nonces = [];
    cert_fingerprints = [];
    batch_sigs = [];
    batch_pks = [];
    batch_msgs = [];
  }

  -- The checks before the loop.
  unfoldable pub check_root : Bytes → List DelegationCert → Result A1Error (Unit {0})
  check_root principal [] = err A1Error.empty_chain
  check_root principal (t ∷ ts) = fail_if (not (t.delegator_pk == principal)) A1Error.root_mismatch

  -- The checks behind the loop.
  unfoldable pub check_end :
      DyoloChain → Bytes → Bytes → MerkleProof → HopState → Result A1Error (Unit {0})
  check_end ch agent_pk intent proof st = do
    fail_if (not (st.expected_delegator == agent_pk)) A1Error.unauthorized_leaf
    fail_if (not (c.verify_batch st.batch_msgs st.batch_sigs st.batch_pks))
        (A1Error.invalid_signature (first_invalid 0 ch.certs))
    fail_if (not (intent_authorized proof intent st.current_scope)) A1Error.scope_violation

  unfoldable pub validate_structure :
      DyoloChain → Bytes → Bytes → MerkleProof → ℕ → ℕ → Result A1Error ChainValidationResult
  validate_structure ch agent_pk intent proof now drift = do
    check_root ch.principal_pk ch.certs
    fail_if (ltb 255 (length ch.certs)) (A1Error.max_depth_exceeded 255 255)
    st ← check_hops now drift 0 (start ch) ch.certs
    check_end ch agent_pk intent proof st
    ok (record {
      depth = st.depth;
      verified_scope_root = st.current_scope;
      verified_at_unix = now;
      seen_nonces = st.seen_nonces;
      cert_fingerprints = st.cert_fingerprints;
      chain_fingerprint = chain_fingerprint ch;
    })
