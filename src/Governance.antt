-- ===== src/Governance.antt =====
-- src/governance.rs: approval tokens, the rotation of keys and the governance policy.
pub mod Approval
use dyolo_kya.Prelude.{
  ℕ, ◌+◌, ◌-◌, ◌/◌, Bool, true, false, not, ◌||◌, ltb, leb, if◌then◌else◌, length, is_empty, any,
  ◌==◌, List, [], ◌∷◌, ◌++◌, Option, some, none, Result, ok, err, ◌>>=◌, ◌>>◌, fail_if, ok_or,
  map_err,
}
use dyolo_kya.Prelude.Bytes.{Bytes, bytes_eq, text, u64_le}
use dyolo_kya.Prelude.Words.{wrapping_add}
use dyolo_kya.Error.{A1Error}
use dyolo_kya.Crypto.{Crypto, Hex}
use dyolo_kya.HexFields.{prefixed, did_prefix, did_of, decode_exact, strip_prefix}
use dyolo_kya.Cert.{Signer}

pub record ApprovalGate : Type 0 where
  pub capability : Bytes
  pub approver_did : Bytes
  pub approval_ttl_secs : ℕ
  pub allow_retroactive : Bool

pub record ApprovalToken : Type 0 where
  pub capability : Bytes
  pub approver_did : Bytes
  pub agent_did : Bytes
  pub action_id : Bytes
  pub granted_at_unix : ℕ
  pub expires_at_unix : ℕ
  pub nonce : Bytes
  pub signature : Bytes

pub record KeyRotationPolicy : Type 0 where
  pub max_age_days : ℕ
  pub mandatory : Bool
  pub rotation_authority_did : Option Bytes

pub data RotationStatus : Type 0 where
  valid recommended required : ℕ → RotationStatus

unfoldable pub default_rotation : KeyRotationPolicy
default_rotation = record { max_age_days = 90; mandatory = true; rotation_authority_did = none }

-- `KeyRotationPolicy::check`.
unfoldable pub check_rotation : KeyRotationPolicy → ℕ → ℕ → RotationStatus
check_rotation p issued_at_unix now_unix =
    let age_days = (now_unix - issued_at_unix) / 86400 in
    if leb p.max_age_days age_days
    then if p.mandatory
      then RotationStatus.required age_days
      else RotationStatus.recommended age_days
    else RotationStatus.valid (p.max_age_days - age_days)

pub record GovernancePolicy : Type 0 where
  pub approval_gates : List ApprovalGate
  pub key_rotation : KeyRotationPolicy
  pub max_chain_depth : ℕ
  pub allowed_namespaces : List Bytes
  pub blocked_capabilities : List Bytes
  pub require_human_approval_for : List Bytes
  pub audit_all_authorizations : Bool

unfoldable pub default_policy : GovernancePolicy
default_policy = record {
  approval_gates = [];
  key_rotation = default_rotation;
  max_chain_depth = 16;
  allowed_namespaces = [];
  blocked_capabilities = [];
  require_human_approval_for = [];
  audit_all_authorizations = true;
}

unfoldable pub check_namespace : GovernancePolicy → Bytes → Result A1Error (Unit {0})
check_namespace g ns =
    if is_empty g.allowed_namespaces || any (λ n. n == ns) g.allowed_namespaces
    then ok tt
    else err (
        A1Error.policy_violation
          (text "namespace '" ++ (ns ++ text "' not in governance allowlist")))

unfoldable pub check_capability_not_blocked : GovernancePolicy → Bytes → Result A1Error (Unit {0})
check_capability_not_blocked g cap = fail_if (any (λ x. x == cap) g.blocked_capabilities) (
    A1Error.policy_violation
      (text "capability '" ++ (cap ++ text "' is blocked by governance policy")))

unfoldable pub check_chain_depth : GovernancePolicy → ℕ → Result A1Error (Unit {0})
check_chain_depth g depth =
    fail_if (ltb g.max_chain_depth depth) (A1Error.max_depth_exceeded depth g.max_chain_depth)

unfoldable pub requires_human_approval : GovernancePolicy → Bytes → Bool
requires_human_approval g cap = any (λ x. x == cap) g.require_human_approval_for

-- The input of `approval_signable`.
unfoldable pub approval_input : Bytes → Bytes → Bytes → Bytes → ℕ → ℕ → Bytes → Bytes
approval_input capability approver_did agent_did action_id granted_at expires_at nonce =
    prefixed capability
    ++ (prefixed approver_did
        ++ (prefixed agent_did
            ++ (prefixed action_id ++ (u64_le granted_at ++ (u64_le expires_at ++ nonce)))))

-- `valid_key` stands for `VerifyingKey::from_bytes(..).is_ok()`.
module _ (c : Crypto) (hex : Hex) (valid_key : Bytes → Bool) where
  unfoldable pub approval_signable : Bytes → Bytes → Bytes → Bytes → ℕ → ℕ → Bytes → Bytes
  approval_signable capability approver_did agent_did action_id granted_at expires_at nonce =
      c.derive (text "a1::dyolo::governance::approval::v2.8.0")
        (approval_input capability approver_did agent_did action_id granted_at expires_at nonce)

  -- `granted_at + ttl_secs` wraps in a release build.
  unfoldable pub issue : Bytes → Signer → Bytes → Bytes → Bytes → ℕ → ℕ → ApprovalToken
  issue fresh_nonce approver capability agent_did action_id granted_at ttl_secs =
      let approver_did = did_of hex approver.verifying_key in
      let expires = wrapping_add granted_at ttl_secs in
      record {
        capability = capability;
        approver_did = approver_did;
        agent_did = agent_did;
        action_id = action_id;
        granted_at_unix = granted_at;
        expires_at_unix = expires;
        nonce = hex.encode fresh_nonce;
        signature = hex.encode (
            approver.sign_message (
              approval_signable capability approver_did agent_did action_id granted_at expires
                fresh_nonce));
      }

  unfoldable pub parse_key : Bytes → Result A1Error Bytes
  parse_key did = do
    pk_hex ←
        ok_or (strip_prefix did_prefix did)
          (A1Error.wire_format_error (text "invalid approver DID"))
    key ← decode_exact hex 32 (text "invalid DID hex") (text "key must be 32 bytes") pk_hex
    fail_if (not (valid_key key)) (A1Error.wire_format_error (text "invalid Ed25519 key"))
    ok key

  unfoldable pub verify : ApprovalToken → ℕ → Result A1Error (Unit {0})
  verify t now = do
    fail_if (ltb t.expires_at_unix now) (A1Error.expired 0 t.expires_at_unix now)
    key ← parse_key t.approver_did
    nonce ← decode_exact hex 16 (text "invalid nonce hex") (text "nonce must be 16 bytes") t.nonce
    sig ← decode_exact hex 64 (text "invalid sig hex") (text "sig must be 64 bytes") t.signature
    fail_if
        (not (
          c.verify key
            (approval_signable t.capability t.approver_did t.agent_did t.action_id t.granted_at_unix
              t.expires_at_unix nonce)
            sig))
        (A1Error.hybrid_signature_invalid (text "approval-token"))
