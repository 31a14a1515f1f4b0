-- ===== src/Audit.antt =====
-- src/audit.rs: the event that an authorization attempt leaves. `event_id`, which is random, and
-- the fields that an authorization never fills (`policy_name`, `request_id`, the tracing identifiers
-- and the batch fields) are left out.
use dyolo_kya.Prelude.{ℕ, Option, some, none}
use dyolo_kya.Prelude.Bytes.{Bytes}

pub data AuditOutcome : Type 0 where
  authorized denied policy_violation storage_error : AuditOutcome

pub record AuditEvent : Type 0 where
  pub timestamp_unix : ℕ
  pub outcome : AuditOutcome
  pub principal_pk_hex : Bytes
  pub executor_pk_hex : Bytes
  pub chain_depth : ℕ
  pub chain_fingerprint : Option Bytes
  pub intent_hex : Bytes
  pub error_message : Option Bytes

-- `encode` stands for `hex::encode`.
module _ (encode : Bytes → Bytes) where
  unfoldable pub new : AuditOutcome → Bytes → Bytes → ℕ → Bytes → ℕ → AuditEvent
  new outcome principal_hex executor_hex depth intent timestamp = record {
    timestamp_unix = timestamp;
    outcome = outcome;
    principal_pk_hex = principal_hex;
    executor_pk_hex = executor_hex;
    chain_depth = depth;
    chain_fingerprint = none;
    intent_hex = encode intent;
    error_message = none;
  }

  unfoldable pub with_fingerprint : AuditEvent → Bytes → AuditEvent
  with_fingerprint event fp = record event { chain_fingerprint = some (encode fp) }

unfoldable pub with_error : AuditEvent → Bytes → AuditEvent
with_error event message = record event { error_message = some message }
