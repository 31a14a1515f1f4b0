-- ===== src/Error.antt =====
-- src/error.rs: storage errors, `A1Error`, its messages, its codes and its HTTP statuses.
-- A message is the byte string that `Display` prints.
pub mod Status
use dyolo_kya.Prelude.{ℕ, Bool, true, false, ◌++◌, Option, some, none}
use dyolo_kya.Prelude.Bytes.{Bytes, text, decimal}

pub data StorageErrorKind : Type 0 where
  transient permanent : StorageErrorKind

pub record A1StorageError : Type 0 where
  pub kind : StorageErrorKind
  pub message : Bytes

-- `A1StorageError::is_transient`.
unfoldable pub is_transient_kind : StorageErrorKind → Bool
is_transient_kind StorageErrorKind.transient = true
is_transient_kind StorageErrorKind.permanent = false

unfoldable pub is_transient : A1StorageError → Bool
unfolding is_transient_kind
is_transient e = is_transient_kind e.kind

pub data A1Error : Type 0 where
  empty_chain : A1Error
  storage_failure : A1StorageError → A1Error
  root_mismatch : A1Error
  broken_linkage : ℕ → A1Error
  invalid_signature : ℕ → A1Error
  not_yet_valid : ℕ → ℕ → ℕ → A1Error
  expired : ℕ → ℕ → ℕ → A1Error
  temporal_violation : ℕ → ℕ → ℕ → A1Error
  max_depth_exceeded : ℕ → ℕ → A1Error
  invalid_sub_scope_proof : A1Error
  scope_escalation : ℕ → A1Error
  unauthorized_leaf : A1Error
  scope_violation : A1Error
  nonce_replay : A1Error
  revoked : A1Error
  intent_not_found : A1Error
  empty_tree : A1Error
  wire_format_error : Bytes → A1Error
  unsupported_version : ℕ → ℕ → A1Error
  policy_violation : Bytes → A1Error
  batch_item_failed : ℕ → Bytes → A1Error
  mac_verification_failed : A1Error
  namespace_mismatch : Bytes → Bytes → A1Error
  rate_limit_exceeded : A1Error
  storage_unhealthy : Bytes → A1Error
  passport_narrowing_violation : A1Error
  unsupported_algorithm : ℕ → A1Error
  algorithm_mismatch : Bytes → Bytes → A1Error
  hybrid_signature_invalid : Bytes → A1Error
  pq_signature_missing : Bytes → A1Error
  invalid_hybrid_key_length : Bytes → ℕ → ℕ → A1Error

unfoldable pub as_storage_error : A1Error → Option A1StorageError
as_storage_error (A1Error.storage_failure e) = some e
as_storage_error _ = none

unfoldable pub is_transient_storage_failure : A1Error → Bool
unfolding is_transient
is_transient_storage_failure (A1Error.storage_failure e) = is_transient e
is_transient_storage_failure _ = false

-- The text of a code, an entry of the match in `error_code`.
unfoldable pub error_code : A1Error → Bytes
error_code (A1Error.expired i e n) = text "CERT_EXPIRED"
error_code A1Error.revoked = text "CERT_REVOKED"
error_code A1Error.nonce_replay = text "NONCE_REPLAY"
error_code A1Error.scope_violation = text "SCOPE_VIOLATION"
error_code (A1Error.scope_escalation i) = text "SCOPE_ESCALATION"
error_code (A1Error.invalid_signature i) = text "INVALID_SIGNATURE"
error_code (A1Error.broken_linkage i) = text "CHAIN_BROKEN_LINKAGE"
error_code (A1Error.max_depth_exceeded i l) = text "CHAIN_DEPTH_EXCEEDED"
error_code (A1Error.policy_violation m) = text "POLICY_VIOLATION"
error_code (A1Error.storage_failure e) = text "STORAGE_ERROR"
error_code (A1Error.batch_item_failed i r) = text "BATCH_ITEM_FAILED"
error_code A1Error.mac_verification_failed = text "MAC_VERIFICATION_FAILED"
error_code (A1Error.namespace_mismatch c r) = text "NAMESPACE_MISMATCH"
error_code A1Error.rate_limit_exceeded = text "RATE_LIMIT_EXCEEDED"
error_code (A1Error.storage_unhealthy m) = text "STORAGE_UNHEALTHY"
error_code A1Error.passport_narrowing_violation = text "PASSPORT_NARROWING_VIOLATION"
error_code (A1Error.unsupported_algorithm t) = text "UNSUPPORTED_ALGORITHM"
error_code (A1Error.algorithm_mismatch e f) = text "ALGORITHM_MISMATCH"
error_code (A1Error.hybrid_signature_invalid c) = text "HYBRID_SIGNATURE_INVALID"
error_code (A1Error.pq_signature_missing a) = text "PQ_SIGNATURE_MISSING"
error_code (A1Error.invalid_hybrid_key_length a e f) = text "INVALID_HYBRID_KEY_LENGTH"
error_code _ = text "AUTHORIZATION_FAILED"

-- A guard of a match arm is a test of its own.
storage_status : StorageErrorKind → ℕ
storage_status StorageErrorKind.transient = 503
storage_status StorageErrorKind.permanent = 500

unfoldable pub http_status : A1Error → ℕ
unfolding storage_status
http_status (A1Error.storage_failure e) = storage_status e.kind
http_status (A1Error.storage_unhealthy m) = 503
http_status A1Error.rate_limit_exceeded = 429
http_status A1Error.empty_chain = 400
http_status (A1Error.wire_format_error m) = 400
http_status (A1Error.unsupported_version e g) = 400
http_status A1Error.revoked = 401
http_status (A1Error.expired i e n) = 401
http_status (A1Error.not_yet_valid i a n) = 401
http_status A1Error.nonce_replay = 401
http_status A1Error.mac_verification_failed = 401
http_status (A1Error.unsupported_algorithm t) = 400
http_status (A1Error.algorithm_mismatch e f) = 400
http_status (A1Error.pq_signature_missing a) = 400
http_status (A1Error.invalid_hybrid_key_length a e f) = 400
http_status _ = 403

-- `Display` of `A1StorageError`.
kind_label : StorageErrorKind → Bytes
kind_label StorageErrorKind.transient = text "transient"
kind_label StorageErrorKind.permanent = text "permanent"

unfoldable pub storage_message : A1StorageError → Bytes
unfolding kind_label
storage_message e = kind_label e.kind ++ (text " storage error: " ++ e.message)

-- `Display` of `A1Error`, from the `#[error(...)]` lines.
unfoldable pub to_string : A1Error → Bytes
to_string A1Error.empty_chain = text "delegation chain is empty"
to_string (A1Error.storage_failure e) = text "storage backend failure: " ++ storage_message e
to_string A1Error.root_mismatch = text "chain does not anchor to the declared principal"
to_string (A1Error.broken_linkage i) = text "delegation linkage broken at hop " ++ decimal i
to_string (A1Error.invalid_signature i) = text "invalid signature at hop " ++ decimal i
to_string (A1Error.not_yet_valid i a n) =
    text "delegation at hop "
    ++ (decimal i
        ++ (text " not yet valid (issued_at="
            ++ (decimal a ++ (text ", now=" ++ (decimal n ++ text ")")))))
to_string (A1Error.expired i e n) =
    text "delegation at hop "
    ++ (decimal i
        ++ (text " has expired (expiry="
            ++ (decimal e ++ (text ", now=" ++ (decimal n ++ text ")")))))
to_string (A1Error.temporal_violation i c p) =
    text "temporal violation at hop "
    ++ (decimal i
        ++ (text ": child expiry " ++ (decimal c ++ (text " exceeds parent expiry " ++ decimal p))))
to_string (A1Error.max_depth_exceeded i l) =
    text "depth limit exceeded at hop "
    ++ (decimal i ++ (text " (limit=" ++ (decimal l ++ text ")")))
to_string A1Error.invalid_sub_scope_proof = text "sub-scope proof is structurally invalid"
to_string (A1Error.scope_escalation i) =
    text "scope escalation at hop "
    ++ (decimal i ++ text ": delegated scope is not within the delegator's authorization")
to_string A1Error.unauthorized_leaf = text "executing agent is not the terminal delegate"
to_string A1Error.scope_violation = text "execution intent is not within the terminal scope"
to_string A1Error.nonce_replay = text "nonce has already been consumed"
to_string A1Error.revoked = text "delegation certificate has been revoked"
to_string A1Error.intent_not_found = text "intent is not present in this tree"
to_string A1Error.empty_tree = text "intent tree requires at least one intent"
to_string (A1Error.wire_format_error m) = text "wire format error: " ++ m
to_string (A1Error.unsupported_version e g) =
    text "unsupported certificate version: expected " ++ (decimal e ++ (text ", got " ++ decimal g))
to_string (A1Error.policy_violation m) = text "policy violation: " ++ m
to_string (A1Error.batch_item_failed i r) =
    text "batch authorization failed at index " ++ (decimal i ++ (text ": " ++ r))
to_string A1Error.mac_verification_failed = text "MAC verification failed"
to_string (A1Error.namespace_mismatch c r) =
    text "namespace mismatch: chain namespace is '"
    ++ (c ++ (text "', authorization requested for '" ++ (r ++ text "'")))
to_string A1Error.rate_limit_exceeded = text "rate limit exceeded for key"
to_string (A1Error.storage_unhealthy m) = text "storage health check failed: " ++ m
to_string A1Error.passport_narrowing_violation =
    text
      "passport capability narrowing violation: requested scope exceeds granted passport capabilities"
to_string (A1Error.unsupported_algorithm t) =
    text "unsupported signature algorithm tag: " ++ decimal t
to_string (A1Error.algorithm_mismatch e f) =
    text "signature algorithm mismatch: expected " ++ (e ++ (text ", found " ++ f))
to_string (A1Error.hybrid_signature_invalid c) =
    text "hybrid signature invalid: " ++ (c ++ text " component failed verification")
to_string (A1Error.pq_signature_missing a) =
    text "post-quantum signature component is missing for algorithm " ++ a
to_string (A1Error.invalid_hybrid_key_length a e f) =
    text "invalid hybrid key length for "
    ++ (a
        ++ (text ": expected "
            ++ (decimal e ++ (text " bytes, found " ++ (decimal f ++ text " bytes")))))
