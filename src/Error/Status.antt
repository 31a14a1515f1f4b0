-- ===== src/Error/Status.antt =====
-- src/error.rs: which errors a client may try again.
use dyolo_kya.Prelude.{◌≡◌, ◌↔◌, ◌⊎◌, inl, inr, refl, true, arith}
use dyolo_kya.Prelude.Bytes.{Bytes}
use dyolo_kya.Error.{
  A1Error, StorageErrorKind, http_status, storage_status, is_transient_kind, is_transient,
  is_transient_storage_failure,
}

storage_status_iff :
    (k : StorageErrorKind) → (storage_status k ≡ 503) ↔ (is_transient_kind k ≡ true)
unfolding storage_status is_transient_kind
storage_status_iff StorageErrorKind.transient = (λ h. refl, λ h. refl)
storage_status_iff StorageErrorKind.permanent = (λ h. absurd (omega arith), λ h. cc h)

-- The status is 503, which invites another attempt, exactly for a transient failure of a store and for
-- a store that reports itself unhealthy.
http_status-unavailable_iff :
    (e : A1Error)
    → (http_status e ≡ 503) ↔ (
        (is_transient_storage_failure e ≡ true) ⊎ ((m : Bytes) × (e ≡ A1Error.storage_unhealthy m)))
unfolding http_status is_transient_storage_failure is_transient
http_status-unavailable_iff (A1Error.storage_failure e) = (
  λ h. inl ((storage_status_iff e.kind).0 h),
  λ h. elim h [ inl p ↦ (storage_status_iff e.kind).1 p | inr (m, q) ↦ cc q ],
)
http_status-unavailable_iff (A1Error.storage_unhealthy m) = (λ h. inr (m, refl), λ h. refl)
http_status-unavailable_iff _ =
    (λ h. absurd (omega arith), λ h. elim h [ inl p ↦ cc p | inr (m, q) ↦ cc q ])
