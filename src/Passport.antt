-- ===== src/Passport.antt =====
-- src/passport/mod.rs, built with the `wire` feature: passports, the certificates that they issue
-- and the guard. A panic is `none`; the random nonce of a certificate and the clock's readings are
-- arguments.
pub mod Receipt
pub mod Issued
pub mod Narrows
pub mod Granted
pub mod Lifecycle
pub mod Guard
use dyolo_kya.Prelude.{ℕ, List, [], ◌∷◌, Option, some, none, Result, ok, err, ◌>>=◌, ◌>>◌}
use dyolo_kya.Prelude.Bytes.{Bytes, text}
use dyolo_kya.Prelude.Words.{saturating_add}
use dyolo_kya.Error.{A1Error}
use dyolo_kya.Crypto.{Crypto, Hex}
use dyolo_kya.Intent
use dyolo_kya.Intent.{Intent}
use dyolo_kya.Merkle.{IntentTree, MerkleProof, SubScopeProof, build, root, sub_scope_build}
use dyolo_kya.Extensions
use dyolo_kya.Extensions.{CertExtensions, ExtValue}
use dyolo_kya.Cert.{Signer, DelegationCert}
use dyolo_kya.Cert.Builder
use dyolo_kya.Cert.Builder.{CertBuilder}
use dyolo_kya.Chain
use dyolo_kya.Chain.{DyoloChain}
use dyolo_kya.Narrowing.{NarrowingMatrix, from_capabilities, enforce_narrowing, to_hex}
use dyolo_kya.Registry.{NonceStore, RevocationStore}
use dyolo_kya.Registry.Nonce
use dyolo_kya.Registry.Revocation
use dyolo_kya.Authorize.{AuthorizedAction, authorize}
use dyolo_kya.Authorize.Stores.{nonces_at, revocations}
use Receipt.{ProvableReceipt}

pub record DyoloPassport : Type 0 where
  pub namespace : Bytes
  pub capability_mask : NarrowingMatrix
  pub capabilities : List Bytes
  pub cert : DelegationCert

-- A chain of `set` calls.
unfoldable pub set_all : CertExtensions → List (Bytes × ExtValue) → Option CertExtensions
set_all e [] = some e
set_all e ((key, value) ∷ rest) = elim (Extensions.set e key value) [
  | none ↦ none
  | some after ↦ set_all after rest
]

-- What follows on extensions that were set.
unfoldable pub with_extensions {ℓ} :
    {A : Type ℓ}
    → Option CertExtensions
    → (CertExtensions → Result A1Error A)
    → Option (Result A1Error A)
with_extensions none f = none
with_extensions (some e) f = some (f e)

-- What follows on an error, or on a value.
unfoldable pub or_return {ℓ κ} :
    {A : Type ℓ} {B : Type κ}
    → Result A1Error A
    → (A → Option (Result A1Error B))
    → Option (Result A1Error B)
or_return (err e) f = some (err e)
or_return (ok a) f = f a

unfoldable pub new_chain : DyoloPassport → DyoloChain
new_chain p = record (Chain.new p.cert.delegator_pk p.cert.scope_root) {
  namespace = some p.namespace;
}

unfoldable pub verifying_key : DyoloPassport → Bytes
verifying_key p = p.cert.delegator_pk

-- The root certificate's builder.
unfoldable pub root_builder : Bytes → Signer → Bytes → ℕ → ℕ → CertExtensions → CertBuilder
root_builder fresh_nonce signer scope now ttl_secs ext =
    record (Builder.new fresh_nonce signer.verifying_key scope now (saturating_add now ttl_secs)) {
      max_depth = 255;
      extensions = ext;
    }

unfoldable pub sub_builder :
    Bytes → Bytes → SubScopeProof × IntentTree → ℕ → ℕ → CertExtensions → CertBuilder
sub_builder fresh_nonce delegate (proof, tree) now ttl_secs ext =
    record (Builder.new fresh_nonce delegate (root tree) now (saturating_add now ttl_secs)) {
      scope_proof = proof;
      extensions = ext;
    }

module _ (c : Crypto) where
  unfoldable pub cap_hash : Bytes → Result A1Error Bytes
  cap_hash cap = do it ← Intent.new cap; ok (Intent.hash c it)

  unfoldable pub cap_hashes : List Bytes → Result A1Error (List Bytes)
  cap_hashes [] = ok []
  cap_hashes (cap ∷ caps) = do h ← cap_hash cap; hs ← cap_hashes caps; ok (h ∷ hs)

  -- The tree of a list of capabilities.
  unfoldable pub tree_of : List Bytes → Result A1Error IntentTree
  tree_of caps = do hashes ← cap_hashes caps; build c hashes

  unfoldable pub capability_tree : DyoloPassport → Result A1Error IntentTree
  unfolding tree_of
  capability_tree p = tree_of p.capabilities

  unfoldable pub scope_root : DyoloPassport → Result A1Error Bytes
  scope_root p = do tree ← capability_tree p; ok (root tree)

  -- Behind the capability tree.
  unfoldable pub issue_root :
      Bytes
      → Bytes
      → List Bytes
      → ℕ
      → Signer
      → ℕ
      → IntentTree
      → CertExtensions
      → Result A1Error DyoloPassport
  issue_root fresh_nonce namespace caps ttl_secs signer now tree ext = do
    cert ← Builder.build c (root_builder fresh_nonce signer (root tree) now ttl_secs ext) signer
    ok (record {
      namespace = namespace;
      capability_mask = from_capabilities c caps;
      capabilities = caps;
      cert = cert;
    })

  -- What `issue_sub` checks and computes before it builds: the scope proof and the sub-scope.
  unfoldable pub narrow_scope :
      DyoloPassport → List Bytes → Result A1Error (SubScopeProof × IntentTree)
  narrow_scope p caps = do
    enforce_narrowing (from_capabilities c caps) p.capability_mask
    parent_tree ← capability_tree p
    sub_hashes ← cap_hashes caps
    scope_proof ← sub_scope_build parent_tree sub_hashes
    sub_tree ← build c sub_hashes
    ok (scope_proof, sub_tree)

  module _ (hex : Hex) where
    abbrev pub passport_extensions : Bytes → NarrowingMatrix → List (Bytes × ExtValue)
    passport_extensions namespace mask =
        (text "dyolo.passport.v", ExtValue.u64 1)
        ∷ (text "dyolo.passport.namespace", ExtValue.str namespace)
        ∷ (text "dyolo.passport.mask", ExtValue.str (to_hex hex mask))
        ∷ []

    abbrev pub root_extensions : Bytes → NarrowingMatrix → List Bytes → List (Bytes × ExtValue)
    root_extensions namespace mask caps =
        (text "dyolo.passport.v", ExtValue.u64 1)
        ∷ (text "dyolo.passport.namespace", ExtValue.str namespace)
        ∷ (text "dyolo.passport.mask", ExtValue.str (to_hex hex mask))
        ∷ (text "dyolo.passport.caps", ExtValue.strings caps)
        ∷ []

    unfoldable pub issue :
        Bytes → Bytes → List Bytes → ℕ → Signer → ℕ → Option (Result A1Error DyoloPassport)
    issue fresh_nonce namespace caps ttl_secs signer now = or_return (tree_of caps) λ tree.
        with_extensions
          (set_all Extensions.new (root_extensions namespace (from_capabilities c caps) caps))
          (issue_root fresh_nonce namespace caps ttl_secs signer now tree)

    unfoldable pub issue_sub :
        Bytes
        → DyoloPassport
        → Bytes
        → List Bytes
        → ℕ
        → Signer
        → ℕ
        → Option (Result A1Error DelegationCert)
    issue_sub fresh_nonce p delegate caps ttl_secs signer now =
        or_return (narrow_scope p caps) λ scope.
          with_extensions
            (set_all Extensions.new (passport_extensions p.namespace (from_capabilities c caps)))
            λ ext. Builder.build c (sub_builder fresh_nonce delegate scope now ttl_secs ext) signer

    module _ {R S : Type 0} (revocation : RevocationStore R) (nonces : NonceStore S) where
      -- The receipt of what the chain authorized.
      unfoldable pub receipt_for :
          DyoloPassport → Result A1Error AuthorizedAction × S → Result A1Error ProvableReceipt × S
      receipt_for p (ok action, s) =
          (ok (Receipt.new c hex action.receipt p.namespace p.capability_mask), s)
      receipt_for p (err e, s) = (err e, s)

      -- Behind the narrowing check.
      unfoldable pub guard_narrowed :
          Result A1Error (Unit {0})
          → Result A1Error ProvableReceipt × S
          → S
          → Result A1Error ProvableReceipt × S
      guard_narrowed (ok _) answer s = answer
      guard_narrowed (err e) answer s = (err e, s)

      unfoldable pub guard :
          DyoloPassport
          → DyoloChain
          → Bytes
          → Intent
          → MerkleProof
          → ℕ
          → ℕ
          → R
          → S
          → Result A1Error ProvableReceipt × S
      guard p ch agent intent proof now then_now r s =
          guard_narrowed
            (enforce_narrowing (from_capabilities c (intent.action ∷ [])) p.capability_mask)
            (receipt_for p (
              authorize c revocation nonces hex.encode ch agent (Intent.hash c intent) proof now
                then_now r s))
            s

    -- With the system clock, new stores in memory and an empty proof; the nonce store reads the
    -- clock itself, at `stored`.
    unfoldable pub guard_local :
        DyoloPassport → DyoloChain → Bytes → Intent → ℕ → ℕ → ℕ → Result A1Error ProvableReceipt
    guard_local p ch agent intent now then_now stored =
        (guard revocations (nonces_at stored) p ch agent intent (record { siblings = [] }) now
          then_now Revocation.new Nonce.new).0
