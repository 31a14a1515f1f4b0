-- ===== src/Swarm.antt =====
-- src/swarm.rs: the members of a swarm, their roles and the chains that they are given. A panic is
-- `none`; the random nonce of a certificate and the clock's readings are arguments. `now + ttl_secs`
-- wraps in a release build.
pub mod Members
pub mod Chains
use dyolo_kya.Prelude.{
  ℕ, ◌+◌, ◌-◌, Bool, true, false, not, ◌&&◌, leb, ◌==◌, if◌then◌else◌, length, is_empty, List, [],
  ◌∷◌, ◌++◌, Option, some, none, Result, ok, err, ◌>>=◌, ◌>>◌, ok_or,
}
use dyolo_kya.Prelude.Bytes.{Bytes, bytes_eq, text, u64_le}
use dyolo_kya.Prelude.Words.{wrapping_add}
use dyolo_kya.Prelude.HashMap
use dyolo_kya.Prelude.HashMap.{HashMap}
use dyolo_kya.Error.{A1Error}
use dyolo_kya.Crypto.{Crypto, Hex}
use dyolo_kya.HexFields.{did_of, prefixed}
use dyolo_kya.Cert.{Signer, DelegationCert, fingerprint}
use dyolo_kya.Cert.Builder
use dyolo_kya.Cert.Builder.{CertBuilder, sign}
use dyolo_kya.Chain
use dyolo_kya.Chain.{DyoloChain, push}
use dyolo_kya.Narrowing
use dyolo_kya.Narrowing.{NarrowingMatrix, from_capabilities, enforce_narrowing}
use dyolo_kya.Passport.{DyoloPassport, scope_root}

pub data SwarmRole : Type 0 where
  orchestrator auditor : SwarmRole
  worker : List Bytes → SwarmRole
  supervisor : List Bytes → ℕ → SwarmRole
  custom : Bytes → List Bytes → Bool → ℕ → SwarmRole

unfoldable pub name : SwarmRole → Bytes
name SwarmRole.orchestrator = text "orchestrator"
name SwarmRole.auditor = text "auditor"
name (SwarmRole.worker caps) = text "worker"
name (SwarmRole.supervisor caps ttl) = text "supervisor"
name (SwarmRole.custom n caps can depth) = n

unfoldable pub can_delegate : SwarmRole → Bool
can_delegate SwarmRole.orchestrator = true
can_delegate SwarmRole.auditor = false
can_delegate (SwarmRole.worker caps) = false
can_delegate (SwarmRole.supervisor caps ttl) = true
can_delegate (SwarmRole.custom n caps can depth) = can

unfoldable pub max_depth : SwarmRole → ℕ
max_depth SwarmRole.orchestrator = 16
max_depth SwarmRole.auditor = 0
max_depth (SwarmRole.worker caps) = 0
max_depth (SwarmRole.supervisor caps ttl) = 4
max_depth (SwarmRole.custom n caps can depth) = depth

unfoldable pub capabilities : SwarmRole → List Bytes
capabilities SwarmRole.orchestrator = []
capabilities SwarmRole.auditor = []
capabilities (SwarmRole.worker caps) = caps
capabilities (SwarmRole.supervisor caps ttl) = caps
capabilities (SwarmRole.custom n caps can depth) = caps

pub record SwarmMember : Type 0 where
  pub agent_did : Bytes
  pub agent_pk_hex : Bytes
  pub role : SwarmRole
  pub issued_at_unix : ℕ
  pub expires_at_unix : ℕ
  pub cert_fingerprint_hex : Option Bytes
  pub role_commitment : Bytes

pub record SwarmPassport : Type 0 where
  pub root_passport : DyoloPassport
  pub swarm_name : Bytes
  pub swarm_id : Bytes
  pub members : HashMap SwarmMember

unfoldable pub flag : Bool → ℕ
flag true = 1
flag false = 0

unfoldable pub encode_caps : List Bytes → Bytes
encode_caps [] = []
encode_caps (cap ∷ caps) = prefixed cap ++ encode_caps caps

-- The hasher's input in `compute_role_commitment`.
unfoldable pub role_input : SwarmRole → Bytes → ℕ → Bytes
role_input role agent_did issued_at =
    name role
    ++ (encode_caps (capabilities role)
        ++ (flag (can_delegate role)
            ∷ (u64_le (max_depth role) ++ (agent_did ++ u64_le issued_at))))

unfoldable pub is_expired : SwarmMember → ℕ → Bool
is_expired m now_unix = leb m.expires_at_unix now_unix

-- `filter(|m| !m.is_expired(now_unix))`.
unfoldable pub active : ℕ → List SwarmMember → List SwarmMember
active now_unix [] = []
active now_unix (m ∷ ms) =
    let rest = active now_unix ms in if not (is_expired m now_unix) then m ∷ rest else rest

unfoldable pub active_members : SwarmPassport → ℕ → List SwarmMember
active_members s now_unix = active now_unix (HashMap.values s.members)

-- The number of evicted members, and what is left.
unfoldable pub evict_expired : SwarmPassport → ℕ → ℕ × SwarmPassport
evict_expired s now_unix =
    let kept = HashMap.retain (λ m. not (is_expired m now_unix)) s.members in
    (length s.members - length kept, record s { members = kept })

unfoldable pub remove_member : SwarmPassport → Bytes → Option SwarmMember × SwarmPassport
remove_member s did =
    (HashMap.get did s.members, record s { members = HashMap.remove did s.members })

unfoldable pub member_count : SwarmPassport → ℕ
member_count s = length s.members

-- Behind the look-up.
unfoldable pub plays : ℕ → Bytes → Option SwarmMember → Bool
plays now_unix role_name none = false
plays now_unix role_name (some m) = not (is_expired m now_unix) && name m.role == role_name

unfoldable pub has_role : SwarmPassport → Bytes → ℕ → Bytes → Bool
has_role s agent_did now_unix role_name = plays now_unix role_name (HashMap.get agent_did s.members)

-- What follows on a value, or on an error.
unfoldable pub on_ok {ℓ κ} :
    {A : Type ℓ} {B : Type κ}
    → Result A1Error A
    → (A → Option (Result A1Error B))
    → Option (Result A1Error B)
on_ok (ok a) f = f a
on_ok (err e) f = some (err e)

unfoldable pub on_some {ℓ κ} : {A : Type ℓ} {B : Type κ} → Option A → (A → Option B) → Option B
on_some (some a) f = f a
on_some none f = none

-- The builder of a member's certificate.
unfoldable pub member_builder : Bytes → Bytes → SwarmRole → Bytes → ℕ → ℕ → CertBuilder
member_builder fresh_nonce agent_pk role scope now ttl_secs =
    record (Builder.new fresh_nonce agent_pk scope now (wrapping_add now ttl_secs)) {
      max_depth = max_depth role;
    }

module _ (c : Crypto) where
  unfoldable pub compute_role_commitment : SwarmRole → Bytes → ℕ → Bytes
  compute_role_commitment role agent_did issued_at =
      c.derive (text "a1::dyolo::swarm::role::v2.8.0") (role_input role agent_did issued_at)

  unfoldable pub verify_role_commitment : SwarmMember → Bool
  verify_role_commitment m =
      compute_role_commitment m.role m.agent_did m.issued_at_unix == m.role_commitment

  unfoldable pub compute_swarm_id : Bytes → Bytes → Bytes
  compute_swarm_id swarm_name mask =
      c.derive (text "a1::dyolo::swarm::bind::v2.8.0") (prefixed swarm_name ++ mask)

  unfoldable pub new : DyoloPassport → Bytes → SwarmPassport
  new root_passport swarm_name = record {
    root_passport = root_passport;
    swarm_name = swarm_name;
    swarm_id = compute_swarm_id swarm_name root_passport.capability_mask.mask;
    members = [];
  }

  -- The mask of a role's capabilities.
  unfoldable pub role_mask : SwarmRole → NarrowingMatrix
  role_mask role =
      if is_empty (capabilities role)
      then Narrowing.empty
      else from_capabilities c (capabilities role)

  module _ (hex : Hex) where
    -- The record of a member whose certificate was signed.
    unfoldable pub member_of : Bytes → SwarmRole → ℕ → ℕ → DelegationCert → SwarmMember
    member_of agent_pk role now ttl_secs cert = record {
      agent_did = did_of hex agent_pk;
      agent_pk_hex = hex.encode agent_pk;
      role = role;
      issued_at_unix = now;
      expires_at_unix = wrapping_add now ttl_secs;
      cert_fingerprint_hex = some (hex.encode (fingerprint c cert));
      role_commitment = compute_role_commitment role (did_of hex agent_pk) now;
    }

    unfoldable pub enroll : SwarmPassport → SwarmMember → SwarmPassport
    enroll s m = record s { members = HashMap.insert m.agent_did m s.members }

    unfoldable pub add_member :
        Bytes
        → SwarmPassport
        → Bytes
        → SwarmRole
        → ℕ
        → Signer
        → ℕ
        → Option (Result A1Error (SwarmMember × SwarmPassport))
    add_member fresh_nonce s agent_pk role ttl_secs signer now =
        on_ok
          (do
            enforce_narrowing (role_mask role) s.root_passport.capability_mask
            scope_root c s.root_passport)
          λ scope.
            on_some (sign c (member_builder fresh_nonce agent_pk role scope now ttl_secs) signer)
              λ cert. let m = member_of agent_pk role now ttl_secs cert in some (ok (m, enroll s m))

    unfoldable pub chain_for_member :
        Bytes → SwarmPassport → Bytes → Signer → ℕ → ℕ → Option (Result A1Error DyoloChain)
    chain_for_member fresh_nonce s agent_pk signer now ttl_secs =
        on_ok
          (do
            m ← ok_or (HashMap.get (did_of hex agent_pk) s.members) (
                A1Error.wire_format_error
                  (text "agent " ++ (did_of hex agent_pk ++ text " is not a swarm member")))
            scope ← scope_root c s.root_passport
            ok (m, scope))
          λ (m, scope).
            on_some (sign c (member_builder fresh_nonce agent_pk m.role scope now ttl_secs) signer)
              λ cert. some (ok (push (Chain.new signer.verifying_key scope) cert))
