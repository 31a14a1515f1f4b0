-- ===== src/Policy.antt =====
-- src/policy.rs: capability sets, delegation policies and ordered sets of policies, built with the
-- `wire` feature.
pub mod Guarantees
use dyolo_kya.Prelude.{
  ℕ, ◌-◌, Bool, true, false, not, ◌&&◌, ◌||◌, ltb, ◌==◌, if◌then◌else◌, length, is_empty, any, List,
  [], ◌∷◌, ◌++◌, Option, some, none, Result, ok, err, ◌>>=◌, ◌>>◌, fail_if, map_err,
}
use dyolo_kya.Prelude.{nat_eq}
use dyolo_kya.Prelude.Bytes.{Bytes, bytes_eq, text, decimal}
use dyolo_kya.Error.{A1Error}
use dyolo_kya.Extensions
use dyolo_kya.Cert.{DelegationCert}
use dyolo_kya.Chain.{DyoloChain}

pub data PolicyViolation : Type 0 where
  chain_depth_exceeded : ℕ → ℕ → PolicyViolation
  intent_not_allowed : Bytes → Bytes → PolicyViolation
  ttl_exceeds_maximum : ℕ → ℕ → PolicyViolation
  sub_delegation_forbidden : PolicyViolation
  required_extension_absent : Bytes → PolicyViolation
  principal_not_trusted : PolicyViolation

-- `Display`.
unfoldable pub violation_message : PolicyViolation → Bytes
violation_message (PolicyViolation.chain_depth_exceeded allowed actual) =
    text "chain depth " ++ (decimal actual ++ (text " exceeds policy maximum " ++ decimal allowed))
violation_message (PolicyViolation.intent_not_allowed intent policy) =
    text "intent '" ++ (intent ++ (text "' not permitted under policy '" ++ (policy ++ text "'")))
violation_message (PolicyViolation.ttl_exceeds_maximum allowed actual) =
    text "cert TTL "
    ++ (decimal actual ++ (text "s exceeds policy maximum " ++ (decimal allowed ++ text "s")))
violation_message PolicyViolation.sub_delegation_forbidden =
    text "sub-delegation is not permitted under this policy"
violation_message (PolicyViolation.required_extension_absent key) =
    text "required extension '" ++ (key ++ text "' is absent from cert")
violation_message PolicyViolation.principal_not_trusted =
    text "principal public key is not in the trusted set"

pub record CapabilitySet : Type 0 where
  pub prefixes : List Bytes

unfoldable pub wildcard : CapabilitySet
wildcard = record { prefixes = text "*" ∷ [] }

unfoldable pub allow : CapabilitySet → Bytes → CapabilitySet
allow s prefix = record { prefixes = s.prefixes ++ (prefix ∷ []) }

-- A byte that `trim_end_matches(['*', '.'])` removes.
abbrev pub is_mark : ℕ → Bool
is_mark b = b == b'*' || b == b'.'

-- `p.ends_with('.') || p.ends_with('*')`.
unfoldable pub ends_with_mark : Bytes → Bool
ends_with_mark [] = false
ends_with_mark (b ∷ []) = is_mark b
ends_with_mark (b ∷ d ∷ bs) = ends_with_mark (d ∷ bs)

unfoldable pub trim_marks : Bytes → Bytes
trim_marks [] = []
trim_marks (b ∷ bs) =
    let rest = trim_marks bs in if is_empty rest && is_mark b then [] else b ∷ rest

unfoldable pub starts_with : Bytes → Bytes → Bool
starts_with action [] = true
starts_with [] (p ∷ ps) = false
starts_with (a ∷ action) (p ∷ ps) = a == p && starts_with action ps

-- The closure of `permits`.
unfoldable pub prefix_permits : Bytes → Bytes → Bool
prefix_permits action p =
    if p == text "*"
    then true
    else if ends_with_mark p
    then starts_with action (trim_marks p)
    else action == p

unfoldable pub permits : CapabilitySet → Bytes → Bool
permits s action = any (prefix_permits action) s.prefixes

pub record DelegationPolicy : Type 0 where
  pub name : Bytes
  pub max_chain_depth : Option ℕ
  pub max_ttl_secs : Option ℕ
  pub capabilities : Option CapabilitySet
  pub allow_sub_delegation : Bool
  pub required_extensions : List Bytes
  pub trusted_principal_pks : List Bytes

unfoldable pub new : Bytes → DelegationPolicy
new name = record {
  name = name;
  max_chain_depth = none;
  max_ttl_secs = none;
  capabilities = none;
  allow_sub_delegation = true;
  required_extensions = [];
  trusted_principal_pks = [];
}

abbrev pub Check : Type 0
Check = Result PolicyViolation (Unit {0})

unfoldable pub check_trusted : List Bytes → Bytes → Check
check_trusted trusted pk =
    fail_if (not (is_empty trusted) && not (any (λ t. t == pk) trusted))
      PolicyViolation.principal_not_trusted

unfoldable pub check_depth : Option ℕ → ℕ → Check
check_depth none depth = ok tt
check_depth (some max_depth) depth =
    fail_if (ltb max_depth depth) (PolicyViolation.chain_depth_exceeded max_depth depth)

unfoldable pub check_ttl : Option ℕ → ℕ → Check
check_ttl none ttl = ok tt
check_ttl (some max_ttl) ttl =
    fail_if (ltb max_ttl ttl) (PolicyViolation.ttl_exceeds_maximum max_ttl ttl)

-- `!subset_intents.is_empty() || !proofs.is_empty()`.
unfoldable pub has_sub : DelegationCert → Bool
has_sub t = not (is_empty t.scope_proof.subset_intents) || not (is_empty t.scope_proof.proofs)

unfoldable pub is_absent : Option Extensions.ExtValue → Bool
is_absent none = true
is_absent (some v) = false

unfoldable pub check_extensions : List Bytes → DelegationCert → Check
check_extensions [] t = ok tt
check_extensions (key ∷ keys) t = do
  fail_if (is_absent (Extensions.get t.extensions key))
      (PolicyViolation.required_extension_absent key)
  check_extensions keys t

unfoldable pub check_cert : DelegationPolicy → DelegationCert → Check
check_cert p t = do
  check_ttl p.max_ttl_secs (t.expiration_unix - t.issued_at)
  fail_if (not p.allow_sub_delegation && (has_sub t && ltb 0 t.max_depth))
      PolicyViolation.sub_delegation_forbidden
  check_extensions p.required_extensions t

unfoldable pub check_certs : DelegationPolicy → List DelegationCert → Check
check_certs p [] = ok tt
check_certs p (t ∷ ts) = do check_cert p t; check_certs p ts

unfoldable pub check_policy : DelegationPolicy → DyoloChain → Check
check_policy p ch = do
  check_trusted p.trusted_principal_pks ch.principal_pk
  check_depth p.max_chain_depth (length ch.certs)
  check_certs p ch.certs

unfoldable pub check_action : DelegationPolicy → Bytes → Check
check_action p action = elim p.capabilities [
  | none ↦ ok tt
  | some caps ↦
      fail_if (not (permits caps action)) (PolicyViolation.intent_not_allowed action p.name)
]

-- `PolicySet`: the first violation ends the evaluation.
unfoldable pub check_chain : List DelegationPolicy → DyoloChain → Result A1Error (Unit {0})
check_chain [] ch = ok tt
check_chain (p ∷ ps) ch = do
  map_err (λ v. A1Error.policy_violation (violation_message v)) (check_policy p ch)
  check_chain ps ch

unfoldable pub check_intent : List DelegationPolicy → Bytes → Result A1Error (Unit {0})
check_intent [] action = ok tt
check_intent (p ∷ ps) action = do
  map_err (λ v. A1Error.policy_violation (violation_message v)) (check_action p action)
  check_intent ps action
