-- ===== src/Document.antt =====
-- a1-identity/src/policy.rs: policy documents, their checks and their compilation into a policy.
pub mod Compiled
use dyolo_kya.Prelude.{
  ℕ, zero, suc, Bool, true, false, not, ◌&&◌, ◌||◌, ◌==◌, nat_eq, if◌then◌else◌, length, is_empty,
  is_ok, List, [], ◌∷◌, ◌++◌, Option, some, none, Result, ok, err,
}
use dyolo_kya.Prelude.Bytes.{Bytes, bytes_eq, text, decimal}
use dyolo_kya.Crypto.{Hex}
use dyolo_kya.Policy
use dyolo_kya.Policy.{CapabilitySet, DelegationPolicy, allow, starts_with}

pub record PolicyIntent : Type 0 where
  pub name : Bytes
  pub params : List (Bytes × Bytes)

pub record PolicyCert : Type 0 where
  pub delegate_pk_hex : Bytes
  pub intents : List PolicyIntent
  pub ttl_seconds : ℕ
  pub max_depth : ℕ

pub record PolicyDocument : Type 0 where
  pub name : Bytes
  pub max_chain_depth : Option ℕ
  pub max_ttl_secs : Option ℕ
  pub forbid_sub_delegation : Bool
  pub capabilities : List Bytes
  pub required_extensions : List Bytes
  pub certs : List PolicyCert

-- A message where a condition holds.
unfoldable pub complain : Bool → Bytes → List Bytes
complain true message = message ∷ []
complain false message = []

-- A message for a limit of 0.
unfoldable pub positive : Option ℕ → Bytes → List Bytes
positive none message = []
positive (some limit) message = complain (limit == 0) message

abbrev pub template : ℕ → Bytes
template i = text "cert template " ++ decimal i

unfoldable pub intent_errors : ℕ → List PolicyIntent → List Bytes
intent_errors i [] = []
intent_errors i (intent ∷ intents) =
    complain (is_empty intent.name) (template i ++ text " has an empty intent name")
    ++ (complain (starts_with intent.name (text "trad.")) (
          template i
          ++ (text " intent '" ++ (intent.name ++ text "' looks like a typo of 'trade.'")))
        ++ intent_errors i intents)

module _ (hex : Hex) where
  -- `hex::decode(..).is_err()`.
  unfoldable pub undecodable : Bytes → Bool
  undecodable s = elim (hex.decode s) [ none ↦ true | some b ↦ false ]

  unfoldable pub cert_errors : Bytes → ℕ → PolicyCert → List Bytes
  cert_errors policy_name i cert =
      complain (not (length cert.delegate_pk_hex == 64) || undecodable cert.delegate_pk_hex) (
        text "Invalid delegate_pk_hex in "
        ++ (template i ++ (text " for policy '" ++ (policy_name ++ text "'"))))
      ++ (complain (cert.ttl_seconds == 0) (template i ++ text " ttl_seconds must be > 0")
          ++ (if is_empty cert.intents
              then (template i ++ text " must specify at least one intent") ∷ []
              else intent_errors i cert.intents))

  unfoldable pub certs_errors : Bytes → ℕ → List PolicyCert → List Bytes
  certs_errors policy_name i [] = []
  certs_errors policy_name i (cert ∷ certs) =
      cert_errors policy_name i cert ++ certs_errors policy_name (suc i) certs

  -- `is_blank` stands for `trim().is_empty()`, which reads the white space of Unicode.
  module _ (is_blank : Bytes → Bool) where
    unfoldable pub errors_of : PolicyDocument → List Bytes
    errors_of d =
        complain (is_blank d.name) (text "Policy name cannot be empty")
        ++ (positive d.max_chain_depth (text "max_chain_depth must be > 0")
            ++ (positive d.max_ttl_secs (text "max_ttl_secs must be > 0")
                ++ certs_errors d.name 0 d.certs))

    unfoldable pub validate : PolicyDocument → Result (List Bytes) (Unit {0})
    validate d = if is_empty (errors_of d) then ok tt else err (errors_of d)

-- The steps of `into_policy`.
unfoldable pub with_depth : Option ℕ → DelegationPolicy → DelegationPolicy
with_depth none p = p
with_depth (some depth) p = record p { max_chain_depth = some depth }

unfoldable pub with_ttl : Option ℕ → DelegationPolicy → DelegationPolicy
with_ttl none p = p
with_ttl (some ttl) p = record p { max_ttl_secs = some ttl }

unfoldable pub with_forbidden : Bool → DelegationPolicy → DelegationPolicy
with_forbidden true p = record p { allow_sub_delegation = false }
with_forbidden false p = p

unfoldable pub allow_all : CapabilitySet → List Bytes → CapabilitySet
allow_all caps [] = caps
allow_all caps (cap ∷ more) = allow_all (allow caps cap) more

unfoldable pub with_capabilities : List Bytes → DelegationPolicy → DelegationPolicy
with_capabilities [] p = p
with_capabilities (cap ∷ caps) p = record p {
  capabilities = some (allow_all (record { prefixes = [] }) (cap ∷ caps));
}

unfoldable pub require_all : DelegationPolicy → List Bytes → DelegationPolicy
require_all p [] = p
require_all p (key ∷ keys) =
    require_all (record p { required_extensions = p.required_extensions ++ (key ∷ []) }) keys

unfoldable pub into_policy : PolicyDocument → DelegationPolicy
into_policy d =
    require_all
      (with_capabilities d.capabilities (
        with_forbidden d.forbid_sub_delegation
          (with_ttl d.max_ttl_secs (with_depth d.max_chain_depth (Policy.new d.name)))))
      d.required_extensions
