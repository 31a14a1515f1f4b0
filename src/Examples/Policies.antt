-- ===== src/Examples/Policies.antt =====
-- Policies on the chain of two certificates.
use dyolo_kya.Prelude.{◌≡◌, ◌≢◌, ◌↔◌, refl, true, false, All, [], ◌∷◌, some, none, ok}
use dyolo_kya.Prelude.Bytes.{text, bytes_beq}
use dyolo_kya.Merkle.{full_passthrough}
use dyolo_kya.Cert.{DelegationCert, issue}
use dyolo_kya.Policy.{
  DelegationPolicy, check_policy, check_trusted, check_depth, check_certs, check_cert, check_ttl,
  check_extensions, has_sub, permits, prefix_permits, starts_with, ends_with_mark, trim_marks,
}
use dyolo_kya.Policy.Guarantees.{Meets, check_policy_iff}
use dyolo_kya.Prelude.{◌≤◌, length}
use dyolo_kya.Document.{PolicyDocument, into_policy}
use dyolo_kya.Document.Compiled.{Obeys, into_policy_iff}
use dyolo_kya.Examples.World.{chain, first_cert}

abbrev pub two_hops : DelegationPolicy
two_hops = record {
  name = [];
  trusted_principal_pks = (1 ∷ []) ∷ [];
  max_chain_depth = some 2;
  max_ttl_secs = some 800;
  allow_sub_delegation = true;
  required_extensions = [];
  capabilities = none;
}

abbrev pub short_lived : DelegationPolicy
short_lived = record two_hops { max_ttl_secs = some 700 }

-- The first certificate lives for 800 seconds, and the second for 700.
two_hops_passes : check_policy two_hops chain ≡ ok tt
unfolding check_policy check_trusted check_depth check_certs check_cert check_ttl has_sub issue
    bytes_beq check_extensions
two_hops_passes = refl

short_lived_fails : check_policy short_lived chain ≢ ok tt
unfolding check_policy check_trusted check_depth check_certs check_cert check_ttl has_sub issue
    bytes_beq check_extensions
short_lived_fails = cc

trader_permitted : permits (record { prefixes = text "trade." ∷ [] }) (text "trader") ≡ true
unfolding permits prefix_permits starts_with ends_with_mark trim_marks text bytes_beq
trader_permitted = refl

read_refused : permits (record { prefixes = text "trade." ∷ [] }) (text "read") ≡ false
unfolding permits prefix_permits starts_with ends_with_mark trim_marks text bytes_beq
read_refused = refl

no_mark : ends_with_mark (97 ∷ []) ≡ false
unfolding ends_with_mark
no_mark = refl

pub two_hops-Meets : Meets two_hops chain
two_hops-Meets = (check_policy_iff two_hops chain).0 two_hops_passes

abbrev trading : PolicyDocument
trading = record {
  name = text "trading";
  max_chain_depth = some 3;
  max_ttl_secs = some 800;
  forbid_sub_delegation = false;
  capabilities = text "trade." ∷ [];
  required_extensions = [];
  certs = [];
}

abbrev frozen : PolicyDocument
frozen = record trading { forbid_sub_delegation = true }

-- The first certificate hands its whole scope on, with a depth limit of 5.
abbrev whole : DelegationCert
whole = record first_cert { scope_proof = full_passthrough }

into_policy_iff_example :
    ((check_policy (into_policy frozen) chain ≡ ok tt)
      ↔ ((length chain.certs ≤ 3) × All (Obeys frozen) chain.certs))
    × (check_cert (into_policy frozen) whole
        ≡ check_cert (into_policy (record frozen { forbid_sub_delegation = false })) whole)
into_policy_iff_example = into_policy_iff frozen chain first_cert
