-- ===== src/Document/Compiled.antt =====
-- a1-identity/src/policy.rs over src/policy.rs: what the policy of a document asks of a chain.
use dyolo_kya.Prelude.{
  ℕ, ◌-◌, ◌≡◌, ◌↔◌, ◌⊎◌, inl, inr, refl, sym, ap, ◌∙◌, Bool, true, false, not, All, length, List,
  [], ◌∷◌, ◌++◌, append_assoc, append-nil, Option, some, none, ok,
}
use dyolo_kya.Prelude.Bytes.{Bytes}
use dyolo_kya.Extensions
use dyolo_kya.Merkle.{full_passthrough}
use dyolo_kya.Cert.{DelegationCert}
use dyolo_kya.Chain.{DyoloChain}
use dyolo_kya.Policy
use dyolo_kya.Policy.{
  CapabilitySet, DelegationPolicy, allow, permits, prefix_permits, has_sub, check_cert,
  check_policy,
}
use dyolo_kya.Policy.Guarantees.{Within, CertMeets, check_policy_iff}
use dyolo_kya.Document.{
  PolicyDocument, with_depth, with_ttl, with_forbidden, allow_all, with_capabilities, require_all,
  into_policy,
}

-- What a document asks of a certificate. Forbidding sub-delegation refuses those that narrow their
-- scope by a proof and may be delegated further, not those that hand the whole scope on.
pub record Obeys (d : PolicyDocument) (t : DelegationCert) : Type 0 where
  pub ttl : Within d.max_ttl_secs (t.expiration_unix - t.issued_at)
  pub not_narrowed_further :
      (d.forbid_sub_delegation ≡ false)
      ⊎ ((t.max_depth ≡ 0) ⊎ ((t.scope_proof.subset_intents ≡ []) × (t.scope_proof.proofs ≡ [])))
  pub extended :
      All
        (λ k. (v : Extensions.ExtValue) × (Extensions.get t.extensions k ≡ some v))
        d.required_extensions

-- The capabilities of a compiled document.
abbrev listed : List Bytes → Option CapabilitySet
listed [] = none
listed (cap ∷ caps) = some (record { prefixes = cap ∷ caps })

abbrev compiled : PolicyDocument → DelegationPolicy
compiled d = record {
  name = d.name;
  max_chain_depth = d.max_chain_depth;
  max_ttl_secs = d.max_ttl_secs;
  capabilities = listed d.capabilities;
  allow_sub_delegation = not d.forbid_sub_delegation;
  required_extensions = d.required_extensions;
  trusted_principal_pks = [];
}

abbrev caps_of : List Bytes → CapabilitySet
caps_of prefixes = record { prefixes = prefixes }

allow_all-append :
    (s : CapabilitySet) (caps : List Bytes)
    → allow_all s caps ≡ record { prefixes = s.prefixes ++ caps }
unfolding allow_all allow
allow_all-append s [] = ap caps_of (sym (append-nil s.prefixes))
allow_all-append s (cap ∷ caps) =
    allow_all-append (allow s cap) caps ∙ ap caps_of (append_assoc s.prefixes (cap ∷ []) caps)

require_all-append :
    (p : DelegationPolicy) (keys : List Bytes)
    → require_all p keys ≡ record p { required_extensions = p.required_extensions ++ keys }
unfolding require_all
require_all-append p [] =
    ap (λ (z : List Bytes). record p { required_extensions = z })
      (sym (append-nil p.required_extensions))
require_all-append p (key ∷ keys) =
    require_all-append (record p { required_extensions = p.required_extensions ++ (key ∷ []) }) keys
    ∙ ap (λ (z : List Bytes). record p { required_extensions = z })
        (append_assoc p.required_extensions (key ∷ []) keys)

-- A policy that has no required extension and no trusted principal.
abbrev plain : Bytes → Option ℕ → Option ℕ → Option CapabilitySet → Bool → DelegationPolicy
plain name depth ttl caps allowed = record {
  name = name;
  max_chain_depth = depth;
  max_ttl_secs = ttl;
  capabilities = caps;
  allow_sub_delegation = allowed;
  required_extensions = [];
  trusted_principal_pks = [];
}

depth_set :
    (name : Bytes) (depth : Option ℕ)
    → with_depth depth (Policy.new name) ≡ plain name depth none none true
unfolding with_depth Policy.new
depth_set name none = refl
depth_set name (some n) = refl

ttl_set :
    (name : Bytes) (depth ttl : Option ℕ)
    → with_ttl ttl (plain name depth none none true) ≡ plain name depth ttl none true
unfolding with_ttl
ttl_set name depth none = refl
ttl_set name depth (some n) = refl

forbidden_set :
    (name : Bytes) (depth ttl : Option ℕ) (forbidden : Bool)
    → with_forbidden forbidden (plain name depth ttl none true)
      ≡ plain name depth ttl none (not forbidden)
unfolding with_forbidden
forbidden_set name depth ttl true = refl
forbidden_set name depth ttl false = refl

capabilities_set :
    (name : Bytes) (depth ttl : Option ℕ) (allowed : Bool) (caps : List Bytes)
    → with_capabilities caps (plain name depth ttl none allowed)
      ≡ plain name depth ttl (listed caps) allowed
unfolding with_capabilities
capabilities_set name depth ttl allowed [] = refl
capabilities_set name depth ttl allowed (cap ∷ caps) =
    rw (allow_all-append (caps_of []) (cap ∷ caps)) refl

built :
    (name : Bytes) (depth ttl : Option ℕ) (forbidden : Bool) (caps : List Bytes)
    → with_capabilities caps
        (with_forbidden forbidden (with_ttl ttl (with_depth depth (Policy.new name))))
      ≡ plain name depth ttl (listed caps) (not forbidden)
built name depth ttl forbidden caps =
    rw (depth_set name depth, ttl_set name depth ttl, forbidden_set name depth ttl forbidden)
      (capabilities_set name depth ttl (not forbidden) caps)

into_policy-compiled : (d : PolicyDocument) → into_policy d ≡ compiled d
unfolding into_policy
into_policy-compiled d =
    require_all-append _ d.required_extensions
    ∙ ap
        (λ (p : DelegationPolicy). record p {
          required_extensions = p.required_extensions ++ d.required_extensions;
        })
        (built d.name d.max_chain_depth d.max_ttl_secs d.forbid_sub_delegation d.capabilities)

chains_iff :
    (d : PolicyDocument) (ch : DyoloChain)
    → (check_policy (into_policy d) ch ≡ ok tt)
      ↔ (Within d.max_chain_depth (length ch.certs) × All (Obeys d) ch.certs)
chains_iff d ch =
    let asked = check_policy_iff (compiled d) ch in
    rw (into_policy-compiled d) (
      (λ h. let m = asked.0 h in (m.depth, obeys ch.certs m.certs)),
      (λ h. asked.1 (record { trusted = inl refl; depth = h.0; certs = meets ch.certs h.1 })),
    )
  where
    undivided : (b : Bool) → (not b ≡ true) ↔ (b ≡ false)
    undivided true = (λ h. cc, λ h. cc)
    undivided false = (λ h. refl, λ h. refl)

    obeys : (ts : List DelegationCert) → All (CertMeets (compiled d)) ts → All (Obeys d) ts
    obeys [] a = tt
    obeys (t ∷ ts) a = (
      record {
        ttl = a.0.ttl;
        not_narrowed_further = elim a.0.undivided [
          | inl e ↦ inl ((undivided d.forbid_sub_delegation).0 e)
          | inr k ↦ inr k
        ];
        extended = a.0.extended;
      },
      obeys ts a.1,
    )

    meets : (ts : List DelegationCert) → All (Obeys d) ts → All (CertMeets (compiled d)) ts
    meets [] a = tt
    meets (t ∷ ts) a = (
      record {
        ttl = a.0.ttl;
        undivided = elim a.0.not_narrowed_further [
          | inl e ↦ inl ((undivided d.forbid_sub_delegation).1 e)
          | inr k ↦ inr k
        ];
        extended = a.0.extended;
      },
      meets ts a.1,
    )

-- The test of sub-delegation lets a certificate without a scope proof pass.
whole_passes :
    (b : Bool) (p : DelegationPolicy) (t : DelegationCert)
    → has_sub t ≡ false
    → check_cert (record p { allow_sub_delegation = b }) t
      ≡ check_cert (record p { allow_sub_delegation = true }) t
unfolding check_cert
whole_passes true p t h = refl
whole_passes false p t h = rw h refl

-- The policy that a document compiles to accepts exactly the chains that have no more certificates
-- than it allows, each with a short enough life and every required extension and, where the document
-- forbids sub-delegation, without a scope proof or with a depth limit of 0. The document's capabilities
-- restrict no chain, and a certificate that hands the whole scope on gets the same answer whether or
-- not the document forbids sub-delegation, whatever its depth limit.
pub into_policy_iff :
    (d : PolicyDocument) (ch : DyoloChain) (t : DelegationCert)
    → let whole = record t { scope_proof = full_passthrough } in
      ((check_policy (into_policy d) ch ≡ ok tt)
        ↔ (Within d.max_chain_depth (length ch.certs) × All (Obeys d) ch.certs))
      × (check_cert (into_policy d) whole
          ≡ check_cert (into_policy (record d { forbid_sub_delegation = false })) whole)
unfolding has_sub full_passthrough
into_policy_iff d ch t = (
  chains_iff d ch,
  rw (into_policy-compiled d, into_policy-compiled (record d { forbid_sub_delegation = false }))
      (whole_passes (not d.forbid_sub_delegation) (compiled d)
        (record t { scope_proof = full_passthrough }) refl),
)
