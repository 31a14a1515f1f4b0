-- ===== src/Chain/Spec.antt =====
-- What a delegation chain has to satisfy, certificate by certificate and with no loop variables.
use dyolo_kya.Prelude.{
  ℕ, ◌-◌, ◌≤◌, ◌≡◌, ◌≢◌, ◌↔◌, ◌⊎◌, true, length, All, In, List, [], ◌∷◌, map, ok,
}
use dyolo_kya.Prelude.Bytes.{Bytes}
use dyolo_kya.Prelude.Words.{saturating_add, u64_max}
use dyolo_kya.Crypto.{Crypto, cert_version}
use dyolo_kya.Merkle.{MerkleProof, verify_and_derive_root}
use dyolo_kya.Cert.{DelegationCert, cert_message, verify_signature}
use dyolo_kya.Chain.{DyoloChain, intent_authorized}

-- The keys link: the first certificate is by `from`, each by its predecessor's delegate, and the
-- last delegate is `to`.
abbrev pub Linked : Bytes → List DelegationCert → Bytes → Type 0
Linked from [] to = from ≡ to
Linked from (t ∷ ts) to = (t.delegator_pk ≡ from) × Linked t.delegate_pk ts to

abbrev pub InWindow : ℕ → ℕ → DelegationCert → Type 0
InWindow now drift t = (t.issued_at ≤ saturating_add now drift) × (now - drift ≤ t.expiration_unix)

-- No certificate outlives the one before it.
abbrev pub Shrinking : ℕ → List DelegationCert → Type 0
Shrinking expiry [] = Unit
Shrinking expiry (t ∷ ts) = (t.expiration_unix ≤ expiry) × Shrinking t.expiration_unix ts

-- Each certificate but the last allows a chain of `n` certificates.
abbrev pub DeepEnough : ℕ → List DelegationCert → Type 0
DeepEnough n [] = Unit
DeepEnough n (t ∷ []) = Unit
DeepEnough n (t ∷ u ∷ ts) = (n ≤ t.max_depth) × DeepEnough n (u ∷ ts)

abbrev pub nonces : List DelegationCert → List Bytes
nonces = map λ t. t.nonce

abbrev pub NoRepeat : List Bytes → Type 0
NoRepeat [] = Unit
NoRepeat (x ∷ xs) = (¬ In x xs) × NoRepeat xs

-- The scope of the last certificate.
abbrev pub last_scope : Bytes → List DelegationCert → Bytes
last_scope scope [] = scope
last_scope scope (t ∷ ts) = last_scope t.scope_root ts

-- ed25519_dalek documents that a batch verifies exactly if each of its signatures does.
pub record IsBatchVerifier (c : Crypto) : Type 0 where
  pub batch_iff :
      (ts : List DelegationCert)
      → (c.verify_batch
            (map (cert_message c) ts)
            (map (λ t. t.signature) ts)
            (map (λ t. t.delegator_pk) ts)
          ≡ true)
        ↔ All (λ t. verify_signature c t ≡ true) ts

module _ (c : Crypto) where
  -- A certificate hands on its parent's scope, or a scope proved to lie within it.
  abbrev pub ScopeStep : Bytes → DelegationCert → Type 0
  ScopeStep parent t =
      ((t.scope_proof.subset_intents ≡ []) × (t.scope_proof.proofs ≡ []) × (t.scope_root ≡ parent))
      ⊎ (((t.scope_proof.subset_intents ≢ []) ⊎ (t.scope_proof.proofs ≢ []))
          × (verify_and_derive_root c t.scope_proof parent ≡ ok t.scope_root))

  abbrev pub Scoped : Bytes → List DelegationCert → Type 0
  Scoped scope [] = Unit
  Scoped scope (t ∷ ts) = ScopeStep scope t × Scoped t.scope_root ts

  pub record IsValidChain (ch : DyoloChain) (agent intent : Bytes) (proof : MerkleProof)
      (now drift : ℕ) : Type 0 where
    pub nonempty : ch.certs ≢ []
    pub short : length ch.certs ≤ 255
    pub linked : Linked ch.principal_pk ch.certs agent
    pub versions : All (λ t. t.version ≡ cert_version) ch.certs
    pub in_window : All (InWindow now drift) ch.certs
    pub shrinking : Shrinking u64_max ch.certs
    pub deep_enough : DeepEnough (length ch.certs) ch.certs
    pub no_repeat : NoRepeat (nonces ch.certs)
    pub scoped : Scoped ch.principal_scope ch.certs
    pub signed : All (λ t. verify_signature c t ≡ true) ch.certs
    pub authorized :
        intent_authorized c proof intent (last_scope ch.principal_scope ch.certs) ≡ true
