-- ===== src/Examples/World.antt =====
-- A small instance of the third-party functions and a chain of two certificates over it: `[1]`
-- delegates two intents to `[2]`, who delegates the first of them to `[3]`.
use dyolo_kya.Prelude.{
  ℕ, ◌≡◌, ◌↔◌, refl, Bool, true, false, ◌&&◌, ◌==◌, All, List, [], ◌∷◌, ◌++◌, map, none, arith,
}
use dyolo_kya.Prelude.Bytes.{Bytes, bytes_eq}
use dyolo_kya.Crypto.{Crypto}
use dyolo_kya.Merkle.{IntentTree, MerkleProof, SubScopeProof}
use dyolo_kya.Extensions
use dyolo_kya.Cert.{Signer, DelegationCert, cert_message, verify_signature, issue}
use dyolo_kya.Chain.{DyoloChain}
use dyolo_kya.Chain.Spec.{IsBatchVerifier}

abbrev check_all : List Bytes → List Bytes → List Bytes → Bool
check_all (m ∷ ms) (s ∷ ss) (k ∷ ks) = (s == (k ++ m)) && check_all ms ss ks
check_all _ _ _ = true

-- The hash is its input, and a signature is the key before the message.
abbrev pub toy : Crypto
toy = record {
  derive = λ context message. message;
  verify = λ key message signature. signature == (key ++ message);
  verify_batch = check_all;
}

batch_iff_of :
    (ts : List DelegationCert)
    → (toy.verify_batch
          (map (cert_message toy) ts)
          (map (λ t. t.signature) ts)
          (map (λ t. t.delegator_pk) ts)
        ≡ true)
      ↔ All (λ t. verify_signature toy t ≡ true) ts
unfolding verify_signature
batch_iff_of [] = (λ h. tt, λ h. refl)
batch_iff_of (t ∷ ts) =
    (λ h. ground (arith, (batch_iff_of ts).0), λ h. ground (arith, (batch_iff_of ts).1))

pub toy-IsBatchVerifier : IsBatchVerifier toy
toy-IsBatchVerifier = record { batch_iff = batch_iff_of }

abbrev pub signer : ℕ → Signer
signer key = record { verifying_key = key ∷ []; sign_message = λ message. key ∷ message }

abbrev pub buy : Bytes
buy = 10 ∷ []

abbrev pub sell : Bytes
sell = 20 ∷ []

abbrev pub no_extensions : Extensions.CertExtensions
no_extensions = record { fields = []; byte_count = 0 }

-- The tree of the two intents.
abbrev pub tree : IntentTree
tree = record {
  leaves = buy ∷ sell ∷ [];
  layers = (buy ∷ sell ∷ []) ∷ ((1 ∷ 10 ∷ 20 ∷ []) ∷ []) ∷ [];
}

abbrev pub passthrough : SubScopeProof
passthrough = record { subset_intents = []; proofs = [] }

abbrev pub buy_proof : MerkleProof
buy_proof = record { siblings = record { hash = sell; is_left = false } ∷ [] }

abbrev pub buy_only : SubScopeProof
buy_only = record { subset_intents = buy ∷ []; proofs = buy_proof ∷ [] }

abbrev pub first_cert : DelegationCert
first_cert =
    issue toy (signer 1) (2 ∷ []) (1 ∷ 10 ∷ 20 ∷ []) passthrough (7 ∷ []) 100 900 5 no_extensions

abbrev pub second_cert : DelegationCert
second_cert = issue toy (signer 2) (3 ∷ []) buy buy_only (8 ∷ []) 100 800 0 no_extensions

abbrev pub chain : DyoloChain
chain = record {
  principal_pk = 1 ∷ [];
  principal_scope = 1 ∷ 10 ∷ 20 ∷ [];
  certs = first_cert ∷ second_cert ∷ [];
  drift_tolerance_secs = 15;
  namespace = none;
}

abbrev pub no_siblings : MerkleProof
no_siblings = record { siblings = [] }
