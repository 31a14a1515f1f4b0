-- ===== src/Swarm/Chains.antt =====
-- src/swarm.rs: the chain that a member is given carries the whole passport.
use dyolo_kya.Prelude.{ℕ, ◌-◌, ◌≤◌, ◌<◌, ◌≡◌, true, some, ok}
use dyolo_kya.Prelude.Bytes.{Bytes}
use dyolo_kya.Prelude.HashMap
use dyolo_kya.Prelude.Words.{saturating_add, wrapping_add}
use dyolo_kya.Crypto.{Crypto, Hex}
use dyolo_kya.Intent
use dyolo_kya.Intent.{Intent}
use dyolo_kya.HexFields.{did_of}
use dyolo_kya.Merkle.{MerkleProof}
use dyolo_kya.Cert
use dyolo_kya.Cert.{Signer}
use dyolo_kya.Cert.Builder
use dyolo_kya.Cert.Honest.{IsHonest}
use dyolo_kya.Chain
use dyolo_kya.Chain.{DyoloChain, push, intent_authorized}
use dyolo_kya.Chain.Spec.{IsBatchVerifier}
use dyolo_kya.Registry.Nonce
use dyolo_kya.Registry.Revocation
use dyolo_kya.Registry.Revocation.Batch as RevocationBatch
use dyolo_kya.Authorize.{AuthorizedAction, receipt_of}
use dyolo_kya.Authorize.Guarantees.{validated}
use dyolo_kya.Authorize.Stores.{nonces_at, revocations}
use dyolo_kya.Passport.{scope_root}
use dyolo_kya.Passport.Issued.{cert_of}
use dyolo_kya.Swarm.{SwarmMember, SwarmPassport, member_builder}

module _ (c : Crypto) (hex : Hex) (nonce : Bytes) (s : SwarmPassport) (agent : Bytes)
    (signer : Signer) (now ttl : ℕ) where
  -- What `chain_for_member` went through when it returned a chain.
  record Given (ch : DyoloChain) : Type 0 where
    member : SwarmMember
    scope : Bytes
    found : HashMap.get (did_of hex agent) s.members ≡ some member
    rooted : scope_root c s.root_passport ≡ ok scope
    lasts : now < wrapping_add now ttl
    made :
        ch
        ≡ push
            (Chain.new signer.verifying_key scope)
            (cert_of c (member_builder nonce agent member.role scope now ttl) signer)

  module _ (batched : IsBatchVerifier c) (honest : IsHonest c signer) (m : SwarmMember)
      (scope intent : Bytes) (proof : MerkleProof) (at : ℕ) (early : now ≤ saturating_add at 15)
      (late : at - 15 ≤ wrapping_add now ttl) (lasts : now < wrapping_add now ttl)
      (inside : intent_authorized c proof intent scope ≡ true) where
    abbrev member_chain : DyoloChain
    member_chain =
        push (Chain.new signer.verifying_key scope)
          (cert_of c (member_builder nonce agent m.role scope now ttl) signer)

    abbrev granted : ℕ → AuthorizedAction
    granted stored = record {
      receipt =
          receipt_of member_chain intent at
            (validated c revocations (nonces_at stored) member_chain agent intent proof at);
    }
