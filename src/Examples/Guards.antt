-- ===== src/Examples/Guards.antt =====
-- The guard, its receipts and a sub-certificate on a passport with two capabilities.
use dyolo_kya.Prelude.{◌++◌, ◌⊎◌, ◌≡◌, refl, inl, true, In, List, [], ◌∷◌, some, ok}
use dyolo_kya.Prelude.Bytes.{Bytes, bytes_eq}
use dyolo_kya.Intent
use dyolo_kya.Intent.{Intent}
use dyolo_kya.Merkle.{build, IntentTree, verify_and_derive_root}
use dyolo_kya.Merkle.Sound.{HashBreak, climb_pairs, tree_pairs}
use dyolo_kya.Cert.{DelegationCert}
use dyolo_kya.Narrowing.Names.{place, from_capabilities-IsMask}
use dyolo_kya.Chain
use dyolo_kya.Chain.{DyoloChain, push}
use dyolo_kya.Chain.Within.{cert_pairs, named}
use dyolo_kya.Provenance.{ProvenanceRoot}
use dyolo_kya.Registry.Nonce
use dyolo_kya.Registry.Revocation
use dyolo_kya.Authorize.Stores.{nonces_at, revocations}
use dyolo_kya.Passport.{cap_hashes, cap_hash, issue_sub, new_chain, guard, guard_local}
use dyolo_kya.Passport.Receipt
use dyolo_kya.Passport.Receipt.{ProvableReceipt, verify_commitment-new}
use dyolo_kya.Passport.Narrows.{IsHeld, issue_sub_narrows}
use dyolo_kya.Passport.Lifecycle.{guard_local_granted}
use dyolo_kya.Passport.Guard.{guard_within}
use dyolo_kya.Provenance.{ProvenanceStepProof, step_proof, verify_chain_binding}
use dyolo_kya.Passport.Receipt.Traced.{bind_reasoning_trace_accepted}
use dyolo_kya.Examples.Traces.{three, three-IsNumbered, short, within}
use dyolo_kya.Examples.World.{toy, toy-IsBatchVerifier, signer, no_siblings}
use dyolo_kya.Examples.Passports.{
  plain, plain-IsHex, trade, caps, passport, passport_issued, signer-IsHonest, trade_intent,
  trade-new, sub_extensions, one_set, lasting, early, late,
}

-- What the first of these runs gives.
run :
    (t : DelegationCert) × (r : ProvableReceipt) × (issue_sub toy plain
        (41 ∷ [])
        passport
        (3 ∷ [])
        (trade ∷ [])
        300
        (signer 1)
        200
      ≡ some (ok t))
    × (guard_local toy plain passport
          (push (new_chain passport) t)
          (3 ∷ [])
          trade_intent
          250
          251
          252
        ≡ ok r)
    × (r.inner.intent ≡ Intent.hash toy trade_intent)
    × (r.passport_namespace ≡ passport.namespace)
run =
    guard_local_granted toy plain (40 ∷ []) (41 ∷ []) (9 ∷ []) (3 ∷ []) caps trade 1000 300 100 200
      250 251 252 (signer 1) passport (sub_extensions (trade ∷ [])) trade_intent toy-IsBatchVerifier
      signer-IsHonest passport_issued (inl refl) one_set lasting early late trade-new

issue_sub_narrows_example :
    ((y : Bytes)
      → In y (trade ∷ [])
      → IsHeld toy caps y
        × ((h : Bytes) × (hs : List Bytes) × (cap_hash toy y ≡ ok h)
            × (cap_hashes toy caps ≡ ok hs)
            × In h hs))
    × (verify_and_derive_root toy run.0.scope_proof passport.cert.scope_root ≡ ok run.0.scope_root)
issue_sub_narrows_example =
    issue_sub_narrows toy plain (40 ∷ []) (41 ∷ []) (9 ∷ []) (3 ∷ []) caps (trade ∷ []) 1000 300 100
      200 (signer 1) (signer 1) passport run.0 passport_issued run.2

abbrev sub_chain : DyoloChain
sub_chain = push (new_chain passport) run.0

anchored : sub_chain.principal_scope ≡ passport.cert.scope_root
unfolding push new_chain Chain.new
anchored = refl

guarded :
    (guard toy plain revocations
      (nonces_at 252)
      passport
      sub_chain
      (3 ∷ [])
      trade_intent
      no_siblings
      250
      251
      Revocation.new
      Nonce.new).0
    ≡ ok run.1
unfolding guard_local
guarded = run.3

guard_within_example :
    ((x : Bytes) × In x caps × (place toy trade ≡ place toy x))
    × ((hs : List Bytes) × (tree : IntentTree) × (cap_hashes toy caps ≡ ok hs)
        × (build toy hs ≡ ok tree)
        × (In (Intent.hash toy trade_intent) hs
            ⊎ HashBreak toy (Intent.hash toy trade_intent ∷ (hs ++ named sub_chain.certs)) (
                climb_pairs toy (Intent.hash toy trade_intent) no_siblings.siblings
                ++ (tree_pairs tree.layers ++ cert_pairs toy sub_chain.certs))))
guard_within_example =
    guard_within toy plain revocations (nonces_at 252) (40 ∷ []) (9 ∷ []) caps 1000 100 (signer 1)
      passport sub_chain (3 ∷ []) trade_intent no_siblings 250 251 Revocation.new Nonce.new run.1
      toy-IsBatchVerifier passport_issued anchored guarded

bind_reasoning_trace_accepted_example :
    (p : ProvenanceStepProof) × (root : ProvenanceRoot) × (step_proof toy three 2 ≡ some p)
    × (Receipt.bind_reasoning_trace toy
          (Receipt.new toy plain run.1.inner (9 ∷ []) passport.capability_mask)
          three
          110
        ≡ ok (
            Receipt.with_provenance
              (Receipt.new toy plain run.1.inner (9 ∷ []) passport.capability_mask)
              root))
    × (verify_chain_binding toy root run.1.inner.chain_fingerprint ≡ true)
    × (Receipt.verify_provenance_step toy
          (Receipt.with_provenance
            (Receipt.new toy plain run.1.inner (9 ∷ []) passport.capability_mask)
            root)
          p
        ≡ true)
    × (Receipt.has_provenance (
          Receipt.with_provenance
            (Receipt.new toy plain run.1.inner (9 ∷ []) passport.capability_mask)
            root)
        ≡ true)
    × (Receipt.verify_commitment toy plain (
          Receipt.with_provenance
            (Receipt.new toy plain run.1.inner (9 ∷ []) passport.capability_mask)
            root)
        ≡ true)
bind_reasoning_trace_accepted_example =
    bind_reasoning_trace_accepted toy plain run.1.inner (9 ∷ []) passport.capability_mask three 2
      110 plain-IsHex (from_capabilities-IsMask toy caps) short three-IsNumbered within
