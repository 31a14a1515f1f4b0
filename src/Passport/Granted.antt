-- ===== src/Passport/Granted.antt =====
-- src/passport/mod.rs: from a passport to a granted action: what is issued is accepted.
use dyolo_kya.Prelude.{
  ℕ, ◌-◌, ◌≤◌, ◌≡◌, refl, sym, ap, subst, ◌∙◌, inl, inr, true, false, In, List, [], ◌∷◌, none,
  Result, ok, err, arith, Bool-cases, is_empty, ltb, length,
}
use dyolo_kya.Prelude.Bytes.{Bytes}
use dyolo_kya.Prelude.HashMap
use dyolo_kya.Prelude.Words.{saturating_add}
use dyolo_kya.Error.{A1Error}
use dyolo_kya.Crypto.{Crypto, Hex}
use dyolo_kya.Intent
use dyolo_kya.Intent.{Intent}
use dyolo_kya.Merkle.{IntentTree, MerkleProof, SubScopeProof, build, root, verify_and_derive_root}
use dyolo_kya.Extensions.{CertExtensions}
use dyolo_kya.Cert
use dyolo_kya.Cert.{Signer, DelegationCert, verify_signature, cert_message}
use dyolo_kya.Cert.Builder
use dyolo_kya.Cert.Honest.{IsHonest}
use dyolo_kya.Chain
use dyolo_kya.Chain.{DyoloChain, push, intent_authorized}
use dyolo_kya.Chain.Spec.{IsBatchVerifier, IsValidChain}
use dyolo_kya.Narrowing.{from_capabilities, is_subset_of, enforce_narrowing}
use dyolo_kya.Narrowing.Names.{place, is_subset_of-from_capabilities_iff}
use dyolo_kya.Registry.{NonceStore, RevocationStore}
use dyolo_kya.Registry.Nonce
use dyolo_kya.Registry.Nonce.Laws as NonceLaws
use dyolo_kya.Registry.Nonce.Laws.{held, try_consume_batch_refines}
use dyolo_kya.Registry.Revocation
use dyolo_kya.Registry.Revocation.Batch as RevocationBatch
use dyolo_kya.Authorize.{AuthorizedAction, authorize, authorize_with_options, receipt_of}
use dyolo_kya.Authorize.Guarantees.{Admissible, authorize_inner-ok_iff, validated}
use dyolo_kya.Authorize.Stores.{nonces_at, revocations}
use dyolo_kya.Passport.{DyoloPassport, sub_builder, new_chain, receipt_for, guard_narrowed, guard}
use dyolo_kya.Passport.Receipt
use dyolo_kya.Passport.Receipt.{ProvableReceipt}
use dyolo_kya.Passport.Issued.{IsIssued, cert_of}
use dyolo_kya.Passport.Narrows.{Narrowed}

-- A store that has seen no nonce takes one.
pub first_nonce : (at : ℕ) (n : Bytes) → (Nonce.try_consume_batch at (n ∷ []) Nonce.new).0 ≡ ok true
first_nonce at n =
    (try_consume_batch_refines at at (n ∷ []) Nonce.new [] NonceLaws.new-IsValid sound
      (omega arith)).0
    ∙ ground (arith, nothing)
  where
    sound : Nonce.new.poisoned ≡ false
    sound = unfold Nonce.new in refl

    nothing : held at Nonce.new n ≡ false
    nothing = unfold Nonce.new HashMap.get in refl

new-action : (cap : Bytes) (it : Intent) → Intent.new cap ≡ ok it → it.action ≡ cap
unfolding Intent.new
new-action cap it h = elim (Bool-cases (is_empty cap)) [
  | inl e ↦ absurd (ground (arith, e, h))
  | inr e ↦ elim (Bool-cases (ltb Intent.max_action_len (length cap))) [
    | inl f ↦ absurd (ground (arith, e, f, h))
    | inr f ↦ ground (arith, e, f, h)
  ]
]

receipt_for-ok :
    (c : Crypto) (hex : Hex) {R S : Type 0} (revocation : RevocationStore R) (store : NonceStore S)
    (p : DyoloPassport) (q : Result A1Error AuthorizedAction × S) (a : AuthorizedAction)
    → q.0 ≡ ok a
    → (receipt_for c hex revocation store p q).0
      ≡ ok (Receipt.new c hex a.receipt p.namespace p.capability_mask)
unfolding receipt_for
receipt_for-ok c hex revocation store p (ok b, s) a h = ground (arith, h)
receipt_for-ok c hex revocation store p (err e, s) a h = cc h

none_built : (c : Crypto) (sub : IntentTree) → ¬ (build c [] ≡ ok sub)
unfolding build
none_built c sub h = cc h

module _ (c : Crypto) (hex : Hex) (batched : IsBatchVerifier c) (caps : List Bytes)
    (signer : Signer) (honest : IsHonest c signer) (p : DyoloPassport)
    (issued : IsIssued c caps signer p) (nonce delegate : Bytes) (ys : List Bytes) (ttl now : ℕ)
    (s : SubScopeProof) (sub : IntentTree) (ext : CertExtensions)
    (narrowed : Narrowed c caps signer p issued ys s sub) where
  -- The sub-certificate and the chain that ends in it.
  abbrev pub sub_cert : DelegationCert
  sub_cert = cert_of c (sub_builder nonce delegate (s, sub) now ttl ext) signer

  abbrev sub_chain : DyoloChain
  sub_chain = push (new_chain p) sub_cert

  chain-IsValidChain :
      (intent : Bytes) (proof : MerkleProof) (at drift : ℕ)
      → now ≤ saturating_add at drift
      → at - drift ≤ saturating_add now ttl
      → intent_authorized c proof intent (root sub) ≡ true
      → IsValidChain c sub_chain delegate intent proof at drift
  unfolding push new_chain Chain.new sub_builder Builder.new Cert.issue verify_signature
      cert_message saturating_add
  chain-IsValidChain intent proof at drift early late inside = record {
    nonempty = λ e. cc e;
    short = ground arith;
    linked = (sym issued.holder, refl);
    versions = (refl, tt);
    in_window = ((early, late), tt);
    shrinking = (omega arith, tt);
    deep_enough = tt;
    no_repeat = (λ m. m, tt);
    scoped = (
      inr (
        inl (λ e.
            none_built c sub
              (subst (λ z. build c z ≡ ok sub) (sym narrowed.named ∙ e) narrowed.built)),
        ap (verify_and_derive_root c s) issued.scope ∙ narrowed.derives,
      ),
      tt,
    );
    signed = (honest _, tt);
    authorized = inside;
  }

  module _ (intent : Bytes) (proof : MerkleProof) (at : ℕ) (early : now ≤ saturating_add at 15)
      (late : at - 15 ≤ saturating_add now ttl)
      (inside : intent_authorized c proof intent (root sub) ≡ true) where
    abbrev granted : ℕ → AuthorizedAction
    granted stored = record {
      receipt =
          receipt_of sub_chain intent at
            (validated c revocations (nonces_at stored) sub_chain delegate intent proof at);
    }

    sub_chain-Admissible :
        (stored : ℕ)
        → Admissible c revocations
            (nonces_at stored)
            sub_chain
            delegate
            intent
            proof
            at
            none
            Revocation.new
    unfolding push new_chain Chain.new sub_builder Builder.new Cert.issue
    sub_chain-Admissible stored = record {
      meets = tt;
      valid = chain-IsValidChain intent proof at 15 early late inside;
      unrevoked = (RevocationBatch.new-IsValid.1 _, tt);
    }

    authorize-granted :
        (then_now stored : ℕ)
        → (authorize c revocations
            (nonces_at stored)
            hex.encode
            sub_chain
            delegate
            intent
            proof
            at
            then_now
            Revocation.new
            Nonce.new).0
          ≡ ok (granted stored)
    unfolding authorize authorize_with_options push new_chain Chain.new sub_builder Builder.new
        Cert.issue
    authorize-granted then_now stored =
        (authorize_inner-ok_iff c revocations (nonces_at stored) sub_chain delegate intent proof at
            batched none Revocation.new Nonce.new (granted stored)).1
          (sub_chain-Admissible stored, first_nonce stored nonce, refl)

  -- The guard lets a capability of the sub-certificate through.
  module _ (cap : Bytes) (it : Intent) (made : Intent.new cap ≡ ok it) (member : In cap caps)
      (proof : MerkleProof) (at : ℕ) (early : now ≤ saturating_add at 15)
      (late : at - 15 ≤ saturating_add now ttl)
      (inside : intent_authorized c proof (Intent.hash c it) (root sub) ≡ true) where
    action_enforced :
        enforce_narrowing (from_capabilities c (it.action ∷ [])) p.capability_mask ≡ ok tt
    unfolding enforce_narrowing
    action_enforced =
        let subset : is_subset_of (from_capabilities c (it.action ∷ [])) p.capability_mask ≡ true =
          rw (issued.mask, new-action cap it made)
            ((is_subset_of-from_capabilities_iff c (cap ∷ []) caps).1
              λ x m. elim m [ inl e ↦ (cap, member, ap (place c) e) | inr e ↦ absurd e ]) in
        rw subset refl

    abbrev pub receipt : ℕ → ProvableReceipt
    receipt stored =
        Receipt.new c hex (granted (Intent.hash c it) proof at early late inside stored).receipt
          p.namespace p.capability_mask

    pub guard_held :
        (then_now stored : ℕ)
        → (guard c hex revocations
            (nonces_at stored)
            p
            sub_chain
            delegate
            it
            proof
            at
            then_now
            Revocation.new
            Nonce.new).0
          ≡ ok (receipt stored)
    unfolding guard guard_narrowed
    guard_held then_now stored = rw action_enforced (
        receipt_for-ok c hex revocations (nonces_at stored) p
          (authorize c revocations (nonces_at stored) hex.encode sub_chain delegate
            (Intent.hash c it) proof at then_now Revocation.new Nonce.new)
          (granted (Intent.hash c it) proof at early late inside stored)
          (authorize-granted (Intent.hash c it) proof at early late inside then_now stored))
