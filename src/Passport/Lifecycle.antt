-- ===== src/Passport/Lifecycle.antt =====
-- src/passport/mod.rs: issue a passport, delegate some of its capabilities, build the chain and pass
-- the guard.
use dyolo_kya.Prelude.{ℕ, ◌-◌, ◌≤◌, ◌<◌, ◌≡◌, refl, subst, true, In, List, [], ◌∷◌, some, ok, arith}
use dyolo_kya.Prelude.Bytes.{Bytes, bytes_eq, bytes_beq_refl}
use dyolo_kya.Prelude.Sort.{sort, dedup}
use dyolo_kya.Prelude.Words.{saturating_add}
use dyolo_kya.Crypto.{Crypto, Hex}
use dyolo_kya.Intent
use dyolo_kya.Intent.{Intent}
use dyolo_kya.Merkle.{IntentTree, build, build_layers, root}
use dyolo_kya.Extensions
use dyolo_kya.Extensions.{CertExtensions}
use dyolo_kya.Cert.{Signer, DelegationCert}
use dyolo_kya.Cert.Honest.{IsHonest}
use dyolo_kya.Chain.{push, intent_authorized}
use dyolo_kya.Chain.Spec.{IsBatchVerifier}
use dyolo_kya.Narrowing.{from_capabilities}
use dyolo_kya.Registry.Nonce
use dyolo_kya.Registry.Revocation
use dyolo_kya.Authorize.{receipt_of}
use dyolo_kya.Passport.{
  DyoloPassport, set_all, cap_hash, cap_hashes, passport_extensions, new_chain, issue, issue_sub,
  guard_local,
}
use dyolo_kya.Passport.Receipt
use dyolo_kya.Passport.Receipt.{ProvableReceipt}
use dyolo_kya.Passport.Issued.{issue-IsIssued}
use dyolo_kya.Passport.Narrows.{narrow_scope-Narrowed, narrow_scope_held, issue_sub_held}
use dyolo_kya.Passport.Granted.{sub_cert, guard_held}

pub cap_hash-of_new :
    (c : Crypto) (cap : Bytes) (it : Intent) (h : Bytes)
    → Intent.new cap ≡ ok it
    → cap_hash c cap ≡ ok h
    → h ≡ Intent.hash c it
unfolding cap_hash
cap_hash-of_new c cap it h made hashed = ground (arith, made, hashed)

-- The root of a tree of one intent.
root-single : (c : Crypto) (h : Bytes) (t : IntentTree) → build c (h ∷ []) ≡ ok t → root t ≡ h
unfolding build root build_layers sort dedup
root-single c h t built = ground (arith, built)

cap_hashes-single :
    (c : Crypto) (cap h : Bytes) (hs : List Bytes)
    → cap_hash c cap ≡ ok h
    → cap_hashes c (cap ∷ []) ≡ ok hs
    → hs ≡ h ∷ []
unfolding cap_hashes
cap_hashes-single c cap h hs one e = ground (arith, one, e)

-- A single capability passes the local guard. With an honest signer whose passport is issued,
-- `issue_sub` returns a certificate for any one capability of the passport, and `guard_local`
-- grants its intent, within the certificate's lifetime and 15 seconds around it. Assumed are room
-- for the extensions, a lifetime that does not vanish, and a batch verifier that accepts exactly
-- the batches whose every signature verifies.
pub guard_local_granted :
    (c : Crypto) (hex : Hex) (root_nonce nonce namespace delegate : Bytes) (caps : List Bytes)
    (cap : Bytes) (root_ttl ttl issued_at now at then_now stored : ℕ) (signer : Signer)
    (p : DyoloPassport) (ext : CertExtensions) (it : Intent)
    → IsBatchVerifier c
    → IsHonest c signer
    → issue c hex root_nonce namespace caps root_ttl signer issued_at ≡ some (ok p)
    → In cap caps
    → set_all Extensions.new
        (passport_extensions c hex p.namespace (from_capabilities c (cap ∷ [])))
      ≡ some ext
    → now < saturating_add now ttl
    → now ≤ saturating_add at 15
    → at - 15 ≤ saturating_add now ttl
    → Intent.new cap ≡ ok it
    → (t : DelegationCert) × (r : ProvableReceipt) × (issue_sub c hex nonce p delegate
          (cap ∷ [])
          ttl
          signer
          now
        ≡ some (ok t))
      × (guard_local c hex p (push (new_chain p) t) delegate it at then_now stored ≡ ok r)
      × (r.inner.intent ≡ Intent.hash c it)
      × (r.passport_namespace ≡ p.namespace)
unfolding guard_local Receipt.new receipt_of
guard_local_granted c hex root_nonce nonce namespace delegate caps cap root_ttl ttl issued_at now at
      then_now stored signer p ext it batched honest h held sets lasts early late made =
    let issued = issue-IsIssued c hex root_nonce namespace caps root_ttl issued_at signer p h in
    let (s, sub, narrowed) = narrow_scope_held c caps signer p issued cap [] (held, tt) in
    let n = narrow_scope-Narrowed c caps signer p issued (cap ∷ []) s sub narrowed in
    let hashed : cap_hash c cap ≡ ok (Intent.hash c it) = unfold cap_hash in rw made refl in
    let leaf : root sub ≡ Intent.hash c it = root-single c (Intent.hash c it) sub (
      subst (λ z. build c z ≡ ok sub)
        (cap_hashes-single c cap (Intent.hash c it) n.hashes hashed n.hashed) n.built) in
    let through : intent_authorized c (record { siblings = [] }) (Intent.hash c it) (root sub)
        ≡ true =
      unfold intent_authorized in rw leaf (bytes_beq_refl (Intent.hash c it)) in
    (
      sub_cert c hex batched caps signer honest p issued nonce delegate (cap ∷ []) ttl now s sub ext
          n,
      _,
      issue_sub_held c hex nonce p delegate (cap ∷ []) ttl signer now s sub ext narrowed sets lasts,
      guard_held c hex batched caps signer honest p issued nonce delegate (cap ∷ []) ttl now s sub
          ext n cap it made held (record { siblings = [] }) at early late through then_now stored,
      refl,
      refl,
    )
