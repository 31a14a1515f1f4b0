-- ===== src/Authorize/Stores.antt =====
-- src/chain.rs over the stores of src/registry.rs: one grant uses up its nonces, and a revoked
-- certificate never authorizes, whatever calls of the stores come between.
use dyolo_kya.Prelude.{
  ℕ, ◌≡◌, ◌≤◌, ◌⊎◌, inl, inr, refl, sym, ap, subst, ◌∙◌, Bool, true, false, ◌==◌, any, List, [],
  ◌∷◌, Option, Result, ok, err, arith, Bool-cases, Option-cases,
}
use dyolo_kya.Prelude.Bytes.{Bytes, bytes_eq, bytes_beq_iff}
use dyolo_kya.Error.{A1Error, A1StorageError}
use dyolo_kya.Crypto.{Crypto}
use dyolo_kya.Merkle.{MerkleProof}
use dyolo_kya.Chain.{DyoloChain, VerificationReceipt, ChainValidationResult}
use dyolo_kya.Policy.{DelegationPolicy}
use dyolo_kya.Registry.{NonceStore, RevocationStore}
use dyolo_kya.Prelude.HashMap
use dyolo_kya.Registry.Nonce
use dyolo_kya.Registry.Nonce.{MemoryNonceStore, expiry_of, not_expired}
use dyolo_kya.Registry.Nonce.Laws.{held, try_consume_batch_refines, try_consume-eq-batch}
use dyolo_kya.Registry.Nonce.Laws
use dyolo_kya.Registry.Revocation
use dyolo_kya.Registry.Revocation.{MemoryRevocationStore}
use dyolo_kya.Authorize.{answer, consume, authorize_inner, authorize_batch}
use dyolo_kya.Authorize.Batch.{finish_batch-after, authorize_batch-after}
use dyolo_kya.Authorize.Awaits.{authorize_block, run_batch_async, authorize_batch_async}

-- The in-memory nonce store at the time that `unix_now` reads.
abbrev pub nonces_at : ℕ → NonceStore MemoryNonceStore
nonces_at t = record { try_consume_batch = Nonce.try_consume_batch t }

abbrev pub revocations : RevocationStore MemoryRevocationStore
revocations = record { is_revoked = Revocation.is_revoked }

module _ (c : Crypto) {R S : Type 0} (revocation : RevocationStore R) (store : NonceStore S) where
  pub answer-after :
      (receipt : VerificationReceipt) (q : Result A1StorageError Bool × S)
      → (answer c revocation store receipt q).1 ≡ q.1
  unfolding answer
  answer-after receipt (ok true, s) = refl
  answer-after receipt (ok false, s) = refl
  answer-after receipt (err e, s) = refl

  -- An authorization calls the nonce store once or not at all.
  consume-after :
      (ch : DyoloChain) (intent : Bytes) (s : S) (q : Result A1Error ChainValidationResult)
      → ((consume c revocation store ch intent s q).1 ≡ s)
        ⊎ ((ns : List Bytes) × ((consume c revocation store ch intent s q).1
              ≡ (store.try_consume_batch ns s).1))
  unfolding consume
  consume-after ch intent s (err e) = inl refl
  consume-after ch intent s (ok v) = inr (v.seen_nonces, answer-after _ _)

  authorize_inner-after :
      (ch : DyoloChain) (agent intent : Bytes) (proof : MerkleProof) (now : ℕ)
      (policy : Option (List DelegationPolicy)) (r : R) (s : S)
      → ((authorize_inner c revocation store ch agent intent proof now policy r s).1 ≡ s)
        ⊎ ((ns : List Bytes) × ((authorize_inner c revocation store ch agent intent proof now policy
                r s).1
              ≡ (store.try_consume_batch ns s).1))
  unfolding authorize_inner
  authorize_inner-after ch agent intent proof now policy r s = consume-after ch intent s _

  authorize_block-after :
      (ch : DyoloChain) (agent intent : Bytes) (proof : MerkleProof) (now : ℕ)
      (policy : Option (List DelegationPolicy)) (r : ℕ → R) (s : S)
      → ((authorize_block c revocation store ch agent intent proof now policy r s).1 ≡ s)
        ⊎ ((ns : List Bytes) × ((authorize_block c revocation store ch agent intent proof now policy
                r s).1
              ≡ (store.try_consume_batch ns s).1))
  unfolding authorize_block
  authorize_block-after ch agent intent proof now policy r s = consume-after ch intent s _

  run_batch_async-after :
      (ch : DyoloChain) (now : ℕ) (items : List (Bytes × MerkleProof)) (r : ℕ → R) (s : S)
      (q : Result A1Error ChainValidationResult)
      → ((run_batch_async c revocation store ch now items r s q).1 ≡ s)
        ⊎ ((ns : List Bytes) × ((run_batch_async c revocation store ch now items r s q).1
              ≡ (store.try_consume_batch ns s).1))
  unfolding run_batch_async
  run_batch_async-after ch now items r s (err e) = inl refl
  run_batch_async-after ch now items r s (ok v) =
      finish_batch-after c revocation store ch now items s v _

  authorize_batch_async-after :
      (ch : DyoloChain) (agent : Bytes) (items : List (Bytes × MerkleProof)) (now checked : ℕ)
      (r : ℕ → R) (s : S)
      → ((authorize_batch_async c revocation store ch agent items now checked r s).1 ≡ s)
        ⊎ ((ns : List Bytes) × ((authorize_batch_async c revocation store ch agent items now checked
                r s).1
              ≡ (store.try_consume_batch ns s).1))
  unfolding authorize_batch_async
  authorize_batch_async-after ch agent [] now checked r s = inl refl
  authorize_batch_async-after ch agent ((intent, proof) ∷ items) now checked r s =
      run_batch_async-after ch now ((intent, proof) ∷ items) r s _

-- One call on the nonce store, at a time of its own.
pub data Step (c : Crypto) {R : Type 0} (revocation : RevocationStore R) (t : ℕ)
    : MemoryNonceStore → MemoryNonceStore → Type 0 where
  authorizes :
      (ch : DyoloChain) (agent intent : Bytes) (proof : MerkleProof) (now : ℕ)
      (policy : Option (List DelegationPolicy)) (r : R) (s : MemoryNonceStore)
      → Step c revocation t s
          (authorize_inner c revocation (nonces_at t) ch agent intent proof now policy r s).1
  authorizes_batch :
      (ch : DyoloChain) (agent : Bytes) (items : List (Bytes × MerkleProof)) (now checked : ℕ)
      (r : R) (s : MemoryNonceStore)
      → Step c revocation t s
          (authorize_batch c revocation (nonces_at t) ch agent items now checked r s).1
  authorizes_async :
      (ch : DyoloChain) (agent intent : Bytes) (proof : MerkleProof) (now : ℕ)
      (policy : Option (List DelegationPolicy)) (r : ℕ → R) (s : MemoryNonceStore)
      → Step c revocation t s
          (authorize_block c revocation (nonces_at t) ch agent intent proof now policy r s).1
  authorizes_batch_async :
      (ch : DyoloChain) (agent : Bytes) (items : List (Bytes × MerkleProof)) (now checked : ℕ)
      (r : ℕ → R) (s : MemoryNonceStore)
      → Step c revocation t s
          (authorize_batch_async c revocation (nonces_at t) ch agent items now checked r s).1
  consumes : (n : Bytes) (s : MemoryNonceStore) → Step c revocation t s (Nonce.try_consume t n s).1

-- Calls one after the other, none later than `until`.
pub data Run (c : Crypto) {R : Type 0} (revocation : RevocationStore R) (until : ℕ)
    : MemoryNonceStore → MemoryNonceStore → Type 0 where
  done : (s : MemoryNonceStore) → Run c revocation until s s
  next :
      (t : ℕ) (s1 s2 s3 : MemoryNonceStore)
      → t ≤ until
      → Step c revocation t s1 s2
      → Run c revocation until s2 s3
      → Run c revocation until s1 s3

Step-is_batch :
    (c : Crypto) {R : Type 0} (revocation : RevocationStore R) (t : ℕ) (s s' : MemoryNonceStore)
    → Step c revocation t s s'
    → (s' ≡ s) ⊎ ((ns : List Bytes) × (s' ≡ (Nonce.try_consume_batch t ns s).1))
Step-is_batch c revocation t _ _ (authorizes ch agent intent proof now policy r s) =
    authorize_inner-after c revocation (nonces_at t) ch agent intent proof now policy r s
Step-is_batch c revocation t _ _ (authorizes_batch ch agent items now checked r s) =
    authorize_batch-after c revocation (nonces_at t) ch agent items now checked r s
Step-is_batch c revocation t _ _ (authorizes_async ch agent intent proof now policy r s) =
    authorize_block-after c revocation (nonces_at t) ch agent intent proof now policy r s
Step-is_batch c revocation t _ _ (authorizes_batch_async ch agent items now checked r s) =
    authorize_batch_async-after c revocation (nonces_at t) ch agent items now checked r s
Step-is_batch c revocation t _ _ (consumes n s) =
    inr (n ∷ [], ap (λ q. q.1) (try_consume-eq-batch t n s))

-- A valid store that no panic has poisoned.
pub record IsSound (s : MemoryNonceStore) : Type 0 where
  pub valid : Laws.IsValid s
  pub sound : s.poisoned ≡ false

-- What is held at a time is held before it.
held_earlier :
    (t until : ℕ) (s : MemoryNonceStore) (n : Bytes)
    → t ≤ until
    → held until s n ≡ true
    → held t s n ≡ true
held_earlier t until s n h k = elim (Option-cases (HashMap.get n s.store)) [
  | inl e ↦ ground (arith, e)
  | inr (x, e) ↦ ground (arith, e)
]

pub any-held :
    (t : ℕ) (s : MemoryNonceStore) (n : Bytes) (ns : List Bytes)
    → held t s n ≡ true
    → any (λ x. x == n) ns ≡ true
    → any (held t s) ns ≡ true
any-held t s n [] h k = ground arith
any-held t s n (x ∷ ns) h k = ground (arith, bytes_beq_iff x n, any-held t s n ns)

-- A batch call takes nothing from what is held at that time or later.
pub batch-IsSound :
    (t : ℕ) (ns : List Bytes) (s : MemoryNonceStore)
    → IsSound s
    → IsSound (Nonce.try_consume_batch t ns s).1
batch-IsSound t ns s i =
    let r = try_consume_batch_refines t t ns s [] i.valid i.sound (omega arith) in
    record { valid = r.2; sound = r.3 }

held-batch :
    (t until : ℕ) (ns : List Bytes) (s : MemoryNonceStore) (n : Bytes)
    → IsSound s
    → t ≤ until
    → held until s n ≡ true
    → held until (Nonce.try_consume_batch t ns s).1 n ≡ true
held-batch t until ns s n i h k =
    let r = try_consume_batch_refines t until ns s n i.valid i.sound h in
    elim (Bool-cases (any (held t s) ns)) [
      | inl used ↦ r.1 ∙ rw used k
      | inr free ↦ elim (Bool-cases (any (λ x. x == n) ns)) [
        | inl k' ↦ absurd (ground (arith, any-held t s n ns (held_earlier t until s n h k) k'))
        | inr k' ↦ r.1 ∙ rw (free, k') k
      ]
    ]

-- A run keeps the store sound and keeps what is held at its end or later.
pub Run-held :
    (c : Crypto) {R : Type 0} (revocation : RevocationStore R) (until : ℕ) (s s' : MemoryNonceStore)
    (n : Bytes)
    → IsSound s
    → held until s n ≡ true
    → Run c revocation until s s'
    → IsSound s' × (held until s' n ≡ true)
Run-held c revocation until _ _ n i h (done s) = (i, h)
Run-held c revocation until _ _ n i h (next t s1 s2 s3 le step run) =
    elim (Step-is_batch c revocation t s1 s2 step) [
      | inl e ↦
          Run-held c revocation until s2 s3 n (subst IsSound (sym e) i)
            (subst (λ s. held until s n ≡ true) (sym e) h) run
      | inr (ns, e) ↦
          Run-held c revocation until s2 s3 n (subst IsSound (sym e) (batch-IsSound t ns s1 i))
            (subst (λ s. held until s n ≡ true) (sym e) (held-batch t until ns s1 n i le h)) run
    ]
