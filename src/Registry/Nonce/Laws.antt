-- ===== src/Registry/Nonce/Laws.antt =====
-- src/registry.rs: the in-memory nonce store is a set of nonces with expiry times. The Bloom
-- filter in front of the map never changes an answer.
use dyolo_kya.Prelude.{
  ℕ, ◌%◌, ◌≤◌, ◌≡◌, ◌⊎◌, inl, inr, refl, ap, Bool, true, false, not, leb, ◌==◌, any, if◌then◌else◌,
  length, length-replicate, List, [], ◌∷◌, Option, some, none, Option-cases, Bool-cases, ok, arith,
  ◌∙◌,
}
use dyolo_kya.Prelude.Bytes.{Bytes, bytes_eq, bytes_beq_iff}
use dyolo_kya.Prelude.HashMap
use dyolo_kya.Prelude.HashMap.{HashMap, IsDistinct}
use dyolo_kya.Prelude.Words.{
  bloom_has, bloom_set, length-bloom_set, bloom_has-bloom_set_self, bloom_has-bloom_set_keep,
}
use dyolo_kya.Registry.Nonce.{
  MemoryNonceStore, bloom_words, new, hash, indices, not_expired, is_live, expiry_of, purge,
  record_nonce, record_all, try_consume, try_consume_batch, is_consumed,
}

-- Every nonce of the map has its Bloom bit, and no nonce stands there twice.
pub record IsValid (s : MemoryNonceStore) : Type 0 where
  pub words : length s.bloom ≡ bloom_words
  pub covered :
      (n : Bytes) (exp : ℕ)
      → HashMap.get n s.store ≡ some exp
      → bloom_has s.bloom (indices n) ≡ true
  pub distinct : IsDistinct s.store

-- The nonce is held at this time, by the map alone.
abbrev pub held : ℕ → MemoryNonceStore → Bytes → Bool
held now s n = not_expired now (HashMap.get n s.store)

pub is_live-eq-held :
    (now : ℕ) (s : MemoryNonceStore) (n : Bytes) → IsValid s → is_live now s n ≡ held now s n
unfolding is_live
is_live-eq-held now s n v = elim (Option-cases (HashMap.get n s.store)) [
  | inl e ↦ ground arith
  | inr (exp, e) ↦ ground (arith, v.covered n exp e)
]

pub new-IsValid : IsValid new
unfolding new
new-IsValid = record {
  words = length-replicate {A = ℕ} bloom_words 0;
  covered = λ n exp e. unfold HashMap.get in cc e;
  distinct = tt;
}

purge-IsDistinct :
    (now : ℕ) (ttl : Option ℕ) (m : HashMap ℕ) → IsDistinct m → IsDistinct (purge now ttl m)
unfolding purge
purge-IsDistinct now none m d = d
purge-IsDistinct now (some ttl) m d = HashMap.retain-IsDistinct (λ exp. leb now exp) m d

get-purge :
    (now : ℕ) (ttl : Option ℕ) (m : HashMap ℕ) (n : Bytes) (exp : ℕ)
    → IsDistinct m
    → HashMap.get n (purge now ttl m) ≡ some exp
    → HashMap.get n m ≡ some exp
unfolding purge
get-purge now none m n exp d h = h
get-purge now (some ttl) m n exp d h = elim (Option-cases (HashMap.get n m)) [
  | inl e ↦ ground (arith, HashMap.get-retain (λ x. leb now x) n m d)
  | inr (x, e) ↦ ground (arith, HashMap.get-retain (λ x. leb now x) n m d)
]

-- Purging at one time changes no answer at that time or later.
not_expired-purge :
    (now later : ℕ) (ttl : Option ℕ) (m : HashMap ℕ) (n : Bytes)
    → now ≤ later
    → IsDistinct m
    → not_expired later (HashMap.get n (purge now ttl m)) ≡ not_expired later (HashMap.get n m)
unfolding purge
not_expired-purge now later none m n h d = refl
not_expired-purge now later (some ttl) m n h d = elim (Option-cases (HashMap.get n m)) [
  | inl e ↦ ground (arith, HashMap.get-retain (λ x. leb now x) n m d)
  | inr (x, e) ↦ ground (arith, HashMap.get-retain (λ x. leb now x) n m d)
]

purge-IsValid :
    (now : ℕ) (s : MemoryNonceStore)
    → IsValid s
    → IsValid (record s { store = purge now s.ttl_secs s.store })
purge-IsValid now s v = record {
  words = v.words;
  covered = λ n exp h. v.covered n exp (get-purge now s.ttl_secs s.store n exp v.distinct h);
  distinct = purge-IsDistinct now s.ttl_secs s.store v.distinct;
}

has-bloom_set :
    (bloom : List ℕ) (n m : Bytes)
    → length bloom ≡ bloom_words
    → (n ≡ m) ⊎ (bloom_has bloom (indices m) ≡ true)
    → bloom_has (bloom_set bloom (indices n)) (indices m) ≡ true
unfolding indices
has-bloom_set bloom n m w (inl e) =
    rw (← e) (bloom_has-bloom_set_self bloom (hash n % bloom_words) _ (omega arith))
has-bloom_set bloom n m w (inr h) =
    bloom_has-bloom_set_keep bloom (hash n % bloom_words) _ _ _ (omega arith) h

record_nonce-IsValid :
    (exp : ℕ) (s : MemoryNonceStore) (n : Bytes) → IsValid s → IsValid (record_nonce exp s n)
unfolding record_nonce
record_nonce-IsValid exp s n v = record {
  words = length-bloom_set s.bloom (indices n) ∙ v.words;
  covered = λ m e h. has-bloom_set s.bloom n m v.words (covered_cases m e h);
  distinct = HashMap.insert-IsDistinct n exp s.store v.distinct;
}
  where
    covered_cases :
        (m : Bytes) (e : ℕ)
        → HashMap.get m (HashMap.insert n exp s.store) ≡ some e
        → (n ≡ m) ⊎ (bloom_has s.bloom (indices m) ≡ true)
    covered_cases m e h = elim (Bool-cases (n == m)) [
      | inl same ↦ inl ((bytes_beq_iff n m).0 same)
      | inr differ ↦ inr (v.covered m e (ground (arith, HashMap.get-insert n m exp s.store)))
    ]

record_all-IsValid :
    (exp : ℕ) (s : MemoryNonceStore) (ns : List Bytes) → IsValid s → IsValid (record_all exp s ns)
unfolding record_all
record_all-IsValid exp s [] v = v
record_all-IsValid exp s (n ∷ ns) v =
    record_all-IsValid exp (record_nonce exp s n) ns (record_nonce-IsValid exp s n v)

-- What is held after a run of insertions: the new nonces until their expiry, and the old ones.
held-record_all :
    (exp t : ℕ) (s : MemoryNonceStore) (ns : List Bytes) (m : Bytes)
    → held t (record_all exp s ns) m ≡ (if any (λ n. n == m) ns then leb t exp else held t s m)
unfolding record_all record_nonce
held-record_all exp t s [] m = refl
held-record_all exp t s (n ∷ ns) m =
    held-record_all exp t (record_nonce exp s n) ns m
    ∙ ground (arith, HashMap.get-insert n m exp s.store)

poisoned-record_all :
    (exp : ℕ) (s : MemoryNonceStore) (ns : List Bytes) → (record_all exp s ns).poisoned ≡ s.poisoned
unfolding record_all record_nonce
poisoned-record_all exp s [] = refl
poisoned-record_all exp s (n ∷ ns) = poisoned-record_all exp (record_nonce exp s n) ns

any_live-eq-any-held :
    (now : ℕ) (s : MemoryNonceStore) (ns : List Bytes)
    → IsValid s
    → any (is_live now s) ns ≡ any (held now s) ns
any_live-eq-any-held now s [] v = refl
any_live-eq-any-held now s (n ∷ ns) v =
    ground (arith, is_live-eq-held now s n v, any_live-eq-any-held now s ns v)

batch_refused :
    (now : ℕ) (ns : List Bytes) (s : MemoryNonceStore)
    → IsValid s
    → s.poisoned ≡ false
    → any (held now s) ns ≡ true
    → try_consume_batch now ns s ≡ (ok false, s)
unfolding try_consume_batch
batch_refused now ns s v p h = ground (arith, any_live-eq-any-held now s ns v)

batch_taken :
    (now : ℕ) (ns : List Bytes) (s : MemoryNonceStore)
    → IsValid s
    → s.poisoned ≡ false
    → any (held now s) ns ≡ false
    → try_consume_batch now ns s ≡ (
      ok true,
      record_all (expiry_of now s.ttl_secs) (record s { store = purge now s.ttl_secs s.store }) ns,
    )
unfolding try_consume_batch
batch_taken now ns s v p h = ground (arith, any_live-eq-any-held now s ns v)

-- The batch call refines a set of nonces with expiry times. On a valid store that no panic has
-- poisoned it answers `true` exactly if none of the nonces is held. The nonces are then all held until
-- their common expiry, every other nonce is held as before at that time and later, and the store
-- stays valid; on the answer `false` nothing changes.
pub try_consume_batch_refines :
    (now later : ℕ) (ns : List Bytes) (s : MemoryNonceStore) (m : Bytes)
    → IsValid s
    → s.poisoned ≡ false
    → now ≤ later
    → let after = (try_consume_batch now ns s).1 in
      ((try_consume_batch now ns s).0 ≡ ok (not (any (held now s) ns)))
      × (held later after m ≡ (
          if any (held now s) ns
          then held later s m
          else if any (λ n. n == m) ns
          then leb later (expiry_of now s.ttl_secs)
          else held later s m))
      × IsValid after
      × (after.poisoned ≡ false)
try_consume_batch_refines now later ns s m v p h =
    let kept = record s { store = purge now s.ttl_secs s.store } in
    elim (Bool-cases (any (held now s) ns)) [
      | inl used ↦ rw (batch_refused now ns s v p used, used) (refl, refl, v, p)
      | inr free ↦
          rw (batch_taken now ns s v p free, free)
            (
              refl,
              held-record_all (expiry_of now s.ttl_secs) later kept ns m
                  ∙ ap
                      (λ (b : Bool).
                        if any (λ n. n == m) ns then leb later (expiry_of now s.ttl_secs) else b)
                      (not_expired-purge now later s.ttl_secs s.store m h v.distinct),
              record_all-IsValid (expiry_of now s.ttl_secs) kept ns (purge-IsValid now s v),
              poisoned-record_all (expiry_of now s.ttl_secs) kept ns ∙ p,
            )
    ]

-- A single call is a batch of one, the store included.
pub try_consume-eq-batch :
    (now : ℕ) (n : Bytes) (s : MemoryNonceStore)
    → try_consume now n s ≡ try_consume_batch now (n ∷ []) s
unfolding try_consume try_consume_batch record_all
try_consume-eq-batch now n s = ground arith

-- On a valid store that no panic has poisoned, the query answers whether the map holds the nonce
-- at that time, whatever the Bloom filter holds.
is_consumed-eq-held :
    (now : ℕ) (n : Bytes) (s : MemoryNonceStore)
    → IsValid s
    → s.poisoned ≡ false
    → is_consumed now n s ≡ ok (held now s n)
unfolding is_consumed is_live
is_consumed-eq-held now n s v p = ground (arith, is_live-eq-held now s n v)
