-- ===== src/Registry/Revocation/Batch.antt =====
-- src/registry.rs: a batch of revocations, and the empty store.
use dyolo_kya.Prelude.{
  ℕ, zero, suc, ◌≡◌, refl, ap, ◌∙◌, true, false, ◌||◌, length-replicate, get_or, replicate, All,
  List, [], ◌∷◌, ok, arith, if◌then◌else◌,
}
use dyolo_kya.Prelude.Bytes.{Bytes, bytes_eq}
use dyolo_kya.Registry.Revocation.{
  Shard, MemoryRevocationStore, new, empty_shard, bloom_indices, has_all, contains, is_revoked,
  shard_index, mark_bloom, insert_member, insert_shards, mark_blooms, revoke_batch,
}
use dyolo_kya.Registry.Revocation.Laws.{
  member, IsValid, is_revoked-eq-member, mark_bloom-IsValid, mark_bloom-has, mark_bloom-keep,
  member-mark_bloom, insert_member-IsValid, shard_of-insert_member,
}

-- Every one of the fingerprints has its Bloom bits.
abbrev Marked : List Bytes → MemoryRevocationStore → Type 0
Marked fps s = All (λ fp. has_all s.bloom (bloom_indices fp) ≡ true) fps

Marked-on :
    (fp : Bytes) (s : MemoryRevocationStore) (gs : List Bytes)
    → Marked gs s
    → Marked gs (insert_member fp s)
unfolding insert_member
Marked-on fp s [] k = tt
Marked-on fp s (g ∷ gs) k = (k.0, Marked-on fp s gs k.1)

insert_shards_lem :
    (fps : List Bytes) (m : Bytes) (s : MemoryRevocationStore)
    → IsValid s
    → Marked fps s
    → ((insert_shards fps s).0 ≡ ok tt)
      × IsValid (insert_shards fps s).1
      × (member (insert_shards fps s).1 m ≡ (contains fps m || member s m))
unfolding insert_shards
insert_shards_lem [] m s v k = (refl, v, refl)
insert_shards_lem (fp ∷ fps) m s v k =
    let v' = insert_member-IsValid fp s v k.0 in
    let rest = insert_shards_lem fps m (insert_member fp s) v' (Marked-on fp s fps k.1) in
    rw (v.sound fp)
      (rest.0, rest.1, rest.2 ∙ ground (arith, (shard_of-insert_member fp m s v.count).0))

mark_blooms_lem :
    (fps : List Bytes) (s : MemoryRevocationStore)
    → IsValid s
    → IsValid (mark_blooms fps s)
      × Marked fps (mark_blooms fps s)
      × ((m : Bytes)
          → has_all s.bloom (bloom_indices m) ≡ true
          → has_all (mark_blooms fps s).bloom (bloom_indices m) ≡ true)
      × ((m : Bytes) → member (mark_blooms fps s) m ≡ member s m)
unfolding mark_blooms
mark_blooms_lem [] s v = (v, tt, (λ m h. h), λ m. refl)
mark_blooms_lem (fp ∷ fps) s v =
    let rest = mark_blooms_lem fps (mark_bloom fp s) (mark_bloom-IsValid fp s v) in
    (
      rest.0,
      (rest.2 fp (mark_bloom-has fp s v), rest.1),
      (λ m h. rest.2 m (mark_bloom-keep fp m s v h)),
      λ m. rest.3 m ∙ member-mark_bloom fp m s,
    )

-- On a valid store whose locks are sound, `revoke_batch` succeeds and revokes exactly the listed
-- fingerprints besides those that were revoked before, and the store stays valid.
pub revoke_batch_refines :
    (fps : List Bytes) (m : Bytes) (s : MemoryRevocationStore)
    → IsValid s
    → ((revoke_batch fps s).0 ≡ ok tt)
      × (is_revoked m (revoke_batch fps s).1 ≡ (if contains fps m then ok true else is_revoked m s))
      × IsValid (revoke_batch fps s).1
unfolding revoke_batch
revoke_batch_refines fps m s v =
    let marks = mark_blooms_lem fps s v in
    let run = insert_shards_lem fps m (mark_blooms fps s) marks.0 marks.1 in
    (
      run.0,
      is_revoked-eq-member m _ run.1 ∙ ground (arith, run.2, marks.3 m, is_revoked-eq-member m s v),
      run.1,
    )

get_or-replicate : (n i : ℕ) (a : Shard) → get_or (replicate n a) i a ≡ a
get_or-replicate zero i a = refl
get_or-replicate (suc n) zero a = refl
get_or-replicate (suc n) (suc i) a = get_or-replicate n i a

-- The empty store is valid, and revokes nothing.
pub new-IsValid : IsValid new × ((fp : Bytes) → is_revoked fp new ≡ ok false)
new-IsValid = (valid, λ fp. is_revoked-eq-member fp new valid ∙ ap ok (no_member fp))
  where
    no_member : (fp : Bytes) → member new fp ≡ false
    no_member fp = unfold new in rw (get_or-replicate 64 (shard_index fp) empty_shard) refl

    valid : IsValid new
    valid = record {
      words = unfold new in length-replicate {A = ℕ} 64 0;
      count = unfold new in length-replicate {A = Shard} 64 empty_shard;
      covered = λ fp h. absurd (ground (arith, no_member fp));
      sound = λ fp. unfold new in rw (get_or-replicate 64 (shard_index fp) empty_shard) refl;
    }
