-- ===== src/Registry/Revocation/Laws.antt =====
-- src/registry.rs: the in-memory revocation store is a set of fingerprints. The Bloom filter has no
-- false negative, and a fingerprint is looked for in the shard that it was written to.
use dyolo_kya.Prelude.{
  ℕ, ◌%◌, ◌<◌, ◌≡◌, ◌⊎◌, inl, inr, refl, ap, ◌∙◌, Bool, true, false, ◌==◌, nat_eq, if◌then◌else◌,
  length, length-set, get_or-set_self, get_or-set_ne, All, List, [], ◌∷◌, Bool-cases, ok, arith,
  ◌||◌,
}
use native.Mathlib.Decide.{ℕ_discrete}
use dyolo_kya.Prelude.Bytes.{Bytes, bytes_eq, bytes_beq_iff}
use dyolo_kya.Prelude.Words.{
  bloom_has, bloom_set, length-bloom_set, bloom_has-bloom_set_self, bloom_has-bloom_set_keep,
}
use dyolo_kya.Registry.Revocation.{
  MemoryRevocationStore, empty_shard, h1, h2, h3, bloom_index, bloom_indices, shard_index, has_all,
  set_all, contains, shard_of, is_revoked, mark_bloom, insert_member, insert_shard, revoke,
}

abbrev pub member : MemoryRevocationStore → Bytes → Bool
member s fp = contains (shard_of s fp).members fp

pub record IsValid (s : MemoryRevocationStore) : Type 0 where
  pub words : length s.bloom ≡ 64
  pub count : length s.shards ≡ 64
  pub covered : (fp : Bytes) → member s fp ≡ true → has_all s.bloom (bloom_indices fp) ≡ true
  pub sound : (fp : Bytes) → (shard_of s fp).poisoned ≡ false

shard_index-lt : (fp : Bytes) → shard_index fp < 64
unfolding shard_index
shard_index-lt fp = omega arith

-- A pair that `bloom_index` makes.
data IsIndex (i : ℕ × ℕ) : Type 0 where
  is_index : (h turn : ℕ) → i ≡ bloom_index h turn → IsIndex i

bloom_indices-IsIndex : (fp : Bytes) → All IsIndex (bloom_indices fp)
unfolding bloom_indices
bloom_indices-IsIndex fp =
    (is_index (h1 fp) 13 refl, (is_index (h2 fp) 27 refl, (is_index (h3 fp) 41 refl, tt)))

index_self :
    (bloom : List ℕ) (h turn : ℕ)
    → length bloom ≡ 64
    → bloom_has (bloom_set bloom (bloom_index h turn)) (bloom_index h turn) ≡ true
unfolding bloom_index
index_self bloom h turn w = bloom_has-bloom_set_self bloom (h % 64) _ (omega arith)

index_keep :
    (bloom : List ℕ) (h turn h' turn' : ℕ)
    → length bloom ≡ 64
    → bloom_has bloom (bloom_index h' turn') ≡ true
    → bloom_has (bloom_set bloom (bloom_index h turn)) (bloom_index h' turn') ≡ true
unfolding bloom_index
index_keep bloom h turn h' turn' w was =
    bloom_has-bloom_set_keep bloom (h % 64) _ (h' % 64) _ (omega arith) was

has-set :
    (bloom : List ℕ) (i j : ℕ × ℕ)
    → length bloom ≡ 64
    → IsIndex i
    → IsIndex j
    → (i ≡ j) ⊎ (bloom_has bloom j ≡ true)
    → bloom_has (bloom_set bloom i) j ≡ true
has-set bloom i j w (is_index h turn e) q (inl p) = rw (← p, e) (index_self bloom h turn w)
has-set bloom i j w (is_index h turn e) (is_index h' turn' e') (inr was) =
    rw (e, e') (index_keep bloom h turn h' turn' w (rw e' at was))

has_all-bloom_set :
    (bloom : List ℕ) (i : ℕ × ℕ) (js : List (ℕ × ℕ))
    → length bloom ≡ 64
    → IsIndex i
    → All IsIndex js
    → has_all bloom js ≡ true
    → has_all (bloom_set bloom i) js ≡ true
unfolding has_all
has_all-bloom_set bloom i [] w p q h = refl
has_all-bloom_set bloom i (j ∷ js) w p q h =
    ground
      (arith, has-set bloom i j w p q.0 (inr (ground arith)), has_all-bloom_set bloom i js w p q.1)

has_all-set_all_keep :
    (bloom : List ℕ) (is js : List (ℕ × ℕ))
    → length bloom ≡ 64
    → All IsIndex is
    → All IsIndex js
    → has_all bloom js ≡ true
    → has_all (set_all bloom is) js ≡ true
unfolding set_all
has_all-set_all_keep bloom [] js w p q h = h
has_all-set_all_keep bloom (i ∷ is) js w p q h =
    has_all-set_all_keep (bloom_set bloom i) is js (length-bloom_set bloom i ∙ w) p.1 q
      (has_all-bloom_set bloom i js w p.0 q h)

has-set_all_keep :
    (bloom : List ℕ) (is : List (ℕ × ℕ)) (j : ℕ × ℕ)
    → length bloom ≡ 64
    → All IsIndex is
    → IsIndex j
    → bloom_has bloom j ≡ true
    → bloom_has (set_all bloom is) j ≡ true
unfolding set_all
has-set_all_keep bloom [] j w p q h = h
has-set_all_keep bloom (i ∷ is) j w p q h =
    has-set_all_keep (bloom_set bloom i) is j (length-bloom_set bloom i ∙ w) p.1 q
      (has-set bloom i j w p.0 q (inr h))

has_all-set_all_self :
    (bloom : List ℕ) (is : List (ℕ × ℕ))
    → length bloom ≡ 64
    → All IsIndex is
    → has_all (set_all bloom is) is ≡ true
unfolding set_all has_all
has_all-set_all_self bloom [] w p = refl
has_all-set_all_self bloom (i ∷ is) w p =
    let w' = length-bloom_set bloom i ∙ w in
    ground (
      arith,
      has-set_all_keep (bloom_set bloom i) is i w' p.1 p.0 (has-set bloom i i w p.0 p.0 (inl refl)),
      has_all-set_all_self (bloom_set bloom i) is w' p.1,
    )

length-set_all : (bloom : List ℕ) (is : List (ℕ × ℕ)) → length (set_all bloom is) ≡ length bloom
unfolding set_all
length-set_all bloom [] = refl
length-set_all bloom (i ∷ is) = length-set_all (bloom_set bloom i) is ∙ length-bloom_set bloom i

-- The query agrees with the shard, whatever the Bloom filter holds.
pub is_revoked-eq-member :
    (fp : Bytes) (s : MemoryRevocationStore) → IsValid s → is_revoked fp s ≡ ok (member s fp)
unfolding is_revoked
is_revoked-eq-member fp s v = ground (arith, v.covered fp, v.sound fp)

contains-insert :
    (members : List Bytes) (fp m : Bytes)
    → contains (if contains members fp then members else fp ∷ members) m
      ≡ (fp == m || contains members m)
contains-insert members fp m = ground (arith, bytes_beq_iff fp m)

-- The shard of one fingerprint behind an insertion of another.
pub shard_of-insert_member :
    (fp m : Bytes) (s : MemoryRevocationStore)
    → length s.shards ≡ 64
    → (member (insert_member fp s) m ≡ (fp == m || member s m))
      × ((shard_of (insert_member fp s) m).poisoned ≡ (shard_of s m).poisoned)
unfolding insert_member
shard_of-insert_member fp m s w = elim (ℕ_discrete (shard_index fp) (shard_index m)) [
  | yes e ↦
      rw
        (
          ← e,
          get_or-set_self s.shards (shard_index fp) _ empty_shard
              (omega (arith, shard_index-lt fp)),
        )
        (contains-insert (shard_of s fp).members fp m, refl)
  | no n ↦
      rw (get_or-set_ne s.shards (shard_index fp) (shard_index m) _ empty_shard n)
        (elim (Bool-cases (fp == m)) [
          | inl same ↦ absurd (n (ap shard_index ((bytes_beq_iff fp m).0 same)))
          | inr differ ↦ rw differ (refl, refl)
        ])
]

pub insert_member-IsValid :
    (fp : Bytes) (s : MemoryRevocationStore)
    → IsValid s
    → has_all s.bloom (bloom_indices fp) ≡ true
    → IsValid (insert_member fp s)
insert_member-IsValid fp s v h = record {
  words = unfold insert_member in v.words;
  count = unfold insert_member in length-set s.shards (shard_index fp) _ ∙ v.count;
  covered = λ m k. covered_insert m (unfold insert_member in k);
  sound = λ m. (shard_of-insert_member fp m s v.count).1 ∙ v.sound m;
}
  where
    covered_insert :
        (m : Bytes)
        → member (insert_member fp s) m ≡ true
        → has_all (insert_member fp s).bloom (bloom_indices m) ≡ true
    covered_insert m k =
        unfold insert_member in
        ground
          (arith, (shard_of-insert_member fp m s v.count).0, k, bytes_beq_iff fp m, v.covered m, h)

pub mark_bloom-IsValid :
    (fp : Bytes) (s : MemoryRevocationStore) → IsValid s → IsValid (mark_bloom fp s)
unfolding mark_bloom
mark_bloom-IsValid fp s v = record {
  words = length-set_all s.bloom (bloom_indices fp) ∙ v.words;
  count = v.count;
  covered = λ m k.
      has_all-set_all_keep s.bloom (bloom_indices fp) (bloom_indices m) v.words
        (bloom_indices-IsIndex fp) (bloom_indices-IsIndex m) (v.covered m k);
  sound = v.sound;
}

pub mark_bloom-has :
    (fp : Bytes) (s : MemoryRevocationStore)
    → IsValid s
    → has_all (mark_bloom fp s).bloom (bloom_indices fp) ≡ true
unfolding mark_bloom
mark_bloom-has fp s v =
    has_all-set_all_self s.bloom (bloom_indices fp) v.words (bloom_indices-IsIndex fp)

pub mark_bloom-keep :
    (fp m : Bytes) (s : MemoryRevocationStore)
    → IsValid s
    → has_all s.bloom (bloom_indices m) ≡ true
    → has_all (mark_bloom fp s).bloom (bloom_indices m) ≡ true
unfolding mark_bloom
mark_bloom-keep fp m s v h =
    has_all-set_all_keep s.bloom (bloom_indices fp) (bloom_indices m) v.words
      (bloom_indices-IsIndex fp) (bloom_indices-IsIndex m) h

pub member-mark_bloom :
    (fp m : Bytes) (s : MemoryRevocationStore) → member (mark_bloom fp s) m ≡ member s m
unfolding mark_bloom
member-mark_bloom fp m s = refl

-- The state that a call of `revoke` leaves, and its answer.
revoke_lem :
    (fp : Bytes) (s : MemoryRevocationStore)
    → IsValid s
    → revoke fp s ≡ (ok tt, insert_member fp (mark_bloom fp s))
unfolding revoke insert_shard
revoke_lem fp s v = ground (arith, (mark_bloom-IsValid fp s v).sound fp)

-- On a valid store whose locks are sound, `revoke` succeeds and revokes that fingerprint: the
-- query then answers `true` for it, answers as before for every other, and the store stays valid.
revoke_refines :
    (fp m : Bytes) (s : MemoryRevocationStore)
    → IsValid s
    → ((revoke fp s).0 ≡ ok tt)
      × (is_revoked m (revoke fp s).1 ≡ (if fp == m then ok true else is_revoked m s))
      × IsValid (revoke fp s).1
revoke_refines fp m s v =
    let marked = mark_bloom-IsValid fp s v in
    let v' = insert_member-IsValid fp (mark_bloom fp s) marked (mark_bloom-has fp s v) in
    rw (revoke_lem fp s v) (
      refl,
      is_revoked-eq-member m _ v'
          ∙ ground (
            arith,
            (shard_of-insert_member fp m (mark_bloom fp s) marked.count).0,
            member-mark_bloom fp m s,
            is_revoked-eq-member m s v,
          ),
      v',
    )
