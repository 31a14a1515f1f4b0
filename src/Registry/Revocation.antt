-- ===== src/Registry/Revocation.antt =====
-- src/registry.rs: `MemoryRevocationStore`, 64 sets of fingerprints behind a Bloom filter of three
-- bits a fingerprint. Each set has a lock of its own, which a panic poisons. The source sets the Bloom
-- bits without a lock, and takes the lock of a set for each fingerprint that it writes; `revoke` and
-- `revoke_batch` are one step each, so that what is shown of a query is of one before or after them.
pub mod Laws
pub mod Batch
use dyolo_kya.Prelude.{
  ℕ, ◌%◌, ◌^◌, bit_xor, Bool, true, false, not, ◌&&◌, ◌||◌, ◌==◌, any, if◌then◌else◌, get_or, set,
  take, drop, replicate, List, [], ◌∷◌, Result, ok, err,
}
use dyolo_kya.Prelude.Bytes.{Bytes, bytes_eq, text, from_le_bytes}
use dyolo_kya.Prelude.Words.{
  wrapping_mul, wrapping_add, rotate_right, rotate_left, bloom_has, bloom_set,
}
use dyolo_kya.Error.{A1StorageError, StorageErrorKind}

pub record Shard : Type 0 where
  pub members : List Bytes
  pub poisoned : Bool

pub record MemoryRevocationStore : Type 0 where
  pub bloom : List ℕ
  pub shards : List Shard

abbrev pub empty_shard : Shard
empty_shard = record { members = []; poisoned = false }

unfoldable pub new : MemoryRevocationStore
new = record { bloom = replicate 64 0; shards = replicate 64 empty_shard }

abbrev identity_seed : ℕ
identity_seed = 0x64796F6C6FA12800

-- The little-endian `u64` at bytes `i .. i + 8`.
word_at : ℕ → Bytes → ℕ
unfolding from_le_bytes
word_at i fp = from_le_bytes (take 8 (drop i fp))

unfoldable pub h1 : Bytes → ℕ
unfolding word_at wrapping_mul
h1 fp = wrapping_mul (word_at 0 fp) identity_seed

unfoldable pub h2 : Bytes → ℕ
unfolding word_at wrapping_add rotate_left
h2 fp = wrapping_add (word_at 8 fp) (rotate_left identity_seed 17)

unfoldable pub h3 : Bytes → ℕ
unfolding word_at
h3 fp = bit_xor (word_at 16 fp) identity_seed

unfoldable pub bloom_index : ℕ → ℕ → ℕ × ℕ
bloom_index h turn = (h % 64, 2 ^ (rotate_right h turn % 64))

unfoldable pub bloom_indices : Bytes → List (ℕ × ℕ)
bloom_indices fp = bloom_index (h1 fp) 13 ∷ bloom_index (h2 fp) 27 ∷ bloom_index (h3 fp) 41 ∷ []

unfoldable pub shard_index : Bytes → ℕ
unfolding word_at
shard_index fp = word_at 24 fp % 64

abbrev pub lock_poisoned : A1StorageError
lock_poisoned = record {
  kind = StorageErrorKind.permanent;
  message = text "revocation shard lock poisoned";
}

unfoldable pub has_all : List ℕ → List (ℕ × ℕ) → Bool
has_all bloom [] = true
has_all bloom (i ∷ is) = bloom_has bloom i && has_all bloom is

unfoldable pub set_all : List ℕ → List (ℕ × ℕ) → List ℕ
set_all bloom [] = bloom
set_all bloom (i ∷ is) = set_all (bloom_set bloom i) is

abbrev pub contains : List Bytes → Bytes → Bool
contains members fp = any (λ m. m == fp) members

abbrev pub shard_of : MemoryRevocationStore → Bytes → Shard
shard_of s fp = get_or s.shards (shard_index fp) empty_shard

unfoldable pub is_revoked : Bytes → MemoryRevocationStore → Result A1StorageError Bool
is_revoked fp s =
    if has_all s.bloom (bloom_indices fp)
    then (if (shard_of s fp).poisoned
        then err lock_poisoned
        else ok (contains (shard_of s fp).members fp))
    else ok false

unfoldable pub mark_bloom : Bytes → MemoryRevocationStore → MemoryRevocationStore
mark_bloom fp s = record s { bloom = set_all s.bloom (bloom_indices fp) }

-- `insert` into the set leaves a member alone.
unfoldable pub insert_member : Bytes → MemoryRevocationStore → MemoryRevocationStore
insert_member fp s = record s {
  shards = set s.shards (shard_index fp) (record (shard_of s fp) {
    members =
        if contains (shard_of s fp).members fp
        then (shard_of s fp).members
        else fp ∷ (shard_of s fp).members;
  });
}

-- The write to the shard, which its poisoned lock refuses.
unfoldable pub insert_shard :
    Bytes → MemoryRevocationStore → Result A1StorageError (Unit {0}) × MemoryRevocationStore
insert_shard fp s =
    if (shard_of s fp).poisoned then (err lock_poisoned, s) else (ok tt, insert_member fp s)

unfoldable pub revoke :
    Bytes → MemoryRevocationStore → Result A1StorageError (Unit {0}) × MemoryRevocationStore
revoke fp s = insert_shard fp (mark_bloom fp s)

unfoldable pub mark_blooms : List Bytes → MemoryRevocationStore → MemoryRevocationStore
mark_blooms [] s = s
mark_blooms (fp ∷ fps) s = mark_blooms fps (mark_bloom fp s)

-- The first poisoned lock ends the loop.
unfoldable pub insert_shards :
    List Bytes → MemoryRevocationStore → Result A1StorageError (Unit {0}) × MemoryRevocationStore
insert_shards [] s = (ok tt, s)
insert_shards (fp ∷ fps) s =
    let rest = insert_shards fps (insert_member fp s) in
    if (shard_of s fp).poisoned then (err lock_poisoned, s) else rest

unfoldable pub revoke_batch :
    List Bytes → MemoryRevocationStore → Result A1StorageError (Unit {0}) × MemoryRevocationStore
revoke_batch fps s = insert_shards fps (mark_blooms fps s)
