-- ===== src/Registry/Nonce.antt =====
-- src/registry.rs: `MemoryNonceStore`, an exact map behind a Bloom filter of one bit a nonce.
pub mod Laws
use dyolo_kya.Prelude.{
  ℕ, ◌+◌, ◌%◌, ◌^◌, bit_xor, Bool, true, false, not, leb, any, if◌then◌else◌, take, drop, replicate,
  List, [], ◌∷◌, Option, some, none, Result, ok, err,
}
use dyolo_kya.Prelude.Bytes.{Bytes, text, from_le_bytes}
use dyolo_kya.Prelude.HashMap
use dyolo_kya.Prelude.HashMap.{HashMap}
use dyolo_kya.Prelude.Words.{
  u64_max, wrapping_mul, wrapping_add, saturating_add, rotate_right, rotate_left, bloom_has,
  bloom_set,
}
use dyolo_kya.Error.{A1StorageError, StorageErrorKind}

pub record MemoryNonceStore : Type 0 where
  pub bloom : List ℕ
  pub store : HashMap ℕ
  pub ttl_secs : Option ℕ
  -- A thread has panicked inside the write lock.
  pub poisoned : Bool

abbrev pub bloom_words : ℕ
bloom_words = 1024

abbrev provenance_seed : ℕ
provenance_seed = 0x64796F6C6FA12800

unfoldable pub new : MemoryNonceStore
new = record { bloom = replicate bloom_words 0; store = []; ttl_secs = none; poisoned = false }

unfoldable pub with_ttl_secs : MemoryNonceStore → ℕ → MemoryNonceStore
with_ttl_secs s ttl = record s { ttl_secs = some ttl }

unfoldable pub hash : Bytes → ℕ
unfolding wrapping_mul wrapping_add rotate_left from_le_bytes
hash nonce =
    let e1 = from_le_bytes (take 8 nonce) in
    let e2 = from_le_bytes (take 8 (drop 8 nonce)) in
    bit_xor (wrapping_add (wrapping_mul e1 provenance_seed) (rotate_left e2 23)) 0x9E3779B185EBCA87

unfoldable pub indices : Bytes → ℕ × ℕ
indices nonce = (hash nonce % bloom_words, 2 ^ (rotate_right (hash nonce) 11 % 64))

abbrev pub lock_poisoned : A1StorageError
lock_poisoned = record {
  kind = StorageErrorKind.permanent;
  message = text "nonce store lock poisoned";
}

abbrev pub not_expired : ℕ → Option ℕ → Bool
not_expired now none = false
not_expired now (some exp) = leb now exp

-- The test of both calls: the Bloom bit is set and the map has an entry that has not expired.
unfoldable pub is_live : ℕ → MemoryNonceStore → Bytes → Bool
is_live now s nonce =
    if bloom_has s.bloom (indices nonce) then not_expired now (HashMap.get nonce s.store) else false

unfoldable pub expiry_of : ℕ → Option ℕ → ℕ
expiry_of now none = u64_max
expiry_of now (some ttl) = saturating_add now ttl

-- `guard.retain(|_, exp| *exp >= now)`, where a time to live is set.
unfoldable pub purge : ℕ → Option ℕ → HashMap ℕ → HashMap ℕ
purge now none m = m
purge now (some ttl) m = HashMap.retain (λ exp. leb now exp) m

-- One insertion with its Bloom bit.
unfoldable pub record_nonce : ℕ → MemoryNonceStore → Bytes → MemoryNonceStore
record_nonce exp s nonce = record s {
  store = HashMap.insert nonce exp s.store;
  bloom = bloom_set s.bloom (indices nonce);
}

unfoldable pub record_all : ℕ → MemoryNonceStore → List Bytes → MemoryNonceStore
record_all exp s [] = s
record_all exp s (n ∷ ns) = record_all exp (record_nonce exp s n) ns

unfoldable pub try_consume :
    ℕ → Bytes → MemoryNonceStore → Result A1StorageError Bool × MemoryNonceStore
try_consume now nonce s =
    if s.poisoned then (err lock_poisoned, s) else if is_live now s nonce then (ok false, s) else (
      ok true,
      record_nonce (expiry_of now s.ttl_secs) (record s { store = purge now s.ttl_secs s.store })
          nonce,
    )

unfoldable pub try_consume_batch :
    ℕ → List Bytes → MemoryNonceStore → Result A1StorageError Bool × MemoryNonceStore
try_consume_batch now nonces s =
    if s.poisoned
    then (err lock_poisoned, s)
    else if any (is_live now s) nonces
    then (ok false, s)
    else (
      ok true,
      record_all (expiry_of now s.ttl_secs) (record s { store = purge now s.ttl_secs s.store })
          nonces,
    )

-- The Bloom filter is read before the lock is taken.
unfoldable pub is_consumed : ℕ → Bytes → MemoryNonceStore → Result A1StorageError Bool
is_consumed now nonce s =
    if bloom_has s.bloom (indices nonce)
    then (if s.poisoned
        then err lock_poisoned
        else ok (not_expired now (HashMap.get nonce s.store)))
    else ok false
