-- ===== src/Registry/RateLimit.antt =====
-- src/registry.rs: `MemoryRateLimitStore`, a count of admitted calls for each key and window.
-- `window_secs.max(1) * 2` and the count wrap at the width of their types, as in a release build.
pub mod Laws
use dyolo_kya.Prelude.{
  ℕ, ◌+◌, ◌-◌, ◌*◌, ◌/◌, ◌%◌, max, Bool, true, false, not, leb, ltb, ◌==◌, nat_eq, if◌then◌else◌,
  Option, some, none, Result, List, [], ok, err, ◌^◌,
}
use dyolo_kya.Prelude.Bytes.{Bytes, text}
use dyolo_kya.Prelude.HashMap
use dyolo_kya.Prelude.HashMap.{HashMap}
use dyolo_kya.Prelude.Words.{u64_mod}
use dyolo_kya.Error.{A1StorageError, StorageErrorKind}

pub record RateBucket : Type 0 where
  pub window_start_secs : ℕ
  pub count : ℕ

pub record MemoryRateLimitStore : Type 0 where
  pub buckets : HashMap RateBucket
  -- A thread has panicked inside the write lock.
  pub poisoned : Bool

unfoldable pub new : MemoryRateLimitStore
new = record { buckets = []; poisoned = false }

abbrev pub lock_poisoned : A1StorageError
lock_poisoned = record {
  kind = StorageErrorKind.permanent;
  message = text "rate limit store lock poisoned";
}

unfoldable pub window_start : ℕ → ℕ → ℕ
window_start now window_secs = now / max window_secs 1 * max window_secs 1

-- The test of `retain`.
unfoldable pub is_recent : ℕ → ℕ → RateBucket → Bool
is_recent now window_secs b = ltb (now - b.window_start_secs) (max window_secs 1 * 2 % u64_mod)

-- `entry(key).or_insert(..)`, reset where the bucket is of another window.
unfoldable pub current : ℕ → Option RateBucket → RateBucket
current start none = record { window_start_secs = start; count = 0 }
current start (some b) =
    if b.window_start_secs == start then b else record { window_start_secs = start; count = 0 }

-- The bucket, after the test against the limit.
unfoldable pub record_call : ℕ → RateBucket → RateBucket
record_call max_per_window b =
    if leb max_per_window b.count then b else record b { count = (b.count + 1) % 2 ^ 32 }

unfoldable pub check_and_record :
    ℕ → Bytes → ℕ → ℕ → MemoryRateLimitStore → Result A1StorageError Bool × MemoryRateLimitStore
check_and_record now key max_per_window window_secs s =
    if s.poisoned
    then (err lock_poisoned, s)
    else (let kept = HashMap.retain (is_recent now window_secs) s.buckets in
        let bucket = current (window_start now window_secs) (HashMap.get key kept) in
        (
          ok (not (leb max_per_window bucket.count)),
          record s { buckets = HashMap.insert key (record_call max_per_window bucket) kept },
        ))
