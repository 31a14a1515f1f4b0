-- ===== src/Registry/RateLimit/Laws.antt =====
-- src/registry.rs: the in-memory rate limiter admits exactly its limit in a window.
use dyolo_kya.Prelude.{
  ℕ, ◌+◌, ◌-◌, ◌*◌, ◌^◌, ◌<◌, max, min, ◌≡◌, inl, inr, refl, Bool, true, false, ◌&&◌, ltb, ◌==◌,
  nat_eq, if◌then◌else◌, All, List, [], ◌∷◌, Option, some, none, Option-cases, Result, ok, err,
  arith,
}
use native.Mathlib.Nat.{div-add-mod', mod-lt}
use dyolo_kya.Prelude.Bytes.{Bytes, bytes_eq, bytes_beq_iff}
use dyolo_kya.Prelude.HashMap
use dyolo_kya.Prelude.HashMap.{HashMap, IsDistinct}
use dyolo_kya.Prelude.Words.{u64_mod}
use dyolo_kya.Error.{A1StorageError}
use dyolo_kya.Registry.RateLimit.{
  RateBucket, MemoryRateLimitStore, new, window_start, is_recent, current, record_call,
  check_and_record,
}

-- The calls counted for the key in the window that starts at `start`.
abbrev pub used : ℕ → MemoryRateLimitStore → Bytes → ℕ
used start s key = (current start (HashMap.get key s.buckets)).count

pub record IsValid (s : MemoryRateLimitStore) : Type 0 where
  pub distinct : IsDistinct s.buckets
  pub sound : s.poisoned ≡ false

window_start-lt : (now w : ℕ) → now - window_start now w < max w 1
unfolding window_start
window_start-lt now w =
    omega (arith, div-add-mod' now (max w 1), mod-lt now {m = max w 1} (omega arith))

-- What `retain` drops was not counted in the window.
current-retain :
    (now w : ℕ) (m : HashMap RateBucket) (key : Bytes)
    → IsDistinct m
    → max w 1 * 2 < u64_mod
    → current (window_start now w) (HashMap.get key (HashMap.retain (is_recent now w) m))
      ≡ current (window_start now w) (HashMap.get key m)
unfolding current is_recent
current-retain now w m key d fits = elim (Option-cases (HashMap.get key m)) [
  | inl e ↦ ground (arith, HashMap.get-retain (is_recent now w) key m d)
  | inr (b, e) ↦ ground (arith, HashMap.get-retain (is_recent now w) key m d, window_start-lt now w)
]

count-record_call :
    (start limit : ℕ) (b : Option RateBucket)
    → limit < 2 ^ 32
    → (current start (some (record_call limit (current start b)))).count ≡ (
        if ltb (current start b).count limit
        then (current start b).count + 1
        else (current start b).count)
unfolding current record_call
count-record_call start limit none h = ground arith
count-record_call start limit (some b) h = ground arith

-- One call against the counts: it is admitted exactly below the limit, is then counted, and
-- counts for no other key.
call_lem :
    (now w limit : ℕ) (key k : Bytes) (s : MemoryRateLimitStore)
    → IsValid s
    → max w 1 * 2 < u64_mod
    → limit < 2 ^ 32
    → let (answer, after) = check_and_record now key limit w s in
      let start = window_start now w in
      (answer ≡ ok (ltb (used start s key) limit))
      × (used start after k ≡ (
          if key == k && ltb (used start s key) limit
          then used start s key + 1
          else used start s k))
      × IsValid after
unfolding check_and_record
call_lem now w limit key k s v fits h =
    let kept = HashMap.retain (is_recent now w) s.buckets in
    let same = current-retain now w s.buckets key v.distinct fits in
    let same_k = current-retain now w s.buckets k v.distinct fits in
    let b = record_call limit (current (window_start now w) (HashMap.get key kept)) in
    rw v.sound (
      ground (arith, same),
      ground (
        arith,
        HashMap.get-insert key k b kept,
        bytes_beq_iff key k,
        same,
        same_k,
        count-record_call (window_start now w) limit (HashMap.get key kept) h,
      ),
      record {
        distinct =
            HashMap.insert-IsDistinct key b kept
              (HashMap.retain-IsDistinct (is_recent now w) s.buckets v.distinct);
        sound = refl;
      },
    )

pub new-IsValid : IsValid new
unfolding new
new-IsValid = record { distinct = tt; sound = refl }

abbrev said_yes : Result A1StorageError Bool → ℕ
said_yes (ok true) = 1
said_yes (ok false) = 0
said_yes (err e) = 0

-- The calls for the key among these, each with the time it is made at.
abbrev pub asked : Bytes → List (ℕ × Bytes) → ℕ
asked k [] = 0
asked k ((now, key) ∷ calls) = (if key == k then 1 else 0) + asked k calls

-- Those of them that the limiter admits.
abbrev pub admitted : ℕ → ℕ → Bytes → List (ℕ × Bytes) → MemoryRateLimitStore → ℕ
admitted w limit k [] s = 0
admitted w limit k ((now, key) ∷ calls) s =
    (if key == k then said_yes (check_and_record now key limit w s).0 else 0)
    + admitted w limit k calls (check_and_record now key limit w s).1

-- Of the calls for a key in one window, a valid limiter admits as many as are left of the limit,
-- or all of them if they are fewer, whatever calls for other keys come between; all calls have
-- the same limit, below 2 ^ 32, and the same window length, the double of which is no overflow.
pub check_and_record-admits :
    (w limit start : ℕ) (k : Bytes) (calls : List (ℕ × Bytes)) (s : MemoryRateLimitStore)
    → IsValid s
    → max w 1 * 2 < u64_mod
    → limit < 2 ^ 32
    → All (λ call. window_start call.0 w ≡ start) calls
    → admitted w limit k calls s ≡ min (asked k calls) (limit - used start s k)
check_and_record-admits w limit start k [] s v fits h a = omega arith
check_and_record-admits w limit start k ((now, key) ∷ calls) s v fits h a =
    let step = call_lem now w limit key k s v fits h in
    let after = (check_and_record now key limit w s).1 in
    let rest = check_and_record-admits w limit start k calls after step.2 fits h a.1 in
    rw (step.0, rest) (ground (arith, step.1, a.0, bytes_beq_iff key k))
