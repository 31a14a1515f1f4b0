-- ===== src/Examples/Stores.antt =====
-- The in-memory stores on a few keys.
use dyolo_kya.Prelude.{
  ℕ, ◌≡◌, refl, ◌∙◌, min, true, false, not, any, ◌==◌, leb, if◌then◌else◌, All, List, [], ◌∷◌, ok,
  arith, ◌-◌,
}
use dyolo_kya.Prelude.Bytes.{Bytes, bytes_beq, bytes_eq}
use dyolo_kya.Prelude.HashMap
use dyolo_kya.Registry.Nonce
use dyolo_kya.Registry.Nonce.Laws.{held, try_consume_batch_refines}
use dyolo_kya.Registry.Nonce.Laws as NonceLaws
use dyolo_kya.Registry.Revocation
use dyolo_kya.Registry.Revocation.Batch.{revoke_batch_refines}
use dyolo_kya.Registry.Revocation.Laws as RevocationLaws
use dyolo_kya.Registry.Revocation.Batch as RevocationBatch
use dyolo_kya.Registry.RateLimit
use dyolo_kya.Registry.RateLimit.{window_start}
use dyolo_kya.Registry.RateLimit.Laws as RateLimitLaws
use dyolo_kya.Registry.RateLimit.Laws.{admitted, asked, used, check_and_record-admits}

abbrev seven : Bytes
seven = 7 ∷ []

abbrev nonces : List Bytes
nonces = (7 ∷ []) ∷ (8 ∷ []) ∷ []

pub empty_sound : Nonce.new.poisoned ≡ false
unfolding Nonce.new
empty_sound = refl

-- Nothing is held by the empty store.
empty_holds_none : (t : ℕ) (n : Bytes) → held t Nonce.new n ≡ false
unfolding Nonce.new HashMap.get
empty_holds_none t n = refl

pub first_use : (Nonce.try_consume_batch 500 nonces Nonce.new).0 ≡ ok true
first_use =
    (try_consume_batch_refines 500 500 nonces Nonce.new [] NonceLaws.new-IsValid empty_sound
      (ground arith)).0
    ∙ ground (arith, empty_holds_none 500 (7 ∷ []), empty_holds_none 500 (8 ∷ []))

try_consume_batch_refines_example :
    let after = (Nonce.try_consume_batch 500 nonces Nonce.new).1 in
    ((Nonce.try_consume_batch 500 nonces Nonce.new).0 ≡ ok (not (any (held 500 Nonce.new) nonces)))
    × (held 600 after (7 ∷ []) ≡ (
        if any (held 500 Nonce.new) nonces
        then held 600 Nonce.new (7 ∷ [])
        else if any (λ n. n == (7 ∷ [])) nonces
        then leb 600 (Nonce.expiry_of 500 Nonce.new.ttl_secs)
        else held 600 Nonce.new (7 ∷ [])))
    × NonceLaws.IsValid after
    × (after.poisoned ≡ false)
try_consume_batch_refines_example =
    try_consume_batch_refines 500 600 nonces Nonce.new (7 ∷ []) NonceLaws.new-IsValid empty_sound
      (ground arith)

revoke_batch_refines_example :
    ((Revocation.revoke_batch nonces Revocation.new).0 ≡ ok tt)
    × (Revocation.is_revoked (8 ∷ []) (Revocation.revoke_batch nonces Revocation.new).1 ≡ (
        if Revocation.contains nonces (8 ∷ [])
        then ok true
        else Revocation.is_revoked (8 ∷ []) Revocation.new))
    × RevocationLaws.IsValid (Revocation.revoke_batch nonces Revocation.new).1
revoke_batch_refines_example =
    revoke_batch_refines nonces (8 ∷ []) Revocation.new RevocationBatch.new-IsValid.0

-- Two keys in the window of a minute that starts at 960.
abbrev calls : List (ℕ × Bytes)
calls = (960, 1 ∷ []) ∷ (970, 2 ∷ []) ∷ (975, 1 ∷ []) ∷ (980, 1 ∷ []) ∷ []

calls_in_window : All (λ call. window_start call.0 60 ≡ 960) calls
unfolding window_start
calls_in_window = (refl, (refl, (refl, (refl, tt))))

two_admitted : admitted 60 2 (1 ∷ []) calls RateLimit.new ≡ 2
unfolding RateLimit.new RateLimit.check_and_record RateLimit.is_recent RateLimit.current
    RateLimit.record_call window_start HashMap.get HashMap.insert HashMap.retain bytes_beq
two_admitted = refl

check_and_record-admits_example :
    admitted 60 2 (1 ∷ []) calls RateLimit.new
    ≡ min (asked (1 ∷ []) calls) (2 - used 960 RateLimit.new (1 ∷ []))
check_and_record-admits_example =
    check_and_record-admits 60 2 960 (1 ∷ []) calls RateLimit.new RateLimitLaws.new-IsValid
      (ground arith) (ground arith) calls_in_window
