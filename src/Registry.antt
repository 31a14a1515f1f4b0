-- ===== src/Registry.antt =====
-- src/registry.rs: the store traits and the in-memory stores. A store that is shared behind locks
-- is its state, passed from call to call. A call of the nonce or the rate-limit store holds its one
-- lock from its first access of the map to its end, so that calls follow one another. A call of the
-- revocation store that writes does not: it is one step here, though a query of another thread can
-- fall inside it. The time that `unix_now` reads is an argument.
pub mod Nonce
pub mod Revocation
pub mod RateLimit
use dyolo_kya.Prelude.{Bool, List, Result}
use dyolo_kya.Prelude.Bytes.{Bytes}
use dyolo_kya.Error.{A1StorageError}

-- What an authorization calls of `NonceStore`: the result and the state that the call leaves.
pub record NonceStore (S : Type 0) : Type 0 where
  pub try_consume_batch : List Bytes → S → Result A1StorageError Bool × S

-- What an authorization calls of `RevocationStore`: a query that changes nothing.
pub record RevocationStore (R : Type 0) : Type 0 where
  pub is_revoked : Bytes → R → Result A1StorageError Bool
