-- ===== src/Lib.antt =====
-- A verification library for the authorization core of the A1 repository (the crate in `src/`).
--
-- An authorization asks whether a chain of Ed25519-signed delegation certificates carries an
-- intent from a principal to an executing agent. The parts, from the bottom:
--
-- - Prelude: numbers, bytes, lists, maps and sorting; errors as `Result`. Bits and Words hold the
--   machine words and the Bloom filters' bit operations.
-- - Error: `src/error.rs`. Crypto: the hash contexts of `src/crypto.rs`; blake3 and ed25519_dalek
--   are the parameter `Crypto`, and what is assumed of them is a hypothesis where it is used:
--   `IsBatchVerifier` (Chain/Spec), that a batch verifies exactly if each of its signatures does.
--   No theorem assumes that the hash has no collision: where the soundness of a Merkle proof depends
--   on it, the other outcome is a collision among the pairs of children that the run at hand hashes
--   (Crypto/Collision; `HashBreak`, Merkle/Sound; Provenance/Hashed), which are listed in the
--   statement, never one that merely exists.
-- - Intent: the structured intent of `src/intent.rs`, its limits and its hash. The Unicode
--   normalization of keys and values is an argument.
-- - Merkle: `src/intent.rs`: Merkle proofs, intent trees and sub-scope proofs. The layers of a tree
--   are built on fuel, the number of leaves, which is enough since each round halves the layer.
-- - Extensions: `src/cert_extensions.rs`. Cert: `src/cert.rs`, the certificate, its signed message
--   and its builder.
-- - Chain: `DyoloChain::validate_structure` of `src/chain.rs`. The loop is a recursion over the
--   certificates with the loop's variables as a record (`HopState`); Chain/Spec describes a valid
--   chain certificate by certificate without them, and Hops, Loop and Validate relate the two.
-- - Policy: `src/policy.rs`. Registry: `src/registry.rs`, the traits as records of operations and
--   the in-memory stores as explicit states. The nonce and rate-limit stores hold
--   their one lock for a whole call, so that calls follow one another; a poisoned lock is a flag of
--   the state. A call that writes to the revocation store takes its locks one by one, and is one step
--   here: what a query sees that falls inside such a call is not modelled.
-- - Narrowing: the 256-bit capability mask of `src/identity/narrowing.rs`; Narrowing/Words reads its
--   four words bit by bit, Names reads masks made of names, and Slots is the registry that
--   gives each name its own bit.
-- - Passport: `src/passport/mod.rs` and `src/identity/receipt.rs`. A panic, of an extension that does
--   not fit, is `none`. Receipt and its child Traced, Issued and Narrows are about what is
--   issued, Granted, Lifecycle and Guard about what the guard lets pass, over Authorize and Narrowing.
-- - Swarm: `src/swarm.rs`, a map of members over a passport; Chains authorizes their chains.
-- - HexFields: identifiers and fields in hexadecimal; `hex` is the parameter `Hex`, and `IsHex` says
--   that it decodes what it encodes. Negotiate: `src/negotiate.rs`. Governance: `src/governance.rs`.
-- - Calendar: the dates of `src/did.rs` and `src/governance.rs`. The loop over the years has the fuel
--   `days / 365 + 1`, enough since a year has 365 days or more.
-- - Provenance: `src/provenance.rs`. Its loops have the fuel 64, for numbers of 64 bits; Powers and
--   Perfect show it enough, Hashed is about the pairs that are hashed, and Traces about whole traces.
-- - Document: the policy documents of `a1-identity/src/policy.rs` over Policy; Unicode's white space
--   is an argument.
-- - Audit: the event of `src/audit.rs`. Authorize: `authorize`, `authorize_with_options` and
--   `authorize_batch` of `src/chain.rs` over any stores; Authorize/Stores, Replay and Revoked are
--   about the in-memory stores, with the calls between two authorizations as a relation of steps.
--   Awaits holds the asynchronous variants: each query of the revocation store reads a state of its
--   own, since other tasks run at an await.
-- - Examples: small runs, and each theorem at a concrete input.
--
-- Numbers are unbounded where the source adds without wrapping and cannot overflow; `u64` and `u32`
-- operations that wrap or saturate are written out. Byte arrays of fixed length are byte strings:
-- where a theorem depends on the lengths, of a mask, a key, a nonce or a signature, it assumes them.
-- The clock is an argument, one for each reading.
--
-- Not modelled: the adapters of a blocking store to an asynchronous one; serialization; the
-- PostgreSQL and Redis stores, the gateway, the command line and the SDKs, which are input and
-- output around these parts; hybrid signatures, whose second scheme is third-party; the context and
-- the wire format; DID documents, anchors, zero-knowledge proofs and the C bindings; audit reports
-- and the JSON forms of policies and passports.
pub mod Prelude
pub mod Error
pub mod Crypto
pub mod Intent
pub mod Merkle
pub mod Extensions
pub mod Cert
pub mod Chain
pub mod Policy
pub mod Narrowing
pub mod Registry
pub mod Audit
pub mod Authorize
pub mod Calendar
pub mod HexFields
pub mod Negotiate
pub mod Governance
pub mod Provenance
pub mod Passport
pub mod Document
pub mod Swarm
mod Examples
