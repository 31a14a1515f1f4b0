-- ===== src/Crypto.antt =====
-- src/crypto.rs: BLAKE3 in key-derivation mode under domain separators, and Ed25519.
-- blake3 and ed25519_dalek are third-party: `Crypto` is what the code calls of them. A `Hasher`
-- that is created for a context and updated piece by piece is one call of `derive` on the pieces
-- put together, as blake3 documents its incremental interface.
pub mod Collision
use dyolo_kya.Prelude.{ℕ, ◌<◌, Bool, ◌++◌, List, ◌∷◌, All, ◌≡◌, Option, some}
use dyolo_kya.Prelude.Bytes.{Bytes, text}

pub record Crypto : Type 0 where
  -- `Hasher::new_derive_key(context)`, the updates, `finalize`.
  pub derive : Bytes → Bytes → Bytes
  -- `VerifyingKey::verify(message, signature).is_ok()`.
  pub verify : Bytes → Bytes → Bytes → Bool
  -- `verify_batch(messages, signatures, keys).is_ok()`.
  pub verify_batch : List Bytes → List Bytes → List Bytes → Bool

-- The third-party `hex`: `hex::encode`, and `hex::decode` with `none` for its error.
pub record Hex : Type 0 where
  pub encode : Bytes → Bytes
  pub decode : Bytes → Option Bytes

-- `hex` documents that decoding gives back the bytes that were encoded.
pub record IsHex (h : Hex) : Type 0 where
  pub decode-encode : (b : Bytes) → All (λ x. x < 256) b → h.decode (h.encode b) ≡ some b

-- `CERT_VERSION` of src/cert.rs.
abbrev pub cert_version : ℕ
cert_version = 1

abbrev pub domain_cert_sig : Bytes
domain_cert_sig = text "a1::64796f6c6f::cert::sig::v2.8.0"

abbrev pub domain_cert_fp : Bytes
domain_cert_fp = text "a1::64796f6c6f::cert::fp::v2.8.0"

abbrev pub domain_chain_fp : Bytes
domain_chain_fp = text "a1::64796f6c6f::chain::fp::v2.8.0"

abbrev pub domain_intent_leaf : Bytes
domain_intent_leaf = text "a1::64796f6c6f::intent::leaf::v2.8.0"

abbrev pub domain_merkle_node : Bytes
domain_merkle_node = text "a1::64796f6c6f::merkle::node::v2.8.0"

abbrev pub domain_subscope : Bytes
domain_subscope = text "a1::64796f6c6f::subscope::commit::v2.8.0"

abbrev pub domain_cert_ext : Bytes
domain_cert_ext = text "a1::64796f6c6f::cert::ext::v2.8.0"

module _ (c : Crypto) where
  -- `derive_key(domain, version)`, the remaining updates, `finalize`.
  unfoldable pub derive_key : Bytes → ℕ → Bytes → Bytes
  derive_key domain version message = c.derive domain (version ∷ message)

  unfoldable pub merkle_node : Bytes → Bytes → Bytes
  unfolding derive_key
  merkle_node left right = derive_key domain_merkle_node cert_version (left ++ right)
