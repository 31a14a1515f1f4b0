-- ===== src/Negotiate.antt =====
-- src/negotiate.rs: the capability request, the offer and the acceptance.
pub mod Signed
pub mod Handshake
use dyolo_kya.Prelude.{
  ℕ, ◌+◌, ◌-◌, ltb, not, Bool, length, List, [], ◌∷◌, ◌++◌, Option, some, none, Result, ok, err,
  ◌>>=◌, ◌>>◌, fail_if, ok_or, map_err,
}
use dyolo_kya.Prelude.Bytes.{Bytes, text, u64_le}
use dyolo_kya.Prelude.Words.{wrapping_add}
use dyolo_kya.Error.{A1Error}
use dyolo_kya.Crypto.{Crypto, Hex}
use dyolo_kya.HexFields.{prefixed, did_prefix, did_of, decode_exact, strip_prefix}
use dyolo_kya.Cert.{Signer, DelegationCert, fingerprint}

pub record CapabilityRequest : Type 0 where
  pub requester_did : Bytes
  pub requester_pk_hex : Bytes
  pub requested_capabilities : List Bytes
  pub intent_name : Bytes
  pub ttl_secs : ℕ
  pub nonce : Bytes
  pub timestamp_unix : ℕ
  pub signature : Bytes

pub record DelegationOffer : Type 0 where
  pub offerer_did : Bytes
  pub request_nonce : Bytes
  pub cert : DelegationCert
  pub offer_nonce : Bytes
  pub timestamp_unix : ℕ
  pub offer_ttl_secs : ℕ
  pub signature : Bytes

pub record DelegationAcceptance : Type 0 where
  pub acceptor_did : Bytes
  pub offer_nonce : Bytes
  pub timestamp_unix : ℕ
  pub signature : Bytes

unfoldable pub encode_caps : List Bytes → Bytes
encode_caps [] = []
encode_caps (cap ∷ caps) = prefixed cap ++ encode_caps caps

-- The inputs of the three hashers.
unfoldable pub request_input : Bytes → Bytes → ℕ → ℕ → Bytes → List Bytes → Bytes
request_input did nonce timestamp ttl intent caps =
    prefixed did
    ++ (nonce
        ++ (u64_le timestamp
            ++ (u64_le ttl ++ (prefixed intent ++ (u64_le (length caps) ++ encode_caps caps)))))

unfoldable pub offer_input : Bytes → Bytes → Bytes → ℕ → Bytes → Bytes
offer_input did request_nonce offer_nonce timestamp cert_fp =
    prefixed did ++ (request_nonce ++ (offer_nonce ++ (u64_le timestamp ++ cert_fp)))

unfoldable pub accept_input : Bytes → Bytes → ℕ → Bytes
accept_input did offer_nonce timestamp = prefixed did ++ (offer_nonce ++ u64_le timestamp)

-- `|now - timestamp|` only where the timestamp is past; the error adds with wrap-around.
unfoldable pub verify_freshness : CapabilityRequest → ℕ → ℕ → Result A1Error (Unit {0})
verify_freshness r now max_age_secs =
    fail_if (ltb max_age_secs (now - r.timestamp_unix))
      (A1Error.expired 0 (wrapping_add r.timestamp_unix max_age_secs) now)

-- `check_key` stands for `VerifyingKey::from_bytes`, with the text of its error.
module _ (c : Crypto) (hex : Hex) (check_key : Bytes → Result Bytes (Unit {0})) where
  unfoldable pub parse_pk_hex : Bytes → Result A1Error Bytes
  parse_pk_hex s = do
    key ← decode_exact hex 32 (text "invalid public key hex") (text "public key must be 32 bytes") s
    map_err (λ e. A1Error.wire_format_error (text "invalid Ed25519 key: " ++ e)) (check_key key)
    ok key

  unfoldable pub parse_nonce_hex : Bytes → Result A1Error Bytes
  parse_nonce_hex s =
      decode_exact hex 16 (text "invalid nonce hex") (text "nonce must be 16 bytes") s

  unfoldable pub parse_sig_hex : Bytes → Result A1Error Bytes
  parse_sig_hex s =
      decode_exact hex 64 (text "invalid signature hex") (text "signature must be 64 bytes") s

  unfoldable pub request_signable_bytes : Bytes → Bytes → ℕ → ℕ → Bytes → List Bytes → Bytes
  request_signable_bytes did nonce timestamp ttl intent caps =
      c.derive (text "a1::dyolo::negotiate::request::v2.8.0")
        (request_input did nonce timestamp ttl intent caps)

  unfoldable pub offer_signable_bytes : Bytes → Bytes → Bytes → ℕ → Bytes → Bytes
  offer_signable_bytes did request_nonce offer_nonce timestamp cert_fp =
      c.derive (text "a1::dyolo::negotiate::offer::v2.8.0")
        (offer_input did request_nonce offer_nonce timestamp cert_fp)

  unfoldable pub accept_signable_bytes : Bytes → Bytes → ℕ → Bytes
  accept_signable_bytes did offer_nonce timestamp =
      c.derive (text "a1::dyolo::negotiate::accept::v2.8.0")
        (accept_input did offer_nonce timestamp)

  -- `vk.verify(&msg, &sig).map_err(|_| A1Error::InvalidSignature(0))?; Ok(vk)`.
  unfoldable pub checked_key : Bytes → Bytes → Bytes → Result A1Error Bytes
  checked_key key message signature =
      fail_if (not (c.verify key message signature)) (A1Error.invalid_signature 0) >> ok key

  -- The random nonces that `fresh_nonce` draws are arguments.
  unfoldable pub build_request : Bytes → Signer → List Bytes → Bytes → ℕ → ℕ → CapabilityRequest
  build_request fresh_nonce requester caps intent ttl_secs timestamp =
      let did = did_of hex requester.verifying_key in
      record {
        requester_did = did;
        requester_pk_hex = hex.encode requester.verifying_key;
        requested_capabilities = caps;
        intent_name = intent;
        ttl_secs = ttl_secs;
        nonce = hex.encode fresh_nonce;
        timestamp_unix = timestamp;
        signature = hex.encode (
            requester.sign_message
              (request_signable_bytes did fresh_nonce timestamp ttl_secs intent caps));
      }

  unfoldable pub verify_request : CapabilityRequest → Result A1Error Bytes
  verify_request r = do
    key ← parse_pk_hex r.requester_pk_hex
    nonce ← parse_nonce_hex r.nonce
    sig ← parse_sig_hex r.signature
    checked_key key
        (request_signable_bytes r.requester_did nonce r.timestamp_unix r.ttl_secs r.intent_name
          r.requested_capabilities)
        sig

  unfoldable pub build_offer :
      Bytes → Signer → CapabilityRequest → DelegationCert → ℕ → ℕ → Result A1Error DelegationOffer
  build_offer fresh_nonce offerer request cert timestamp offer_ttl_secs =
      let did = did_of hex offerer.verifying_key in
      do
        request_nonce ← parse_nonce_hex request.nonce
        ok (record {
          offerer_did = did;
          request_nonce = request.nonce;
          cert = cert;
          offer_nonce = hex.encode fresh_nonce;
          timestamp_unix = timestamp;
          offer_ttl_secs = offer_ttl_secs;
          signature = hex.encode (
              offerer.sign_message (
                offer_signable_bytes did request_nonce fresh_nonce timestamp (fingerprint c cert)));
        })

  unfoldable pub verify_offer : DelegationOffer → Result A1Error Bytes
  verify_offer o = do
    pk_hex ←
        ok_or (strip_prefix did_prefix o.offerer_did)
          (A1Error.wire_format_error (text "invalid offerer DID"))
    key ← parse_pk_hex pk_hex
    request_nonce ← parse_nonce_hex o.request_nonce
    offer_nonce ← parse_nonce_hex o.offer_nonce
    sig ← parse_sig_hex o.signature
    checked_key key
        (offer_signable_bytes o.offerer_did request_nonce offer_nonce o.timestamp_unix
          (fingerprint c o.cert))
        sig

  unfoldable pub build_acceptance :
      Signer → DelegationOffer → ℕ → Result A1Error DelegationAcceptance
  build_acceptance acceptor offer timestamp =
      let did = did_of hex acceptor.verifying_key in
      do
        offer_nonce ← parse_nonce_hex offer.offer_nonce
        ok (record {
          acceptor_did = did;
          offer_nonce = offer.offer_nonce;
          timestamp_unix = timestamp;
          signature =
              hex.encode (acceptor.sign_message (accept_signable_bytes did offer_nonce timestamp));
        })

  unfoldable pub verify_acceptance : DelegationAcceptance → Result A1Error Bytes
  verify_acceptance a = do
    pk_hex ←
        ok_or (strip_prefix did_prefix a.acceptor_did)
          (A1Error.wire_format_error (text "invalid acceptor DID"))
    key ← parse_pk_hex pk_hex
    offer_nonce ← parse_nonce_hex a.offer_nonce
    sig ← parse_sig_hex a.signature
    checked_key key (accept_signable_bytes a.acceptor_did offer_nonce a.timestamp_unix) sig
