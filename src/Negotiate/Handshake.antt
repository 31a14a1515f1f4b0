-- ===== src/Negotiate/Handshake.antt =====
-- src/negotiate.rs: what honest agents build is accepted, message by message.
use dyolo_kya.Prelude.{ℕ, ◌≡◌, refl, List, Result, ok}
use dyolo_kya.Prelude.Bytes.{Bytes, text}
use dyolo_kya.Crypto.{Crypto, Hex, IsHex}
use dyolo_kya.HexFields.{IsArray, did_of, decode_exact-encode, strip_prefix-did_of}
use dyolo_kya.Cert.{Signer, DelegationCert, fingerprint}
use dyolo_kya.Cert.Honest.{IsHonest}
use dyolo_kya.Negotiate.{
  CapabilityRequest, DelegationOffer, DelegationAcceptance, parse_pk_hex, parse_nonce_hex,
  parse_sig_hex, request_signable_bytes, offer_signable_bytes, accept_signable_bytes, checked_key,
  build_request, verify_request, build_offer, verify_offer, build_acceptance, verify_acceptance,
}

-- A signer whose key and signatures have the lengths of Ed25519, and whose key is valid.
pub record IsAgent (c : Crypto) (check_key : Bytes → Result Bytes (Unit {0})) (s : Signer)
    : Type 0 where
  pub honest : IsHonest c s
  pub key : IsArray 32 s.verifying_key
  pub valid : check_key s.verifying_key ≡ ok tt
  pub signatures : (m : Bytes) → IsArray 64 (s.sign_message m)

module _ (c : Crypto) (hex : Hex) (check_key : Bytes → Result Bytes (Unit {0}))
    (law : IsHex hex) where
  parse_key :
      (s : Signer)
      → IsAgent c check_key s
      → parse_pk_hex c hex check_key (hex.encode s.verifying_key) ≡ ok s.verifying_key
  unfolding parse_pk_hex
  parse_key s a =
      rw
        (
          decode_exact-encode hex 32 (text "invalid public key hex")
              (text "public key must be 32 bytes") s.verifying_key law a.key.bytes a.key.size,
          a.valid,
        )
        refl

  parse_nonce : (n : Bytes) → IsArray 16 n → parse_nonce_hex c hex check_key (hex.encode n) ≡ ok n
  unfolding parse_nonce_hex
  parse_nonce n v =
      decode_exact-encode hex 16 (text "invalid nonce hex") (text "nonce must be 16 bytes") n law
        v.bytes v.size

  parse_sig : (g : Bytes) → IsArray 64 g → parse_sig_hex c hex check_key (hex.encode g) ≡ ok g
  unfolding parse_sig_hex
  parse_sig g v =
      decode_exact-encode hex 64 (text "invalid signature hex") (text "signature must be 64 bytes")
        g law v.bytes v.size

  checked :
      (s : Signer) (m : Bytes)
      → IsAgent c check_key s
      → checked_key c hex check_key s.verifying_key m (s.sign_message m) ≡ ok s.verifying_key
  unfolding checked_key
  checked s m a = rw (a.honest m) refl

  request_accepted :
      (nonce : Bytes) (s : Signer) (caps : List Bytes) (intent : Bytes) (ttl at : ℕ)
      → IsAgent c check_key s
      → IsArray 16 nonce
      → verify_request c hex check_key (build_request c hex check_key nonce s caps intent ttl at)
        ≡ ok s.verifying_key
  unfolding verify_request build_request
  request_accepted nonce s caps intent ttl at a v =
      let m =
        request_signable_bytes c hex check_key (did_of hex s.verifying_key) nonce at ttl intent
          caps in
      rw (parse_key s a, parse_nonce nonce v, parse_sig (s.sign_message m) (a.signatures m))
        (checked s m a)

  module _ (requester offerer : Signer) (ra : IsAgent c check_key requester)
      (oa : IsAgent c check_key offerer) (nonce offer_nonce : Bytes) (vn : IsArray 16 nonce)
      (vo : IsArray 16 offer_nonce) (caps : List Bytes) (intent : Bytes)
      (ttl at offered ttl_secs : ℕ) (cert : DelegationCert) where
    abbrev request : CapabilityRequest
    request = build_request c hex check_key nonce requester caps intent ttl at

    abbrev offer_message : Bytes
    offer_message =
        offer_signable_bytes c hex check_key (did_of hex offerer.verifying_key) nonce offer_nonce
          offered (fingerprint c cert)

    abbrev offer : DelegationOffer
    offer = record {
      offerer_did = did_of hex offerer.verifying_key;
      request_nonce = hex.encode nonce;
      cert = cert;
      offer_nonce = hex.encode offer_nonce;
      timestamp_unix = offered;
      offer_ttl_secs = ttl_secs;
      signature = hex.encode (offerer.sign_message offer_message);
    }

    offer_built :
        build_offer c hex check_key offer_nonce offerer request cert offered ttl_secs ≡ ok offer
    unfolding build_offer build_request
    offer_built = rw (parse_nonce nonce vn) refl

    offer_accepted : verify_offer c hex check_key offer ≡ ok offerer.verifying_key
    unfolding verify_offer
    offer_accepted =
        rw
          (
            strip_prefix-did_of hex offerer.verifying_key,
            parse_key offerer oa,
            parse_nonce nonce vn,
            parse_nonce offer_nonce vo,
            parse_sig (offerer.sign_message offer_message) (oa.signatures offer_message),
          )
          (checked offerer offer_message oa)

    abbrev accept_message : ℕ → Bytes
    accept_message when =
        accept_signable_bytes c hex check_key (did_of hex requester.verifying_key) offer_nonce when

    abbrev acceptance : ℕ → DelegationAcceptance
    acceptance when = record {
      acceptor_did = did_of hex requester.verifying_key;
      offer_nonce = hex.encode offer_nonce;
      timestamp_unix = when;
      signature = hex.encode (requester.sign_message (accept_message when));
    }

    acceptance_built :
        (when : ℕ) → build_acceptance c hex check_key requester offer when ≡ ok (acceptance when)
    unfolding build_acceptance
    acceptance_built when = rw (parse_nonce offer_nonce vo) refl

    acceptance_accepted :
        (when : ℕ)
        → verify_acceptance c hex check_key (acceptance when) ≡ ok requester.verifying_key
    unfolding verify_acceptance
    acceptance_accepted when =
        rw
          (
            strip_prefix-did_of hex requester.verifying_key,
            parse_key requester ra,
            parse_nonce offer_nonce vo,
            parse_sig (requester.sign_message (accept_message when))
                (ra.signatures (accept_message when)),
          )
          (checked requester (accept_message when) ra)

-- Between honest agents the three messages pass: the request that one builds verifies under its key,
-- the other's offer for it is built and verifies under the other's key, and the acceptance of the
-- offer is built and verifies under the first key; the offer and the acceptance echo the nonces.
-- `hex` is assumed to decode what it encodes, and keys, nonces and signatures to have their lengths.
pub handshake_accepted :
    (c : Crypto) (hex : Hex) (check_key : Bytes → Result Bytes (Unit {0})) (law : IsHex hex)
    (requester offerer : Signer) (ra : IsAgent c check_key requester)
    (oa : IsAgent c check_key offerer) (nonce offer_nonce : Bytes) (vn : IsArray 16 nonce)
    (vo : IsArray 16 offer_nonce) (caps : List Bytes) (intent : Bytes)
    (ttl at offered ttl_secs accepted : ℕ) (cert : DelegationCert)
    → let request = build_request c hex check_key nonce requester caps intent ttl at in
      (o : DelegationOffer) × (a : DelegationAcceptance) × (verify_request c hex check_key request
        ≡ ok requester.verifying_key)
      × (build_offer c hex check_key offer_nonce offerer request cert offered ttl_secs ≡ ok o)
      × (verify_offer c hex check_key o ≡ ok offerer.verifying_key)
      × (build_acceptance c hex check_key requester o accepted ≡ ok a)
      × (verify_acceptance c hex check_key a ≡ ok requester.verifying_key)
      × (o.cert ≡ cert)
      × (o.request_nonce ≡ request.nonce)
      × (a.offer_nonce ≡ o.offer_nonce)
unfolding build_request
handshake_accepted c hex check_key law requester offerer ra oa nonce offer_nonce vn vo caps intent
      ttl at offered ttl_secs accepted cert =
    (
      offer c hex check_key law requester offerer ra oa nonce offer_nonce vn vo caps intent ttl at
          offered ttl_secs cert,
      acceptance c hex check_key law requester offerer ra oa nonce offer_nonce vn vo caps intent ttl
          at offered ttl_secs cert accepted,
      request_accepted c hex check_key law nonce requester caps intent ttl at ra vn,
      offer_built c hex check_key law requester offerer ra oa nonce offer_nonce vn vo caps intent
          ttl at offered ttl_secs cert,
      offer_accepted c hex check_key law requester offerer ra oa nonce offer_nonce vn vo caps intent
          ttl at offered ttl_secs cert,
      acceptance_built c hex check_key law requester offerer ra oa nonce offer_nonce vn vo caps
          intent ttl at offered ttl_secs cert accepted,
      acceptance_accepted c hex check_key law requester offerer ra oa nonce offer_nonce vn vo caps
          intent ttl at offered ttl_secs cert accepted,
      refl,
      refl,
      refl,
    )
