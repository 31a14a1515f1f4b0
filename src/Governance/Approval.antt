-- ===== src/Governance/Approval.antt =====
-- src/governance.rs: approval tokens of an honest approver.
use dyolo_kya.Prelude.{
  ℕ, Bool, ◌%◌, ◌+◌, ◌<◌, ◌≡◌, refl, true, ltb, if◌then◌else◌, ok, err, arith, Bool-cases, inl, inr,
}
use dyolo_kya.Prelude.Bytes.{Bytes, text}
use dyolo_kya.Prelude.Words.{u64_mod, wrapping_add}
use dyolo_kya.Error.{A1Error}
use dyolo_kya.Crypto.{Crypto, Hex, IsHex}
use dyolo_kya.HexFields.{did_of, decode_exact-encode, strip_prefix-did_of, IsArray}
use dyolo_kya.Cert.{Signer}
use dyolo_kya.Cert.Honest.{IsHonest}
use dyolo_kya.Governance.{approval_signable, issue, parse_key, verify}

-- A token that an honest approver issues is accepted up to its expiry, inclusively, and refused as
-- expired after it. The time and the lifetime are assumed not to overflow 64 bits together, `hex`
-- to decode what it encodes, and the key, the nonce and the signatures to have their lengths.
pub verify-issue :
    (c : Crypto) (hex : Hex) (valid_key : Bytes → Bool) (nonce : Bytes) (approver : Signer)
    (capability agent action : Bytes) (granted ttl now : ℕ)
    → IsHex hex
    → IsHonest c approver
    → IsArray 32 approver.verifying_key
    → valid_key approver.verifying_key ≡ true
    → IsArray 16 nonce
    → ((m : Bytes) → IsArray 64 (approver.sign_message m))
    → granted + ttl < u64_mod
    → verify c hex valid_key
        (issue c hex valid_key nonce approver capability agent action granted ttl)
        now
      ≡ (if ltb (granted + ttl) now then err (A1Error.expired 0 (granted + ttl) now) else ok tt)
unfolding verify issue parse_key wrapping_add
verify-issue c hex valid_key nonce approver capability agent action granted ttl now law honest key
      valid fresh signatures fits =
    let whole : (granted + ttl) % u64_mod ≡ granted + ttl = omega arith in
    let did = did_of hex approver.verifying_key in
    let m =
      approval_signable c hex valid_key capability did agent action granted (granted + ttl) nonce in
    let pk =
      decode_exact-encode hex 32 (text "invalid DID hex") (text "key must be 32 bytes")
        approver.verifying_key law key.bytes key.size in
    let n =
      decode_exact-encode hex 16 (text "invalid nonce hex") (text "nonce must be 16 bytes") nonce
        law fresh.bytes fresh.size in
    let g =
      decode_exact-encode hex 64 (text "invalid sig hex") (text "sig must be 64 bytes")
        (approver.sign_message m) law (signatures m).bytes (signatures m).size in
    elim (Bool-cases (ltb (granted + ttl) now)) [
      | inl late ↦ rw (whole, late) refl
      | inr early ↦
          rw
            (
              whole,
              early,
              strip_prefix-did_of hex approver.verifying_key,
              pk,
              valid,
              n,
              g,
              honest m,
            )
            refl
    ]
