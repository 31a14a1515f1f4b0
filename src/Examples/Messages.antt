-- ===== src/Examples/Messages.antt =====
-- A handshake, an approval token and the signed bytes of a request, over keys and signatures of the
-- lengths of Ed25519.
use dyolo_kya.Prelude.{
  ℕ, zero, suc, length-replicate, ◌<◌, ◌≡◌, ◌⊎◌, refl, Bool, true, ltb, if◌then◌else◌, All, [], ◌∷◌,
  replicate, ◌==◌, Result, ok, err, arith,
}
use dyolo_kya.Prelude.Bytes.{Bytes, bytes_eq, bytes_beq_refl, text}
use dyolo_kya.Error.{A1Error}
use dyolo_kya.Crypto.{Crypto}
use dyolo_kya.HexFields.{IsArray}
use dyolo_kya.Cert.{Signer}
use dyolo_kya.Cert.Honest.{IsHonest}
use dyolo_kya.Negotiate.{
  DelegationOffer, DelegationAcceptance, build_request, verify_request, build_offer, verify_offer,
  build_acceptance, verify_acceptance,
}
use dyolo_kya.Negotiate.Handshake.{IsAgent, handshake_accepted}
use dyolo_kya.Negotiate.Signed.{Signed, IsSized, input_of, request_signable_bytes_binds}
use dyolo_kya.Governance
use dyolo_kya.Governance.Approval.{verify-issue}
use dyolo_kya.Examples.World.{first_cert}
use dyolo_kya.Examples.Passports.{plain, plain-IsHex}

-- Every key signs everything by the same 64 bytes.
abbrev seal : Bytes
seal = replicate 64 7

abbrev sealed : Crypto
sealed = record {
  derive = λ context message. message;
  verify = λ key message signature. signature == seal;
  verify_batch = λ messages signatures keys. true;
}

abbrev agent : ℕ → Signer
agent key = record { verifying_key = replicate 32 key; sign_message = λ message. seal }

abbrev every_key : Bytes → Result Bytes (Unit {0})
every_key key = ok tt

agent-IsHonest : (key : ℕ) → IsHonest sealed (agent key)
agent-IsHonest key message = bytes_beq_refl seal

small : (n b : ℕ) → b < 256 → All (λ x. x < 256) (replicate n b)
small zero b h = tt
small (suc n) b h = (h, small n b h)

array : (n b : ℕ) → b < 256 → IsArray n (replicate n b)
array n b h = record { size = length-replicate n b; bytes = small n b h }

agent-IsAgent : (key : ℕ) → key < 256 → IsAgent sealed every_key (agent key)
agent-IsAgent key h = record {
  honest = agent-IsHonest key;
  key = array 32 key h;
  valid = refl;
  signatures = λ m. array 64 7 (ground arith);
}

abbrev nonce : ℕ → Bytes
nonce b = replicate 16 b

handshake_accepted_example :
    let request =
      build_request sealed plain every_key (nonce 3) (agent 1) ((9 ∷ []) ∷ []) (9 ∷ []) 60 100 in
    (o : DelegationOffer) × (a : DelegationAcceptance) × (verify_request sealed plain every_key
        request
      ≡ ok (replicate 32 1))
    × (build_offer sealed plain every_key (nonce 4) (agent 2) request first_cert 110 30 ≡ ok o)
    × (verify_offer sealed plain every_key o ≡ ok (replicate 32 2))
    × (build_acceptance sealed plain every_key (agent 1) o 120 ≡ ok a)
    × (verify_acceptance sealed plain every_key a ≡ ok (replicate 32 1))
    × (o.cert ≡ first_cert)
    × (o.request_nonce ≡ request.nonce)
    × (a.offer_nonce ≡ o.offer_nonce)
handshake_accepted_example =
    handshake_accepted sealed plain every_key plain-IsHex (agent 1) (agent 2)
      (agent-IsAgent 1 (ground arith)) (agent-IsAgent 2 (ground arith)) (nonce 3) (nonce 4)
      (array 16 3 (ground arith)) (array 16 4 (ground arith)) ((9 ∷ []) ∷ []) (9 ∷ []) 60 100 110 30
      120 first_cert

abbrev signed : Signed
signed = record {
  did = 1 ∷ [];
  nonce = nonce 3;
  timestamp = 100;
  ttl = 60;
  intent = 9 ∷ [];
  caps = (9 ∷ []) ∷ [];
}

signed-IsSized : IsSized signed
signed-IsSized = record {
  did = ground arith;
  nonce = refl;
  timestamp = ground arith;
  ttl = ground arith;
  intent = ground arith;
  count = ground arith;
  caps = (ground arith, tt);
}

request_signable_bytes_binds_example :
    (signed ≡ signed)
    ⊎ ((sealed.derive (text "a1::dyolo::negotiate::request::v2.8.0") (input_of signed)
          ≡ sealed.derive (text "a1::dyolo::negotiate::request::v2.8.0") (input_of signed))
        × ¬ (input_of signed ≡ input_of signed))
request_signable_bytes_binds_example =
    request_signable_bytes_binds sealed plain every_key signed signed signed-IsSized signed-IsSized
      refl

abbrev accept_key : Bytes → Bool
accept_key key = true

verify-issue_example :
    Governance.verify sealed plain accept_key
      (Governance.issue sealed plain accept_key
        (nonce 5)
        (agent 1)
        (9 ∷ [])
        (8 ∷ [])
        (7 ∷ [])
        100
        60)
      161
    ≡ (if ltb 160 161 then err (A1Error.expired 0 160 161) else ok tt)
verify-issue_example =
    verify-issue sealed plain accept_key (nonce 5) (agent 1) (9 ∷ []) (8 ∷ []) (7 ∷ []) 100 60 161
      plain-IsHex (agent-IsHonest 1) (array 32 1 (ground arith)) refl (array 16 5 (ground arith))
      (λ m. array 64 7 (ground arith)) (ground arith)
