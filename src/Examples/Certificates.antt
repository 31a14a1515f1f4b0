-- ===== src/Examples/Certificates.antt =====
-- A certificate from the builder, its extensions, and the statuses of errors.
use dyolo_kya.Prelude.{
  ◌≡◌, refl, false, ltb, ◌==◌, if◌then◌else◌, is_empty, length, ◌+◌, [], ◌∷◌, some, ok, is_ok,
  arith,
}
use dyolo_kya.Prelude.Bytes.{Bytes, bytes_eq, bytes_beq_refl}
use dyolo_kya.Prelude.BTreeMap
use dyolo_kya.Extensions.{ExtValue, CertExtensions, value_bytes, restored, set_checked, get}
use dyolo_kya.Extensions.Bounds.{IsBounded, set_checked-IsBounded}
use dyolo_kya.Cert.{DelegationCert}
use dyolo_kya.Cert.Builder.{CertBuilder, build}
use dyolo_kya.Cert.Honest.{IsHonest, IsSigned, build-IsSigned}
use dyolo_kya.Examples.World.{toy, signer, passthrough, no_extensions}

abbrev hour : CertBuilder
hour = record {
  delegate_pk = 2 ∷ [];
  scope_root = 5 ∷ [];
  scope_proof = passthrough;
  nonce = 7 ∷ [];
  issued_at = 100;
  expiration_unix = 3700;
  max_depth = 16;
  extensions = no_extensions;
}

toy-IsHonest : IsHonest toy (signer 1)
toy-IsHonest message = bytes_beq_refl (1 ∷ message)

build-IsSigned_example :
    (is_ok (build toy hour (signer 1)) ≡ ltb hour.issued_at hour.expiration_unix)
    × ((t : DelegationCert)
        → build toy hour (signer 1) ≡ ok t
        → IsSigned toy hour (signer 1) toy-IsHonest t)
build-IsSigned_example = build-IsSigned toy hour (signer 1) toy-IsHonest

abbrev team : Bytes
team = 116 ∷ []

abbrev with_team : CertExtensions
with_team = record { fields = (team, ExtValue.u64 3) ∷ []; byte_count = 9 }

team_set : set_checked no_extensions team (ExtValue.u64 3) ≡ ok with_team
unfolding set_checked BTreeMap.insert
team_set = refl

empty-IsBounded : IsBounded no_extensions
empty-IsBounded = record { counted = ground arith; limited = ground arith }

set_checked-IsBounded_example :
    IsBounded with_team
    × (is_empty team ≡ false)
    × (get with_team team
        ≡ (if team == team then some (ExtValue.u64 3) else get no_extensions team))
    × (set_checked (restored with_team.fields) team (ExtValue.u64 3)
        ≡ ok (record {
          fields = BTreeMap.insert team (ExtValue.u64 3) with_team.fields;
          byte_count = length team + value_bytes (ExtValue.u64 3);
        }))
set_checked-IsBounded_example =
    set_checked-IsBounded no_extensions with_team team team (ExtValue.u64 3) with_team.fields
      empty-IsBounded team_set
