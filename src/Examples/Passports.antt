-- ===== src/Examples/Passports.antt =====
-- A passport with two capabilities, and what its sub-certificates carry.
use dyolo_kya.Prelude.{
  ◌-◌, ◌≤◌, ◌≡◌, ◌<◌, refl, List, [], ◌∷◌, Option, some, none, Result, ok, err, arith,
}
use dyolo_kya.Prelude.Bytes.{Bytes, text, bytes_eq, bytes_beq_refl}
use dyolo_kya.Prelude.Words.{saturating_add}
use dyolo_kya.Error.{A1Error}
use dyolo_kya.Crypto.{Hex, IsHex}
use dyolo_kya.Intent
use dyolo_kya.Intent.{Intent}
use dyolo_kya.Merkle.{IntentTree, build, root}
use dyolo_kya.Extensions
use dyolo_kya.Extensions.{CertExtensions}
use dyolo_kya.Cert.Builder
use dyolo_kya.Cert.Honest.{IsHonest}
use dyolo_kya.Narrowing.{from_capabilities, set_capabilities, set_bit, capability_to_bit, to_hex}
use dyolo_kya.Provenance.{ProvenanceRoot}
use dyolo_kya.Passport.{
  DyoloPassport, set_all, tree_of, cap_hashes, cap_hash, root_extensions, passport_extensions,
  root_builder, issue_root, issue, or_return, with_extensions,
}
use dyolo_kya.Passport.Issued.{cert_of}
use dyolo_kya.Examples.World.{toy, signer}

abbrev trace_root : ProvenanceRoot
trace_root = record {
  step_count = 1;
  merkle_root = 4 ∷ [];
  trace_id = 6 ∷ [];
  started_at_unix = 240;
  finalized_at_unix = 260;
  chain_binding = 8 ∷ [];
}

-- A hexadecimal form that is the bytes themselves.
abbrev pub plain : Hex
plain = record { encode = λ b. b; decode = some }

pub plain-IsHex : IsHex plain
plain-IsHex = record { decode-encode = λ b h. refl }

abbrev pub trade : Bytes
trade = 5 ∷ 1 ∷ []

abbrev pub read : Bytes
read = 6 ∷ 2 ∷ []

abbrev pub caps : List Bytes
caps = trade ∷ read ∷ []

abbrev tree_or : Result A1Error IntentTree → IntentTree
tree_or (ok t) = t
tree_or (err e) = record { leaves = []; layers = [] }

abbrev extensions_or : Option CertExtensions → CertExtensions
extensions_or (some e) = e
extensions_or none = Extensions.new

abbrev pub caps_tree : IntentTree
caps_tree = tree_or (tree_of toy caps)

abbrev caps_extensions : CertExtensions
caps_extensions =
    extensions_or (
      set_all Extensions.new (root_extensions toy plain (9 ∷ []) (from_capabilities toy caps) caps))

abbrev pub passport : DyoloPassport
passport = record {
  namespace = 9 ∷ [];
  capability_mask = from_capabilities toy caps;
  capabilities = caps;
  cert =
      cert_of toy (root_builder (40 ∷ []) (signer 1) (root caps_tree) 100 1000 caps_extensions)
        (signer 1);
}

pub treed : tree_of toy caps ≡ ok caps_tree
unfolding tree_of cap_hashes cap_hash Intent.new build
treed = refl

caps_set :
    set_all Extensions.new (root_extensions toy plain (9 ∷ []) (from_capabilities toy caps) caps)
    ≡ some caps_extensions
unfolding set_all Extensions.set Extensions.set_checked Extensions.new from_capabilities
    set_capabilities set_bit capability_to_bit to_hex text
caps_set = refl

pub passport_issued :
    issue toy plain (40 ∷ []) (9 ∷ []) caps 1000 (signer 1) 100 ≡ some (ok passport)
unfolding issue or_return with_extensions issue_root Builder.build root_builder saturating_add
    Builder.new
passport_issued = rw (treed, caps_set) refl

pub signer-IsHonest : IsHonest toy (signer 1)
signer-IsHonest message = bytes_beq_refl (1 ∷ message)

abbrev pub trade_intent : Intent
trade_intent = record { action = trade; params = [] }

pub trade-new : Intent.new trade ≡ ok trade_intent
unfolding Intent.new
trade-new = refl

abbrev pub read_intent : Intent
read_intent = record { action = read; params = [] }

pub read-new : Intent.new read ≡ ok read_intent
unfolding Intent.new
read-new = refl

-- The extensions of a certificate for one capability, and for both.
abbrev pub sub_extensions : List Bytes → CertExtensions
sub_extensions ys =
    extensions_or
      (set_all Extensions.new (passport_extensions toy plain (9 ∷ []) (from_capabilities toy ys)))

pub one_set :
    set_all Extensions.new
      (passport_extensions toy plain (9 ∷ []) (from_capabilities toy (trade ∷ [])))
    ≡ some (sub_extensions (trade ∷ []))
unfolding set_all Extensions.set Extensions.set_checked Extensions.new from_capabilities
    set_capabilities set_bit capability_to_bit to_hex text
one_set = refl

pub both_set :
    set_all Extensions.new (passport_extensions toy plain (9 ∷ []) (from_capabilities toy caps))
    ≡ some (sub_extensions caps)
unfolding set_all Extensions.set Extensions.set_checked Extensions.new from_capabilities
    set_capabilities set_bit capability_to_bit to_hex text
both_set = refl

pub lasting : 200 < saturating_add 200 300
unfolding saturating_add
lasting = ground arith

pub early : 200 ≤ saturating_add 250 15
unfolding saturating_add
early = ground arith

pub late : 250 - 15 ≤ saturating_add 200 300
unfolding saturating_add
late = ground arith
