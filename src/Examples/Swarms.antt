-- ===== src/Examples/Swarms.antt =====
-- A swarm of one worker over a passport with two capabilities.
use dyolo_kya.Prelude.{
  ◌≡◌, refl, inl, inr, true, not, ◌==◌, if◌then◌else◌, [], ◌∷◌, some, none, ok, arith,
}
use dyolo_kya.Prelude.Bytes.{bytes_eq, text}
use dyolo_kya.Prelude.HashMap
use dyolo_kya.Prelude.HashMap.{IsDistinct, filter_value}
use dyolo_kya.Prelude.Words.{wrapping_add}
use dyolo_kya.Intent
use dyolo_kya.HexFields.{did_of}
use dyolo_kya.Merkle.{root}
use dyolo_kya.Cert.{DelegationCert}
use dyolo_kya.Cert.Builder
use dyolo_kya.Cert.Builder.{sign}
use dyolo_kya.Chain
use dyolo_kya.Chain.{DyoloChain, push}
use dyolo_kya.Narrowing.{from_capabilities, is_subset_of, enforce_narrowing}
use dyolo_kya.Narrowing.Names.{is_subset_of-from_capabilities_iff}
use dyolo_kya.Registry.Nonce
use dyolo_kya.Registry.Revocation
use dyolo_kya.Passport.{capability_tree, scope_root}
use dyolo_kya.Passport.Issued.{cert_of}
use dyolo_kya.Swarm
use dyolo_kya.Swarm.{
  SwarmRole, SwarmMember, SwarmPassport, capabilities, name, is_expired, evict_expired,
  remove_member, has_role, on_ok, on_some, member_builder, role_mask, verify_role_commitment,
  member_of, enroll, add_member,
}
use dyolo_kya.Swarm.Members.{evict-remove_members, add_member-enrolls}
use dyolo_kya.Examples.World.{toy, signer}
use dyolo_kya.Examples.Passports.{plain, trade, caps, caps_tree, passport, treed}

abbrev swarm : SwarmPassport
swarm = Swarm.new toy passport (8 ∷ [])

abbrev trader : SwarmRole
trader = SwarmRole.worker (trade ∷ [])

abbrev trader_cert : DelegationCert
trader_cert =
    cert_of toy (member_builder (41 ∷ []) (3 ∷ []) trader (root caps_tree) 200 300) (signer 1)

abbrev member : SwarmMember
member = member_of toy plain (3 ∷ []) trader 200 300 trader_cert

abbrev one_member : SwarmPassport
one_member = enroll toy plain swarm member

narrowed : is_subset_of (from_capabilities toy (trade ∷ [])) passport.capability_mask ≡ true
narrowed =
    (is_subset_of-from_capabilities_iff toy (trade ∷ []) caps).1
      λ x m. elim m [ inl e ↦ (x, inl e, refl) | inr e ↦ absurd e ]

rooted : scope_root toy passport ≡ ok (root caps_tree)
unfolding scope_root capability_tree
rooted = rw treed refl

signed :
    sign toy (member_builder (41 ∷ []) (3 ∷ []) trader (root caps_tree) 200 300) (signer 1)
    ≡ some trader_cert
unfolding sign Builder.build member_builder Builder.new wrapping_add
signed = refl

added :
    add_member toy plain (41 ∷ []) swarm (3 ∷ []) trader 300 (signer 1) 200
    ≡ some (ok (member, one_member))
unfolding add_member on_ok on_some role_mask capabilities enforce_narrowing Swarm.new
added = rw (narrowed, rooted, signed) refl

empty-IsDistinct : IsDistinct swarm.members
unfolding Swarm.new
empty-IsDistinct = tt

add_member-enrolls_example :
    IsDistinct one_member.members
    × (HashMap.get (5 ∷ []) one_member.members ≡ (
        if did_of plain (3 ∷ []) == (5 ∷ [])
        then some member
        else HashMap.get (5 ∷ []) swarm.members))
    × (verify_role_commitment toy member ≡ true)
    × (has_role one_member (did_of plain (3 ∷ [])) 400 (name trader) ≡ not (is_expired member 400))
    × (is_subset_of (role_mask toy trader) swarm.root_passport.capability_mask ≡ true)
add_member-enrolls_example =
    add_member-enrolls toy plain (41 ∷ []) swarm (3 ∷ []) trader 300 (signer 1) 200 member
      one_member (5 ∷ []) 400 empty-IsDistinct added

one_member-IsDistinct : IsDistinct one_member.members
one_member-IsDistinct =
    (add_member-enrolls toy plain (41 ∷ []) swarm (3 ∷ []) trader 300 (signer 1) 200 member
      one_member (5 ∷ []) 400 empty-IsDistinct added).0

evict-remove_members_example :
    let evicted = (evict_expired one_member 400).1 in
    let (was, removed) = remove_member one_member (did_of plain (3 ∷ [])) in
    IsDistinct evicted.members
    × IsDistinct removed.members
    × (HashMap.get (did_of plain (3 ∷ [])) evicted.members
        ≡ filter_value
            (λ m. not (is_expired m 400))
            (HashMap.get (did_of plain (3 ∷ [])) one_member.members))
    × (has_role evicted (did_of plain (3 ∷ [])) 500 (text "worker")
        ≡ has_role one_member (did_of plain (3 ∷ [])) 500 (text "worker"))
    × (was ≡ HashMap.get (did_of plain (3 ∷ [])) one_member.members)
    × (HashMap.get (5 ∷ []) removed.members ≡ (
        if did_of plain (3 ∷ []) == (5 ∷ [])
        then none
        else HashMap.get (5 ∷ []) one_member.members))
evict-remove_members_example =
    evict-remove_members one_member 400 500 (did_of plain (3 ∷ [])) (5 ∷ []) (text "worker")
      one_member-IsDistinct (ground arith)

-- A chain for the worker, whose role names `trade` alone.
abbrev worker_chain : DyoloChain
worker_chain =
    push (Chain.new (signer 1).verifying_key (root caps_tree))
      (cert_of toy (member_builder (42 ∷ []) (3 ∷ []) trader (root caps_tree) 210 300) (signer 1))
