-- ===== src/Swarm/Members.antt =====
-- src/swarm.rs: the members of a swarm as a finite map from identifiers, and what changes it.
use dyolo_kya.Prelude.{
  ℕ, ◌≤◌, ◌≡◌, refl, ap, sym, ◌∙◌, inl, inr, Bool, true, not, ◌==◌, if◌then◌else◌, Option, some,
  none, ok, arith, Result-cases, Option-cases, Bool-cases,
}
use dyolo_kya.Prelude.Bytes.{Bytes, bytes_eq, bytes_beq_refl}
use dyolo_kya.Prelude.HashMap
use dyolo_kya.Prelude.HashMap.{
  IsDistinct, filter_value, get-insert, insert-IsDistinct, get-retain, retain-IsDistinct,
  get-remove, remove-IsDistinct,
}
use dyolo_kya.Crypto.{Crypto, Hex}
use dyolo_kya.HexFields.{did_of}
use dyolo_kya.Cert.{Signer}
use dyolo_kya.Cert.Builder.{sign}
use dyolo_kya.Narrowing.{is_subset_of, enforce_narrowing}
use dyolo_kya.Passport.{scope_root}
use dyolo_kya.Swarm.{
  SwarmRole, SwarmMember, SwarmPassport, name, is_expired, evict_expired, remove_member, plays,
  has_role, on_ok, on_some, compute_role_commitment, verify_role_commitment, role_mask,
  member_builder, member_of, enroll, add_member,
}

-- A member that is expired stays so.
expired_later :
    (m : SwarmMember) (now later : ℕ)
    → now ≤ later
    → is_expired m now ≡ true
    → is_expired m later ≡ true
unfolding is_expired
expired_later m now later l h = ground (arith, h)

plays-filter :
    (now later : ℕ) (role : Bytes) (o : Option SwarmMember)
    → now ≤ later
    → plays later role (filter_value (λ m. not (is_expired m now)) o) ≡ plays later role o
unfolding plays
plays-filter now later role none l = refl
plays-filter now later role (some m) l = elim (Bool-cases (is_expired m now)) [
  | inl e ↦ rw (e, expired_later m now later l e) refl
  | inr e ↦ rw e refl
]

-- Eviction and removal, on a map that has no identifier twice: both keep it so. Eviction keeps
-- exactly the members that are not expired, and changes the answer of no query about a role at that
-- time or later; removal returns the member, forgets it and keeps every other.
pub evict-remove_members :
    (s : SwarmPassport) (now later : ℕ) (did other role : Bytes)
    → IsDistinct s.members
    → now ≤ later
    → let evicted = (evict_expired s now).1 in
      let (member, removed) = remove_member s did in
      IsDistinct evicted.members
      × IsDistinct removed.members
      × (HashMap.get did evicted.members
          ≡ filter_value (λ m. not (is_expired m now)) (HashMap.get did s.members))
      × (has_role evicted did later role ≡ has_role s did later role)
      × (member ≡ HashMap.get did s.members)
      × (HashMap.get other removed.members
          ≡ (if did == other then none else HashMap.get other s.members))
unfolding evict_expired remove_member has_role
evict-remove_members s now later did other role d l =
    let keep = λ (m : SwarmMember). not (is_expired m now) in
    let kept = get-retain keep did s.members d in
    (
      retain-IsDistinct keep s.members d,
      remove-IsDistinct did s.members d,
      kept,
      ap (plays later role) kept ∙ plays-filter now later role (HashMap.get did s.members) l,
      refl,
      get-remove did other s.members d,
    )

module _ (c : Crypto) (hex : Hex) (nonce : Bytes) (s : SwarmPassport) (agent : Bytes)
    (role : SwarmRole) (ttl : ℕ) (signer : Signer) (now : ℕ) where
  -- What `add_member` went through when it returned a member.
  record Added (m : SwarmMember) (after : SwarmPassport) : Type 0 where
    narrowed : enforce_narrowing (role_mask c role) s.root_passport.capability_mask ≡ ok tt
    stored : after ≡ enroll c hex s m
    did : m.agent_did ≡ did_of hex agent
    played : m.role ≡ role
    committed : m.role_commitment ≡ compute_role_commitment c role (did_of hex agent) now
    issued : m.issued_at_unix ≡ now

  add_member-Added :
      (m : SwarmMember) (after : SwarmPassport)
      → add_member c hex nonce s agent role ttl signer now ≡ some (ok (m, after))
      → Added m after
  unfolding add_member on_ok on_some member_of
  add_member-Added m after h =
      elim (Result-cases (enforce_narrowing (role_mask c role) s.root_passport.capability_mask)) [
        | inr (e, q) ↦ absurd (ground (arith, q, h))
        | inl (u, q) ↦ elim (Result-cases (scope_root c s.root_passport)) [
          | inr (e, r) ↦ absurd (ground (arith, q, r, h))
          | inl (scope, r) ↦
              elim (Option-cases (sign c (member_builder nonce agent role scope now ttl) signer)) [
                | inl panics ↦ absurd (ground (arith, q, r, panics, h))
                | inr (t, signed) ↦
                    let made = member_of c hex agent role now ttl t in
                    let first : made ≡ m = ground (arith, q, r, signed, h) in
                    let second : enroll c hex s made ≡ after = ground (arith, q, r, signed, h) in
                    record {
                      narrowed = q;
                      stored = sym second ∙ ap (enroll c hex s) first;
                      did = ap (λ (z : SwarmMember). z.agent_did) (sym first);
                      played = ap (λ (z : SwarmMember). z.role) (sym first);
                      committed = ap (λ (z : SwarmMember). z.role_commitment) (sym first);
                      issued = ap (λ (z : SwarmMember). z.issued_at_unix) (sym first);
                    }
              ]
        ]
      ]

  Added-get :
      (m : SwarmMember) (after : SwarmPassport) (a : Added m after) (x : Bytes)
      → HashMap.get x after.members
        ≡ (if did_of hex agent == x then some m else HashMap.get x s.members)
  unfolding enroll
  Added-get m after a x = rw (a.stored, ← a.did) (get-insert m.agent_did x m s.members)

  -- A member that `add_member` returns is stored under its agent's identifier, every other member is
  -- kept, and no identifier stands twice; its role commitment verifies, it plays its role until it
  -- expires, and the mask of its role lies within the passport's.
  pub add_member-enrolls :
      (m : SwarmMember) (after : SwarmPassport) (other : Bytes) (later : ℕ)
      → IsDistinct s.members
      → add_member c hex nonce s agent role ttl signer now ≡ some (ok (m, after))
      → IsDistinct after.members
        × (HashMap.get other after.members
            ≡ (if did_of hex agent == other then some m else HashMap.get other s.members))
        × (verify_role_commitment c m ≡ true)
        × (has_role after (did_of hex agent) later (name role) ≡ not (is_expired m later))
        × (is_subset_of (role_mask c role) s.root_passport.capability_mask ≡ true)
  unfolding enroll has_role plays verify_role_commitment enforce_narrowing
  add_member-enrolls m after other later d h =
      let a = add_member-Added m after h in
      (
        rw a.stored (insert-IsDistinct m.agent_did m s.members d),
        Added-get m after a other,
        rw (a.played, a.did, a.issued, a.committed) (bytes_beq_refl _),
        (let same : (did_of hex agent == did_of hex agent) ≡ true =
              bytes_beq_refl (did_of hex agent) in
            let found = Added-get m after a (did_of hex agent) in
            let named : (name role == name role) ≡ true = bytes_beq_refl (name role) in
            ap (plays later (name role)) (
              found
              ∙ ap (λ (b : Bool). if b then some m else HashMap.get (did_of hex agent) s.members)
                  same)
            ∙ rw (a.played, named) (ground arith)),
        ground (arith, a.narrowed),
      )
