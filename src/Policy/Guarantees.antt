-- ===== src/Policy/Guarantees.antt =====
-- src/policy.rs: what a chain that passes a policy satisfies, and what a capability prefix allows.
use dyolo_kya.Prelude.{
  ℕ, ◌-◌, ◌≤◌, ◌≡◌, ◌↔◌, ◌⊎◌, inl, inr, refl, Bool, true, false, not, ◌&&◌, ◌||◌, ltb, ◌==◌, length,
  is_empty, any, All, In, List, [], ◌∷◌, ◌++◌, Option, some, none, ok, fail_if, map_err, arith,
  then-eq-ok_iff, fail_if-eq-ok_iff, map_err-eq-ok_iff, Option-cases, nat_eq,
}
use dyolo_kya.Prelude.Bytes.{Bytes, bytes_eq, bytes_beq_iff}
use dyolo_kya.Error.{A1Error}
use dyolo_kya.Extensions
use dyolo_kya.Cert.{DelegationCert}
use dyolo_kya.Chain.{DyoloChain}
use dyolo_kya.Policy.{
  PolicyViolation, DelegationPolicy, check_trusted, check_depth, check_ttl, has_sub, is_absent,
  check_extensions, check_cert, check_certs, check_policy, check_chain, violation_message,
  ends_with_mark, trim_marks, starts_with, prefix_permits, permits,
}

-- At most the limit, where there is one.
abbrev pub Within : Option ℕ → ℕ → Type 0
Within none n = Unit
Within (some limit) n = n ≤ limit

pub record CertMeets (p : DelegationPolicy) (t : DelegationCert) : Type 0 where
  pub ttl : Within p.max_ttl_secs (t.expiration_unix - t.issued_at)
  pub undivided :
      (p.allow_sub_delegation ≡ true)
      ⊎ ((t.max_depth ≡ 0) ⊎ ((t.scope_proof.subset_intents ≡ []) × (t.scope_proof.proofs ≡ [])))
  pub extended :
      All
        (λ k. (v : Extensions.ExtValue) × (Extensions.get t.extensions k ≡ some v))
        p.required_extensions

-- What a policy asks of a chain.
pub record Meets (p : DelegationPolicy) (ch : DyoloChain) : Type 0 where
  pub trusted : (p.trusted_principal_pks ≡ []) ⊎ In ch.principal_pk p.trusted_principal_pks
  pub depth : Within p.max_chain_depth (length ch.certs)
  pub certs : All (CertMeets p) ch.certs

In-any_iff : (x : Bytes) (xs : List Bytes) → (any (λ t. t == x) xs ≡ true) ↔ In x xs
In-any_iff x [] = (λ h. cc, λ h. elim h [ ])
In-any_iff x (y ∷ ys) = (
  λ h. ground (arith, bytes_beq_iff y x, (In-any_iff x ys).0),
  λ h. ground (arith, bytes_beq_iff y x, (In-any_iff x ys).1),
)

trusted_iff :
    (trusted : List Bytes) (pk : Bytes)
    → (check_trusted trusted pk ≡ ok tt) ↔ ((trusted ≡ []) ⊎ In pk trusted)
unfolding check_trusted
trusted_iff [] pk = (λ h. inl refl, λ h. refl)
trusted_iff (t ∷ ts) pk = (
  λ h. inr ((In-any_iff pk (t ∷ ts)).0 (ground arith)),
  λ h. ground (arith, (In-any_iff pk (t ∷ ts)).1),
)

depth_iff : (limit : Option ℕ) (n : ℕ) → (check_depth limit n ≡ ok tt) ↔ Within limit n
unfolding check_depth
depth_iff none n = (λ h. tt, λ h. refl)
depth_iff (some m) n = (λ h. ground arith, λ h. ground arith)

ttl_iff : (limit : Option ℕ) (n : ℕ) → (check_ttl limit n ≡ ok tt) ↔ Within limit n
unfolding check_ttl
ttl_iff none n = (λ h. tt, λ h. refl)
ttl_iff (some m) n = (λ h. ground arith, λ h. ground arith)

extensions_iff :
    (keys : List Bytes) (t : DelegationCert)
    → (check_extensions keys t ≡ ok tt)
      ↔ All (λ k. (v : Extensions.ExtValue) × (Extensions.get t.extensions k ≡ some v)) keys
unfolding check_extensions is_absent
extensions_iff [] t = (λ h. tt, λ h. refl)
extensions_iff (k ∷ ks) t = elim (Option-cases (Extensions.get t.extensions k)) [
  | inl none_there ↦ (λ h. absurd (ground arith), λ h. absurd (ground (arith, h.0.1)))
  | inr (v, there) ↦ (
    λ h. ((v, there), (extensions_iff ks t).0 (ground arith)),
    λ h. rw there ((extensions_iff ks t).1 h.1),
  )
]

module _ (p : DelegationPolicy) where
  undivided_iff :
      (t : DelegationCert)
      → (not p.allow_sub_delegation && (has_sub t && ltb 0 t.max_depth) ≡ false) ↔ (
          (p.allow_sub_delegation ≡ true)
          ⊎ ((t.max_depth ≡ 0)
              ⊎ ((t.scope_proof.subset_intents ≡ []) × (t.scope_proof.proofs ≡ []))))
  unfolding has_sub
  undivided_iff t = (
    λ h.
        undivided_cases p.allow_sub_delegation t.max_depth t.scope_proof.subset_intents
          t.scope_proof.proofs h,
    λ h. ground arith,
  )
    where
      undivided_cases :
          {A B : Type 0} (allow : Bool) (depth : ℕ) (xs : List A) (ys : List B)
          → not allow && ((not (is_empty xs) || not (is_empty ys)) && ltb 0 depth) ≡ false
          → (allow ≡ true) ⊎ ((depth ≡ 0) ⊎ ((xs ≡ []) × (ys ≡ [])))
      undivided_cases true depth xs ys h = inl refl
      undivided_cases false depth [] [] h = inr (inr (refl, refl))
      undivided_cases false depth (x ∷ xs) ys h = inr (inl (ground arith))
      undivided_cases false depth [] (y ∷ ys) h = inr (inl (ground arith))

  cert_iff : (t : DelegationCert) → (check_cert p t ≡ ok tt) ↔ CertMeets p t
  unfolding check_cert
  cert_iff t =
      let split =
        then-eq-ok_iff (check_ttl p.max_ttl_secs (t.expiration_unix - t.issued_at)) _ tt in
      let rest =
        then-eq-ok_iff
          (fail_if (not p.allow_sub_delegation && (has_sub t && ltb 0 t.max_depth))
            PolicyViolation.sub_delegation_forbidden)
          (check_extensions p.required_extensions t) tt in
      let sub =
        fail_if-eq-ok_iff (not p.allow_sub_delegation && (has_sub t && ltb 0 t.max_depth))
          PolicyViolation.sub_delegation_forbidden in
      (
        λ h. record {
          ttl = (ttl_iff _ _).0 (split.0 h).0;
          undivided = (undivided_iff t).0 (sub.0 (rest.0 (split.0 h).1).0);
          extended = (extensions_iff _ t).0 (rest.0 (split.0 h).1).1;
        },
        λ m. split.1 (
          (ttl_iff _ _).1 m.ttl,
          rest.1 (sub.1 ((undivided_iff t).1 m.undivided), (extensions_iff _ t).1 m.extended),
        ),
      )

  certs_iff : (ts : List DelegationCert) → (check_certs p ts ≡ ok tt) ↔ All (CertMeets p) ts
  unfolding check_certs
  certs_iff [] = (λ h. tt, λ h. refl)
  certs_iff (t ∷ ts) = (
    λ h. ((cert_iff t).0 (ground arith), (certs_iff ts).0 (ground arith)),
    λ h. rw ((cert_iff t).1 h.0) ((certs_iff ts).1 h.1),
  )

  -- A policy accepts exactly the chains that meet it: a trusted principal, no more certificates
  -- than allowed, and each with a short enough life, every required extension and, where
  -- sub-delegation is not allowed, no scope proof or a depth limit of 0.
  pub check_policy_iff : (ch : DyoloChain) → (check_policy p ch ≡ ok tt) ↔ Meets p ch
  unfolding check_policy
  check_policy_iff ch =
      let split = then-eq-ok_iff (check_trusted p.trusted_principal_pks ch.principal_pk) _ tt in
      let rest =
        then-eq-ok_iff (check_depth p.max_chain_depth (length ch.certs)) (check_certs p ch.certs)
          tt in
      (
        λ h. record {
          trusted = (trusted_iff _ _).0 (split.0 h).0;
          depth = (depth_iff _ _).0 (rest.0 (split.0 h).1).0;
          certs = (certs_iff _).0 (rest.0 (split.0 h).1).1;
        },
        λ m. split.1 (
          (trusted_iff _ _).1 m.trusted,
          rest.1 ((depth_iff _ _).1 m.depth, (certs_iff _).1 m.certs),
        ),
      )

-- A set of policies accepts exactly the chains that meet every policy of it.
pub check_chain_iff :
    (ps : List DelegationPolicy) (ch : DyoloChain)
    → (check_chain ps ch ≡ ok tt) ↔ All (λ p. Meets p ch) ps
unfolding check_chain
check_chain_iff [] ch = (λ h. tt, λ h. refl)
check_chain_iff (p ∷ ps) ch =
    let message = λ (v : PolicyViolation). A1Error.policy_violation (violation_message v) in
    let split = then-eq-ok_iff (map_err message (check_policy p ch)) (check_chain ps ch) tt in
    let checked = map_err-eq-ok_iff message (check_policy p ch) tt in
    (
      λ h. (
        (check_policy_iff p ch).0 (checked.0 (split.0 h).0),
        (check_chain_iff ps ch).0 (split.0 h).1,
      ),
      λ m. split.1 (checked.1 ((check_policy_iff p ch).1 m.0), (check_chain_iff ps ch).1 m.1),
    )

starts_with-append : (stem rest : Bytes) → starts_with (stem ++ rest) stem ≡ true
unfolding starts_with
starts_with-append [] [] = refl
starts_with-append [] (r ∷ rest) = refl
starts_with-append (b ∷ stem) rest = ground (arith, starts_with-append stem rest)

-- The last byte of the stem is no mark, or the stem is empty.
trim_marks-append :
    (stem : Bytes) → ends_with_mark stem ≡ false → trim_marks (stem ++ (b'.' ∷ [])) ≡ stem
unfolding trim_marks ends_with_mark
trim_marks-append [] h = refl
trim_marks-append (b ∷ []) h = ground arith
trim_marks-append (b ∷ d ∷ stem) h = rw (trim_marks-append (d ∷ stem) h) refl

ends_with_mark-append : (stem : Bytes) → ends_with_mark (stem ++ (b'.' ∷ [])) ≡ true
unfolding ends_with_mark
ends_with_mark-append [] = refl
ends_with_mark-append (b ∷ []) = refl
ends_with_mark-append (b ∷ d ∷ stem) = ends_with_mark-append (d ∷ stem)

-- Where a stem does not end in a dot or a star, a set with the prefix `stem.` permits every action
-- that starts with the stem, with or without the dot: the dot is trimmed before the comparison,
-- so that `trade.` permits `trader` as well.
permits_beyond_dot :
    (stem rest : Bytes) (others : List Bytes)
    → ends_with_mark stem ≡ false
    → permits (record { prefixes = (stem ++ (b'.' ∷ [])) ∷ others }) (stem ++ rest) ≡ true
unfolding permits prefix_permits
permits_beyond_dot stem rest others h =
    rw (ends_with_mark-append stem, trim_marks-append stem h, starts_with-append stem rest)
      (ground arith)
