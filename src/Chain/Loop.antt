-- ===== src/Chain/Loop.antt =====
-- The loop of `validate_structure`: its facts about loop variables, as facts about the list of
-- certificates, and back.
use dyolo_kya.Prelude.{
  ℕ, ◌+◌, ◌≤◌, ◌≡◌, ◌≢◌, inl, inr, refl, subst, false, ◌==◌, length, any, All, In, List, [], ◌∷◌,
  ◌++◌, map, arith, append_assoc, append-nil, ◌∙◌, In-append-cases, In-append_left, In-append_right,
}
use dyolo_kya.Prelude.Bytes.{Bytes, bytes_eq, bytes_beq_iff}
use dyolo_kya.Crypto.{Crypto, cert_version}
use dyolo_kya.Cert.{DelegationCert, cert_message, fingerprint}
use dyolo_kya.Chain.{HopState, advance}
use dyolo_kya.Chain.Spec.{
  Linked, InWindow, Shrinking, DeepEnough, NoRepeat, Scoped, nonces, last_scope,
}
use dyolo_kya.Chain.Hops.{HopsPass, advance_all}

In-of_any : (n : Bytes) (xs : List Bytes) → any (λ seen. seen == n) xs ≡ false → ¬ In n xs
In-of_any n [] h m = elim m [ ]
In-of_any n (x ∷ xs) h (inl e) = ground (arith, bytes_beq_iff x n)
In-of_any n (x ∷ xs) h (inr m) = In-of_any n xs (ground arith) m

any_of_not_In : (n : Bytes) (xs : List Bytes) → ¬ In n xs → any (λ seen. seen == n) xs ≡ false
any_of_not_In n [] h = refl
any_of_not_In n (x ∷ xs) h =
    ground (arith, bytes_beq_iff x n, any_of_not_In n xs (λ m. h (inr m)), λ (e : n ≡ x). h (inl e))

-- No nonce of `ts` is among those seen before, or stands twice in `ts`.
abbrev pub Fresh : List Bytes → List Bytes → Type 0
Fresh seen [] = Unit
Fresh seen (n ∷ ns) = (¬ In n seen) × Fresh (seen ++ (n ∷ [])) ns

Fresh-not_In : (seen ns : List Bytes) (n : Bytes) → In n seen → Fresh seen ns → ¬ In n ns
Fresh-not_In seen [] n m f k = elim k [ ]
Fresh-not_In seen (x ∷ ns) n m f (inl e) = f.0 (subst (λ z. In z seen) e m)
Fresh-not_In seen (x ∷ ns) n m f (inr k) =
    Fresh-not_In (seen ++ (x ∷ [])) ns n (In-append_left n seen (x ∷ []) m) f.1 k

NoRepeat-of_Fresh : (seen ns : List Bytes) → Fresh seen ns → NoRepeat ns
NoRepeat-of_Fresh seen [] f = tt
NoRepeat-of_Fresh seen (n ∷ ns) f = (
  Fresh-not_In (seen ++ (n ∷ [])) ns n (In-append_right n seen (n ∷ []) (inl refl)) f.1,
  NoRepeat-of_Fresh (seen ++ (n ∷ [])) ns f.1,
)

pub Fresh-of_NoRepeat :
    (seen ns : List Bytes) → ((n : Bytes) → In n ns → ¬ In n seen) → NoRepeat ns → Fresh seen ns
Fresh-of_NoRepeat seen [] apart r = tt
Fresh-of_NoRepeat seen (n ∷ ns) apart r = (
  apart n (inl refl),
  Fresh-of_NoRepeat (seen ++ (n ∷ [])) ns
      (λ m k h. elim (In-append-cases m seen (n ∷ []) h) [
        | inl old ↦ apart m (inr k) old
        | inr (inl e) ↦ r.0 (subst (λ z. In z ns) e k)
        | inr (inr none) ↦ none
      ])
      r.1,
)

module _ (c : Crypto) (now drift : ℕ) where
  pub hops-Linked :
      (st : HopState) (ts : List DelegationCert)
      → HopsPass c now drift st ts
      → Linked st.expected_delegator ts (advance_all c st ts).expected_delegator
  unfolding advance
  hops-Linked st [] h = refl
  hops-Linked st (t ∷ ts) h = (h.0.linked, hops-Linked (advance c st t) ts h.1)

  pub hops-versions :
      (st : HopState) (ts : List DelegationCert)
      → HopsPass c now drift st ts
      → All (λ t. t.version ≡ cert_version) ts
  hops-versions st [] h = tt
  hops-versions st (t ∷ ts) h = (h.0.version, hops-versions (advance c st t) ts h.1)

  pub hops-InWindow :
      (st : HopState) (ts : List DelegationCert)
      → HopsPass c now drift st ts
      → All (InWindow now drift) ts
  hops-InWindow st [] h = tt
  hops-InWindow st (t ∷ ts) h =
      ((h.0.not_early, h.0.not_late), hops-InWindow (advance c st t) ts h.1)

  pub hops-Shrinking :
      (st : HopState) (ts : List DelegationCert)
      → HopsPass c now drift st ts
      → Shrinking st.parent_expiry ts
  unfolding advance
  hops-Shrinking st [] h = tt
  hops-Shrinking st (t ∷ ts) h = (h.0.shrinks, hops-Shrinking (advance c st t) ts h.1)

  pub hops-Scoped :
      (st : HopState) (ts : List DelegationCert)
      → HopsPass c now drift st ts
      → Scoped c st.current_scope ts
  unfolding advance
  hops-Scoped st [] h = tt
  hops-Scoped st (t ∷ ts) h = (h.0.scoped, hops-Scoped (advance c st t) ts h.1)

  hops-Fresh :
      (st : HopState) (ts : List DelegationCert)
      → HopsPass c now drift st ts
      → Fresh st.seen_nonces (nonces ts)
  unfolding advance
  hops-Fresh st [] h = tt
  hops-Fresh st (t ∷ ts) h =
      (In-of_any t.nonce st.seen_nonces h.0.fresh, hops-Fresh (advance c st t) ts h.1)

  pub hops-NoRepeat :
      (st : HopState) (ts : List DelegationCert) → HopsPass c now drift st ts → NoRepeat (nonces ts)
  hops-NoRepeat st ts h = NoRepeat-of_Fresh st.seen_nonces (nonces ts) (hops-Fresh st ts h)

  -- With `n` certificates in all, the limits of those passed allow `n`, if any is left.
  pub hops-DeepEnough :
      (st : HopState) (ts : List DelegationCert) (n : ℕ)
      → HopsPass c now drift st ts
      → n ≡ st.depth + length ts
      → DeepEnough n ts × (ts ≢ [] → n ≤ st.max_allowed_depth)
  unfolding advance
  hops-DeepEnough st [] n h e = (tt, λ k. absurd (k refl))
  hops-DeepEnough st (t ∷ []) n h e = (tt, λ k. omega (arith, h.0.shallow))
  hops-DeepEnough st (t ∷ u ∷ ts) n h e =
      let (deep, bound) = hops-DeepEnough (advance c st t) (u ∷ ts) n h.1 (omega arith) in
      let limit = bound (λ k. cc k) in ((ground (arith, limit), deep), λ k. ground (arith, limit))

  -- The way back: the facts about the list make every hop pass.
  pub hops-pass :
      (st : HopState) (ts : List DelegationCert) (to : Bytes) (n : ℕ)
      → Linked st.expected_delegator ts to
      → All (λ t. t.version ≡ cert_version) ts
      → All (InWindow now drift) ts
      → Shrinking st.parent_expiry ts
      → n ≡ st.depth + length ts
      → DeepEnough n ts
      → n ≤ st.max_allowed_depth
      → Fresh st.seen_nonces (nonces ts)
      → Scoped c st.current_scope ts
      → HopsPass c now drift st ts
  unfolding advance
  hops-pass st [] to n l v w s e d b f sc = tt
  hops-pass st (t ∷ []) to n l v w s e d b f sc = (
    record {
      linked = l.0;
      version = v.0;
      not_early = w.0.0;
      not_late = w.0.1;
      shrinks = s.0;
      shallow = omega arith;
      fresh = any_of_not_In t.nonce st.seen_nonces f.0;
      scoped = sc.0;
    },
    tt,
  )
  hops-pass st (t ∷ u ∷ ts) to n l v w s e d b f sc = (
    record {
      linked = l.0;
      version = v.0;
      not_early = w.0.0;
      not_late = w.0.1;
      shrinks = s.0;
      shallow = omega arith;
      fresh = any_of_not_In t.nonce st.seen_nonces f.0;
      scoped = sc.0;
    },
    hops-pass (advance c st t) (u ∷ ts) to n l.1 v.1 w.1 s.1 (omega arith) d.1 (ground arith) f.1
        sc.1,
  )

  -- What the loop leaves behind, by the list.
  pub record Collected (st last : HopState) (ts : List DelegationCert) : Type 0 where
    pub depth : last.depth ≡ st.depth + length ts
    pub scope : last.current_scope ≡ last_scope st.current_scope ts
    pub seen : last.seen_nonces ≡ st.seen_nonces ++ nonces ts
    pub prints : last.cert_fingerprints ≡ st.cert_fingerprints ++ map (fingerprint c) ts
    pub sigs : last.batch_sigs ≡ st.batch_sigs ++ map (λ t. t.signature) ts
    pub pks : last.batch_pks ≡ st.batch_pks ++ map (λ t. t.delegator_pk) ts
    pub msgs : last.batch_msgs ≡ st.batch_msgs ++ map (cert_message c) ts

  pub advance_all-Collected :
      (st : HopState) (ts : List DelegationCert) → Collected st (advance_all c st ts) ts
  unfolding advance
  advance_all-Collected st [] = record {
    depth = omega arith;
    scope = refl;
    seen = simp append-nil;
    prints = simp append-nil;
    sigs = simp append-nil;
    pks = simp append-nil;
    msgs = simp append-nil;
  }
  advance_all-Collected st (t ∷ ts) =
      let rest = advance_all-Collected (advance c st t) ts in
      record {
        depth = omega (arith, rest.depth);
        scope = rest.scope;
        seen = rest.seen ∙ append_assoc st.seen_nonces (t.nonce ∷ []) (nonces ts);
        prints =
            rest.prints
            ∙ append_assoc st.cert_fingerprints (fingerprint c t ∷ []) (map (fingerprint c) ts);
        sigs =
            rest.sigs ∙ append_assoc st.batch_sigs (t.signature ∷ []) (map (λ u. u.signature) ts);
        pks =
            rest.pks
            ∙ append_assoc st.batch_pks (t.delegator_pk ∷ []) (map (λ u. u.delegator_pk) ts);
        msgs =
            rest.msgs
            ∙ append_assoc st.batch_msgs (cert_message c t ∷ []) (map (cert_message c) ts);
      }
