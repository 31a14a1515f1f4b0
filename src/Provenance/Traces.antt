-- ===== src/Provenance/Traces.antt =====
-- src/provenance.rs: the proof of a step is accepted, and an accepted proof is of the step that
-- stands at its index.
use dyolo_kya.Prelude.{
  ℕ, zero, suc, ◌+◌, ◌-◌, ◌%◌, ◌^◌, ◌≤◌, ◌<◌, ◌≡◌, ◌↔◌, refl, sym, ap, ◌∙◌, inl, inr, ◌⊎◌, true,
  false, nat_eq, is_empty, length, get_elem?, get_or, last_or, take, replicate, List, [], ◌∷◌, ◌++◌,
  map, length-map, length-append, length-replicate, Subset-append-append, some, ok, ok_injective,
  arith, Bool-cases,
}
use dyolo_kya.Prelude.Bytes.{Bytes, bytes_eq, bytes_beq_iff, bytes_beq_refl}
use dyolo_kya.Crypto.{Crypto, merkle_node}
use dyolo_kya.Provenance.{
  ReasoningStepKind, ReasoningStep, ReasoningTrace, ProvenanceRoot, ProvenanceStepProof, u32_mod,
  next_power_of_two, trailing_zeros, resize, new, record_hashed, climb, leaf_hash, leaves_of,
  build_merkle_root, compute_chain_binding, verify_chain_binding, verify, finalize, proof_at,
  step_proof,
}
use dyolo_kya.Provenance.Powers.{next_power_of_two_lem, trailing_zeros-pow}
use dyolo_kya.Provenance.Perfect.{apex, top-eq-apex, length-siblings_of, climb-siblings_of}
use dyolo_kya.Provenance.Hashed.{climb_pairs, layer_pairs, layer_pairs-Subset, climb_sound}
use dyolo_kya.Crypto.Collision.{Collision, Collision-widen}

take-all : (xs : List Bytes) (n : ℕ) → length xs ≡ n → take n xs ≡ xs
take-all [] zero e = refl
take-all [] (suc n) e = absurd (omega arith)
take-all (x ∷ xs) zero e = absurd (omega arith)
take-all (x ∷ xs) (suc n) e = ap (λ z. x ∷ z) (take-all xs n (omega arith))

resize_up :
    (xs : List Bytes) (n : ℕ) (v : Bytes)
    → length xs ≤ n
    → resize xs n v ≡ xs ++ replicate (n - length xs) v
unfolding resize
resize_up xs n v h = take-all (xs ++ replicate (n - length xs) v) n (
    omega
      (arith, length-append xs (replicate (n - length xs) v), length-replicate (n - length xs) v))

get_elem?-append :
    {A : Type 0} (xs ys : List A) (i : ℕ) (a : A)
    → get_elem? xs i ≡ some a
    → get_elem? (xs ++ ys) i ≡ some a
get_elem?-append [] ys i a e = cc e
get_elem?-append (x ∷ xs) ys zero a e = e
get_elem?-append (x ∷ xs) ys (suc i) a e = get_elem?-append xs ys i a e

get_or-of_elem :
    (xs : List Bytes) (i : ℕ) (a : Bytes) → get_elem? xs i ≡ some a → get_or xs i [] ≡ a
get_or-of_elem [] i a e = cc e
get_or-of_elem (x ∷ xs) zero a e = ground arith
get_or-of_elem (x ∷ xs) (suc i) a e = get_or-of_elem xs i a e

get_elem?-map :
    (f : ReasoningStep → Bytes) (xs : List ReasoningStep) (i : ℕ) (a : ReasoningStep)
    → get_elem? xs i ≡ some a
    → get_elem? (map f xs) i ≡ some (f a)
get_elem?-map f [] i a e = cc e
get_elem?-map f (x ∷ xs) zero a e = ground arith
get_elem?-map f (x ∷ xs) (suc i) a e = get_elem?-map f xs i a e

get_elem?-below :
    (xs : List ReasoningStep) (i : ℕ)
    → i < length xs
    → (a : ReasoningStep) × (get_elem? xs i ≡ some a)
get_elem?-below [] i h = elim h [ ]
get_elem?-below (x ∷ xs) zero h = (x, refl)
get_elem?-below (x ∷ xs) (suc i) h = get_elem?-below xs i (omega arith)

-- Every step carries its position, as a `u32`.
pub IsNumbered : ReasoningTrace → Type 0
IsNumbered t = (i : ℕ) (s : ReasoningStep) → get_elem? t.steps i ≡ some s → s.index ≡ i % u32_mod

pub new-IsNumbered : (id : Bytes) (at : ℕ) → IsNumbered (new id at)
unfolding new IsNumbered
new-IsNumbered id at i s h = cc h

numbered_end :
    (n : ℕ) (xs : List ReasoningStep) (new : ReasoningStep) (i : ℕ) (s : ReasoningStep)
    → new.index ≡ (n + length xs) % u32_mod
    → ((j : ℕ) (r : ReasoningStep) → get_elem? xs j ≡ some r → r.index ≡ (n + j) % u32_mod)
    → get_elem? (xs ++ (new ∷ [])) i ≡ some s
    → s.index ≡ (n + i) % u32_mod
numbered_end n [] new zero s e f h =
    let same : new ≡ s = ground (arith, h) in sym (ap (λ (z : ReasoningStep). z.index) same) ∙ e
numbered_end n [] new (suc i) s e f h = cc h
numbered_end n (x ∷ xs) new zero s e f h = f 0 s h
numbered_end n (x ∷ xs) new (suc i) s e f h =
    let shift : (j : ℕ) → suc n + j ≡ n + suc j = λ j. omega arith in
    rw (← shift i) (
      numbered_end (suc n) xs new i s (rw (shift (length xs)) e)
        (λ j r k. rw (shift j) (f (suc j) r k)) h)

-- A new step takes the next position.
pub record_hashed-IsNumbered :
    (t : ReasoningTrace) (kind : ReasoningStepKind) (content metadata : Bytes) (at : ℕ)
    → IsNumbered t
    → IsNumbered (record_hashed t kind content metadata at)
unfolding record_hashed IsNumbered
record_hashed-IsNumbered t kind content metadata at v i s h =
    let zero_left : (j : ℕ) → 0 + j ≡ j = λ j. omega arith in
    rw (zero_left i) at (
      numbered_end 0 t.steps _ i s (rw (zero_left (length t.steps)) refl)
        (λ j r k. rw (zero_left j) (v j r k)) h)

module _ (c : Crypto) where
  record Layered (steps : List ReasoningStep) : Type 0 where
    depth : ℕ
    padded : next_power_of_two (length steps) ≡ 2 ^ depth
    enough : length steps ≤ 2 ^ depth
    bounded : depth ≤ 63
    size : length (leaves_of c steps) ≡ 2 ^ depth
    leaf :
        (i : ℕ) (s : ReasoningStep)
        → get_elem? steps i ≡ some s
        → get_or (leaves_of c steps) i [] ≡ leaf_hash c s

  layered : (steps : List ReasoningStep) → length steps < u32_mod → Layered steps
  unfolding leaves_of
  layered steps short =
      let (j, runs, enough, bound, tight) = next_power_of_two_lem (length steps) (omega arith) in
      let hashes = map (leaf_hash c) steps in
      let fits : length hashes ≤ next_power_of_two (length steps) =
        omega (arith, runs, enough, length-map (leaf_hash c) steps) in
      let shape = resize_up hashes (next_power_of_two (length steps)) (last_or hashes []) fits in
      record {
        depth = j;
        padded = runs;
        enough = enough;
        bounded = bound;
        size = rw shape (
            omega (
              arith,
              length-append hashes (
                  replicate (next_power_of_two (length steps) - length hashes) (last_or hashes [])),
              length-replicate (next_power_of_two (length steps) - length hashes)
                  (last_or hashes []),
              fits,
              runs,
            ));
        leaf = λ i s h. rw shape (
            get_or-of_elem _ i (leaf_hash c s) (
              get_elem?-append hashes _ i (leaf_hash c s)
                (get_elem?-map (leaf_hash c) steps i s h)));
      }

  root_of :
      (steps : List ReasoningStep) (l : Layered steps)
      → build_merkle_root c steps ≡ apex (merkle_node c) l.depth (leaves_of c steps)
  unfolding build_merkle_root
  root_of steps l =
      top-eq-apex (merkle_node c) 64 l.depth (leaves_of c steps) l.size (omega (arith, l.bounded))

  depth_of :
      (steps : List ReasoningStep) (l : Layered steps)
      → trailing_zeros (next_power_of_two (length steps)) ≡ l.depth
  depth_of steps l = rw l.padded (trailing_zeros-pow l.depth l.bounded)

  -- What `verify` checks.
  verify_iff :
      (p : ProvenanceStepProof) (root : ProvenanceRoot)
      → (verify c p root ≡ true) ↔ (
          (p.step.index < p.step_count)
          × (p.step_count ≡ root.step_count)
          × (length p.siblings ≡ trailing_zeros (next_power_of_two p.step_count))
          × (climb (merkle_node c) (leaf_hash c p.step) p.step.index p.siblings ≡ root.merkle_root))
  unfolding verify
  verify_iff p root =
      let same =
        bytes_beq_iff (climb (merkle_node c) (leaf_hash c p.step) p.step.index p.siblings)
          root.merkle_root in
      (λ h. ground (arith, h, same), λ h. ground (arith, h, same))

  module _ (t : ReasoningTrace) (short : length t.steps < u32_mod) where
    -- What a trace of at least one step is finalized to.
    abbrev finalized : ℕ → Bytes → ProvenanceRoot
    finalized at fp =
        let root : ProvenanceRoot = record {
          step_count = length t.steps % u32_mod;
          merkle_root = build_merkle_root c t.steps;
          trace_id = t.trace_id;
          started_at_unix = t.started_at_unix;
          finalized_at_unix = at;
          chain_binding = replicate 32 0;
        } in
        record root { chain_binding = compute_chain_binding c root fp }

    shown : length t.steps % u32_mod ≡ length t.steps
    shown = omega arith

    proof_verified :
        (i : ℕ) (s : ReasoningStep) (at : ℕ) (fp : Bytes)
        → get_elem? t.steps i ≡ some s
        → s.index ≡ i
        → i < length t.steps
        → verify c (proof_at c t i s) (finalized at fp) ≡ true
    unfolding proof_at
    proof_verified i s at fp h numbered within =
        let l = layered t.steps short in
        let reached =
          climb-siblings_of (merkle_node c) l.depth (leaves_of c t.steps) i l.size
            (omega (arith, l.enough)) in
        (verify_iff (proof_at c t i s) (finalized at fp)).1 (
          omega (arith, shown),
          refl,
          rw (shown, depth_of t.steps l)
              (length-siblings_of (merkle_node c) l.depth (leaves_of c t.steps) i),
          rw (← l.leaf i s h, numbered, depth_of t.steps l, root_of t.steps l) reached,
        )

    finalize-finalized :
        (i : ℕ) (at : ℕ) (fp : Bytes)
        → i < length t.steps
        → finalize c t at fp ≡ ok (finalized at fp)
    unfolding finalize
    finalize-finalized i at fp h =
        let some_step : is_empty t.steps ≡ false = nonempty t.steps h in rw some_step refl
      where
        nonempty : (xs : List ReasoningStep) → i < length xs → is_empty xs ≡ false
        nonempty [] h = elim h [ ]
        nonempty (x ∷ xs) h = refl

    -- Each step of a numbered trace of fewer than 2 ^ 32 steps has a proof, the trace is finalized,
    -- and the root accepts the proof and is bound to the chain that it was finalized for.
    pub step_proof-verify :
        (i at : ℕ) (fp : Bytes)
        → IsNumbered t
        → i < length t.steps
        → (p : ProvenanceStepProof) × (root : ProvenanceRoot) × (step_proof c t i ≡ some p)
          × (finalize c t at fp ≡ ok root)
          × (verify c p root ≡ true)
          × (verify_chain_binding c root fp ≡ true)
    unfolding IsNumbered step_proof verify_chain_binding compute_chain_binding
    step_proof-verify i at fp numbered h =
        let (s, found) = get_elem?-below t.steps i h in
        (
          proof_at c t i s,
          finalized at fp,
          rw (found, step_proof) refl,
          finalize-finalized i at fp h,
          proof_verified i s at fp found (omega (arith, numbered i s found)) h,
          bytes_beq_refl _,
        )

    ok_of :
        (at : ℕ) (fp : Bytes) (root : ProvenanceRoot)
        → finalize c t at fp ≡ ok root
        → finalized at fp ≡ root
    unfolding finalize
    ok_of at fp root made = elim (Bool-cases (is_empty t.steps)) [
      | inl e ↦ absurd (ground (arith, e, made))
      | inr e ↦ ok_injective (finalized at fp) root (rw e at made)
    ]

    -- A proof that the root of a trace accepts is of the step that stands at its index: it has that
    -- step's hash, unless two different pairs of children have one hash among those that are hashed when
    -- the proof is verified and the root of the trace is built.
    pub verify_at_index :
        (at : ℕ) (fp : Bytes) (root : ProvenanceRoot) (p : ProvenanceStepProof)
        → finalize c t at fp ≡ ok root
        → verify c p root ≡ true
        → (s : ReasoningStep) × (get_elem? t.steps p.step.index ≡ some s)
          × ((leaf_hash c p.step ≡ leaf_hash c s)
              ⊎ Collision (merkle_node c) (
                  climb_pairs (merkle_node c) (leaf_hash c p.step) p.step.index p.siblings
                  ++ layer_pairs (merkle_node c) 64 (leaves_of c t.steps)))
    verify_at_index at fp root p made accepted =
        let l = layered t.steps short in
        let (within, count, depth, reached) = (verify_iff p root).0 accepted in
        let same : finalized at fp ≡ root = ok_of at fp root made in
        let counted : p.step_count ≡ length t.steps =
          count ∙ ap (λ (z : ProvenanceRoot). z.step_count) (sym same) ∙ shown in
        let (s, found) = get_elem?-below t.steps p.step.index (omega (arith, within, counted)) in
        let bottom =
          climb_sound (merkle_node c) l.depth (leaves_of c t.steps) p.step.index
            (leaf_hash c p.step) p.siblings
            (depth ∙ ap (λ z. trailing_zeros (next_power_of_two z)) counted ∙ depth_of t.steps l)
            l.size (omega (arith, within, counted, l.enough))
            (reached ∙ ap (λ (z : ProvenanceRoot). z.merkle_root) (sym same) ∙ root_of t.steps l) in
        let steps = climb_pairs (merkle_node c) (leaf_hash c p.step) p.step.index p.siblings in
        (
          s,
          found,
          elim bottom [
            | inl e ↦ inl (e ∙ l.leaf p.step.index s found)
            | inr k ↦ inr (
                Collision-widen (merkle_node c)
                  (steps ++ layer_pairs (merkle_node c) l.depth (leaves_of c t.steps))
                  (steps ++ layer_pairs (merkle_node c) 64 (leaves_of c t.steps))
                  (Subset-append-append steps
                    (layer_pairs (merkle_node c) l.depth (leaves_of c t.steps)) steps
                    (layer_pairs (merkle_node c) 64 (leaves_of c t.steps)) (λ q m. m)
                    (layer_pairs-Subset (merkle_node c) l.depth 64 (leaves_of c t.steps)
                      (omega (arith, l.bounded))))
                  k)
          ],
        )
