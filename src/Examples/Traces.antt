-- ===== src/Examples/Traces.antt =====
-- A trace of three steps.
use dyolo_kya.Prelude.{◌<◌, ◌≡◌, ◌⊎◌, refl, true, [], ◌∷◌, ◌++◌, length, get_elem?, some, ok, arith}
use dyolo_kya.Crypto.{merkle_node}
use dyolo_kya.Provenance.{
  ReasoningStepKind, ReasoningStep, ReasoningTrace, ProvenanceRoot, ProvenanceStepProof, u32_mod,
  new, record_hashed, leaf_hash, next_power_of_two, double_until, finalize, step_proof, verify,
  verify_chain_binding, leaves_of,
}
use dyolo_kya.Crypto.Collision.{Collision}
use dyolo_kya.Provenance.Hashed.{climb_pairs, layer_pairs}
use dyolo_kya.Provenance.Traces.{
  IsNumbered, new-IsNumbered, record_hashed-IsNumbered, step_proof-verify, verify_at_index,
}
use dyolo_kya.Examples.World.{toy}

abbrev one : ReasoningTrace
one = record_hashed (new (9 ∷ []) 100) ReasoningStepKind.thought (1 ∷ []) [] 101

abbrev two : ReasoningTrace
two = record_hashed one ReasoningStepKind.tool_call (2 ∷ []) [] 102

abbrev pub three : ReasoningTrace
three = record_hashed two ReasoningStepKind.final_action (3 ∷ []) [] 103

pub three-IsNumbered : IsNumbered three
three-IsNumbered = record_hashed-IsNumbered two ReasoningStepKind.final_action (3 ∷ []) [] 103 (
    record_hashed-IsNumbered one ReasoningStepKind.tool_call (2 ∷ []) [] 102 (
      record_hashed-IsNumbered (new (9 ∷ []) 100) ReasoningStepKind.thought (1 ∷ []) [] 101
        (new-IsNumbered (9 ∷ []) 100)))

pub short : length three.steps < u32_mod
unfolding new record_hashed
short = ground arith

pub within : 2 < length three.steps
unfolding new record_hashed
within = ground arith

rounds_up : next_power_of_two 3 ≡ 4
unfolding next_power_of_two double_until
rounds_up = refl

step_proof-verify_example :
    (p : ProvenanceStepProof) × (root : ProvenanceRoot) × (step_proof toy three 2 ≡ some p)
    × (finalize toy three 110 (5 ∷ []) ≡ ok root)
    × (verify toy p root ≡ true)
    × (verify_chain_binding toy root (5 ∷ []) ≡ true)
step_proof-verify_example = step_proof-verify toy three short 2 110 (5 ∷ []) three-IsNumbered within

-- The proof and the root of the last step.
run :
    (p : ProvenanceStepProof) × (root : ProvenanceRoot) × (step_proof toy three 2 ≡ some p)
    × (finalize toy three 110 (5 ∷ []) ≡ ok root)
    × (verify toy p root ≡ true)
    × (verify_chain_binding toy root (5 ∷ []) ≡ true)
run = step_proof-verify toy three short 2 110 (5 ∷ []) three-IsNumbered within

verify_at_index_example :
    (s : ReasoningStep) × (get_elem? three.steps run.0.step.index ≡ some s)
    × ((leaf_hash toy run.0.step ≡ leaf_hash toy s)
        ⊎ Collision (merkle_node toy) (
            climb_pairs (merkle_node toy) (leaf_hash toy run.0.step) run.0.step.index run.0.siblings
            ++ layer_pairs (merkle_node toy) 64 (leaves_of toy three.steps)))
verify_at_index_example = verify_at_index toy three short 110 (5 ∷ []) run.1 run.0 run.3 run.4
