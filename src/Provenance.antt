-- ===== src/Provenance.antt =====
-- src/provenance.rs: reasoning traces, the roots that commit to them, and proofs of single steps.
pub mod Powers
pub mod Perfect
pub mod Hashed
pub mod Traces
use dyolo_kya.Prelude.{
  ℕ, zero, suc, ◌+◌, ◌-◌, ◌*◌, ◌/◌, ◌%◌, Bool, true, false, not, ◌&&◌, ltb, leb, ◌==◌, nat_eq,
  if◌then◌else◌, length, get_or, last_or, get_elem?, take, replicate, is_empty, List, [], ◌∷◌, ◌++◌,
  map, Option, some, none, Result, ok, err,
}
use dyolo_kya.Prelude.Bytes.{Bytes, bytes_eq, text, le_bytes, u64_be}
use dyolo_kya.Error.{A1Error}
use dyolo_kya.Crypto.{Crypto, merkle_node, cert_version}

pub data ReasoningStepKind : Type 0 where
  thought tool_call observation decision plan_step final_action error retrieval : ReasoningStepKind

unfoldable pub as_u8 : ReasoningStepKind → ℕ
as_u8 ReasoningStepKind.thought = 1
as_u8 ReasoningStepKind.tool_call = 2
as_u8 ReasoningStepKind.observation = 3
as_u8 ReasoningStepKind.decision = 4
as_u8 ReasoningStepKind.plan_step = 5
as_u8 ReasoningStepKind.final_action = 6
as_u8 ReasoningStepKind.error = 7
as_u8 ReasoningStepKind.retrieval = 8

unfoldable pub name : ReasoningStepKind → Bytes
name ReasoningStepKind.thought = text "thought"
name ReasoningStepKind.tool_call = text "tool_call"
name ReasoningStepKind.observation = text "observation"
name ReasoningStepKind.decision = text "decision"
name ReasoningStepKind.plan_step = text "plan_step"
name ReasoningStepKind.final_action = text "final_action"
name ReasoningStepKind.error = text "error"
name ReasoningStepKind.retrieval = text "retrieval"

pub record ReasoningStep : Type 0 where
  pub index : ℕ
  pub kind : ReasoningStepKind
  pub content_hash : Bytes
  pub timestamp_unix : ℕ
  pub metadata_hash : Bytes

pub record ProvenanceRoot : Type 0 where
  pub step_count : ℕ
  pub merkle_root : Bytes
  pub trace_id : Bytes
  pub started_at_unix : ℕ
  pub finalized_at_unix : ℕ
  pub chain_binding : Bytes

pub record ProvenanceStepProof : Type 0 where
  pub step : ReasoningStep
  pub siblings : List Bytes
  pub step_count : ℕ

pub record ReasoningTrace : Type 0 where
  pub steps : List ReasoningStep
  pub trace_id : Bytes
  pub started_at_unix : ℕ

abbrev pub u32_mod : ℕ
u32_mod = 4294967296

abbrev pub u32_le : ℕ → Bytes
u32_le = le_bytes 4

-- The loop of `next_power_of_two`, on fuel.
unfoldable pub double_until : ℕ → ℕ → ℕ → ℕ
double_until zero n p = p
double_until (suc fuel) n p = let rest = double_until fuel n (2 * p) in if ltb p n then rest else p

-- 64 rounds, for a `usize` of 64 bits.
unfoldable pub next_power_of_two : ℕ → ℕ
next_power_of_two n = if leb n 1 then 1 else double_until 64 n 1

-- `trailing_zeros` of a 64-bit number, on fuel.
unfoldable pub count_zeros : ℕ → ℕ → ℕ
count_zeros zero n = 0
count_zeros (suc fuel) n = let rest = count_zeros fuel (n / 2) in if n % 2 == 0 then suc rest else 0

unfoldable pub trailing_zeros : ℕ → ℕ
trailing_zeros n = count_zeros 64 n

-- `Vec::resize`.
unfoldable pub resize : List Bytes → ℕ → Bytes → List Bytes
resize xs n v = take n (xs ++ replicate (n - length xs) v)

-- The random identifier of the trace is an argument.
unfoldable pub new : Bytes → ℕ → ReasoningTrace
new fresh_nonce started_at_unix = record {
  steps = [];
  trace_id = fresh_nonce;
  started_at_unix = started_at_unix;
}

-- `index` is the length `as u32`.
unfoldable pub record_hashed :
    ReasoningTrace → ReasoningStepKind → Bytes → Bytes → ℕ → ReasoningTrace
record_hashed t kind content_hash metadata_hash timestamp_unix = record t {
  steps =
      t.steps
      ++ (record {
        index = length t.steps % u32_mod;
        kind = kind;
        content_hash = content_hash;
        timestamp_unix = timestamp_unix;
        metadata_hash = metadata_hash;
      }
          ∷ []);
}

unfoldable pub encode_pairs : List (Bytes × Bytes) → Bytes
encode_pairs [] = []
encode_pairs ((k, v) ∷ m) = u32_le (length k) ++ (k ++ (u32_le (length v) ++ (v ++ encode_pairs m)))

-- The siblings of `verify`, from the leaf upward, over the hash of two children.
module _ (node : Bytes → Bytes → Bytes) where
  unfoldable pub climb : Bytes → ℕ → List Bytes → Bytes
  climb current idx [] = current
  climb current idx (s ∷ ss) =
      climb (if idx % 2 == 0 then node current s else node s current) (idx / 2) ss

  -- The nodes above a layer.
  unfoldable pub pair_up : List Bytes → List Bytes
  pair_up (a ∷ b ∷ r) = node a b ∷ pair_up r
  pair_up _ = []

  -- The loop of `build_merkle_root`, on fuel.
  unfoldable pub top : ℕ → List Bytes → Bytes
  top zero layer = get_or layer 0 []
  top (suc fuel) layer =
      let rest = top fuel (pair_up layer) in
      if ltb 1 (length layer) then rest else get_or layer 0 []

  -- The loop of `step_proof`.
  unfoldable pub siblings_of : ℕ → List Bytes → ℕ → List Bytes
  siblings_of zero layer idx = []
  siblings_of (suc depth) layer idx =
      get_or layer (if idx % 2 == 0 then idx + 1 else idx - 1) []
      ∷ siblings_of depth (pair_up layer) (idx / 2)

module _ (c : Crypto) where
  unfoldable pub leaf_hash : ReasoningStep → Bytes
  leaf_hash s = c.derive (text "a1::provenance::leaf::v1") (
      cert_version
      ∷ (u32_le s.index
          ++ (as_u8 s.kind ∷ (s.content_hash ++ (u64_be s.timestamp_unix ++ s.metadata_hash)))))

  unfoldable pub hash_metadata : List (Bytes × Bytes) → Bytes
  hash_metadata pairs =
      c.derive (text "a1::provenance::meta::v1") (u32_le (length pairs) ++ encode_pairs pairs)

  unfoldable pub compute_chain_binding : ProvenanceRoot → Bytes → Bytes
  compute_chain_binding root chain_fp = c.derive (text "a1::provenance::root::v1") (
      u32_le root.step_count
      ++ (root.merkle_root
          ++ (root.trace_id
              ++ (u64_be root.started_at_unix ++ (u64_be root.finalized_at_unix ++ chain_fp)))))

  unfoldable pub verify_chain_binding : ProvenanceRoot → Bytes → Bool
  verify_chain_binding root chain_fp = compute_chain_binding root chain_fp == root.chain_binding

  -- The hashes of the steps, the last one repeated up to a power of two.
  unfoldable pub leaves_of : List ReasoningStep → List Bytes
  leaves_of steps =
      resize (map leaf_hash steps) (next_power_of_two (length steps))
        (last_or (map leaf_hash steps) [])

  unfoldable pub build_merkle_root : List ReasoningStep → Bytes
  build_merkle_root steps = top (merkle_node c) 64 (leaves_of steps)

  unfoldable pub verify : ProvenanceStepProof → ProvenanceRoot → Bool
  verify p root =
      if leb p.step_count p.step.index
      then false
      else if not (p.step_count == root.step_count)
      then false
      else if not (length p.siblings == trailing_zeros (next_power_of_two p.step_count))
      then false
      else climb (merkle_node c) (leaf_hash p.step) p.step.index p.siblings == root.merkle_root

  unfoldable pub finalize : ReasoningTrace → ℕ → Bytes → Result A1Error ProvenanceRoot
  finalize t finalized_at_unix chain_fingerprint =
      if is_empty t.steps
      then err A1Error.empty_tree
      else let root : ProvenanceRoot = record {
        step_count = length t.steps % u32_mod;
        merkle_root = build_merkle_root t.steps;
        trace_id = t.trace_id;
        started_at_unix = t.started_at_unix;
        finalized_at_unix = finalized_at_unix;
        chain_binding = replicate 32 0;
      } in
        ok (record root { chain_binding = compute_chain_binding root chain_fingerprint })

  -- The proof of the step that stands at an index.
  unfoldable pub proof_at : ReasoningTrace → ℕ → ReasoningStep → ProvenanceStepProof
  proof_at t index step = record {
    step = step;
    siblings =
        siblings_of (merkle_node c) (trailing_zeros (next_power_of_two (length t.steps)))
          (leaves_of t.steps) index;
    step_count = length t.steps % u32_mod;
  }

  unfoldable pub step_proof : ReasoningTrace → ℕ → Option ProvenanceStepProof
  step_proof t index = elim (get_elem? t.steps index) [
    | none ↦ none
    | some step ↦ some (proof_at t index step)
  ]

  -- `record`, `record_tool_call` and `record_observation`; `hash` stands for `blake3::hash`.
  module _ (hash : Bytes → Bytes) where
    unfoldable pub record_content : ReasoningTrace → ReasoningStepKind → Bytes → ℕ → ReasoningTrace
    record_content t kind content at = record_hashed t kind (hash content) (replicate 32 0) at

    unfoldable pub record_tool_call : ReasoningTrace → Bytes → Bytes → ℕ → ReasoningTrace
    record_tool_call t tool_name input at =
        record_hashed t ReasoningStepKind.tool_call (hash input)
          (hash_metadata ((text "tool", tool_name) ∷ [])) at

    unfoldable pub record_observation : ReasoningTrace → Bytes → Bytes → ℕ → ReasoningTrace
    record_observation t tool_name output at =
        record_hashed t ReasoningStepKind.observation (hash output)
          (hash_metadata ((text "tool", tool_name) ∷ [])) at
