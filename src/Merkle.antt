-- ===== src/Merkle.antt =====
-- src/intent.rs: Merkle proofs, intent trees and sub-scope proofs.
-- Where `root` or an index panics in the source, on a tree with no layer, the definitions return an
-- empty byte string. `binary_search` is the position in the ascending
-- leaf list, each leaf of which stands there once.
pub mod Complete
pub mod Sound
pub mod Canonical
pub mod SubScope
use dyolo_kya.Prelude.{
  ℕ, zero, suc, ◌+◌, ◌-◌, ◌/◌, ◌%◌, Bool, true, false, not, ◌&&◌, ltb, ◌==◌, nat_eq, if◌then◌else◌,
  length, get_or, last_or, is_empty, List, [], ◌∷◌, ◌++◌, Option, some, none, Result, ok, err,
  ◌>>=◌, ◌>>◌, fail_if, map_err,
}
use dyolo_kya.Prelude.Bytes.{Bytes, bytes_eq, text, u64_le}
use dyolo_kya.Prelude.Sort.{sort, dedup}
use dyolo_kya.Error.{A1Error}
use dyolo_kya.Crypto.{Crypto, merkle_node, derive_key, domain_subscope, cert_version}

pub record SiblingNode : Type 0 where
  pub hash : Bytes
  pub is_left : Bool

pub record MerkleProof : Type 0 where
  pub siblings : List SiblingNode

pub record IntentTree : Type 0 where
  pub leaves : List Bytes
  pub layers : List (List Bytes)

pub record SubScopeProof : Type 0 where
  pub subset_intents : List Bytes
  pub proofs : List MerkleProof

module _ (c : Crypto) where
  -- The loop of `MerkleProof::verify`.
  unfoldable pub climb : Bytes → List SiblingNode → Bytes
  climb current [] = current
  climb current (n ∷ ns) =
      climb (if n.is_left then merkle_node c n.hash current else merkle_node c current n.hash) ns

  unfoldable pub proof_verify : MerkleProof → Bytes → Bytes → Bool
  proof_verify p leaf expected_root = climb leaf p.siblings == expected_root

  -- One round of the loop of `IntentTree::build`: the chunks of two.
  unfoldable pub next_layer : List Bytes → List Bytes
  next_layer [] = []
  next_layer (a ∷ []) = a ∷ []
  next_layer (a ∷ b ∷ r) = merkle_node c a b ∷ next_layer r

  -- The loop itself, with fuel: the layers from `current` up to the first of one element.
  unfoldable pub build_layers : ℕ → List Bytes → List (List Bytes)
  build_layers zero current = current ∷ []
  build_layers (suc fuel) current =
      let rest = build_layers fuel (next_layer current) in
      if ltb 1 (length current) then current ∷ rest else current ∷ []

  unfoldable pub build : List Bytes → Result A1Error IntentTree
  build [] = err A1Error.empty_tree
  build (x ∷ xs) =
      let intents = dedup (sort (x ∷ xs)) in
      ok (record { leaves = intents; layers = build_layers (length intents) intents })

unfoldable pub root : IntentTree → Bytes
root t = get_or (last_or t.layers []) 0 []

unfoldable pub binary_search : Bytes → List Bytes → Option ℕ
binary_search x [] = none
binary_search x (y ∷ ys) =
    let rest = binary_search x ys in
    if x == y then some 0 else elim rest [ none ↦ none | some i ↦ some (suc i) ]

-- The body of the loop of `prove`.
unfoldable pub sibling_at : List Bytes → ℕ → List SiblingNode
sibling_at layer pos =
    let sibling_pos = if pos % 2 == 0 then pos + 1 else pos - 1 in
    if ltb sibling_pos (length layer)
    then record { hash = get_or layer sibling_pos []; is_left = not (pos % 2 == 0) } ∷ []
    else []

-- The loop of `prove`, over all layers but the last.
unfoldable pub path : ℕ → List (List Bytes) → List SiblingNode
path pos [] = []
path pos (layer ∷ []) = []
path pos (layer ∷ next ∷ rest) = sibling_at layer pos ++ path (pos / 2) (next ∷ rest)

unfoldable pub prove : IntentTree → Bytes → Result A1Error MerkleProof
prove t intent = elim (binary_search intent t.leaves) [
  | none ↦ err A1Error.intent_not_found
  | some pos ↦ ok (record { siblings = path pos t.layers })
]

unfoldable pub contains : IntentTree → Bytes → Bool
contains t intent = elim (binary_search intent t.leaves) [ none ↦ false | some pos ↦ true ]

unfoldable pub full_passthrough : SubScopeProof
full_passthrough = record { subset_intents = []; proofs = [] }

-- `intents.iter().map(|i| parent_tree.prove(i)).collect()`.
unfoldable pub prove_all : IntentTree → List Bytes → Result A1Error (List MerkleProof)
prove_all t [] = ok []
prove_all t (x ∷ xs) = do p ← prove t x; ps ← prove_all t xs; ok (p ∷ ps)

unfoldable pub sub_scope_build : IntentTree → List Bytes → Result A1Error SubScopeProof
sub_scope_build t intents = do
  proofs ← prove_all t intents
  ok (record { subset_intents = intents; proofs = proofs })

module _ (c : Crypto) where
  -- The loop over `subset_intents.zip(proofs)`.
  unfoldable pub verify_each : Bytes → List Bytes → List MerkleProof → Bool
  verify_each parent_root (x ∷ xs) (p ∷ ps) =
      proof_verify c p x parent_root && verify_each parent_root xs ps
  verify_each parent_root _ _ = true

  unfoldable pub verify_and_derive_root : SubScopeProof → Bytes → Result A1Error Bytes
  verify_and_derive_root s parent_root = if is_empty s.subset_intents then ok parent_root else do
    fail_if (not (length s.subset_intents == length s.proofs)) A1Error.invalid_sub_scope_proof
    fail_if (not (verify_each parent_root s.subset_intents s.proofs))
        A1Error.invalid_sub_scope_proof
    sub_tree ← build c s.subset_intents
    ok (root sub_tree)

-- The bytes that `SubScopeProof::commitment` feeds to its hasher.
flag : Bool → ℕ
flag true = 1
flag false = 0

encode_siblings : List SiblingNode → Bytes
encode_siblings [] = []
encode_siblings (n ∷ ns) = n.hash ++ (flag n.is_left ∷ encode_siblings ns)

encode_proofs : List MerkleProof → Bytes
encode_proofs [] = []
encode_proofs (p ∷ ps) =
    u64_le (length p.siblings) ++ (encode_siblings p.siblings ++ encode_proofs ps)

encode_intents : List Bytes → Bytes
encode_intents [] = []
encode_intents (x ∷ xs) = x ++ encode_intents xs

unfoldable pub commitment : Crypto → SubScopeProof → Bytes
unfolding encode_proofs encode_intents encode_siblings flag
commitment c s = derive_key c domain_subscope cert_version (
    text "a1::dyolo::subscope::v2.8.0"
    ++ (u64_le (length s.subset_intents)
        ++ (encode_intents s.subset_intents
            ++ (u64_le (length s.proofs) ++ encode_proofs s.proofs))))
