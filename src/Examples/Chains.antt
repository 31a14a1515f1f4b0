-- ===== src/Examples/Chains.antt =====
-- Validation of the chain of two certificates.
use dyolo_kya.Prelude.{sym, In, ◌⊎◌, ◌++◌, ◌≡◌, inl, inr, refl, true, All, [], ◌∷◌, ok, err, arith}
use dyolo_kya.Prelude.Bytes.{bytes_beq, bytes_beq_refl}
use dyolo_kya.Prelude.Words.{saturating_add}
use dyolo_kya.Prelude.Sort.{sort, dedup}
use dyolo_kya.Error.{A1Error}
use dyolo_kya.Crypto.{derive_key, merkle_node}
use dyolo_kya.Merkle.Sound.{HashBreak, climb_pairs, tree_pairs}
use dyolo_kya.Merkle.{
  build, build_layers, root, proof_verify, climb, verify_and_derive_root, verify_each,
}
use dyolo_kya.Cert.{issue, cert_message, verify_signature}
use dyolo_kya.Chain.{
  intent_authorized, validate_structure, check_root, check_hops, check_hop, check_scope, advance,
  start,
}
use dyolo_kya.Chain.Spec.{IsValidChain}
use dyolo_kya.Chain.Validate.{described, validate_complete}
use dyolo_kya.Chain.Within.{cert_pairs, named, validate_within}
use dyolo_kya.Examples.World.{
  toy, toy-IsBatchVerifier, chain, first_cert, second_cert, buy, sell, tree, no_siblings,
}
use dyolo_kya.Examples.Trees.{tree_built, tree-root}

signed_lem : All (λ t. verify_signature toy t ≡ true) (first_cert ∷ second_cert ∷ [])
unfolding verify_signature cert_message issue bytes_beq
signed_lem = (
  bytes_beq_refl (cert_message toy first_cert),
  (bytes_beq_refl (cert_message toy second_cert), tt),
)

subset_lem : verify_and_derive_root toy second_cert.scope_proof first_cert.scope_root ≡ ok buy
unfolding issue verify_and_derive_root verify_each proof_verify climb root merkle_node derive_key
    bytes_beq build build_layers sort dedup
subset_lem = refl

authorized_lem : intent_authorized toy no_siblings buy buy ≡ true
unfolding intent_authorized bytes_beq
authorized_lem = refl

pub chain-IsValidChain : IsValidChain toy chain (3 ∷ []) buy no_siblings 500 15
unfolding issue saturating_add
chain-IsValidChain = record {
  nonempty = cc;
  short = ground arith;
  linked = (refl, (refl, refl));
  versions = (refl, (refl, tt));
  in_window = ((ground arith, ground arith), ((ground arith, ground arith), tt));
  shrinking = (ground arith, (ground arith, tt));
  deep_enough = (ground arith, tt);
  no_repeat = ((λ m. ground (arith, m)), ((λ m. elim m [ ]), tt));
  scoped = (inl (refl, refl, refl), (inr (inl cc, subset_lem), tt));
  signed = signed_lem;
  authorized = authorized_lem;
}

pub chain_accepted :
    validate_structure toy chain (3 ∷ []) buy no_siblings 500 15
    ≡ ok (described toy chain (3 ∷ []) buy no_siblings 500 15)
chain_accepted =
    validate_complete toy chain (3 ∷ []) buy no_siblings 500 15 toy-IsBatchVerifier
      chain-IsValidChain

-- Past the expiry of the second certificate and the tolerance.
chain_expires :
    validate_structure toy chain (3 ∷ []) buy no_siblings 816 15 ≡ err (A1Error.expired 1 800 816)
unfolding validate_structure check_root check_hops check_hop check_scope advance start issue
    saturating_add verify_and_derive_root verify_each proof_verify climb root merkle_node derive_key
    bytes_beq build build_layers sort dedup
chain_expires = refl

validate_within_example :
    In buy (sell ∷ buy ∷ [])
    ⊎ HashBreak toy (buy ∷ ((sell ∷ buy ∷ []) ++ named chain.certs)) (
        climb_pairs toy buy no_siblings.siblings
        ++ (tree_pairs tree.layers ++ cert_pairs toy chain.certs))
validate_within_example =
    validate_within toy chain (3 ∷ []) buy no_siblings 500 15
      (described toy chain (3 ∷ []) buy no_siblings 500 15) (sell ∷ buy ∷ []) tree
      toy-IsBatchVerifier tree_built (sym tree-root) chain_accepted
