-- ===== src/TransparencyLog/Operations.antt =====
-- The operations of the class, in the terms of RFC 6962.
use hara_registry.Prelude.{
  ℕ, ◌+◌, ◌≤◌, ◌<◌, ◌≡◌, ◌^◌, arith, true, [], map, length, get_elem?-get_or,
}
use hara_registry.Errors.{ok}
use hara_registry.Sha256.{Bytes, Sha256, hash_leaf}
use hara_registry.Hex.{to_hex}
use hara_registry.TransparencyLog.{
  TransparencyLog, leaf_hash_hex, root_at_hex, inclusion_proof, consistency_proof,
}
use hara_registry.TransparencyLog.Rfc6962.{tree, audit, proof}
use hara_registry.TransparencyLog.Refinement.{leaf_of, mth_lem, audit_lem, proof_lem}

-- The greatest size for which the loop of largestPowerOfTwoSmallerThan ends.
abbrev pub max_size : ℕ
max_size = 2 ^ 30

abbrev pub leaf_at : TransparencyLog → ℕ → Bytes
leaf_at log = leaf_of log.leaves

module _ ⦃sha : Sha256⦄ (log : TransparencyLog) where
  abbrev pub root_of : ℕ → Bytes
  root_of size = tree (leaf_at log) 30 0 size

  -- For every size that the log has reached, up to 2^30 leaves, the root is the Merkle tree hash
  -- of RFC 6962 of the first leaves.
  pub root_at_hex_lem :
      (size : ℕ)
      → size ≤ length log.leaves
      → size ≤ max_size
      → root_at_hex log size ≡ ok (to_hex (root_of size))
  unfolding root_at_hex
  root_at_hex_lem size fit small = ground (
    arith,
    mth_lem log.leaves 30 32 0 size size (omega arith) (omega arith) small (omega arith) fit,
  )

  pub leaf_hash_hex_lem :
      (index : ℕ)
      → index < length log.leaves
      → leaf_hash_hex log index ≡ ok (to_hex (hash_leaf (leaf_at log index)))
  unfolding leaf_hash_hex
  leaf_hash_hex_lem index h = ground (arith, get_elem?-get_or log.leaves index [] h)

  pub inclusion_proof_lem :
      (index size : ℕ)
      → index < size
      → size ≤ length log.leaves
      → size ≤ max_size
      → inclusion_proof log index size
        ≡ ok (record {
          leaf_index = index;
          tree_size = size;
          audit_path = map to_hex (audit (leaf_at log) 30 0 size index);
        })
  unfolding inclusion_proof
  inclusion_proof_lem index size lt fit small =
      let e : 0 + index ≡ index = omega arith in
      let p =
        audit_lem log.leaves 30 32 0 size size index (omega arith) (omega arith) small (omega arith)
          fit lt in
      ground (arith, rw e at p)

  pub consistency_proof_lem :
      (first second : ℕ)
      → 1 ≤ first
      → first < second
      → second ≤ length log.leaves
      → second ≤ max_size
      → consistency_proof log first second
        ≡ ok (record {
          first_size = first;
          second_size = second;
          consistency_path = map to_hex (proof (leaf_at log) 30 0 first second true);
        })
  unfolding consistency_proof
  consistency_proof_lem first second pos lt fit small = ground (
    arith,
    proof_lem log.leaves 30 32 0 first second second true (omega arith) (omega arith) small
        (omega arith) fit pos,
  )
