-- ===== src/Verifiers/Acceptance.antt =====
-- verifyInclusion on the proofs that the log gives.
use hara_registry.Prelude.{ℕ, ◌-◌, ◌≤◌, ◌<◌, ◌≡◌, arith, true, length, map, =t=-refl}
use hara_registry.Errors.{ok}
use hara_registry.Sha256.{Text, Sha256, hash_leaf, hash_leaf-IsByte}
use hara_registry.Hex.{to_hex}
use hara_registry.Hex.RoundTrip.{from_hex-to_hex, lc-to_hex}
use hara_registry.TransparencyLog.{
  TransparencyLog, InclusionProof, leaf_hash_hex, root_at_hex, inclusion_proof,
}
use hara_registry.TransparencyLog.Rfc6962.{audit}
use hara_registry.TransparencyLog.Operations.{
  max_size, leaf_at, root_of, leaf_hash_hex_lem, root_at_hex_lem, inclusion_proof_lem,
}
use hara_registry.TransparencyLog.Shape.{tree-IsByte, audit-IsByte}
use hara_registry.Verifiers.{verify_inclusion}
use hara_registry.Verifiers.Inclusion.{at, climb_whole, inclusion_loop_lem}

module _ ⦃sha : Sha256⦄ (log : TransparencyLog) where
  -- The verdict on the audit path that RFC 6962 defines.
  pub verify_audit :
      (index size : ℕ)
      → index < size
      → size ≤ max_size
      → verify_inclusion
          (to_hex (hash_leaf (leaf_at log index)))
          (record {
            leaf_index = index;
            tree_size = size;
            audit_path = map to_hex (audit (leaf_at log) 30 0 size index);
          })
          (to_hex (root_of log size))
        ≡ ok true
  unfolding verify_inclusion
  verify_audit index size lt small = ground (
    arith,
    from_hex-to_hex (hash_leaf (leaf_at log index)) (hash_leaf-IsByte _),
    inclusion_loop_lem (audit (leaf_at log) 30 0 size index)
        (at index (size - 1) (hash_leaf (leaf_at log index)))
        (audit-IsByte (leaf_at log) 30 0 size index),
    climb_whole (leaf_at log) 30 size index small lt (omega arith),
    lc-to_hex (root_of log size) (tree-IsByte (leaf_at log) 30 0 size),
    =t=-refl (to_hex (root_of log size)),
  )

  -- For every leaf of every size that the log has reached, up to 2^30 leaves, the operations give
  -- the leaf's hash, a proof and the root, and verifyInclusion accepts them.
  pub inclusion_accepted :
      (index size : ℕ)
      → index < size
      → size ≤ length log.leaves
      → size ≤ max_size
      → (leaf : Text) × (proof : InclusionProof) × (root : Text) × (leaf_hash_hex log index
          ≡ ok leaf)
        × (inclusion_proof log index size ≡ ok proof)
        × (root_at_hex log size ≡ ok root)
        × (verify_inclusion leaf proof root ≡ ok true)
  inclusion_accepted index size lt fit small = (
    to_hex (hash_leaf (leaf_at log index)),
    record {
      leaf_index = index;
      tree_size = size;
      audit_path = map to_hex (audit (leaf_at log) 30 0 size index);
    },
    to_hex (root_of log size),
    leaf_hash_hex_lem log index (omega arith),
    inclusion_proof_lem log index size lt fit small,
    root_at_hex_lem log size fit small,
    verify_audit index size lt small,
  )
