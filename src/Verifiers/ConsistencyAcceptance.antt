-- ===== src/Verifiers/ConsistencyAcceptance.antt =====
-- verifyConsistency on the proofs that the log gives.
use hara_registry.Prelude.{
  ℕ, ◌-◌, ◌≤◌, ◌<◌, ◌≡◌, refl, arith, true, false, some, List, [], ◌∷◌, ◌++◌, length, map, All,
  ◌==◌, ◌||◌, =t=-refl, Bool-cases, inl, inr,
}
use hara_registry.Errors.{ok}
use hara_registry.Sha256.{Bytes, Text, IsByte, Sha256}
use hara_registry.Hex.{to_hex, lc, decode_all}
use hara_registry.Hex.RoundTrip.{from_hex-to_hex, lc-to_hex}
use hara_registry.TransparencyLog.{
  TransparencyLog, ConsistencyProof, root_at_hex, consistency_proof,
}
use hara_registry.TransparencyLog.Rfc6962.{proof}
use hara_registry.TransparencyLog.Operations.{
  max_size, leaf_at, root_of, root_at_hex_lem, consistency_proof_lem,
}
use hara_registry.TransparencyLog.Shape.{tree-IsByte, proof-IsByte}
use hara_registry.Verifiers.{is_pow2, verify_nodes, verify_consistency, consistency_verdict}
use hara_registry.Verifiers.Consistency.{twin, twin_all}
use hara_registry.Verifiers.Extension.{twin_whole}
use hara_registry.Verifiers.Seed.{seed, seed_lem}

pub decode_all-map :
    (nodes : List Bytes) → All (All IsByte) nodes → decode_all (map to_hex nodes) ≡ ok nodes
unfolding decode_all
decode_all-map [] h = refl
decode_all-map (b ∷ bs) (hb, hbs) = rw (from_hex-to_hex b hb, decode_all-map bs hbs)

module _ ⦃sha : Sha256⦄ where
  -- The verdict on decoded nodes, when the climb over them ends in the two roots.
  verify_nodes_lem :
      (nodes : List Bytes) (first second : ℕ) (a b : Bytes)
      → All IsByte a
      → All IsByte b
      → twin_all nodes (first - 1) (second - 1) ≡ some (twin 0 0 a b)
      → verify_nodes first (to_hex a) second (to_hex b) nodes ≡ true
  unfolding verify_nodes twin_all consistency_verdict
  verify_nodes_lem [] first second a b ha hb h = cc
  verify_nodes_lem (s ∷ rest) first second a b ha hb h =
      rw (h, lc-to_hex a ha, lc-to_hex b hb, =t=-refl (to_hex a), =t=-refl (to_hex b))

  verify_trivial :
      (first second : ℕ) (root : ℕ → Text)
      → (first == 0 || first == second) ≡ true
      → verify_consistency first (root first) second (root second) [] ≡ ok true
  unfolding verify_consistency
  verify_trivial first second root h = elim (Bool-cases (first == 0)) [
    | inl empty ↦ rw empty
    | inr some_leaf ↦
        let same : first ≡ second = ground arith in
        rw same (ground (arith, =t=-refl (lc (root second))))
  ]

  module _ (log : TransparencyLog) where
    verify_proof :
        (first second : ℕ)
        → 1 ≤ first
        → first < second
        → second ≤ max_size
        → verify_consistency first
            (to_hex (root_of log first))
            second
            (to_hex (root_of log second))
            (map to_hex (proof (leaf_at log) 30 0 first second true))
          ≡ ok true
    unfolding verify_consistency
    verify_proof first second pos lt small = elim (Bool-cases (is_pow2 first)) [
      | inl power ↦ ground (
        arith,
        power,
        decoded,
        from_hex-to_hex (root_of log first) (bytes first),
        nodes (root_of log first ∷ rest) (rw power at whole),
      )
      | inr other ↦ ground (arith, other, decoded, nodes rest (rw other at whole))
    ]
      where
        rest : List Bytes
        rest = proof (leaf_at log) 30 0 first second true

        bytes : (size : ℕ) → All IsByte (root_of log size)
        bytes size = tree-IsByte (leaf_at log) 30 0 size

        decoded : decode_all (map to_hex rest) ≡ ok rest
        decoded = decode_all-map rest (proof-IsByte (leaf_at log) 30 0 first second true)

        whole : seed (leaf_at log) 30 0 first ++ rest ≡ proof (leaf_at log) 30 0 first second false
        whole =
            seed_lem (leaf_at log) 30 0 first second pos (omega arith) small (omega arith) (inl lt)

        nodes :
            (given : List Bytes)
            → given ≡ proof (leaf_at log) 30 0 first second false
            → verify_nodes first
                (to_hex (root_of log first))
                second
                (to_hex (root_of log second))
                given
              ≡ true
        nodes given e =
            verify_nodes_lem given first second (root_of log first) (root_of log second)
              (bytes first) (bytes second)
              (rw e (twin_whole (leaf_at log) 30 first second pos lt small (omega arith)))

    -- For every two sizes in order that the log has reached, up to 2^30 leaves, the operations
    -- give a proof and both roots, and verifyConsistency accepts them.
    pub consistency_accepted :
        (first second : ℕ)
        → first ≤ second
        → second ≤ length log.leaves
        → second ≤ max_size
        → (proof : ConsistencyProof) × (first_root : Text) × (second_root : Text)
          × (consistency_proof log first second ≡ ok proof)
          × (root_at_hex log first ≡ ok first_root)
          × (root_at_hex log second ≡ ok second_root)
          × (verify_consistency first first_root second second_root proof.consistency_path
              ≡ ok true)
    consistency_accepted first second le fit small =
        elim (Bool-cases (first == 0 || first == second)) [
          | inl trivial ↦ (
            record { first_size = first; second_size = second; consistency_path = [] },
            to_hex (root_of log first),
            to_hex (root_of log second),
            unfold consistency_proof in ground arith,
            root_at_hex_lem log first (omega arith) (omega arith),
            root_at_hex_lem log second fit small,
            verify_trivial first second (λ size. to_hex (root_of log size)) trivial,
          )
          | inr proper ↦ (
            record {
              first_size = first;
              second_size = second;
              consistency_path = map to_hex (proof (leaf_at log) 30 0 first second true);
            },
            to_hex (root_of log first),
            to_hex (root_of log second),
            consistency_proof_lem log first second (ground arith) (ground arith) fit small,
            root_at_hex_lem log first (omega arith) (omega arith),
            root_at_hex_lem log second fit small,
            verify_proof first second (ground arith) (ground arith) small,
          )
        ]
