-- ===== src/Tests/LogRuns.antt =====
-- The transparency log and its verifiers on a log of three leaves.
use hara_registry.Prelude.{◌^◌, ◌<◌, ◌≡◌, ◌⊎◌, arith, true, List, [], ◌∷◌, map}
use hara_registry.Errors.{ok}
use hara_registry.Sha256.{Bytes, Text, hash_leaf}
use hara_registry.Hex.{to_hex, from_hex, decode_all}
use hara_registry.Hex.RoundTrip.{from_hex-to_hex}
use hara_registry.TransparencyLog.{
  TransparencyLog, InclusionProof, ConsistencyProof, leaf_hash_hex, root_at_hex, inclusion_proof,
  consistency_proof,
}
use hara_registry.TransparencyLog.Operations.{leaf_at, root_of, root_at_hex_lem}
use hara_registry.Verifiers.{verify_inclusion, verify_consistency}
use hara_registry.Verifiers.Acceptance.{inclusion_accepted, verify_audit}
use hara_registry.TransparencyLog.Rfc6962.{audit}
use hara_registry.Verifiers.Soundness.{inclusion_sound, Clash, messages}
use hara_registry.Verifiers.ConsistencyAcceptance.{consistency_accepted}
use hara_registry.Verifiers.Truncation.{empty_proof_accepted}
use hara_registry.Tests.Toy.{toy}

abbrev three_leaves : TransparencyLog
three_leaves = record { log_id = []; leaves = (1 ∷ []) ∷ (2 ∷ 3 ∷ []) ∷ [] ∷ [] }

inclusion_accepted_example :
    (leaf : Text) × (proof : InclusionProof) × (root : Text) × (leaf_hash_hex three_leaves 1
      ≡ ok leaf)
    × (inclusion_proof three_leaves 1 3 ≡ ok proof)
    × (root_at_hex three_leaves 3 ≡ ok root)
    × (verify_inclusion leaf proof root ≡ ok true)
inclusion_accepted_example =
    inclusion_accepted three_leaves 1 3 (omega arith) (omega arith) (omega arith)

consistency_accepted_example :
    (proof : ConsistencyProof) × (first_root : Text) × (second_root : Text) × (consistency_proof
        three_leaves 2 3
      ≡ ok proof)
    × (root_at_hex three_leaves 2 ≡ ok first_root)
    × (root_at_hex three_leaves 3 ≡ ok second_root)
    × (verify_consistency 2 first_root 3 second_root proof.consistency_path ≡ ok true)
consistency_accepted_example =
    consistency_accepted three_leaves 2 3 (omega arith) (omega arith) (omega arith)

root_at_hex_example : root_at_hex three_leaves 3 ≡ ok (to_hex (root_of three_leaves 3))
root_at_hex_example = root_at_hex_lem three_leaves 3 (omega arith) (omega arith)

-- The proof of the log's own leaf 2.
abbrev own_path : List Text
own_path = map to_hex (audit (leaf_at three_leaves) 30 0 3 2)

own_proof :
    verify_inclusion
      (to_hex (hash_leaf []))
      (record { leaf_index = 2; tree_size = 3; audit_path = own_path })
      (to_hex (root_of three_leaves 3))
    ≡ ok true
own_proof = verify_audit three_leaves 2 3 (omega arith) (omega arith)

inclusion_sound_example :
    (2 < 3)
    × ((nodes : List Bytes) × (decode_all own_path ≡ ok nodes)
        × (([] ≡ leaf_at three_leaves 2)
            ⊎ Clash
                (messages [] 2 3 nodes)
                (messages (leaf_at three_leaves 2) 2 3 (audit (leaf_at three_leaves) 30 0 3 2))))
inclusion_sound_example =
    inclusion_sound three_leaves [] 2 3 own_path (to_hex (root_of three_leaves 3)) (omega arith)
      (omega arith) root_at_hex_example own_proof

empty_proof_accepted_example :
    verify_consistency (2 ^ 1) (to_hex (5 ∷ 6 ∷ [])) 7 (to_hex (5 ∷ 6 ∷ [])) [] ≡ ok true
empty_proof_accepted_example =
    empty_proof_accepted 1 7 (5 ∷ 6 ∷ []) (omega arith) (omega arith) (omega arith)

from_hex-to_hex_example : from_hex (to_hex (0 ∷ 171 ∷ 255 ∷ [])) ≡ ok (0 ∷ 171 ∷ 255 ∷ [])
from_hex-to_hex_example =
    from_hex-to_hex (0 ∷ 171 ∷ 255 ∷ []) (omega arith, (omega arith, (omega arith, tt)))
