-- ===== src/TransparencyLog.antt =====
-- The class TransparencyLog of services/registry-ledger/src/transparency-log.ts: an append-only
-- Merkle tree over a list of leaves. Sizes and indices are numbers that are not negative, so the
-- tests `< 0` of the source are not written out.
pub mod Split
pub mod Rfc6962
pub mod Refinement
pub mod Shape
pub mod Operations
use hara_registry.Prelude.{
  ℕ, zero, suc, ◌+◌, ◌-◌, Bool, true, false, ◌||◌, Option, none, some, List, [], ◌∷◌, ◌++◌, map,
  length, get_elem?, ltb, leb, ◌==◌, if◌then◌else◌, shl1, int32_lt,
}
use hara_registry.Errors.{Result, ok, err, stuck, error, range_error, ◌>>=◌}
use hara_registry.Sha256.{Bytes, Text, Sha256, sha256, hash_leaf, hash_children}
use hara_registry.Hex.{to_hex}

-- `while (k << 1 < n) k <<= 1;`
unfoldable pub k_loop : ℕ → ℕ → ℕ → Result ℕ
k_loop zero n k = stuck
k_loop (suc fuel) n k =
    let again = k_loop fuel n (shl1 k) in if int32_lt (shl1 k) n then again else ok k

-- The number of rounds after which a loop or a recursion of the model gives up. It is never
-- reached on trees of at most 2 ^ 30 leaves.
abbrev pub max_rounds : ℕ
max_rounds = 32

unfoldable pub largest_power_of_two_smaller_than : ℕ → Result ℕ
largest_power_of_two_smaller_than n = if ltb n 2 then err error else k_loop max_rounds n 1

pub record InclusionProof : Type 0 where
  pub leaf_index : ℕ
  pub tree_size : ℕ
  pub audit_path : List Text

pub record ConsistencyProof : Type 0 where
  pub first_size : ℕ
  pub second_size : ℕ
  pub consistency_path : List Text

pub record TransparencyLog : Type 0 where
  pub log_id : Text
  pub leaves : List Bytes

-- `append` returns the new log and the leaf's index.
unfoldable pub append : TransparencyLog → Bytes → TransparencyLog × ℕ
append log leaf =
    let leaves' = log.leaves ++ (leaf ∷ []) in (record log { leaves = leaves' }, length leaves' - 1)

unfoldable pub tree_size : TransparencyLog → ℕ
tree_size log = length log.leaves

module _ ⦃sha : Sha256⦄ where
  -- Hashing `undefined` throws.
  pub hash_leaf_at : Option Bytes → Result Bytes
  hash_leaf_at none = err error
  hash_leaf_at (some leaf) = ok (hash_leaf leaf)

  unfoldable pub mth : ℕ → List Bytes → ℕ → ℕ → Result Bytes
  unfolding hash_leaf_at
  mth zero leaves start end = stuck
  mth (suc fuel) leaves start end =
      let n = end - start in
      let split = (do
        k ← largest_power_of_two_smaller_than n
        left ← mth fuel leaves start (start + k)
        right ← mth fuel leaves (start + k) end
        ok (hash_children left right)) in
      if n == 0
      then ok (sha256 [])
      else if n == 1
      then hash_leaf_at (get_elem? leaves start)
      else split

  unfoldable pub path : ℕ → List Bytes → ℕ → ℕ → ℕ → Result (List Bytes)
  path zero leaves m start end = stuck
  path (suc fuel) leaves m start end =
      let n = end - start in
      let split = (do
        k ← largest_power_of_two_smaller_than n
        let left = do
          below ← path fuel leaves m start (start + k)
          sibling ← mth max_rounds leaves (start + k) end
          ok (below ++ (sibling ∷ []))
        let right = do
          below ← path fuel leaves m (start + k) end
          sibling ← mth max_rounds leaves start (start + k)
          ok (below ++ (sibling ∷ []))
        if ltb (m - start) k then left else right) in
      if n == 1 then ok [] else split

  pub subproof : ℕ → List Bytes → ℕ → ℕ → ℕ → Bool → Result (List Bytes)
  subproof zero leaves m start end b = stuck
  subproof (suc fuel) leaves m start end b =
      let n = end - start in
      let whole = (do node ← mth max_rounds leaves start end; ok (node ∷ [])) in
      let split = (do
        k ← largest_power_of_two_smaller_than n
        let left = do
          below ← subproof fuel leaves m start (start + k) b
          sibling ← mth max_rounds leaves (start + k) end
          ok (below ++ (sibling ∷ []))
        let right = do
          below ← subproof fuel leaves (m - k) (start + k) end false
          sibling ← mth max_rounds leaves start (start + k)
          ok (below ++ (sibling ∷ []))
        if leb m k then left else right) in
      if m == n then (if b then ok [] else whole) else split

  unfoldable pub leaf_hash_hex : TransparencyLog → ℕ → Result Text
  unfolding hash_leaf_at
  leaf_hash_hex log index =
      if leb (length log.leaves) index
      then err range_error
      else do h ← hash_leaf_at (get_elem? log.leaves index); ok (to_hex h)

  unfoldable pub current_root_hex : TransparencyLog → Result Text
  current_root_hex log = do root ← mth max_rounds log.leaves 0 (length log.leaves); ok (to_hex root)

  unfoldable pub root_at_hex : TransparencyLog → ℕ → Result Text
  root_at_hex log size =
      if ltb (length log.leaves) size
      then err range_error
      else do root ← mth max_rounds log.leaves 0 size; ok (to_hex root)

  unfoldable pub inclusion_proof : TransparencyLog → ℕ → ℕ → Result InclusionProof
  inclusion_proof log index size =
      if ltb (length log.leaves) size
      then err range_error
      else if leb size index
      then err range_error
      else do
        nodes ← path max_rounds log.leaves index 0 size
        ok (record { leaf_index = index; tree_size = size; audit_path = map to_hex nodes })

  unfoldable pub consistency_proof : TransparencyLog → ℕ → ℕ → Result ConsistencyProof
  consistency_proof log first second =
      if ltb (length log.leaves) second || ltb second first
      then err range_error
      else if first == 0 || first == second
      then ok (record { first_size = first; second_size = second; consistency_path = [] })
      else do
        nodes ← subproof max_rounds log.leaves first 0 second true
        ok (record {
          first_size = first;
          second_size = second;
          consistency_path = map to_hex nodes;
        })
