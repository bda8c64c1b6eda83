-- ===== src/AnchorWorker/Merkle.antt =====
-- services/anchor-worker/src/merkle.ts. Keccak-256 is a library's: it is the parameter `Keccak256`.
pub mod Rounds
pub mod Binding
use hara_registry.Prelude.{
  ℕ, zero, suc, ◌+◌, ◌-◌, ◌%◌, ◌≡◌, List, [], ◌∷◌, ◌++◌, length, get_or, map, ◌==◌, if◌then◌else◌,
}
use hara_registry.Errors.{Result, ok, err, stuck, error, ◌>>=◌}
use hara_registry.Sha256.{Bytes}
use hara_registry.AnchorService.{big_endian}

-- What the code relies on: a digest is 32 bytes.
pub record Keccak256 : Type 0 where
  pub digest : Bytes → Bytes
  pub length-digest : (m : Bytes) → length (digest m) ≡ 32

pub record MerkleResult : Type 0 where
  pub root : Bytes
  pub leaf_count : ℕ

-- `if (level.length % 2 === 1) level.push(level[level.length - 1])`
unfoldable pub pad : List Bytes → List Bytes
pad level =
    if length level % 2 == 1 then level ++ (get_or level (length level - 1) [] ∷ []) else level

module _ ⦃kec : Keccak256⦄ where
  unfoldable pub concat_hash : Bytes → Bytes → Bytes
  concat_hash a b = kec.digest (a ++ b)

  -- The `for` loop over the pairs. Of a last entry with no partner `concatHash` throws.
  unfoldable pub next_level : List Bytes → Result (List Bytes)
  next_level [] = ok []
  next_level (a ∷ []) = err error
  next_level (a ∷ b ∷ rest) = do next ← next_level rest; ok (concat_hash a b ∷ next)

  -- The `while` loop, with rounds to spare in `fuel`.
  unfoldable pub merkle_loop : ℕ → List Bytes → Result Bytes
  merkle_loop fuel [] = err error
  merkle_loop fuel (root ∷ []) = ok root
  merkle_loop zero (a ∷ b ∷ rest) = stuck
  merkle_loop (suc fuel) (a ∷ b ∷ rest) = do
    level ← next_level (pad (a ∷ b ∷ rest))
    merkle_loop fuel level

  -- `l.length === 32 ? l : keccak_256(l)`
  unfoldable pub fit_leaf : Bytes → Bytes
  fit_leaf l = if length l == 32 then l else kec.digest l

  unfoldable pub merkle_root : List Bytes → Result MerkleResult
  merkle_root leaves = if length leaves == 0 then err error else (do
    root ← merkle_loop (length leaves) (map fit_leaf leaves)
    ok (record { root = root; leaf_count = length leaves }))

  -- `setUint32` keeps the number's last 32 bits.
  unfoldable pub leaf_from_event : Bytes → ℕ → Bytes
  leaf_from_event tx_hash log_index = kec.digest (tx_hash ++ big_endian 4 log_index)
