-- ===== src/Sha256.antt =====
-- The hash functions of services/registry-ledger/src/transparency-log.ts. SHA-256 itself is
-- node:crypto, not code of the repository: it is the parameter `Sha256`.
use hara_registry.Prelude.{ℕ, ◌<◌, ◌≡◌, List, [], ◌∷◌, ◌++◌, length, All}

abbrev pub Bytes : Type 0
Bytes = List ℕ

-- A JavaScript string, by its code units.
abbrev pub Text : Type 0
Text = List ℕ

abbrev pub IsByte : ℕ → Type 0
IsByte b = b < 256

-- What the code relies on: a digest is 32 bytes.
pub record Sha256 : Type 0 where
  pub digest : Bytes → Bytes
  pub digest-IsByte : (m : Bytes) → All IsByte (digest m)
  pub length-digest : (m : Bytes) → length (digest m) ≡ 32

module _ ⦃sha : Sha256⦄ where
  abbrev concat : List Bytes → Bytes
  concat [] = []
  concat (p ∷ []) = p
  concat (p ∷ ps) = p ++ concat ps

  -- One `update` for each part.
  unfoldable pub sha256 : List Bytes → Bytes
  sha256 parts = sha.digest (concat parts)

  unfoldable pub hash_leaf : Bytes → Bytes
  unfolding sha256
  hash_leaf leaf = sha256 ((0x00 ∷ []) ∷ leaf ∷ [])

  unfoldable pub hash_children : Bytes → Bytes → Bytes
  unfolding sha256
  hash_children left right = sha256 ((0x01 ∷ []) ∷ left ∷ right ∷ [])

  pub hash_leaf-IsByte : (leaf : Bytes) → All IsByte (hash_leaf leaf)
  unfolding hash_leaf
  hash_leaf-IsByte leaf = sha.digest-IsByte _

  pub length-hash_leaf : (leaf : Bytes) → length (hash_leaf leaf) ≡ 32
  unfolding hash_leaf
  length-hash_leaf leaf = sha.length-digest _

  pub length-hash_children : (left right : Bytes) → length (hash_children left right) ≡ 32
  unfolding hash_children
  length-hash_children left right = sha.length-digest _

  pub hash_children-IsByte : (left right : Bytes) → All IsByte (hash_children left right)
  unfolding hash_children
  hash_children-IsByte left right = sha.digest-IsByte _
