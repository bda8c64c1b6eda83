-- ===== src/AnchorWorker/Merkle/Rounds.antt =====
-- The loop of merkleRoot against a tree by levels, and the rounds that it takes.
use hara_registry.Prelude.{
  ℕ, zero, suc, ◌+◌, ◌/◌, ◌^◌, ◌≤◌, ◌≡◌, refl, arith, List, [], ◌∷◌, length, map, All, pow2_suc,
  pow2_pos, length-map,
}
use hara_registry.Errors.{ok}
use hara_registry.Sha256.{Bytes}
use hara_registry.AnchorWorker.Merkle.{
  Keccak256, pad, concat_hash, next_level, merkle_loop, fit_leaf, merkle_root,
}

abbrev pub Is32 : Bytes → Type 0
Is32 b = length b ≡ 32

pad_step : (a b c : Bytes) (rest : List Bytes) → pad (a ∷ b ∷ c ∷ rest) ≡ a ∷ b ∷ pad (c ∷ rest)
unfolding pad
pad_step a b c rest = ground arith

pub pow2_large : (n : ℕ) → n ≤ 2 ^ n
pow2_large zero = omega arith
pow2_large (suc n) = omega (arith, pow2_large n, pow2_suc n, pow2_pos n)

module _ ⦃kec : Keccak256⦄ where
  -- A level hashed by pairs, its last entry with itself where it has no partner.
  abbrev pub up : List Bytes → List Bytes
  up [] = []
  up (a ∷ []) = concat_hash a a ∷ []
  up (a ∷ b ∷ rest) = concat_hash a b ∷ up rest

  pub next_level-pad : (level : List Bytes) → next_level (pad level) ≡ ok (up level)
  unfolding next_level
  next_level-pad [] = unfold pad in refl
  next_level-pad (a ∷ []) = unfold pad in refl
  next_level-pad (a ∷ b ∷ []) = unfold pad in refl
  next_level-pad (a ∷ b ∷ c ∷ rest) = rw (pad_step, next_level-pad (c ∷ rest)) refl

  pub length-up : (level : List Bytes) → length (up level) ≡ (length level + 1) / 2
  length-up [] = refl
  length-up (a ∷ []) = refl
  length-up (a ∷ b ∷ rest) = omega (arith, length-up rest)

  -- The root by levels: `n` rounds, each a level up.
  abbrev pub climb : ℕ → List Bytes → List Bytes
  climb zero level = level
  climb (suc n) [] = []
  climb (suc n) (root ∷ []) = root ∷ []
  climb (suc n) (a ∷ b ∷ rest) = climb n (up (a ∷ b ∷ rest))

  length-concat_hash : (a b : Bytes) → Is32 (concat_hash a b)
  unfolding concat_hash
  length-concat_hash a b = kec.length-digest _

  pub up_32 : (level : List Bytes) → All Is32 (up level)
  up_32 [] = tt
  up_32 (a ∷ []) = (length-concat_hash a a, tt)
  up_32 (a ∷ b ∷ rest) = (length-concat_hash a b, up_32 rest)

  -- A level of at most `2 ^ n` entries has its root after `n` rounds.
  pub merkle_loop_lem :
      (n : ℕ) (level : List Bytes)
      → 1 ≤ length level
      → length level ≤ 2 ^ n
      → (root : Bytes) × (merkle_loop n level ≡ ok root) × (climb n level ≡ root ∷ [])
  unfolding merkle_loop
  merkle_loop_lem n [] h k = absurd (omega arith)
  merkle_loop_lem zero (a ∷ []) h k = (a, refl, refl)
  merkle_loop_lem (suc n) (a ∷ []) h k = (a, refl, refl)
  merkle_loop_lem zero (a ∷ b ∷ rest) h k = absurd (omega arith)
  merkle_loop_lem (suc n) (a ∷ b ∷ rest) h k =
      let (root, e, f) =
        merkle_loop_lem n (up (a ∷ b ∷ rest)) (omega (arith, length-up rest))
          (omega (arith, length-up rest, pow2_suc n)) in
      (root, rw (next_level-pad (a ∷ b ∷ rest), e) refl, f)

  climb_done : (n : ℕ) (root : Bytes) → climb n (root ∷ []) ≡ root ∷ []
  climb_done zero root = refl
  climb_done (suc n) root = refl

  -- The root is one, whatever the rounds that reach it.
  pub climb_same :
      (m n : ℕ) (level : List Bytes) (r q : Bytes)
      → climb m level ≡ r ∷ []
      → climb n level ≡ q ∷ []
      → r ≡ q
  climb_same zero n level r q e f =
      let e' : level ≡ r ∷ [] = e in let g = rw e' at f in cc (g, climb_done n r)
  climb_same (suc m) zero level r q e f =
      let f' : level ≡ q ∷ [] = f in let g = rw f' at e in cc (g, climb_done (suc m) q)
  climb_same (suc m) (suc n) [] r q e f = absurd (cc e)
  climb_same (suc m) (suc n) (a ∷ []) r q e f = cc (e, f)
  climb_same (suc m) (suc n) (a ∷ b ∷ rest) r q e f = climb_same m n (up (a ∷ b ∷ rest)) r q e f

  pub length-leaves : (leaves : List Bytes) → length (map fit_leaf leaves) ≡ length leaves
  length-leaves leaves = length-map fit_leaf leaves

  pub All-32 :
      (n : ℕ) (level : List Bytes) (root : Bytes)
      → All Is32 level
      → climb n level ≡ root ∷ []
      → Is32 root
  All-32 zero level root h e = let e' : level ≡ root ∷ [] = e in (rw e' at h).0
  All-32 (suc n) [] root h e = absurd (cc e)
  All-32 (suc n) (a ∷ []) root h e = let e' : a ≡ root = cc in rw e' at (h.0)
  All-32 (suc n) (a ∷ b ∷ rest) root h e =
      All-32 n (up (a ∷ b ∷ rest)) root (up_32 (a ∷ b ∷ rest)) e

  pub fit_leaf_32 : (leaves : List Bytes) → All Is32 (map fit_leaf leaves)
  fit_leaf_32 [] = tt
  fit_leaf_32 (l ∷ ls) = (unfold fit_leaf in ground (arith, kec.length-digest l), fit_leaf_32 ls)

  pub merkle_root_climb :
      (leaves : List Bytes)
      → 1 ≤ length leaves
      → (root : Bytes) × (climb (length (map fit_leaf leaves)) (map fit_leaf leaves) ≡ root ∷ [])
        × (merkle_root leaves ≡ ok (record { root = root; leaf_count = length leaves }))
  unfolding merkle_root
  merkle_root_climb leaves h =
      let len = length-leaves leaves in
      let (q, e, f) =
        merkle_loop_lem (length leaves) (map fit_leaf leaves) (omega arith)
          (omega (arith, pow2_large (length leaves))) in
      (q, rw len f, ground (arith, e))

  -- For leaves in any number but 0, of which there are at most `2 ^ d`, `merkleRoot` ends, its loop
  -- within `d` rounds, and it answers a root of 32 bytes and the number of the leaves.
  pub merkle_root_ends :
      (d : ℕ) (leaves : List Bytes)
      → 1 ≤ length leaves
      → length leaves ≤ 2 ^ d
      → (root : Bytes) × (merkle_loop d (map fit_leaf leaves) ≡ ok root)
        × (merkle_root leaves ≡ ok (record { root = root; leaf_count = length leaves }))
        × (length root ≡ 32)
  merkle_root_ends d leaves h k =
      let (r, e, f) =
        merkle_loop_lem d (map fit_leaf leaves) (omega (arith, length-leaves leaves))
          (omega (arith, length-leaves leaves)) in
      let (q, f', answer) = merkle_root_climb leaves h in
      let same : r ≡ q = climb_same d _ (map fit_leaf leaves) r q f f' in
      (r, e, rw same answer, All-32 d (map fit_leaf leaves) r (fit_leaf_32 leaves) f)
