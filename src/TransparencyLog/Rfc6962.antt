-- ===== src/TransparencyLog/Rfc6962.antt =====
-- RFC 6962, section 2.1, over leaves `D 0, D 1, …`: the Merkle tree hash, PATH and PROOF of the `n`
-- leaves from `start` on, for `n` at most `2 ^ d`. Each splits at the largest power of two below
-- `n`; where `n ≤ 2 ^ d` already, the definition for `d` serves at `suc d` too.
use hara_registry.Prelude.{
  ℕ, ◌≡◌, refl, ◌<◌, ◌≤◌, arith, zero, suc, ◌+◌, ◌-◌, ◌^◌, Bool, true, false, List, [], ◌∷◌, ◌++◌,
  leb, ltb, ◌==◌, if◌then◌else◌,
}
use hara_registry.Sha256.{Bytes, Sha256, sha256, hash_leaf, hash_children}

module _ ⦃sha : Sha256⦄ (D : ℕ → Bytes) where
  unfoldable pub tree : ℕ → ℕ → ℕ → Bytes
  tree zero start n = if n == 0 then sha256 [] else hash_leaf (D start)
  tree (suc d) start n =
      let k = 2 ^ d in
      if leb n k
      then tree d start n
      else hash_children (tree d start k) (tree d (start + k) (n - k))

  -- The siblings of leaf `start + i`, from the leaf up to the root.
  unfoldable pub audit : ℕ → ℕ → ℕ → ℕ → List Bytes
  audit zero start n i = []
  audit (suc d) start n i =
      let k = 2 ^ d in
      let same = audit d start n i in
      let left = audit d start k i ++ (tree d (start + k) (n - k) ∷ []) in
      let right = audit d (start + k) (n - k) (i - k) ++ (tree d start k ∷ []) in
      if leb n k then same else if ltb i k then left else right

  -- SUBPROOF: the nodes from which the tree hashes of the first `m` and of all `n` leaves follow.
  unfoldable pub proof : ℕ → ℕ → ℕ → ℕ → Bool → List Bytes
  proof zero start m n b = if b then [] else tree zero start n ∷ []
  proof (suc d) start m n b =
      let k = 2 ^ d in
      let whole = tree (suc d) start n ∷ [] in
      let same = proof d start m n b in
      let left = proof d start m k b ++ (tree d (start + k) (n - k) ∷ []) in
      let right = proof d (start + k) (m - k) (n - k) false ++ (tree d start k ∷ []) in
      if m == n
      then (if b then [] else whole)
      else if leb n k
      then same
      else if leb m k
      then left
      else right

  pub tree_same : (d start n : ℕ) → n ≤ 2 ^ d → tree (suc d) start n ≡ tree d start n
  unfolding tree
  tree_same d start n h = ground arith

  pub tree_split :
      (d start n : ℕ)
      → 2 ^ d < n
      → tree (suc d) start n
        ≡ hash_children (tree d start (2 ^ d)) (tree d (start + 2 ^ d) (n - 2 ^ d))
  unfolding tree
  tree_split d start n h = ground arith

  pub audit_same : (d start n i : ℕ) → n ≤ 2 ^ d → audit (suc d) start n i ≡ audit d start n i
  unfolding audit
  audit_same d start n i h = ground arith

  pub audit_left :
      (d start n i : ℕ)
      → 2 ^ d < n
      → i < 2 ^ d
      → audit (suc d) start n i
        ≡ audit d start (2 ^ d) i ++ (tree d (start + 2 ^ d) (n - 2 ^ d) ∷ [])
  unfolding audit
  audit_left d start n i h k = ground arith

  pub audit_right :
      (d start n i : ℕ)
      → 2 ^ d < n
      → 2 ^ d ≤ i
      → audit (suc d) start n i
        ≡ audit d (start + 2 ^ d) (n - 2 ^ d) (i - 2 ^ d) ++ (tree d start (2 ^ d) ∷ [])
  unfolding audit
  audit_right d start n i h k = ground arith

  pub proof_whole : (d start n : ℕ) → proof d start n n false ≡ tree d start n ∷ []
  unfolding proof
  proof_whole zero start n = refl
  proof_whole (suc d) start n = ground arith

  pub proof_known : (d start n : ℕ) → proof d start n n true ≡ []
  unfolding proof
  proof_known zero start n = refl
  proof_known (suc d) start n = ground arith

  pub proof_same :
      (d start m n : ℕ) (b : Bool)
      → m < n
      → n ≤ 2 ^ d
      → proof (suc d) start m n b ≡ proof d start m n b
  unfolding proof
  proof_same d start m n b h k = ground arith

  pub proof_left :
      (d start m n : ℕ) (b : Bool)
      → m < n
      → 2 ^ d < n
      → m ≤ 2 ^ d
      → proof (suc d) start m n b
        ≡ proof d start m (2 ^ d) b ++ (tree d (start + 2 ^ d) (n - 2 ^ d) ∷ [])
  unfolding proof
  proof_left d start m n b h k l = ground arith

  pub proof_right :
      (d start m n : ℕ) (b : Bool)
      → m < n
      → 2 ^ d < n
      → 2 ^ d < m
      → proof (suc d) start m n b
        ≡ proof d (start + 2 ^ d) (m - 2 ^ d) (n - 2 ^ d) false ++ (tree d start (2 ^ d) ∷ [])
  unfolding proof
  proof_right d start m n b h k l = ground arith
