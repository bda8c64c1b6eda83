-- ===== src/TransparencyLog/Shape.antt =====
-- The bytes of the hashes of a tree and of its proofs.
use hara_registry.Prelude.{
  ℕ, zero, suc, ◌+◌, ◌-◌, ◌^◌, ◌≡◌, Bool, true, false, List, [], ◌∷◌, ◌++◌, ◌≡◌, All, length,
  All-append, leb, ltb, ◌==◌, Bool-cases, if◌then◌else◌, inl, inr,
}
use hara_registry.Sha256.{Bytes, IsByte, Sha256, hash_leaf, hash_children}
use hara_registry.TransparencyLog.Rfc6962.{tree, audit, proof}

module _ ⦃sha : Sha256⦄ (D : ℕ → Bytes) where
  pub tree-IsByte : (d start n : ℕ) → All IsByte (tree D d start n)
  unfolding tree hash_leaf hash_children
  tree-IsByte zero start n = elim (Bool-cases (n == 0)) [
    | inl empty ↦ rw empty (sha.digest-IsByte _)
    | inr one ↦ rw one (sha.digest-IsByte _)
  ]
  tree-IsByte (suc d) start n = elim (Bool-cases (leb n (2 ^ d))) [
    | inl low ↦ rw low (tree-IsByte d start n)
    | inr high ↦ rw high (sha.digest-IsByte _)
  ]

  pub length-tree : (d start n : ℕ) → length (tree D d start n) ≡ 32
  unfolding tree hash_leaf hash_children
  length-tree zero start n = elim (Bool-cases (n == 0)) [
    | inl empty ↦ rw empty (sha.length-digest _)
    | inr one ↦ rw one (sha.length-digest _)
  ]
  length-tree (suc d) start n = elim (Bool-cases (leb n (2 ^ d))) [
    | inl low ↦ rw low (length-tree d start n)
    | inr high ↦ rw high (sha.length-digest _)
  ]

  snoc-IsByte :
      (nodes : List Bytes) (d start n : ℕ)
      → All (All IsByte) nodes
      → All (All IsByte) (nodes ++ (tree D d start n ∷ []))
  snoc-IsByte nodes d start n h = All-append (All IsByte) nodes _ h (tree-IsByte d start n, tt)

  pub audit-IsByte : (d start n i : ℕ) → All (All IsByte) (audit D d start n i)
  unfolding audit
  audit-IsByte zero start n i = tt
  audit-IsByte (suc d) start n i = elim (Bool-cases (leb n (2 ^ d))) [
    | inl low ↦ rw low (audit-IsByte d start n i)
    | inr high ↦ rw high (elim (Bool-cases (ltb i (2 ^ d))) [
      | inl left ↦ rw left (snoc-IsByte _ d _ _ (audit-IsByte d start (2 ^ d) i))
      | inr right ↦
          rw right (snoc-IsByte _ d _ _ (audit-IsByte d (start + 2 ^ d) (n - 2 ^ d) (i - 2 ^ d)))
    ])
  ]

  pub proof-IsByte : (d start m n : ℕ) (b : Bool) → All (All IsByte) (proof D d start m n b)
  unfolding proof
  proof-IsByte zero start m n true = tt
  proof-IsByte zero start m n false = (tree-IsByte zero start n, tt)
  proof-IsByte (suc d) start m n b = elim (Bool-cases (m == n)) [
    | inl all ↦ rw all (whole b)
    | inr part ↦ rw part (elim (Bool-cases (leb n (2 ^ d))) [
      | inl low ↦ rw low (proof-IsByte d start m n b)
      | inr high ↦ rw high (elim (Bool-cases (leb m (2 ^ d))) [
        | inl left ↦ rw left (snoc-IsByte _ d _ _ (proof-IsByte d start m (2 ^ d) b))
        | inr right ↦
            rw right
              (snoc-IsByte _ d _ _ (proof-IsByte d (start + 2 ^ d) (m - 2 ^ d) (n - 2 ^ d) false))
      ])
    ])
  ]
    where
      whole : (b : Bool) → All (All IsByte) (if b then [] else (tree D (suc d) start n ∷ []))
      whole true = tt
      whole false = (tree-IsByte (suc d) start n, tt)
