-- ===== src/Verifiers/Seed.antt =====
-- The first node of a consistency proof: where the first size is a power of two the proof leaves
-- it out, and verifyConsistency puts the first root in its place.
use hara_registry.Prelude.{
  ℕ, zero, suc, ◌+◌, ◌-◌, ◌^◌, ◌≤◌, ◌<◌, ◌≡◌, refl, arith, true, false, List, [], ◌∷◌, ◌++◌, leb,
  ◌==◌, Bool-cases, ◌⊎◌, inl, inr, if◌then◌else◌, pow2_mono,
}
use mathlib.Core.List.{append_assoc}
use hara_registry.Sha256.{Bytes, Sha256}
use hara_registry.TransparencyLog.Rfc6962.{
  tree, proof, tree_same, proof_known, proof_whole, proof_same, proof_left, proof_right,
}
use hara_registry.Verifiers.{is_pow2}
use hara_registry.Verifiers.Powers.{is_pow2-power, is_pow2-between}

two_power_bound : (d : ℕ) → d ≤ 31 → 2 ^ d ≤ 2 ^ 31
two_power_bound d h =
    let whole : 31 - d + d ≡ 31 = omega arith in rw whole at (pow2_mono d (31 - d))

module _ ⦃sha : Sha256⦄ (D : ℕ → Bytes) where
  abbrev pub seed : ℕ → ℕ → ℕ → List Bytes
  seed d start m = if is_pow2 m then tree D d start m ∷ [] else []

  pub seed_lem :
      (d start m n : ℕ)
      → 1 ≤ m
      → m ≤ n
      → n ≤ 2 ^ d
      → d ≤ 31
      → (m < n) ⊎ (n ≡ 2 ^ d)
      → seed d start m ++ proof D d start m n true ≡ proof D d start m n false
  seed_lem zero start m n lo hi hn hd side =
      let one : m ≡ 1 = omega arith in
      let one' : n ≡ 1 = omega arith in
      rw (one, one', is_pow2-power 0 (omega arith)) (unfold proof in refl)
  seed_lem (suc d) start m n lo hi hn hd side = elim (Bool-cases (m == n)) [
    | inl all ↦
        let e : n ≡ 2 ^ suc d = ground arith in
        let e' : m ≡ 2 ^ suc d = ground arith in
        rw (
          e',
          e,
          is_pow2-power (suc d) hd,
          proof_known D (suc d) start (2 ^ suc d),
          proof_whole D (suc d) start (2 ^ suc d),
        )
    | inr part ↦
        let lt : m < n = ground arith in
        elim (Bool-cases (leb n (2 ^ d))) [
          | inl low ↦
              let hn' : n ≤ 2 ^ d = ground arith in
              rw
                (
                  proof_same D d start m n true lt hn',
                  proof_same D d start m n false lt hn',
                  tree_same D d start m (omega arith),
                )
                (seed_lem d start m n lo hi hn' (omega arith) (inl lt))
          | inr high ↦
              let more : 2 ^ d < n = ground arith in
              elim (Bool-cases (leb m (2 ^ d))) [
                | inl left ↦
                    let hm : m ≤ 2 ^ d = ground arith in
                    let ih =
                      seed_lem d start m (2 ^ d) lo hm (omega arith) (omega arith) (inr refl) in
                    rw (
                      proof_left D d start m n true lt more hm,
                      proof_left D d start m n false lt more hm,
                      tree_same D d start m hm,
                      ← append_assoc,
                      ih,
                    )
                | inr right ↦
                    let hm : 2 ^ d < m = ground arith in
                    let top = two_power_bound (suc d) hd in
                    rw (
                      is_pow2-between d m hm (omega arith) (omega arith),
                      proof_right D d start m n true lt more hm,
                      proof_right D d start m n false lt more hm,
                    )
              ]
        ]
  ]
