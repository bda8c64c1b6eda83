-- ===== src/TransparencyLog/Refinement.antt =====
-- The tree of the class against the definitions of RFC 6962.
use hara_registry.Prelude.{
  ℕ, zero, suc, ◌+◌, ◌-◌, ◌^◌, ◌≤◌, ◌<◌, ◌≡◌, refl, arith, Bool, false, List, [], length, get_or,
  get_elem?-get_or, leb, ltb, ◌==◌, Bool-cases, inl, inr, pow2_suc, pow2_pos, small_power,
}
use hara_registry.Errors.{ok}
use hara_registry.Sha256.{Bytes, Sha256}
use hara_registry.TransparencyLog.{mth, path, subproof, hash_leaf_at}
use hara_registry.TransparencyLog.Rfc6962.{tree, audit, proof}
use hara_registry.TransparencyLog.Split.{largest_power_lem}

-- The leaf at an index.
abbrev pub leaf_of : List Bytes → ℕ → Bytes
leaf_of leaves i = get_or leaves i []

module _ ⦃sha : Sha256⦄ (leaves : List Bytes) where
  pub mth_lem :
      (d fuel start n end : ℕ)
      → d < fuel
      → d ≤ 30
      → n ≤ 2 ^ d
      → start + n ≡ end
      → end ≤ length leaves
      → mth fuel leaves start end ≡ ok (tree (leaf_of leaves) d start n)
  unfolding mth tree hash_leaf_at
  mth_lem zero zero start n end hf hd hn e fit = absurd (omega arith)
  mth_lem zero (suc fuel) start n end hf hd hn e fit =
      let en : end - start ≡ n = omega arith in ground (arith, en, get_elem?-get_or leaves start [])
  mth_lem (suc d) zero start n end hf hd hn e fit = absurd (omega arith)
  mth_lem (suc d) (suc fuel) start n end hf hd hn e fit = elim (Bool-cases (leb n (2 ^ d))) [
    | inl small ↦
        rw small (mth_lem d (suc fuel) start n end (omega arith) (omega arith) (ground arith) e fit)
    | inr big ↦
        let en : end - start ≡ n = omega arith in
        let k =
          largest_power_lem d n (ground arith) hn (omega arith)
            (omega (arith, small_power (suc d) hd)) in
        let left =
          mth_lem d fuel start (2 ^ d) (start + 2 ^ d) (omega arith) (omega arith) (omega arith)
            refl (ground arith) in
        let right =
          mth_lem d fuel (start + 2 ^ d) (n - 2 ^ d) end (omega arith) (omega arith)
            (omega (arith, pow2_suc d)) (ground arith) fit in
        ground (arith, en, k, left, right, pow2_pos d)
  ]

  pub audit_lem :
      (d fuel start n end i : ℕ)
      → d < fuel
      → d ≤ 30
      → n ≤ 2 ^ d
      → start + n ≡ end
      → end ≤ length leaves
      → i < n
      → path fuel leaves (start + i) start end ≡ ok (audit (leaf_of leaves) d start n i)
  unfolding path audit
  audit_lem zero zero start n end i hf hd hn e fit hi = absurd (omega arith)
  audit_lem zero (suc fuel) start n end i hf hd hn e fit hi =
      let en : end - start ≡ n = omega arith in ground (arith, en)
  audit_lem (suc d) zero start n end i hf hd hn e fit hi = absurd (omega arith)
  audit_lem (suc d) (suc fuel) start n end i hf hd hn e fit hi = elim (Bool-cases (leb n (2 ^ d))) [
    | inl small ↦
        rw small
          (audit_lem d (suc fuel) start n end i (omega arith) (omega arith) (ground arith) e fit hi)
    | inr big ↦
        let en : end - start ≡ n = omega arith in
        let k =
          largest_power_lem d n (ground arith) hn (omega arith)
            (omega (arith, small_power (suc d) hd)) in
        let left_root =
          mth_lem d 32 start (2 ^ d) (start + 2 ^ d) (omega arith) (omega arith) (omega arith) refl
            (ground arith) in
        let right_root =
          mth_lem d 32 (start + 2 ^ d) (n - 2 ^ d) end (omega arith) (omega arith)
            (omega (arith, pow2_suc d)) (ground arith) fit in
        elim (Bool-cases (ltb i (2 ^ d))) [
          | inl low ↦
              let ih =
                audit_lem d fuel start (2 ^ d) (start + 2 ^ d) i (omega arith) (omega arith)
                  (omega arith) refl (ground arith) (ground arith) in
              ground (arith, en, k, right_root, ih, pow2_pos d)
          | inr high ↦
              let at : start + 2 ^ d + (i - 2 ^ d) ≡ start + i = ground arith in
              let ih =
                audit_lem d fuel (start + 2 ^ d) (n - 2 ^ d) end (i - 2 ^ d) (omega arith)
                  (omega arith) (omega (arith, pow2_suc d)) (ground arith) fit (ground arith) in
              ground (arith, en, k, left_root, rw at at ih, pow2_pos d)
        ]
  ]

  -- One split of `subproof`, from its two recursive calls.
  proof_lem_split :
      (d fuel start m n end : ℕ) (b : Bool)
      → (m == n) ≡ false
      → leb n (2 ^ d) ≡ false
      → suc d < suc fuel
      → suc d ≤ 30
      → n ≤ 2 ^ suc d
      → start + n ≡ end
      → end ≤ length leaves
      → 1 ≤ m
      → m ≤ n
      → (m ≤ 2 ^ d
          → subproof fuel leaves m start (start + 2 ^ d) b
            ≡ ok (proof (leaf_of leaves) d start m (2 ^ d) b))
      → (1 ≤ m - 2 ^ d
          → m - 2 ^ d ≤ n - 2 ^ d
          → subproof fuel leaves (m - 2 ^ d) (start + 2 ^ d) end false
            ≡ ok (proof (leaf_of leaves) d (start + 2 ^ d) (m - 2 ^ d) (n - 2 ^ d) false))
      → subproof (suc fuel) leaves m start end b ≡ ok (proof (leaf_of leaves) (suc d) start m n b)
  unfolding subproof proof
  proof_lem_split d fuel start m n end b part big hf hd hn e fit lo hi low high =
      let en : end - start ≡ n = omega arith in
      let k =
        largest_power_lem d n (ground arith) hn (omega arith)
          (omega (arith, small_power (suc d) hd)) in
      let left_root =
        mth_lem d 32 start (2 ^ d) (start + 2 ^ d) (omega arith) (omega arith) (omega arith) refl
          (ground arith) in
      let right_root =
        mth_lem d 32 (start + 2 ^ d) (n - 2 ^ d) end (omega arith) (omega arith)
          (omega (arith, pow2_suc d)) (ground arith) fit in
      elim (Bool-cases (leb m (2 ^ d))) [
        | inl left ↦ ground (arith, en, k, right_root, low (ground arith))
        | inr right ↦ ground (arith, en, k, left_root, high (ground arith) (ground arith))
      ]

  pub proof_lem :
      (d fuel start m n end : ℕ) (b : Bool)
      → d < fuel
      → d ≤ 30
      → n ≤ 2 ^ d
      → start + n ≡ end
      → end ≤ length leaves
      → 1 ≤ m
      → m ≤ n
      → subproof fuel leaves m start end b ≡ ok (proof (leaf_of leaves) d start m n b)
  unfolding subproof proof
  proof_lem zero zero start m n end b hf hd hn e fit lo hi = absurd (omega arith)
  proof_lem zero (suc fuel) start m n end b hf hd hn e fit lo hi =
      let en : end - start ≡ n = omega arith in
      let root = mth_lem 0 32 start n end (omega arith) (omega arith) hn e fit in
      ground (arith, en, root)
  proof_lem (suc d) zero start m n end b hf hd hn e fit lo hi = absurd (omega arith)
  proof_lem (suc d) (suc fuel) start m n end b hf hd hn e fit lo hi = elim (Bool-cases (m == n)) [
    | inl whole ↦
        let en : end - start ≡ n = omega arith in
        let root = mth_lem (suc d) 32 start n end (omega arith) hd hn e fit in
        ground (arith, en, root)
    | inr part ↦ elim (Bool-cases (leb n (2 ^ d))) [
      | inl small ↦
          rw (part, small)
            (proof_lem d (suc fuel) start m n end b (omega arith) (omega arith) (ground arith) e fit
              lo hi)
      | inr big ↦
          proof_lem_split d fuel start m n end b part big hf hd hn e fit lo hi
            (λ below.
              proof_lem d fuel start m (2 ^ d) (start + 2 ^ d) b (omega arith) (omega arith)
                (omega arith) refl (ground arith) lo below)
            (λ lo' hi'.
              proof_lem d fuel (start + 2 ^ d) (m - 2 ^ d) (n - 2 ^ d) end false (omega arith)
                (omega arith) (omega (arith, pow2_suc d)) (ground arith) fit lo' hi')
    ]
  ]
