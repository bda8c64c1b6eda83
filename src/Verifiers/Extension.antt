-- ===== src/Verifiers/Extension.antt =====
-- The climb of verifyConsistency over the proof of the tree.
use hara_registry.Prelude.{
  ℕ, zero, suc, ◌+◌, ◌-◌, ◌*◌, ◌%◌, ◌^◌, ◌≤◌, ◌<◌, ◌≡◌, refl, ap, ◌∙◌, arith, false, some, leb,
  ◌==◌, Bool-cases, ◌⊎◌, inl, inr, pow2_suc, pow2_pos,
}
use hara_registry.Sha256.{Bytes, Sha256}
use hara_registry.TransparencyLog.Rfc6962.{
  tree, proof, tree_same, tree_split, proof_whole, proof_same, proof_left, proof_right,
}
use hara_registry.Verifiers.{consistency_loop}
use hara_registry.Verifiers.Moves.{mul_pow2_suc, le-mul_pow2, one_down, pow2_exponent}
use hara_registry.Verifiers.Inclusion.{slack, slack_bound}
use hara_registry.Verifiers.Consistency.{
  shift_odd_lem, twin, twin_all, twin_all-snoc, twin_even, twin_odd, twin_edge,
}

mul_mono : (a b c : ℕ) → a ≤ b → a * c ≤ b * c
mul_mono a b c h = grind arith

module _ ⦃sha : Sha256⦄ (D : ℕ → Bytes) where
  -- The first tree ends where a complete subtree ends.
  twin_complete :
      (d f g t start fn sn : ℕ)
      → f % 2 ≡ 0
      → t < 2 ^ d
      → f < g
      → fn ≡ f * 2 ^ d + (2 ^ d - 1)
      → sn ≡ g * 2 ^ d + t
      → sn < 2 ^ 31
      → twin_all (proof D d start (2 ^ d) (2 ^ d) false) fn sn
        ≡ some (twin f g (tree D d start (2 ^ d)) (tree D d start (2 ^ d)))
  unfolding twin_all consistency_loop
  twin_complete d f g t start fn sn even ht lt hfn hsn small =
      let row : (f + 1) * 2 ^ d ≤ g * 2 ^ d = mul_mono (f + 1) g (2 ^ d) (omega arith) in
      let next : fn + 1 ≡ (f + 1) * 2 ^ d = omega (arith, pow2_pos d) in
      let one : 1 * 2 ^ d ≤ g * 2 ^ d = mul_mono 1 g (2 ^ d) (omega arith) in
      let short : d < 31 = pow2_exponent d 31 (omega arith) in
      rw (
        proof_whole D d start (2 ^ d),
        shift_odd_lem 32 d f g t fn sn next hsn ht even (omega arith) small (omega arith),
      )

  -- A complete subtree that is not at the right edge of the second tree.
  twin_inside :
      (d f g t start m fn sn : ℕ)
      → 1 ≤ m
      → m ≤ 2 ^ d
      → (m < 2 ^ d) ⊎ (f % 2 ≡ 0)
      → t < 2 ^ d
      → f < g
      → fn ≡ f * 2 ^ d + (m - 1)
      → sn ≡ g * 2 ^ d + t
      → sn < 2 ^ 31
      → twin_all (proof D d start m (2 ^ d) false) fn sn
        ≡ some (twin f g (tree D d start m) (tree D d start (2 ^ d)))
  twin_inside zero f g t start m fn sn lo hi side ht lt hfn hsn small =
      let one : m ≡ 1 = omega arith in
      rw one (twin_complete zero f g t start fn sn (omega arith) ht lt (omega arith) hsn small)
  twin_inside (suc d) f g t start m fn sn lo hi side ht lt hfn hsn small =
      let half : 2 ^ suc d - 2 ^ d ≡ 2 ^ d = omega (arith, pow2_suc d) in
      let more : 2 ^ d < 2 ^ suc d = omega (arith, pow2_suc d, pow2_pos d) in
      let (h, u, hu, same, up) = one_down d g t ht in
      let bound : h ≤ sn = omega (arith, le-mul_pow2 h d) in
      let whole = tree_split D d start (2 ^ suc d) more in
      elim (Bool-cases (m == 2 ^ suc d)) [
        | inl all ↦
            let e : m ≡ 2 ^ suc d = ground arith in
            rw e
              (twin_complete (suc d) f g t start fn sn (omega arith) ht lt (omega arith) hsn small)
        | inr part ↦
            let under : m < 2 ^ suc d = ground arith in
            elim (Bool-cases (leb m (2 ^ d))) [
              | inl low ↦
                  let hm : m ≤ 2 ^ d = ground arith in
                  rw
                    (
                      proof_left D d start m (2 ^ suc d) false under more hm,
                      whole,
                      tree_same D d start m hm,
                      half,
                    )
                    (twin_all-snoc _ _ _ _ _
                        (twin_inside d (2 * f) h u start m fn sn lo hm (inr (omega arith)) hu
                          (omega arith) (omega (arith, mul_pow2_suc f d)) (hsn ∙ same) small)
                        (λ z. omega arith)
                      ∙ ap some (
                          twin_even (2 * f) h f g _ _ _ (omega arith) (omega arith) refl
                            (λ z. omega arith) up))
              | inr high ↦
                  let hm : 2 ^ d < m = ground arith in
                  rw
                    (
                      proof_right D d start m (2 ^ suc d) false under more hm,
                      whole,
                      tree_split D d start m hm,
                      half,
                    )
                    (twin_all-snoc _ _ _ _ _
                        (twin_inside d (2 * f + 1) h u (start + 2 ^ d) (m - 2 ^ d) fn sn
                          (omega arith) (omega (arith, pow2_suc d))
                          (inl (omega (arith, pow2_suc d))) hu (omega arith)
                          (omega (arith, mul_pow2_suc f d)) (hsn ∙ same) small)
                        (λ z. omega arith)
                      ∙ ap some
                          (twin_odd (2 * f + 1) h f g _ _ _ (omega arith) (omega arith) refl up))
            ]
      ]

  -- The subtree at the right edge of the second tree.
  twin_edge_tree :
      (d c start m n fn sn : ℕ)
      → 1 ≤ m
      → m < n
      → n ≤ 2 ^ d
      → fn ≡ c * 2 ^ d + (m - 1)
      → sn ≡ c * 2 ^ d + (n - 1)
      → sn < 2 ^ 31
      → twin_all (proof D d start m n false) fn sn
        ≡ some (twin (c * 2 ^ slack d n) (c * 2 ^ slack d n) (tree D d start m) (tree D d start n))
  twin_edge_tree zero c start m n fn sn lo lt hn hfn hsn small = absurd (omega arith)
  twin_edge_tree (suc d) c start m n fn sn lo lt hn hfn hsn small =
      elim (Bool-cases (leb n (2 ^ d))) [
        | inl low ↦
            let hn' : n ≤ 2 ^ d = ground arith in
            rw
              (
                proof_same D d start m n false lt hn',
                tree_same D d start n hn',
                tree_same D d start m (omega arith),
                low,
                twice,
              )
              (twin_edge_tree d (2 * c) start m n fn sn lo lt hn' (omega (arith, mul_pow2_suc c d))
                (omega (arith, mul_pow2_suc c d)) small)
        | inr high ↦
            let more : 2 ^ d < n = ground arith in
            let room : 2 * c + 1 ≤ sn = omega (arith, le-mul_pow2 c d, mul_pow2_suc c d) in
            rw (high, tree_split D d start n more, flat)
              (elim (Bool-cases (leb m (2 ^ d))) [
                | inl left ↦
                    let hm : m ≤ 2 ^ d = ground arith in
                    rw (proof_left D d start m n false lt more hm, tree_same D d start m hm)
                      (twin_all-snoc _ _ _ _ _
                          (twin_inside d (2 * c) (2 * c + 1) (n - 1 - 2 ^ d) start m fn sn lo hm
                            (inr (omega arith)) (omega (arith, pow2_suc d)) (omega arith)
                            (omega (arith, mul_pow2_suc c d)) (omega (arith, mul_pow2_suc c d))
                            small)
                          (λ z. omega arith)
                        ∙ ap some (
                            twin_even (2 * c) (2 * c + 1) c c _ _ _ (omega arith) (omega arith) refl
                              (λ z. omega arith) (omega arith)))
                | inr right ↦
                    let hm : 2 ^ d < m = ground arith in
                    let e = slack d (n - 2 ^ d) in
                    let bound : (2 * c + 1) * 2 ^ e < 2 ^ 31 =
                      omega (arith, slack_bound d (2 * c + 1) (n - 2 ^ d), mul_pow2_suc c d) in
                    rw (proof_right D d start m n false lt more hm, tree_split D d start m hm)
                      (twin_all-snoc _ _ _ _ _
                          (twin_edge_tree d (2 * c + 1) (start + 2 ^ d) (m - 2 ^ d) (n - 2 ^ d) fn
                            sn (omega arith) (omega arith) (omega (arith, pow2_suc d))
                            (omega (arith, mul_pow2_suc c d)) (omega (arith, mul_pow2_suc c d))
                            small)
                          (λ z. omega (arith, le-mul_pow2 (2 * c + 1) e))
                        ∙ ap some (twin_edge e c _ _ _ _ refl bound))
              ])
      ]
    where
      twice : c * 2 ^ suc (slack d n) ≡ 2 * c * 2 ^ slack d n
      twice = omega (arith, mul_pow2_suc c (slack d n))

      flat : c * 2 ^ 0 ≡ c
      flat = omega arith

  -- The whole of both trees.
  pub twin_whole :
      (d m n : ℕ)
      → 1 ≤ m
      → m < n
      → n ≤ 2 ^ d
      → n ≤ 2 ^ 31
      → twin_all (proof D d 0 m n false) (m - 1) (n - 1)
        ≡ some (twin 0 0 (tree D d 0 m) (tree D d 0 n))
  twin_whole d m n lo lt hn small =
      let zero_pow : 0 * 2 ^ slack d n ≡ 0 = omega arith in
      rw zero_pow at (
        twin_edge_tree d 0 0 m n (m - 1) (n - 1) lo lt hn (omega arith) (omega arith) (omega arith))
