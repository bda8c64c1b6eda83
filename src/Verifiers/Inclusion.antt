-- ===== src/Verifiers/Inclusion.antt =====
-- The loop of verifyInclusion on the audit paths of the tree.
use hara_registry.Prelude.{
  ℕ, zero, suc, ◌+◌, ◌-◌, ◌*◌, ◌/◌, ◌^◌, ◌≤◌, ◌<◌, ◌≡◌, ◌≢◌, refl, ap, ◌∙◌, arith, Option, none,
  some, List, [], ◌∷◌, ◌++◌, map, All, leb, ltb, ◌==◌, Bool-cases, inl, inr, if◌then◌else◌,
  pow2_suc, pow2_pos,
}
use hara_registry.Errors.{ok}
use hara_registry.Sha256.{Bytes, IsByte, Sha256, hash_leaf, hash_children}
use hara_registry.Hex.{to_hex}
use hara_registry.Hex.RoundTrip.{from_hex-to_hex}
use hara_registry.TransparencyLog.Rfc6962.{
  tree, audit, tree_same, tree_split, audit_same, audit_left, audit_right,
}
use hara_registry.Verifiers.{Climb, climb, inclusion_loop}
use hara_registry.Verifiers.Moves.{
  move_even, move_odd, move_edge, mul_pow2_suc, le-mul_pow2, one_down,
}

abbrev pub at : ℕ → ℕ → Bytes → Climb
at fn sn r = record { fn = fn; sn = sn; r = r }

-- How far the last climb of a subtree stays below its nominal height.
abbrev pub slack : ℕ → ℕ → ℕ
slack zero n = 0
slack (suc d) n = if leb n (2 ^ d) then suc (slack d n) else 0

pub slack_bound : (d c n : ℕ) → c * 2 ^ slack d n ≤ c * 2 ^ d
slack_bound zero c n = omega arith
slack_bound (suc d) c n = elim (Bool-cases (leb n (2 ^ d))) [
  | inl low ↦
      rw low (omega (arith, slack_bound d c n, mul_pow2_suc c d, mul_pow2_suc c (slack d n)))
  | inr high ↦ rw high (omega (arith, le-mul_pow2 c (suc d)))
]

module _ ⦃sha : Sha256⦄ where
  -- `inclusion_loop` on nodes that are decoded already.
  unfoldable pub climb_all : List Bytes → Climb → Option Climb
  climb_all [] s = some s
  climb_all (p ∷ rest) s =
      let round = climb_all rest (climb s p) in if s.sn == 0 then none else round

  pub inclusion_loop_lem :
      (nodes : List Bytes) (s : Climb)
      → All (All IsByte) nodes
      → inclusion_loop (map to_hex nodes) s ≡ ok (climb_all nodes s)
  unfolding inclusion_loop climb_all
  inclusion_loop_lem [] s h = refl
  inclusion_loop_lem (p ∷ rest) s (hp, hrest) =
      ground (arith, from_hex-to_hex p hp, inclusion_loop_lem rest (climb s p) hrest)

  climb_all-snoc :
      (nodes : List Bytes) (p : Bytes) (s t : Climb)
      → climb_all nodes s ≡ some t
      → t.sn ≢ 0
      → climb_all (nodes ++ (p ∷ [])) s ≡ some (climb t p)
  unfolding climb_all
  climb_all-snoc [] p s t h live = ground arith
  climb_all-snoc (q ∷ rest) p s t h live = ground (arith, climb_all-snoc rest p (climb s q) t)

  climb_even :
      (fn sn f g : ℕ) (r p : Bytes)
      → fn < 2 ^ 31
      → sn < 2 ^ 31
      → fn ≡ 2 * f
      → fn ≢ sn
      → sn / 2 ≡ g
      → climb (at fn sn r) p ≡ at f g (hash_children r p)
  unfolding climb
  climb_even fn sn f g r p h k even diff half =
      ground (arith, move_even fn sn h k (omega arith) diff)

  climb_odd :
      (fn sn f g : ℕ) (r p : Bytes)
      → fn < 2 ^ 31
      → sn < 2 ^ 31
      → fn ≡ 2 * f + 1
      → sn / 2 ≡ g
      → climb (at fn sn r) p ≡ at f g (hash_children p r)
  unfolding climb
  climb_odd fn sn f g r p h k odd half = ground (arith, move_odd fn sn h k (omega arith))

  climb_edge :
      (e c x : ℕ) (r p : Bytes)
      → x ≡ (2 * c + 1) * 2 ^ e
      → x < 2 ^ 31
      → climb (at x x r) p ≡ at c c (hash_children p r)
  unfolding climb
  climb_edge e c x r p hx small = ground (arith, move_edge e c x hx small)

  module _ (D : ℕ → Bytes) where
    -- A complete subtree that is not at the right edge: the climb ends in its root, `d` levels up.
    climb_inside :
        (d f g t start i fn sn : ℕ)
        → i < 2 ^ d
        → t < 2 ^ d
        → f < g
        → fn ≡ f * 2 ^ d + i
        → sn ≡ g * 2 ^ d + t
        → sn < 2 ^ 31
        → climb_all (audit D d start (2 ^ d) i) (at fn sn (hash_leaf (D (start + i))))
          ≡ some (at f g (tree D d start (2 ^ d)))
    climb_inside zero f g t start i fn sn hi ht lt hfn hsn small =
        unfold audit tree climb_all in ground arith
    climb_inside (suc d) f g t start i fn sn hi ht lt hfn hsn small =
        let half : 2 ^ suc d - 2 ^ d ≡ 2 ^ d = omega (arith, pow2_suc d) in
        let more : 2 ^ d < 2 ^ suc d = omega (arith, pow2_suc d, pow2_pos d) in
        let (h, u, hu, same, up) = one_down d g t ht in
        let bound : h ≤ sn = omega (arith, le-mul_pow2 h d) in
        let whole = tree_split D d start (2 ^ suc d) more in
        elim (Bool-cases (ltb i (2 ^ d))) [
          | inl low ↦
              let hi' : i < 2 ^ d = ground arith in
              rw (audit_left D d start (2 ^ suc d) i more hi', whole)
                (climb_all-snoc _ _ _ _
                    (climb_inside d (2 * f) h u start i fn sn hi' hu (omega arith)
                      (omega (arith, mul_pow2_suc f d)) (hsn ∙ same) small)
                    (λ z. omega arith)
                  ∙ ap some (
                      climb_even (2 * f) h f g _ _ (omega arith) (omega arith) refl
                        (λ z. omega arith) up))
          | inr high ↦
              let hi' : 2 ^ d ≤ i = ground arith in
              let at_i : start + 2 ^ d + (i - 2 ^ d) ≡ start + i = omega arith in
              let below =
                climb_inside d (2 * f + 1) h u (start + 2 ^ d) (i - 2 ^ d) fn sn (omega arith) hu
                  (omega arith) (omega (arith, mul_pow2_suc f d)) (hsn ∙ same) small in
              rw (audit_right D d start (2 ^ suc d) i more hi', whole, half)
                (climb_all-snoc _ _ _ _ (rw at_i at below) (λ z. omega arith)
                  ∙ ap some (climb_odd (2 * f + 1) h f g _ _ (omega arith) (omega arith) refl up))
        ]

    -- The subtree at the right edge of the tree.
    pub climb_edge_tree :
        (d c start n i fn sn : ℕ)
        → n ≤ 2 ^ d
        → i < n
        → fn ≡ c * 2 ^ d + i
        → sn ≡ c * 2 ^ d + (n - 1)
        → sn < 2 ^ 31
        → climb_all (audit D d start n i) (at fn sn (hash_leaf (D (start + i))))
          ≡ some (at (c * 2 ^ slack d n) (c * 2 ^ slack d n) (tree D d start n))
    climb_edge_tree zero c start n i fn sn hn hi hfn hsn small =
        let flat : c * 2 ^ 0 ≡ c = omega arith in
        rw flat (unfold audit tree climb_all in ground arith)
    climb_edge_tree (suc d) c start n i fn sn hn hi hfn hsn small =
        elim (Bool-cases (leb n (2 ^ d))) [
          | inl low ↦
              rw
                (
                  audit_same D d start n i (ground arith),
                  tree_same D d start n (ground arith),
                  low,
                  twice,
                )
                (climb_edge_tree d (2 * c) start n i fn sn (ground arith) hi
                  (omega (arith, mul_pow2_suc c d)) (omega (arith, mul_pow2_suc c d)) small)
          | inr high ↦
              let more : 2 ^ d < n = ground arith in
              let room : 2 * c + 1 ≤ sn = omega (arith, le-mul_pow2 c d, mul_pow2_suc c d) in
              rw (high, tree_split D d start n more, flat)
                (elim (Bool-cases (ltb i (2 ^ d))) [
                  | inl left ↦
                      let hi' : i < 2 ^ d = ground arith in
                      rw (audit_left D d start n i more hi') (
                        climb_all-snoc _ _ _ _
                          (climb_inside d (2 * c) (2 * c + 1) (n - 1 - 2 ^ d) start i fn sn hi'
                            (omega (arith, pow2_suc d)) (omega arith)
                            (omega (arith, mul_pow2_suc c d)) (omega (arith, mul_pow2_suc c d))
                            small)
                          (λ z. omega arith)
                        ∙ ap some (
                            climb_even (2 * c) (2 * c + 1) c c _ _ (omega arith) (omega arith) refl
                              (λ z. omega arith) (omega arith)))
                  | inr right ↦
                      let hi' : 2 ^ d ≤ i = ground arith in
                      let at_i : start + 2 ^ d + (i - 2 ^ d) ≡ start + i = omega arith in
                      let e = slack d (n - 2 ^ d) in
                      let below =
                        climb_edge_tree d (2 * c + 1) (start + 2 ^ d) (n - 2 ^ d) (i - 2 ^ d) fn sn
                          (omega (arith, pow2_suc d)) (omega arith)
                          (omega (arith, mul_pow2_suc c d)) (omega (arith, mul_pow2_suc c d))
                          small in
                      let bound : (2 * c + 1) * 2 ^ e < 2 ^ 31 =
                        omega (arith, slack_bound d (2 * c + 1) (n - 2 ^ d), mul_pow2_suc c d) in
                      rw (audit_right D d start n i more hi') (
                        climb_all-snoc _ _ _ _ (rw at_i at below)
                          (λ z. omega (arith, le-mul_pow2 (2 * c + 1) e))
                        ∙ ap some (climb_edge e c _ _ _ refl bound))
                ])
        ]
      where
        twice : c * 2 ^ suc (slack d n) ≡ 2 * c * 2 ^ slack d n
        twice = omega (arith, mul_pow2_suc c (slack d n))

        flat : c * 2 ^ 0 ≡ c
        flat = omega arith

    -- The whole tree: the climb ends at the root, with `fn` and `sn` used up.
    pub climb_whole :
        (d n i : ℕ)
        → n ≤ 2 ^ d
        → i < n
        → n ≤ 2 ^ 31
        → climb_all (audit D d 0 n i) (at i (n - 1) (hash_leaf (D i)))
          ≡ some (at 0 0 (tree D d 0 n))
    climb_whole d n i hn hi small =
        let zero_pow : 0 * 2 ^ slack d n ≡ 0 = omega arith in
        let at_i : 0 + i ≡ i = omega arith in
        rw (zero_pow, at_i) at
          (climb_edge_tree d 0 0 n i i (n - 1) hn hi (omega arith) (omega arith) (omega arith))
