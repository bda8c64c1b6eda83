-- ===== src/Verifiers/Consistency.antt =====
-- The two climbs of verifyConsistency.
use hara_registry.Prelude.{
  ℕ, zero, suc, ◌+◌, ◌*◌, ◌/◌, ◌%◌, ◌^◌, ◌<◌, ◌≡◌, ◌≢◌, arith, Option, none, some, List, [], ◌∷◌,
  ◌++◌, pow2_suc, sar1_small,
}
use hara_registry.Sha256.{Bytes, Sha256, hash_children}
use hara_registry.TransparencyLog.{max_rounds}
use hara_registry.Verifiers.{Twin, twin_climb, consistency_loop, shift_while_odd}
use hara_registry.Verifiers.Moves.{move_even, move_odd, move_edge, mul_pow2_suc}

-- The trailing ones of `fn` are the levels on which the first tree is complete.
pub shift_odd_lem :
    (fuel d f g t fn sn : ℕ)
    → fn + 1 ≡ (f + 1) * 2 ^ d
    → sn ≡ g * 2 ^ d + t
    → t < 2 ^ d
    → f % 2 ≡ 0
    → fn < 2 ^ 31
    → sn < 2 ^ 31
    → d < fuel
    → shift_while_odd fuel fn sn ≡ (f, g)
unfolding shift_while_odd
shift_odd_lem zero d f g t fn sn hfn hsn ht even small small' hd = absurd (omega arith)
shift_odd_lem (suc fuel) zero f g t fn sn hfn hsn ht even small small' hd =
    let at_f : fn ≡ f = omega arith in let at_g : sn ≡ g = omega arith in ground arith
shift_odd_lem (suc fuel) (suc d) f g t fn sn hfn hsn ht even small small' hd =
    let odd : fn % 2 ≡ 1 = omega (arith, mul_pow2_suc (f + 1) d) in
    let up : fn / 2 + 1 ≡ (f + 1) * 2 ^ d = omega (arith, mul_pow2_suc (f + 1) d) in
    let up' : sn / 2 ≡ g * 2 ^ d + t / 2 = omega (arith, mul_pow2_suc g d) in
    ground (
      arith,
      sar1_small fn,
      sar1_small sn,
      shift_odd_lem fuel d f g (t / 2) (fn / 2) (sn / 2) up up' (omega (arith, pow2_suc d)) even,
    )

abbrev pub twin : ℕ → ℕ → Bytes → Bytes → Twin
twin fn sn fr sr = record { fn = fn; sn = sn; fr = fr; sr = sr }

module _ ⦃sha : Sha256⦄ where
  -- The climb over a proof whose first node is the seed.
  unfoldable pub twin_all : List Bytes → ℕ → ℕ → Option Twin
  twin_all [] fn sn = none
  twin_all (seed ∷ rest) fn sn =
      let (fn', sn') = shift_while_odd max_rounds fn sn in
      consistency_loop rest (twin fn' sn' seed seed)

  consistency_loop-snoc :
      (nodes : List Bytes) (p : Bytes) (s t : Twin)
      → consistency_loop nodes s ≡ some t
      → t.sn ≢ 0
      → consistency_loop (nodes ++ (p ∷ [])) s ≡ some (twin_climb t p)
  unfolding consistency_loop
  consistency_loop-snoc [] p s t h live = ground arith
  consistency_loop-snoc (q ∷ rest) p s t h live =
      ground (arith, consistency_loop-snoc rest p (twin_climb s q) t)

  pub twin_all-snoc :
      (nodes : List Bytes) (p : Bytes) (fn sn : ℕ) (t : Twin)
      → twin_all nodes fn sn ≡ some t
      → t.sn ≢ 0
      → twin_all (nodes ++ (p ∷ [])) fn sn ≡ some (twin_climb t p)
  unfolding twin_all
  twin_all-snoc [] p fn sn t h live = cc
  twin_all-snoc (seed ∷ rest) p fn sn t h live = consistency_loop-snoc rest p _ t h live

  pub twin_even :
      (fn sn f g : ℕ) (r q p : Bytes)
      → fn < 2 ^ 31
      → sn < 2 ^ 31
      → fn ≡ 2 * f
      → fn ≢ sn
      → sn / 2 ≡ g
      → twin_climb (twin fn sn r q) p ≡ twin f g r (hash_children q p)
  unfolding twin_climb
  twin_even fn sn f g r q p h k even diff half =
      ground (arith, move_even fn sn h k (omega arith) diff)

  pub twin_odd :
      (fn sn f g : ℕ) (r q p : Bytes)
      → fn < 2 ^ 31
      → sn < 2 ^ 31
      → fn ≡ 2 * f + 1
      → sn / 2 ≡ g
      → twin_climb (twin fn sn r q) p ≡ twin f g (hash_children p r) (hash_children p q)
  unfolding twin_climb
  twin_odd fn sn f g r q p h k odd half = ground (arith, move_odd fn sn h k (omega arith))

  pub twin_edge :
      (e c x : ℕ) (r q p : Bytes)
      → x ≡ (2 * c + 1) * 2 ^ e
      → x < 2 ^ 31
      → twin_climb (twin x x r q) p ≡ twin c c (hash_children p r) (hash_children p q)
  unfolding twin_climb
  twin_edge e c x r q p hx small = ground (arith, move_edge e c x hx small)
