-- ===== src/TransparencyLog/Split.antt =====
-- The loop of largestPowerOfTwoSmallerThan.
use hara_registry.Prelude.{
  ℕ, zero, suc, ◌*◌, ◌^◌, ◌≤◌, ◌<◌, ◌≡◌, ap, true, int32_lt, ltb, false, arith, pow2_suc, pow2_pos,
  shl1, shl1_small,
}
use hara_registry.Errors.{ok}
use hara_registry.TransparencyLog.{k_loop, largest_power_of_two_smaller_than}

k_loop_lem :
    (fuel g n k : ℕ)
    → g < fuel
    → 1 ≤ k
    → k * 2 ^ g < n
    → n ≤ 2 * (k * 2 ^ g)
    → n ≤ 2 ^ 30
    → k_loop fuel n k ≡ ok (k * 2 ^ g)
unfolding k_loop
k_loop_lem zero g n k hf hk lo hi small = absurd (omega arith)
k_loop_lem (suc fuel) zero n k hf hk lo hi small =
    let e : k * 2 ^ 0 ≡ k = omega arith in rw e (ground (arith, shl1_small k))
k_loop_lem (suc fuel) (suc g) n k hf hk lo hi small =
    let e : k * 2 ^ suc g ≡ 2 * k * 2 ^ g = omega (arith, ap (λ (t : ℕ). k * t) (pow2_suc g)) in
    let low : 2 * k ≤ 2 * k * 2 ^ g = grind (arith, pow2_pos g) in
    let d : shl1 k ≡ 2 * k = shl1_small k (omega arith) in
    let step : int32_lt (2 * k) n ≡ true = ground arith in
    rw (d, step, e)
      (k_loop_lem fuel g n (2 * k) (omega arith) (omega arith) (omega arith) (omega arith) small)

-- The loop gives the power of two that is below `n` and at least half of it.
pub largest_power_lem :
    (d n : ℕ)
    → 2 ^ d < n
    → n ≤ 2 ^ suc d
    → d ≤ 30
    → n ≤ 2 ^ 30
    → largest_power_of_two_smaller_than n ≡ ok (2 ^ d)
unfolding largest_power_of_two_smaller_than
largest_power_lem d n lo hi hd small =
    let e : 1 * 2 ^ d ≡ 2 ^ d = omega arith in
    let two : ltb n 2 ≡ false = ground (arith, pow2_pos d) in
    rw (two, ← e)
      (k_loop_lem 32 d n 1 (omega arith) (omega arith) (omega arith) (omega (arith, pow2_suc d))
        small)
