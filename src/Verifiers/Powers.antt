-- ===== src/Verifiers/Powers.antt =====
-- The test `(first & (first - 1)) === 0` for a power of two.
use Prim.Native.Nat.{min, digits, bit_and-bitwise}
use hara_registry.Prelude.{
  ℕ, zero, suc, ◌+◌, ◌-◌, ◌*◌, ◌/◌, ◌%◌, ◌^◌, ◌≤◌, ◌<◌, ◌≡◌, refl, arith, ◌==◌, Bool-cases, inl,
  inr, true, false, bit_and, pow2_suc, pow2_pos, pow2_mono,
}
use hara_registry.Verifiers.{is_pow2}

abbrev and_of : ℕ → ℕ → ℕ → ℕ
and_of rounds a b = digits (λ b. zero) min rounds a b

-- Rounds beyond the digits of `a` change nothing.
and_of_rounds : (r s a b : ℕ) → a ≤ r → a ≤ s → and_of r a b ≡ and_of s a b
and_of_rounds zero zero a b h k = refl
and_of_rounds zero (suc s) zero b h k = refl
and_of_rounds zero (suc s) (suc a) b h k = absurd (omega arith)
and_of_rounds (suc r) zero zero b h k = refl
and_of_rounds (suc r) zero (suc a) b h k = absurd (omega arith)
and_of_rounds (suc r) (suc s) zero b h k = refl
and_of_rounds (suc r) (suc s) (suc a) b h k =
    omega (arith, and_of_rounds r s (suc a / 2) (b / 2) (omega arith) (omega arith))

-- The lowest digit of `bit_and`, and the digits above it.
bit_and_lem : (a b : ℕ) → bit_and a b ≡ bit_and (a / 2) (b / 2) * 2 + min (a % 2) (b % 2)
bit_and_lem zero b = omega (arith, bit_and-bitwise 0 b, bit_and-bitwise 0 (b / 2))
bit_and_lem (suc a) b = omega (
  arith,
  bit_and-bitwise (suc a) b,
  bit_and-bitwise (suc a / 2) (b / 2),
  and_of_rounds a (suc a / 2) (suc a / 2) (b / 2) (omega arith) (omega arith),
)

bit_and_self : (r a : ℕ) → a ≤ r → bit_and a a ≡ a
bit_and_self r zero h = refl
bit_and_self zero (suc a) h = absurd (omega arith)
bit_and_self (suc r) (suc a) h =
    omega (arith, bit_and_lem (suc a) (suc a), bit_and_self r (suc a / 2) (omega arith))

bit_and_power : (d : ℕ) → bit_and (2 ^ d) (2 ^ d - 1) ≡ 0
bit_and_power zero = refl
bit_and_power (suc d) =
    let half : 2 ^ suc d / 2 ≡ 2 ^ d = omega (arith, pow2_suc d) in
    let below : (2 ^ suc d - 1) / 2 ≡ 2 ^ d - 1 = omega (arith, pow2_suc d) in
    omega (
      arith,
      pow2_suc d,
      rw (half, below) at (bit_and_lem (2 ^ suc d) (2 ^ suc d - 1)),
      bit_and_power d,
    )

bit_and_between : (d m : ℕ) → 2 ^ d < m → m < 2 ^ suc d → 1 ≤ bit_and m (m - 1)
bit_and_between zero m lo hi = absurd (omega arith)
bit_and_between (suc d) m lo hi = elim (Bool-cases (m % 2 == 0)) [
  | inl yes_even ↦
      let even : m % 2 ≡ 0 = ground arith in
      let half : (m - 1) / 2 ≡ m / 2 - 1 = omega (arith, pow2_pos (suc d)) in
      let ih =
        bit_and_between d (m / 2) (omega (arith, pow2_suc d))
          (omega (arith, pow2_suc d, pow2_suc (suc d))) in
      omega (arith, rw half at (bit_and_lem m (m - 1)), ih)
  | inr no_odd ↦
      let odd : m % 2 ≡ 1 = ground arith in
      let half : (m - 1) / 2 ≡ m / 2 = omega arith in
      omega (
        arith,
        rw half at (bit_and_lem m (m - 1)),
        bit_and_self (m / 2) (m / 2) (omega arith),
        pow2_suc d,
        pow2_pos d,
      )
]

pub is_pow2-power : (d : ℕ) → d ≤ 31 → is_pow2 (2 ^ d) ≡ true
unfolding is_pow2
is_pow2-power d h =
    let whole : 31 - d + d ≡ 31 = omega arith in
    let mono : 2 ^ d ≤ 2 ^ 31 = rw whole at (pow2_mono d (31 - d)) in
    let at_m : 2 ^ d % 2 ^ 32 ≡ 2 ^ d = omega arith in
    let at_p : (2 ^ d - 1) % 2 ^ 32 ≡ 2 ^ d - 1 = omega arith in rw (at_m, at_p, bit_and_power d)

pub is_pow2-between : (d m : ℕ) → 2 ^ d < m → m < 2 ^ suc d → m < 2 ^ 32 → is_pow2 m ≡ false
unfolding is_pow2
is_pow2-between d m lo hi small =
    let at_m : m % 2 ^ 32 ≡ m = omega arith in
    let at_p : (m - 1) % 2 ^ 32 ≡ m - 1 = omega arith in
    rw (at_m, at_p) (ground (arith, bit_and_between d m lo hi))
