-- ===== src/Verifiers/Moves.antt =====
-- What one round of the verifiers does to `fn` and `sn`, in plain arithmetic.
use hara_registry.Prelude.{
  ℕ, zero, suc, ◌+◌, ◌*◌, ◌/◌, ◌%◌, ◌^◌, ◌≤◌, ◌<◌, ◌≡◌, ◌≢◌, ap, arith, true, ◌&&◌, ◌-◌, ltb,
  Bool-cases, inl, inr, ◌==◌, pow2_suc, pow2_pos, pow2_mono, sar1_small,
}
use hara_registry.TransparencyLog.{max_rounds}
use hara_registry.Verifiers.{move, joins_left, shift_while_even}

pub mul_pow2_suc : (c d : ℕ) → c * 2 ^ suc d ≡ 2 * (c * 2 ^ d)
mul_pow2_suc c d = omega (arith, ap (λ (t : ℕ). c * t) (pow2_suc d))

pub le-mul_pow2 : (a d : ℕ) → a ≤ a * 2 ^ d
le-mul_pow2 a d = grind (arith, pow2_pos d)

-- A position in a row of subtrees with `2 ^ suc d` leaves, seen one level further down.
pub one_down :
    (d g t : ℕ)
    → t < 2 ^ suc d
    → (h : ℕ) × (u : ℕ) × (u < 2 ^ d) × (g * 2 ^ suc d + t ≡ h * 2 ^ d + u) × (h / 2 ≡ g)
one_down d g t ht = elim (Bool-cases (ltb t (2 ^ d))) [
  | inl low ↦ (2 * g, t, ground arith, omega (arith, mul_pow2_suc g d), omega arith)
  | inr high ↦
      let above : 2 ^ d ≤ t = ground arith in
      (
        2 * g + 1,
        t - 2 ^ d,
        omega (arith, pow2_suc d),
        omega (arith, mul_pow2_suc g d),
        omega arith,
      )
]

pub pow2_exponent : (e k : ℕ) → 2 ^ e < 2 ^ k → e < k
pow2_exponent e k h = elim (Bool-cases (ltb e k)) [
  | inl below ↦ ground arith
  | inr above ↦
      let e' : e - k + k ≡ e = ground arith in
      let mono : 2 ^ k ≤ 2 ^ e = rw e' at (pow2_mono k (e - k)) in absurd (omega arith)
]

-- The node is a left child.
pub move_even :
    (fn sn : ℕ) → fn < 2 ^ 31 → sn < 2 ^ 31 → fn % 2 ≡ 0 → fn ≢ sn → move fn sn ≡ (fn / 2, sn / 2)
unfolding move
move_even fn sn h k even diff = ground (arith, sar1_small fn, sar1_small sn)

-- The node is a right child.
pub move_odd : (fn sn : ℕ) → fn < 2 ^ 31 → sn < 2 ^ 31 → fn % 2 ≡ 1 → move fn sn ≡ (fn / 2, sn / 2)
unfolding move
move_odd fn sn h k odd = ground (arith, sar1_small fn, sar1_small sn)

shift_even_lem :
    (fuel e c x : ℕ)
    → x ≡ (2 * c + 1) * 2 ^ e
    → x < 2 ^ 31
    → e < fuel
    → shift_while_even fuel x x ≡ (2 * c + 1, 2 * c + 1)
unfolding shift_while_even
shift_even_lem zero e c x hx small hf = absurd (omega arith)
shift_even_lem (suc fuel) zero c x hx small hf =
    let odd : x ≡ 2 * c + 1 = omega arith in ground arith
shift_even_lem (suc fuel) (suc e) c x hx small hf =
    let twice : x ≡ 2 * ((2 * c + 1) * 2 ^ e) = omega (arith, mul_pow2_suc (2 * c + 1) e) in
    let half : x / 2 ≡ (2 * c + 1) * 2 ^ e = omega arith in
    let pos : 1 ≤ (2 * c + 1) * 2 ^ e = grind (arith, pow2_pos e) in
    ground (arith, sar1_small x, shift_even_lem fuel e c (x / 2) half)

joins_even : (x : ℕ) → x % 2 ≡ 0 → (joins_left x x && x % 2 == 0) ≡ true
joins_even x h = ground arith

-- The last node of its level: the loop goes up to where the node is a right child, and one further.
pub move_edge : (e c x : ℕ) → x ≡ (2 * c + 1) * 2 ^ e → x < 2 ^ 31 → move x x ≡ (c, c)
unfolding move
move_edge zero c x hx small = let odd : x ≡ 2 * c + 1 = omega arith in ground (arith, sar1_small x)
move_edge (suc e) c x hx small =
    let unit : 2 ^ suc e ≤ (2 * c + 1) * 2 ^ suc e = omega arith in
    let short : suc e < 31 = pow2_exponent (suc e) 31 (omega arith) in
    let even : x ≡ 2 * ((2 * c + 1) * 2 ^ e) = omega (arith, mul_pow2_suc (2 * c + 1) e) in
    let top : 2 * c + 1 ≤ x = grind (arith, pow2_pos (suc e)) in
    let test : (joins_left x x && x % 2 == 0) ≡ true = joins_even x (omega arith) in
    rw (test, shift_even_lem max_rounds (suc e) c x hx small (omega arith))
      (ground (arith, sar1_small (2 * c + 1)))
