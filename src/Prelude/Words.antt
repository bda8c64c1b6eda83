-- ===== src/Prelude/Words.antt =====
-- JavaScript's shifts on numbers. A number that a shift takes or gives is held as its 32-bit
-- pattern: the patterns from 2 ^ 31 on stand for the negative integers.
use Prim.Native.Nat.{ℕ, ◌+◌, ◌*◌, ◌/◌, ◌%◌, ◌^◌, ◌<◌}
use mathlib.Core.Path.{◌≡◌}
use mathlib.Core.Bool.{Bool, ◌||◌}
use native.Mathlib.Omega.{arith}
use hara_registry.Prelude.Tests.{ltb, leb, if◌then◌else◌}

-- `k << 1`
unfoldable pub shl1 : ℕ → ℕ
shl1 k = 2 * k % 2 ^ 32

-- `x >> 1`, which copies the sign bit.
unfoldable pub sar1 : ℕ → ℕ
sar1 x = let p = x % 2 ^ 32 in if ltb p (2 ^ 31) then p / 2 else p / 2 + 2 ^ 31

-- `x >>> 1`, which does not.
unfoldable pub shr1 : ℕ → ℕ
shr1 x = x % 2 ^ 32 / 2

-- `a < n` for the integer that the pattern `a` stands for and a number `n` that is not negative.
abbrev pub int32_lt : ℕ → ℕ → Bool
int32_lt a n = leb (2 ^ 31) a || ltb a n

pub shl1_small : (k : ℕ) → k < 2 ^ 31 → shl1 k ≡ 2 * k
unfolding shl1
shl1_small k h = omega arith

pub sar1_small : (x : ℕ) → x < 2 ^ 31 → sar1 x ≡ x / 2
unfolding sar1
sar1_small x h = ground arith

pub shr1_small : (x : ℕ) → x < 2 ^ 32 → shr1 x ≡ x / 2
unfolding shr1
shr1_small x h = omega arith
