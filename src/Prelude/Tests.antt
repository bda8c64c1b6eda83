-- ===== src/Prelude/Tests.antt =====
-- Boolean tests on the native numbers and on texts, and the conditional.
use Prim.Native.Nat.{ℕ, ◌-◌, ◌+◌, ◌*◌, ◌^◌, ◌≤◌, zero, suc, compare, Ordering}
use mathlib.Core.Path.{◌≡◌, refl}
use mathlib.Core.Logic.{◌↔◌, ◌⊎◌, inl, inr}
use mathlib.Core.Bool.{Bool, true, false, ◌&&◌}
use mathlib.Core.List.{List, [], ◌∷◌}
use mathlib.Core.Option.{Option, none, some}
use native.Mathlib.Omega.{arith}
use native.Mathlib.Nat.{pow-suc}
use Prim.Native.Char.{code}
use Prim.Native.String.{String}

abbrev pub ltb : ℕ → ℕ → Bool
ltb a b = elim (compare a b) [ Ordering.lt ↦ true | _ ↦ false ]

abbrev pub leb : ℕ → ℕ → Bool
leb a b = elim (compare a b) [ Ordering.gt ↦ false | _ ↦ true ]

infix 50 ◌==◌
abbrev pub ◌==◌ : ℕ → ℕ → Bool
a == b = elim (compare a b) [ Ordering.eq ↦ true | _ ↦ false ]

-- The code units of a text in ASCII.
abbrev pub codes : String → List ℕ
codes String.[] = []
codes (String.◌∷◌ c cs) = code c ∷ codes cs

infix 1 if◌then◌else◌
abbrev pub if◌then◌else◌ {ℓ} : {A : Type ℓ} → Bool → A → A → A
if true then x else y = x
if false then x else y = y

pub Bool-cases : (b : Bool) → (b ≡ true) ⊎ (b ≡ false)
Bool-cases true = inl refl
Bool-cases false = inr refl

pub Option-cases {ℓ} : {A : Type ℓ} (o : Option A) → (o ≡ none) ⊎ ((a : A) × (o ≡ some a))
Option-cases none = inl refl
Option-cases (some a) = inr (a, refl)

-- `===` on two strings or two byte arrays, code unit by code unit.
infix 50 ◌=t=◌
unfoldable pub ◌=t=◌ : List ℕ → List ℕ → Bool
[] =t= [] = true
[] =t= (y ∷ ys) = false
(x ∷ xs) =t= [] = false
(x ∷ xs) =t= (y ∷ ys) = x == y && xs =t= ys

pub =t=-refl : (xs : List ℕ) → (xs =t= xs) ≡ true
unfolding ◌=t=◌
=t=-refl [] = refl
=t=-refl (x ∷ xs) = ground (arith, =t=-refl xs)

pub =t=→eq : (xs ys : List ℕ) → (xs =t= ys) ≡ true → xs ≡ ys
unfolding ◌=t=◌
=t=→eq [] [] h = refl
=t=→eq [] (y ∷ ys) h = cc
=t=→eq (x ∷ xs) [] h = cc
=t=→eq (x ∷ xs) (y ∷ ys) h = ground (arith, =t=→eq xs ys)

pub =t=_iff : (xs ys : List ℕ) → ((xs =t= ys) ≡ true) ↔ (xs ≡ ys)
=t=_iff xs ys = (=t=→eq xs ys, λ e. subst (λ z. (xs =t= z) ≡ true) e (=t=-refl xs))
  where
    subst : (P : List ℕ → Type 0) → xs ≡ ys → P xs → P ys
    subst P e h = rw e at h

pub pow2_suc : (n : ℕ) → 2 ^ suc n ≡ 2 * 2 ^ n
pow2_suc n = omega (arith, pow-suc 2 n)

pub pow2_pos : (n : ℕ) → 1 ≤ 2 ^ n
pow2_pos zero = omega arith
pow2_pos (suc n) = omega (arith, pow2_suc n, pow2_pos n)

pub pow2_mono : (d k : ℕ) → 2 ^ d ≤ 2 ^ (k + d)
pow2_mono d zero = let e : 0 + d ≡ d = omega arith in rw e (omega arith)
pow2_mono d (suc k) =
    let e : suc k + d ≡ suc (k + d) = omega arith in
    rw e (omega (arith, pow2_mono d k, pow2_suc (k + d)))

pub small_power : (d : ℕ) → d ≤ 30 → 2 ^ d ≤ 2 ^ 30
small_power d h = let e : 30 - d + d ≡ 30 = omega arith in rw e at (pow2_mono d (30 - d))
