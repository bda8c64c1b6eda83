-- ===== src/Exec.antt =====
-- Methods that change the state and may throw. What was written before a throw stays written.
pub mod Triples
pub mod Progress
use hara_registry.Prelude.{Option, none, some}
use hara_registry.Errors.{Exception, Result, ok, err, stuck, error}

abbrev pub Exec {ℓ} : Type ℓ → Type ℓ → Type ℓ
Exec S A = S → Result A × S

module _ {ℓ} {S A : Type ℓ} where
  unfoldable pub pure : A → Exec S A
  pure a s = (ok a, s)

  unfoldable pub throw : Exception → Exec S A
  throw e s = (err e, s)

  unfoldable pub lift : Result A → Exec S A
  lift r s = (r, s)

  unfoldable pub gets : (S → A) → Exec S A
  gets f s = (ok (f s), s)

  -- A change of the state that returns a value.
  unfoldable pub run : (S → A × S) → Exec S A
  run f s = let (a, s') = f s in (ok a, s')

module _ {ℓ} {S A B : Type ℓ} where
  abbrev pub resume : Result A → (A → Exec S B) → S → Result B × S
  resume (ok a) f s = f a s
  resume (err e) f s = (err e, s)
  resume stuck f s = (stuck, s)

  infixl 5 ◌>>=◌ ◌>>◌
  unfoldable pub ◌>>=◌ : Exec S A → (A → Exec S B) → Exec S B
  ◌>>=◌ m f s = let (r, s') = m s in resume r f s'

  abbrev pub ◌>>◌ : Exec S A → Exec S B → Exec S B
  m >> n = m >>= λ _. n

module _ {S A : Type 0} where
  -- The value of a call that may throw.
  unfoldable pub value_of : Option A → Exec S A
  value_of none = throw error
  value_of (some x) = pure x

  -- `try { … } catch`: what the block threw, as a value.
  unfoldable pub attempt : Exec S A → S → Result (Result A) × S
  attempt block s = let (r, s') = block s in (ok r, s')

unfoldable pub change : {S : Type 0} → (S → S) → Exec S (Unit {0})
change f s = (ok tt, f s)
