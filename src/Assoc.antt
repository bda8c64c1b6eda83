-- ===== src/Assoc.antt =====
-- A JavaScript `Map` with string keys, as an association list in the order of insertion.
use hara_registry.Prelude.{
  ◌≡◌, refl, arith, Option, none, some, List, [], ◌∷◌, ◌=t=◌, =t=_iff, if◌then◌else◌,
}
use hara_registry.Sha256.{Text}

abbrev pub Assoc {ℓ} : Type ℓ → Type ℓ
Assoc V = List (Text × V)

module _ {ℓ} {V : Type ℓ} where
  unfoldable pub lookup : Text → Assoc V → Option V
  lookup k [] = none
  lookup k ((j, v) ∷ m) = if j =t= k then some v else lookup k m

  -- `set` keeps the place of a key that is there.
  unfoldable pub insert : Text → V → Assoc V → Assoc V
  insert k v [] = (k, v) ∷ []
  insert k v ((j, w) ∷ m) = if j =t= k then (k, v) ∷ m else (j, w) ∷ insert k v m

  -- `[...m.values()]`
  unfoldable pub values : Assoc V → List V
  values [] = []
  values ((k, v) ∷ m) = v ∷ values m

  pub lookup-insert :
      (k j : Text) (v : V) (m : Assoc V)
      → lookup j (insert k v m) ≡ (if k =t= j then some v else lookup j m)
  unfolding lookup insert
  lookup-insert k j v [] = refl
  lookup-insert k j v ((i, w) ∷ m) =
      ground (arith, =t=_iff k j, =t=_iff i k, =t=_iff i j, lookup-insert k j v m)
