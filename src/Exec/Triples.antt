-- ===== src/Exec/Triples.antt =====
-- Rules for methods that change a state: `Triple P m Q E` says that from a state with `P`, the method
-- answers `x` in a state with `Q x`, or throws in a state with `E`.
use hara_registry.Prelude.{◌≡◌, refl, Option, none, some, Bool, true, false, if◌then◌else◌}
use hara_registry.Errors.{Exception, Result, ok, err, stuck, error}
use hara_registry.Exec.{
  Exec, pure, throw, lift, gets, run, ◌>>=◌, resume, value_of, attempt, change,
}

module _ {S : Type 0} where
  abbrev pub Outcome : {A : Type 0} → (A → S → Type 0) → (S → Type 0) → Result A → S → Type 0
  Outcome Q E (ok x) t = Q x t
  Outcome Q E (err thrown) t = E t
  Outcome Q E stuck t = E t

  pub record Triple {A : Type 0} (P : S → Type 0) (m : Exec S A) (Q : A → S → Type 0)
      (E : S → Type 0) : Type 0 where
    pub at : (s : S) → P s → Outcome Q E (m s).0 (m s).1

  pub triple_bind :
      {A B : Type 0} {P : S → Type 0} {R : B → S → Type 0} {E : S → Type 0} (Q : A → S → Type 0)
      {m : Exec S A} {f : A → Exec S B}
      → Triple P m Q E
      → ((x : A) → Triple (Q x) (f x) R E)
      → Triple P (m >>= f) R E
  unfolding ◌>>=◌
  triple_bind {R = R} {E = E} Q {m = m} {f = f} h k = record {
    at = λ s p. go (m s).0 (m s).1 (h.at s p);
  }
    where
      go : (r : Result _) (t : S) → Outcome Q E r t → Outcome R E (resume r f t).0 (resume r f t).1
      go (ok x) t q = (k x).at t q
      go (err thrown) t q = q
      go stuck t q = q

  -- What a plain result settles is known in the rest.
  pub triple_lift_bind :
      {A B : Type 0} {P : S → Type 0} {R : B → S → Type 0} {E : S → Type 0} (r : Result A)
      {f : A → Exec S B}
      → ((x : A) → r ≡ ok x → Triple P (f x) R E)
      → ((s : S) → P s → E s)
      → Triple P (lift r >>= f) R E
  unfolding ◌>>=◌ lift
  triple_lift_bind (ok x) h k = record { at = (h x refl).at }
  triple_lift_bind (err thrown) h k = record { at = k }
  triple_lift_bind stuck h k = record { at = k }

  module _ {A : Type 0} {P : S → Type 0} {Q : A → S → Type 0} {E : S → Type 0} where
    pub triple_pure : (x : A) → ((s : S) → P s → Q x s) → Triple P (pure x) Q E
    unfolding pure
    triple_pure x h = record { at = h }

    pub triple_throw : (e : Exception) → ((s : S) → P s → E s) → Triple P (throw e) Q E
    unfolding throw
    triple_throw e h = record { at = h }

    pub triple_gets : (f : S → A) → ((s : S) → P s → Q (f s) s) → Triple P (gets f) Q E
    unfolding gets
    triple_gets f h = record { at = h }

    pub triple_lift :
        (r : Result A)
        → ((x : A) (s : S) → r ≡ ok x → P s → Q x s)
        → ((s : S) → P s → E s)
        → Triple P (lift r) Q E
    unfolding lift
    triple_lift (ok x) h k = record { at = λ s p. h x s refl p }
    triple_lift (err thrown) h k = record { at = k }
    triple_lift stuck h k = record { at = k }

    pub triple_if :
        (b : Bool) {m n : Exec S A}
        → (b ≡ true → Triple P m Q E)
        → (b ≡ false → Triple P n Q E)
        → Triple P (if b then m else n) Q E
    triple_if true h k = h refl
    triple_if false h k = k refl

    pub triple_weaken :
        {P' : S → Type 0} {Q' : A → S → Type 0} {E' : S → Type 0} {m : Exec S A}
        → Triple P' m Q' E'
        → ((s : S) → P s → P' s)
        → ((x : A) (s : S) → Q' x s → Q x s)
        → ((s : S) → E' s → E s)
        → Triple P m Q E
    triple_weaken {Q' = Q'} {E' = E'} {m = m} h pre post escape = record {
      at = λ s p. go (m s).0 (m s).1 (h.at s (pre s p));
    }
      where
        go : (r : Result A) (t : S) → Outcome Q' E' r t → Outcome Q E r t
        go (ok x) t q = post x t q
        go (err thrown) t q = escape t q
        go stuck t q = escape t q

    -- What the assertion before says apart from the state.
    pub triple_given :
        {F : Type 0} {m : Exec S A} → (F → Triple P m Q E) → Triple (λ s. P s × F) m Q E
    triple_given h = record { at = λ s (p, f). (h f).at s p }

    pub triple_run : (f : S → A × S) → ((s : S) → P s → Q (f s).0 (f s).1) → Triple P (run f) Q E
    unfolding run
    triple_run f h = record { at = h }

    pub triple_value :
        (o : Option A)
        → ((x : A) (s : S) → o ≡ some x → P s → Q x s)
        → ((s : S) → P s → E s)
        → Triple P (value_of o) Q E
    unfolding value_of
    triple_value none h k = triple_throw error k
    triple_value (some x) h k = triple_pure x (λ s p. h x s refl p)

    pub triple_attempt :
        {E' : S → Type 0} {m : Exec S A} → Triple P m Q E → Triple P (attempt m) (Outcome Q E) E'
    unfolding attempt
    triple_attempt h = record { at = h.at }

  pub triple_change :
      {P : S → Type 0} {Q : Unit {0} → S → Type 0} {E : S → Type 0} (f : S → S)
      → ((s : S) → P s → Q tt (f s))
      → Triple P (change f) Q E
  unfolding change
  triple_change f h = record { at = h }
