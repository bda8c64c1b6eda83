-- ===== src/Exec/Progress.antt =====
-- Methods that do not run out of fuel, with a measure of the state that does not go down.
use hara_registry.Prelude.{
  ℕ, ◌≤◌, ◌≡◌, ◌≢◌, refl, arith, Option, none, some, Bool, true, false, if◌then◌else◌,
}
use hara_registry.Errors.{Exception, Result, ok, err, stuck, error}
use hara_registry.Exec.{Exec, pure, throw, gets, run, ◌>>=◌, resume, value_of, attempt, change}

module _ {S : Type 0} (measure : S → ℕ) where
  abbrev pub Ends : {A : Type 0} → ℕ → Result A → S → Type 0
  Ends low r t = (r ≢ stuck) × (low ≤ measure t)

  -- From a state whose measure has reached `low`.
  pub record Progress {A : Type 0} (low : ℕ) (m : Exec S A) : Type 0 where
    pub at : (s : S) → low ≤ measure s → Ends low (m s).0 (m s).1

  module _ (low : ℕ) where
    pub Progress-bind :
        {A B : Type 0} (m : Exec S A) (f : A → Exec S B)
        → Progress low m
        → ((x : A) → Progress low (f x))
        → Progress low (m >>= f)
    unfolding ◌>>=◌
    Progress-bind m f h k = record { at = λ s p. go (m s).0 (m s).1 (h.at s p) }
      where
        go : (r : Result _) (t : S) → Ends low r t → Ends low (resume r f t).0 (resume r f t).1
        go (ok x) t (q, up) = (k x).at t up
        go (err thrown) t (q, up) = ((λ e. cc), up)
        go stuck t (q, up) = absurd (q refl)

    pub Progress-pure : {A : Type 0} (x : A) → Progress low (pure x)
    unfolding pure
    Progress-pure x = record { at = λ s p. ((λ e. cc), p) }

    pub Progress-throw : {A : Type 0} (e : Exception) → Progress low (throw {A = A} e)
    unfolding throw
    Progress-throw e = record { at = λ s p. ((λ h. cc), p) }

    pub Progress-gets : {A : Type 0} (f : S → A) → Progress low (gets f)
    unfolding gets
    Progress-gets f = record { at = λ s p. ((λ e. cc), p) }

    pub Progress-run :
        {A : Type 0} (f : S → A × S)
        → ((s : S) → measure s ≤ measure (f s).1)
        → Progress low (run f)
    unfolding run
    Progress-run f h = record { at = λ s p. let up = h s in ((λ e. cc), omega arith) }

    pub Progress-change :
        (f : S → S) → ((s : S) → measure s ≤ measure (f s)) → Progress low (change f)
    unfolding change
    Progress-change f h = record { at = λ s p. let up = h s in ((λ e. cc), omega arith) }

    pub Progress-value : {A : Type 0} (o : Option A) → Progress low (value_of o)
    unfolding value_of
    Progress-value none = Progress-throw error
    Progress-value (some x) = Progress-pure x

    pub Progress-if :
        {A : Type 0} (b : Bool) (m n : Exec S A)
        → Progress low m
        → Progress low n
        → Progress low (if b then m else n)
    Progress-if true m n h k = h
    Progress-if false m n h k = k

    -- What a block throws, its `try` hands on as a value.
    pub Progress-attempt :
        {A B : Type 0} (m : Exec S A) (f : Result A → Exec S B)
        → Progress low m
        → ((r : Result A) → r ≢ stuck → Progress low (f r))
        → Progress low (attempt m >>= f)
    unfolding ◌>>=◌ attempt
    Progress-attempt m f h k = record {
      at = λ s p. let (q, up) = h.at s p in (k (m s).0 q).at (m s).1 up;
    }

    -- A branch that knows its test.
    pub Progress-branch :
        {A : Type 0} (b : Bool) (m n : Exec S A)
        → (b ≡ true → Progress low m)
        → (b ≡ false → Progress low n)
        → Progress low (if b then m else n)
    Progress-branch true m n h k = h refl
    Progress-branch false m n h k = k refl
