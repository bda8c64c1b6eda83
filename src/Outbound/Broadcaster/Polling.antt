-- ===== src/Outbound/Broadcaster/Polling.antt =====
-- The polling of the broadcaster ends.
use hara_registry.Prelude.{
  ℕ, zero, suc, ◌+◌, ◌-◌, ◌≤◌, ◌<◌, ◌≡◌, ◌≢◌, refl, arith, Option, Bool, true, false, ltb,
  if◌then◌else◌, Bool-cases, inl, inr,
}
use hara_registry.Errors.{Result, ok, err, stuck, error}
use hara_registry.Sha256.{Text}
use hara_registry.Exec.{Exec, pure, throw, gets, run, ◌>>=◌, value_of, change}
use hara_registry.Exec.Progress.{
  Progress, Ends, Progress-bind, Progress-pure, Progress-throw, Progress-gets, Progress-run,
  Progress-change, Progress-value, Progress-if, Progress-attempt,
}
use hara_registry.Outbound.Database.{Database, TxRow, use_of, reach, update_tx}
use hara_registry.Outbound.Broadcaster.{Outside, record_receipt, look, after_look, poll}

abbrev uses_of : Database → ℕ
uses_of db = db.uses

module _ (out : Outside) (low : ℕ) where
  use_ends : {A : Type 0} (f : ℕ → A) → Progress uses_of low (use_of f)
  unfolding use_of
  use_ends f = Progress-run uses_of low _ (λ s. omega arith)

  change_ends :
      (f : Database → Database)
      → ((s : Database) → uses_of s ≤ uses_of (f s))
      → Progress uses_of low (change f)
  change_ends f h = Progress-change uses_of low f h

  bind_ends :
      {A B : Type 0} (m : Exec Database A) (f : A → Exec Database B)
      → Progress uses_of low m
      → ((x : A) → Progress uses_of low (f x))
      → Progress uses_of low (m >>= f)
  bind_ends m f h k = Progress-bind uses_of low m f h k

  if_ends :
      {A : Type 0} (b : Bool) (m n : Exec Database A)
      → Progress uses_of low m
      → Progress uses_of low n
      → Progress uses_of low (if b then m else n)
  if_ends b m n h k = Progress-if uses_of low b m n h k

  pure_ends : {A : Type 0} (x : A) → Progress uses_of low (pure x)
  pure_ends x = Progress-pure uses_of low x

  throw_ends : {A : Type 0} → Progress uses_of low (throw {A = A} error)
  throw_ends = Progress-throw uses_of low error

  value_ends : {A : Type 0} (o : Option A) → Progress uses_of low (value_of o)
  value_ends o = Progress-value uses_of low o

  gets_ends : {A : Type 0} (f : Database → A) → Progress uses_of low (gets f)
  gets_ends f = Progress-gets uses_of low f

  same_ends : (s : Database) → uses_of s ≤ uses_of s
  same_ends s = omega arith

  ruleset ending = (
    use_ends, change_ends, bind_ends, if_ends, pure_ends, throw_ends, value_ends, gets_ends,
    same_ends,
  )

  reach_ends : (breaks : ℕ → Bool) → Progress uses_of low (reach breaks)
  unfolding reach
  reach_ends breaks = search ending depth 8

  update_tx_ends :
      (breaks : ℕ → Bool) (tx_id : Text) (f : TxRow → TxRow)
      → Progress uses_of low (update_tx breaks tx_id f)
  unfolding update_tx
  update_tx_ends breaks tx_id f = search (ending, reach_ends) depth 8

  look_ends :
      (tx_id : Text) (row : TxRow) (hash : Text) → Progress uses_of low (look out tx_id row hash)
  unfolding look record_receipt
  look_ends tx_id row hash = search (ending, reach_ends, update_tx_ends) depth 12

module _ (out : Outside) (clock : (n : ℕ) → out.now n < out.now (suc n)) where
  later : (d n : ℕ) → out.now n ≤ out.now (d + n)
  later zero n = let e : 0 + n ≡ n = omega arith in rw e (omega arith)
  later (suc d) n =
      let e : suc d + n ≡ suc (d + n) = omega arith in
      rw e (omega (arith, later d n, clock (d + n)))

  later_use : (low n : ℕ) → low ≤ n → out.now low ≤ out.now n
  later_use low n h = let e : n - low + low ≡ n = omega arith in rw e at (later (n - low) low)

  clock_next : (n : ℕ) → out.now n < out.now (n + 1)
  clock_next n = let e : suc n ≡ n + 1 = omega arith in rw e at (clock n)

  at_later :
      {A : Type 0} (low high : ℕ) (m : Exec Database A) (s : Database)
      → Progress uses_of high m
      → low ≤ high
      → high ≤ s.uses
      → Ends uses_of low (m s).0 (m s).1
  at_later low high m s h k l = let (q, up) = h.at s l in (q, omega arith)

  module _ (tx_id : Text) (row : TxRow) (hash : Text) (deadline : ℕ) where
    after_look_ends :
        (low : ℕ) (r : Result (Unit {0})) (again : Exec Database Bool)
        → r ≢ stuck
        → Progress uses_of low again
        → Progress uses_of low (after_look out r again)
    unfolding after_look
    after_look_ends low (ok done) again h k = Progress-pure uses_of low true
    after_look_ends low (err thrown) again h k = k
    after_look_ends low stuck again h k = absurd (h refl)

    -- A round for each unit of time up to the deadline is enough.
    pub poll_ends :
        (fuel low : ℕ)
        → 1 ≤ fuel
        → deadline < out.now low + fuel
        → Progress uses_of low (poll out fuel deadline tx_id row hash)
    unfolding poll ◌>>=◌ use_of run
    poll_ends zero low h k = absurd (omega arith)
    poll_ends (suc fuel) low h k = record {
      at = λ s p. elim (Bool-cases (ltb (out.now s.uses) deadline)) [
        | inl early ↦
            let high = s.uses + 1 in
            let before = later_use low s.uses p in
            let step = clock_next s.uses in
            let rest = poll_ends fuel high (ground arith) (ground arith) in
            rw early (
              at_later low high _ (record s { uses = high })
                (Progress-attempt uses_of high (look out tx_id row hash) _
                  (look_ends out high tx_id row hash) (λ r q. after_look_ends high r _ q rest))
                (omega arith) (omega arith))
        | inr late ↦
            rw late
              ((Progress-pure uses_of low false).at (record s { uses = s.uses + 1 }) (omega arith))
      ];
    }
