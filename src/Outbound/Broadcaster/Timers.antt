-- ===== src/Outbound/Broadcaster/Timers.antt =====
-- What the timers of the broadcaster and its start-up keep of the tables and the queue.
use hara_registry.Prelude.{
  ℕ, ◌+◌, ◌<◌, ◌≡◌, refl, sym, Option, none, some, List, [], ◌∷◌, Has, Bool, ◌⊎◌, inl, inr,
}
use mathlib.Core.Path.{subst}
use hara_registry.Errors.{Result, ok, err, stuck, error}
use hara_registry.Sha256.{Text}
use hara_registry.Exec.{pure, ◌>>=◌, attempt}
use hara_registry.Exec.Triples.{
  Triple, Outcome, triple_bind, triple_pure, triple_throw, triple_if, triple_run, triple_value,
  triple_attempt, triple_change, triple_weaken,
}
use hara_registry.Outbound.Database.{Database, TxRow, use_of, reach, update_tx, xadd}
use hara_registry.Outbound.Invariant.{
  IsSound, IsSignedAt, IsSameTx, IsSound-as, update_row-IsSound, queue-IsSound, take_delayed,
}
use hara_registry.Outbound.Broadcaster.{
  Outside, record_receipt, look, re_enqueue, recover_hash, recover_rows,
}

module _ (max : ℕ) where
  pub triple_reach :
      (breaks : ℕ → Bool) (X : Database → Type 0)
      → ((db : Database) (n : ℕ) → X db → X (record db { uses = n }))
      → Triple
          (λ db. IsSound max db × X db)
          (reach breaks)
          (λ _ db. IsSound max db × X db)
          (λ db. IsSound max db × X db)
  unfolding reach use_of
  triple_reach breaks X same =
      triple_bind (λ _ db. IsSound max db × X db)
        (triple_run _
          (λ db (p, x). (IsSound-as max db db.attempts db.confirmed (db.uses + 1) p, same db _ x)))
        (λ down.
          triple_if down (λ e. triple_throw error (λ s p. p)) (λ e. triple_pure tt (λ s p. p)))

  pub IsSound-update :
      (breaks : ℕ → Bool) (id : Text) (f : TxRow → TxRow)
      → ((row : TxRow) → IsSameTx row (f row))
      → ((row : TxRow) → (f row).retry_count ≡ row.retry_count)
      → Triple (IsSound max) (update_tx breaks id f) (λ _. IsSound max) (IsSound max)
  unfolding update_tx
  IsSound-update breaks id f same counts =
      triple_bind (λ _. IsSound max)
        (triple_weaken (triple_reach breaks (λ db. Unit {0}) (λ db n x. x)) (λ s p. (p, tt))
          (λ x s (p, q). p) (λ s (p, q). p))
        (λ _. triple_change _ (λ db s.
          update_row-IsSound max db id f s (λ r e. same r)
            (λ r e. subst (λ z. (z ≡ 0) ⊎ (z < max)) (sym (counts r)) (s.few_retries id r e))))

  IsSound-look :
      (out : Outside) (id : Text) (row : TxRow) (hash : Text)
      → Triple (IsSound max) (look out id row hash) (λ _. IsSound max) (IsSound max)
  unfolding look record_receipt use_of
  IsSound-look out id row hash =
      triple_bind (λ _. IsSound max)
        (triple_run _ (λ db p. IsSound-as max db db.attempts db.confirmed (db.uses + 1) p))
        (λ answer.
          triple_bind (λ _. IsSound max) (triple_value answer (λ x s e p. p) (λ s p. p))
            (λ receipt.
              triple_bind (λ _. IsSound max)
                (IsSound-update out.breaks id _ (λ r. (refl, refl, refl)) (λ r. refl))
                (λ _.
                  triple_bind (λ _. IsSound max)
                    (triple_weaken (triple_reach out.breaks (λ db. Unit {0}) (λ db n x. x))
                      (λ s p. (p, tt)) (λ x s (p, q). p) (λ s (p, q). p))
                    (λ _. triple_change _ (λ db p. IsSound-as max db db.attempts _ db.uses p)))))

  pub sends :
      (breaks : ℕ → Bool) (id : Text)
      → Triple
          (λ db. IsSound max db × IsSignedAt db.transactions id)
          (xadd breaks id)
          (λ _. IsSound max)
          (IsSound max)
  unfolding xadd
  sends breaks id =
      triple_bind (λ _ db. IsSound max db × IsSignedAt db.transactions id)
        (triple_weaken (triple_reach breaks (λ db. IsSignedAt db.transactions id) (λ db n x. x))
          (λ s p. p) (λ x s p. p) (λ s (p, q). p))
        (λ _. triple_change _ (λ db (p, q). queue-IsSound max db id p q))

module _ (max : ℕ) (out : Outside) where
  ending :
      {A : Type 0} (r : Result A) (t : Database)
      → Outcome (λ _. IsSound max) (IsSound max) r t
      → IsSound max t
  ending (ok x) t p = p
  ending (err e) t p = p
  ending stuck t p = p

  re_enqueue_lem :
      (db : Database) (delayed : List Text)
      → db.delayed ≡ delayed
      → IsSound max db
      → IsSound max (re_enqueue out db)
  unfolding re_enqueue
  re_enqueue_lem db [] e s = rw (e, re_enqueue) s
  re_enqueue_lem db (id ∷ rest) e s =
      let signed = s.signed id (inr (subst (Has id) (sym e) (inl refl))) in
      rw (e, re_enqueue)
        (ending _ _ (
          (sends max out.breaks id).at (record db { delayed = rest })
            (take_delayed max db id rest e s, signed)))

  pub re_enqueue-IsSound : (db : Database) → IsSound max db → IsSound max (re_enqueue out db)
  re_enqueue-IsSound db s = re_enqueue_lem db db.delayed refl s

  recover_hash_lem :
      (id : Text) (row : TxRow) (hash : Option Text) (db : Database)
      → IsSound max db
      → IsSound max (recover_hash out id row hash db).1
  unfolding recover_hash
  recover_hash_lem id row none db s = unfold pure in s
  recover_hash_lem id row (some hash) db s = ending _ _ (looks.at db s)
    where
      looks :
          Triple
            (IsSound max)
            (do seen ← attempt (look out id row hash); pure tt)
            (λ _. IsSound max)
            (IsSound max)
      looks =
          triple_bind (λ _. IsSound max)
            (triple_weaken (triple_attempt {E' = IsSound max} (IsSound-look max out id row hash))
              (λ s p. p) ending (λ s p. p))
            (λ seen. triple_pure tt (λ s p. p))

  pub recover_rows-IsSound :
      (rows : List (Text × TxRow)) (db : Database)
      → IsSound max db
      → IsSound max (recover_rows out rows db)
  unfolding recover_rows
  recover_rows-IsSound [] db s = s
  recover_rows-IsSound ((id, row) ∷ rows) db s =
      recover_rows-IsSound rows _ (recover_hash_lem id row _ db s)
