-- ===== src/Outbound/Broadcaster/Keeping.antt =====
-- What the broadcaster keeps of the tables and the queue.
use hara_registry.Prelude.{
  ℕ, zero, suc, ◌+◌, ◌<◌, ◌≡◌, refl, sym, ap, ◌∙◌, arith, Option, none, some, List, [], ◌∷◌, ◌++◌,
  Has, Bool, true, false, not, ltb, leb, if◌then◌else◌, ◌⊎◌, inl, inr,
}
use mathlib.Core.Path.{subst}
use hara_registry.Errors.{Result, ok, err, stuck, error}
use hara_registry.Sha256.{Text}
use hara_registry.Assoc.{lookup, insert}
use hara_registry.Exec.{Exec, pure, throw, lift, gets, ◌>>=◌, value_of, attempt}
use hara_registry.Exec.Triples.{
  Triple, Outcome, triple_bind, triple_pure, triple_throw, triple_gets, triple_lift, triple_if,
  triple_run, triple_value, triple_attempt, triple_change, triple_weaken,
}
use hara_registry.Outbound.Database.{Database, TxRow, Attempt, use_of, reach, update_row, update_tx}
use hara_registry.Outbound.Invariant.{
  IsSound, IsSignedAt, IsSameTx, update_row-IsSound, update_row-some, lookup_same, some_inj,
  IsSound-as, delayed-IsSound, take_queue,
}
use hara_registry.Outbound.Broadcaster.{
  Config, Outside, Receipt, mark_failed, insert_attempt, record_receipt, broadcast, look,
  after_look, poll, retry_later, settle, process_raw, process_row, process_tx, consume,
}

-- The rules, with a signed row in hand whose count of retries is known.
abbrev pub Held : ℕ → Text → ℕ → Database → Type 0
Held max id count db =
    IsSound max db
    × IsSignedAt db.transactions id
    × ((row : TxRow) → lookup id db.transactions ≡ some row → row.retry_count ≡ count)

module _ (max : ℕ) (id : Text) (count : ℕ) where
  -- An update of the row that keeps the transaction, and sets the count of retries to `after`.
  update-Held :
      (after : ℕ) (f : TxRow → TxRow) (db : Database)
      → ((row : TxRow) → IsSameTx row (f row))
      → ((row : TxRow) → row.retry_count ≡ count → (f row).retry_count ≡ after)
      → ((row : TxRow) → lookup id db.transactions ≡ some row → (after ≡ 0) ⊎ (after < max))
      → Held max id count db
      → Held max id after (record db { transactions = update_row id f db.transactions })
  update-Held after f db same counts few (s, (row, there, signed), known) =
      let written = update_row-some id f row db.transactions there in
      let (from, nonce, raw) = same row in
      let (n, bytes, hn, hb) = signed in
      let look : lookup id (insert id (f row) db.transactions) ≡ some (f row) =
        lookup_same id (f row) db.transactions in
      let at = ap (lookup id) written ∙ look in
      (
        update_row-IsSound max db id f s (λ r e. same r)
            (λ r e. subst (λ z. (z ≡ 0) ⊎ (z < max)) (sym (counts r (known r e))) (few r e)),
        (f row, at, (n, bytes, sym nonce ∙ hn, sym raw ∙ hb)),
        λ r e. ap (λ z. z.retry_count) (some_inj (sym e ∙ at)) ∙ counts row (known row there),
      )

module _ (max : ℕ) (id : Text) (count : ℕ) (out : Outside) where
  abbrev Holds : Database → Type 0
  Holds = Held max id count

  abbrev IsKept : {A : Type 0} → Exec Database A → Type 0
  IsKept m = Triple (Held max id count) m (λ _. Held max id count) (Held max id count)

  IsKept-bind :
      {A B : Type 0} (m : Exec Database A) (f : A → Exec Database B)
      → IsKept m
      → ((x : A) → IsKept (f x))
      → IsKept (m >>= f)
  IsKept-bind m f h k = triple_bind _ h k

  IsKept-if :
      {A : Type 0} (b : Bool) (m n : Exec Database A)
      → IsKept m
      → IsKept n
      → IsKept (if b then m else n)
  IsKept-if b m n h k = triple_if b (λ e. h) (λ e. k)

  IsKept-pure : {A : Type 0} (x : A) → IsKept (pure x)
  IsKept-pure x = triple_pure x (λ s p. p)

  IsKept-throw : {A : Type 0} → IsKept (throw {A = A} error)
  IsKept-throw = triple_throw error (λ s p. p)

  IsKept-stuck : {A : Type 0} → IsKept (lift {A = A} stuck)
  IsKept-stuck = triple_lift stuck (λ x s e p. p) (λ s p. p)

  IsKept-value : {A : Type 0} (o : Option A) → IsKept (value_of o)
  IsKept-value o = triple_value o (λ x s e p. p) (λ s p. p)

  IsKept-gets : {A : Type 0} (f : Database → A) → IsKept (gets f)
  IsKept-gets f = triple_gets f (λ s p. p)

  IsKept-use : {A : Type 0} (f : ℕ → A) → IsKept (use_of f)
  unfolding use_of
  IsKept-use f =
      triple_run _
        (λ db (p, q, r). (IsSound-as max db db.attempts db.confirmed (db.uses + 1) p, q, r))

  ruleset kept = (
    IsKept-bind, IsKept-if, IsKept-pure, IsKept-throw, IsKept-stuck, IsKept-value, IsKept-gets,
    IsKept-use,
  )

  IsKept-reach : (breaks : ℕ → Bool) → IsKept (reach breaks)
  unfolding reach
  IsKept-reach breaks = search kept depth 8

  -- `count` is not 0 or is below the bound, since the row has it.
  IsKept-update :
      (f : TxRow → TxRow)
      → ((row : TxRow) → IsSameTx row (f row))
      → ((row : TxRow) → (f row).retry_count ≡ row.retry_count)
      → IsKept (update_tx out.breaks id f)
  unfolding update_tx
  IsKept-update f same counts = triple_bind _ (IsKept-reach out.breaks) (λ _.
      triple_change _ (λ db p.
        let (s, signed, known) = p in
        update-Held max id count count f db same (λ row e. counts row ∙ e)
          (λ row e. subst (λ z. (z ≡ 0) ⊎ (z < max)) (known row e) (s.few_retries id row e)) p))

  kept_try :
      {A : Type 0} {E : Database → Type 0} (m : Exec Database A)
      → IsKept m
      → Triple (Held max id count) (attempt m) (λ _. Held max id count) E
  kept_try {E = E} m h = triple_weaken (triple_attempt {E' = E} h) (λ s p. p) flat (λ s p. p)
    where
      flat :
          {A : Type 0} (r : Result A) (t : Database)
          → Outcome (λ _. Held max id count) (Held max id count) r t
          → Held max id count t
      flat (ok x) t p = p
      flat (err e) t p = p
      flat stuck t p = p

  IsKept-mark_failed : (message : Text) → IsKept (mark_failed out id message)
  unfolding mark_failed
  IsKept-mark_failed message = IsKept-update _ (λ row. (refl, refl, refl)) (λ row. refl)

  IsKept-insert_attempt : (a : Attempt) → IsKept (insert_attempt out a)
  unfolding insert_attempt
  IsKept-insert_attempt a = triple_bind _ (IsKept-reach out.breaks) (λ _.
      triple_change _ (λ db (p, q, r).
        (IsSound-as max db (db.attempts ++ (a ∷ [])) db.confirmed db.uses p, q, r)))

  IsKept-record_receipt :
      (row : TxRow) (receipt : Receipt) → IsKept (record_receipt out id row receipt)
  unfolding record_receipt
  IsKept-record_receipt row receipt =
      triple_bind _ (IsKept-update _ (λ r. (refl, refl, refl)) (λ r. refl)) (λ _.
        triple_bind _ (IsKept-reach out.breaks) (λ _.
          triple_change _ (λ db (p, q, r). (IsSound-as max db db.attempts _ db.uses p, q, r))))

  IsKept-broadcast :
      (raw : Text) (hash : Option Text) (n : ℕ) → IsKept (broadcast out id raw hash n)
  unfolding broadcast
  IsKept-broadcast raw hash n = triple_bind _ (IsKept-use _) (λ answer.
      triple_bind _ (IsKept-value answer) (λ submitted.
        triple_bind _ (IsKept-value hash) (λ tx_hash.
          triple_bind _ (IsKept-update _ (λ r. (refl, refl, refl)) (λ r. refl))
            (λ _. triple_bind _ (IsKept-insert_attempt _) (λ _. IsKept-pure _)))))

  IsKept-look : (row : TxRow) (hash : Text) → IsKept (look out id row hash)
  unfolding look
  IsKept-look row hash = search (kept, IsKept-record_receipt) depth 10

  IsKept-after_look :
      (r : Result (Unit {0})) (again : Exec Database Bool)
      → IsKept again
      → IsKept (after_look out r again)
  unfolding after_look
  IsKept-after_look (ok done) again h = IsKept-pure true
  IsKept-after_look (err thrown) again h = h
  IsKept-after_look stuck again h = IsKept-stuck

  IsKept-poll :
      (fuel deadline : ℕ) (row : TxRow) (hash : Text) → IsKept (poll out fuel deadline id row hash)
  unfolding poll
  IsKept-poll zero deadline row hash = IsKept-stuck
  IsKept-poll (suc fuel) deadline row hash =
      let again = IsKept-poll fuel deadline row hash in
      triple_bind _ (IsKept-use out.now) (λ time.
        IsKept-if (not (ltb time deadline)) _ _ (IsKept-pure false) (
          triple_bind _ (kept_try _ (IsKept-look row hash))
            (λ seen. IsKept-after_look seen _ again)))

module _ (max : ℕ) (id : Text) (out : Outside) where
  -- What the caller has of a message: the rules hold, whatever became of the row.
  abbrev Sound : {A : Type 0} → A → Database → Type 0
  Sound _ db = IsSound max db

  escape :
      {A : Type 0} {m : Exec Database A} (n : ℕ)
      → Triple (Held max id n) m (λ _. Held max id n) (Held max id n)
      → Triple (Held max id n) m (λ _. Held max id n) (IsSound max)
  escape n h = triple_weaken h (λ s p. p) (λ x s p. p) (λ s (p, q, r). p)

  drop :
      {A : Type 0} {m : Exec Database A} (n : ℕ)
      → Triple (Held max id n) m (λ _. Held max id n) (Held max id n)
      → Triple (Held max id n) m Sound (IsSound max)
  drop n h = triple_weaken h (λ s p. p) (λ x s (p, q, r). p) (λ s (p, q, r). p)

  Sound-retry_later :
      (config : Config) (row : TxRow)
      → config.max_retries ≡ max
      → Triple (Held max id row.retry_count) (retry_later out config id row) Sound (IsSound max)
  unfolding retry_later update_tx
  Sound-retry_later config row bound =
      let n = row.retry_count in
      triple_bind (λ _. Held max id n) (escape n (IsKept-insert_attempt max id n out _))
        (λ _.
          triple_if (leb config.max_retries (row.retry_count + 1))
            (λ last. drop n (IsKept-mark_failed max id n out _))
            (λ more.
              triple_bind (λ _. Held max id (n + 1))
                (triple_bind (λ _. Held max id n) (escape n (IsKept-reach max id n out out.breaks))
                  (λ _. triple_change _ (λ db p.
                    update-Held max id n (n + 1) _ db (λ r. (refl, refl, refl))
                      (λ r e. ap (λ z. z + 1) e) (λ r e. inr (ground arith)) p)))
                (λ _. triple_change _ (λ db (p, q, r). delayed-IsSound max db id p q))))

  module _ (config : Config) (bound : config.max_retries ≡ max) where
    Sound-settle :
        (row : TxRow) (r : Result Text)
        → Triple (Held max id row.retry_count) (settle out config id row r) Sound (IsSound max)
    unfolding settle
    Sound-settle row stuck = drop row.retry_count (IsKept-stuck max id row.retry_count out)
    Sound-settle row (err thrown) = Sound-retry_later config row bound
    Sound-settle row (ok hash) =
        let n = row.retry_count in
        drop n (
          IsKept-bind max id n out _ _ (IsKept-use max id n out out.now) (λ start.
            IsKept-bind max id n out _ _
              (IsKept-poll max id n out (config.receipt_timeout_ms + 1)
                (start + config.receipt_timeout_ms) row hash)
              (λ seen.
                IsKept-if max id n out seen _ _ (IsKept-pure max id n out tt)
                  (IsKept-mark_failed max id n out _))))

    Sound-process_raw :
        (row : TxRow) (raw : Option Text)
        → Triple
            (Held max id row.retry_count)
            (process_raw out config id row raw)
            Sound
            (IsSound max)
    unfolding process_raw
    Sound-process_raw row none =
        drop row.retry_count (IsKept-mark_failed max id row.retry_count out _)
    Sound-process_raw row (some []) =
        drop row.retry_count (IsKept-mark_failed max id row.retry_count out _)
    Sound-process_raw row (some (c ∷ cs)) =
        let n = row.retry_count in
        triple_bind (λ _. Held max id n)
          (kept_try max id n out _
            (IsKept-broadcast max id n out (c ∷ cs) row.tx_hash (row.retry_count + 1)))
          (λ answer. Sound-settle row answer)

    Sound-process_row :
        (n : ℕ) (looked : Option TxRow)
        → Triple
            (λ db. Held max id n db × (looked ≡ lookup id db.transactions))
            (process_row out config id looked)
            Sound
            (IsSound max)
    unfolding process_row
    Sound-process_row n none = triple_pure tt (λ s ((p, q, r), e). p)
    Sound-process_row n (some row) =
        triple_weaken (Sound-process_raw row row.raw_tx)
          (λ s ((p, q, r), e). (p, q, λ r' e'. r r' e' ∙ sym (r row (sym e)))) (λ x s p. p)
          (λ s p. p)

    pub Sound-process_tx :
        (n : ℕ) → Triple (Held max id n) (process_tx out config id) Sound (IsSound max)
    unfolding process_tx
    Sound-process_tx n =
        triple_bind (λ _. Held max id n) (escape n (IsKept-reach max id n out out.breaks))
          (λ _.
            triple_bind (λ looked db. Held max id n db × (looked ≡ lookup id db.transactions))
              (triple_gets _ (λ s p. (p, refl))) (λ looked. Sound-process_row n looked))

module _ (max : ℕ) (out : Outside) (config : Config) (bound : config.max_retries ≡ max) where
  any_end :
      {A : Type 0} (r : Result A) (t : Database)
      → Outcome (λ _ db. IsSound max db) (IsSound max) r t
      → IsSound max t
  any_end (ok x) t p = p
  any_end (err e) t p = p
  any_end stuck t p = p

  pub consume-IsSound : (db : Database) → IsSound max db → IsSound max (consume out config db)
  unfolding consume
  consume-IsSound db s = go db.queue refl
    where
      go : (queue : List Text) → db.queue ≡ queue → IsSound max (consume out config db)
      go [] e = rw (e, consume) s
      go (id ∷ rest) e =
          let (row, there, signed) = s.signed id (inl (subst (Has id) (sym e) (inl refl))) in
          rw (e, consume)
            (any_end _ _ (
              (Sound-process_tx max id out config bound row.retry_count).at
                (record db { queue = rest })
                (
                  take_queue max db id rest e s,
                  (row, there, signed),
                  λ r e'. ap (λ z. z.retry_count) (some_inj (sym e' ∙ there)),
                )))
