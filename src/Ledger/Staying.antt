-- ===== src/Ledger/Staying.antt =====
-- Methods that keep an assertion about the store that no leaf of a log touches.
use hara_registry.Prelude.{ℕ, ◌+◌, Bool, Option, none, some, if◌then◌else◌}
use hara_registry.Errors.{Exception, Result, ok, err, stuck}
use hara_registry.Sha256.{Bytes, Text, Sha256}
use hara_registry.Hex.{decode_all}
use hara_registry.Assoc.{lookup}
use hara_registry.TransparencyLog.{TransparencyLog}
use hara_registry.Store.{MemoryStore, append_leaf}
use hara_registry.Exec.{Exec, pure, throw, lift, ◌>>=◌}
use hara_registry.Exec.Triples.{
  Triple, Outcome, triple_bind, triple_pure, triple_throw, triple_lift, triple_if,
}
use hara_registry.Ledger.{
  World, Anchors, Ledger, observe, rand_id, write, read, anchor, get_log, open_log, make_log,
  remember, append_to, append_both, append_and_anchor,
}
use hara_registry.Ledger.Attestations.{found}

-- What a method leaves, whether it answers or throws.
pub any_end :
    {A : Type 0} {m : Exec Ledger A} {X : Ledger → Type 0}
    → Triple X m (λ _. X) X
    → (s : Ledger) → X s
    → X (m s).1
any_end {A = A} {m = m} {X = X} h s p = go (m s).0 (m s).1 (h.at s p)
  where
    go : (r : Result A) (t : Ledger) → Outcome (λ _. X) X r t → X t
    go (ok x) t q = q
    go (err e) t q = q
    go stuck t q = q

module _ (X : MemoryStore → Type 0)
    (leaf : (st : MemoryStore) (id hex : Text) → X st → X (append_leaf st id hex).0) where
  abbrev pub IsStaying : {A : Type 0} → Exec Ledger A → Type 0
  IsStaying m = Triple (λ s. X s.store) m (λ _ s. X s.store) (λ s. X s.store)

  pub IsStaying-bind :
      {A B : Type 0} (m : Exec Ledger A) (f : A → Exec Ledger B)
      → IsStaying m
      → ((x : A) → IsStaying (f x))
      → IsStaying (m >>= f)
  IsStaying-bind m f h k = triple_bind _ h k

  pub IsStaying-pure : {A : Type 0} (x : A) → IsStaying (pure x)
  IsStaying-pure x = triple_pure x (λ s p. p)

  pub IsStaying-throw : {A : Type 0} (e : Exception) → IsStaying (throw {A = A} e)
  IsStaying-throw e = triple_throw e (λ s p. p)

  pub IsStaying-lift : {A : Type 0} (r : Result A) → IsStaying (lift r)
  IsStaying-lift r = triple_lift r (λ x s e p. p) (λ s p. p)

  pub IsStaying-if :
      {A : Type 0} (b : Bool) (m n : Exec Ledger A)
      → IsStaying m
      → IsStaying n
      → IsStaying (if b then m else n)
  IsStaying-if b m n h k = triple_if b (λ e. h) (λ e. k)

  pub IsStaying-found : {A : Type 0} (o : Option A) → IsStaying (found o)
  IsStaying-found none = IsStaying-throw _
  IsStaying-found (some x) = IsStaying-pure x

  pub IsStaying-observe : {A : Type 0} (f : ℕ → A) → IsStaying (observe f)
  unfolding observe
  IsStaying-observe f = record { at = λ s p. p }

  pub IsStaying-rand : (w : World) (prefix : Text) → IsStaying (rand_id w prefix)
  unfolding rand_id
  IsStaying-rand w prefix = IsStaying-observe _

  pub IsStaying-read : {A : Type 0} (f : MemoryStore → A) → IsStaying (read f)
  unfolding read
  IsStaying-read f = record { at = λ s p. p }

  pub IsStaying-write :
      (f : MemoryStore → MemoryStore) → ((st : MemoryStore) → X st → X (f st)) → IsStaying (write f)
  unfolding write
  IsStaying-write f h = record { at = λ s p. h s.store p }

  IsStaying-remember : (log_id : Text) (tl : TransparencyLog) → IsStaying (remember log_id tl)
  unfolding remember
  IsStaying-remember log_id tl = record { at = λ s p. p }

  IsStaying-open :
      (log_id : Text) (known : Option TransparencyLog) → IsStaying (open_log log_id known)
  unfolding open_log make_log
  IsStaying-open log_id (some tl) = IsStaying-pure tl
  IsStaying-open log_id none = triple_bind _ (IsStaying-read _) (λ texts.
      triple_bind _ (IsStaying-lift (decode_all texts))
        (λ leaves. triple_bind _ (IsStaying-remember log_id _) (λ _. IsStaying-pure _)))

  pub IsStaying-log : (log_id : Text) → IsStaying (get_log log_id)
  unfolding get_log
  IsStaying-log log_id = record {
    at = λ s p. (IsStaying-open log_id (lookup log_id s.logs)).at s p;
  }

  pub IsStaying-anchor :
      (a : Anchors) (log_id root : Text) (size : ℕ) → IsStaying (anchor a log_id root size)
  unfolding anchor
  IsStaying-anchor a log_id root size = record {
    at = λ s p. go (a.anchor_sth s.effects log_id root size) s p;
  }
    where
      go :
          {A : Type 0} (r : Result A) (s : Ledger)
          → X s.store
          → Outcome (λ _ s. X s.store) (λ s. X s.store) r (record s { effects = s.effects + 1 })
      go (ok x) s p = p
      go (err e) s p = p
      go stuck s p = p

  IsStaying-append_both : (log_id : Text) (bytes : Bytes) → IsStaying (append_both log_id bytes)
  unfolding append_both append_to
  IsStaying-append_both log_id bytes = triple_bind _ (IsStaying-log log_id) (λ opened.
      triple_bind _ (triple_bind _ (IsStaying-remember log_id _) (λ _. IsStaying-pure _)) (λ grown.
        triple_bind _ (IsStaying-write _ (λ st p. leaf st log_id _ p)) (λ _. IsStaying-pure _)))

  pub IsStaying-append :
      ⦃sha : Sha256⦄ (a : Anchors) (log_id : Text) (bytes : Bytes)
      → IsStaying (append_and_anchor a log_id bytes)
  unfolding append_and_anchor
  IsStaying-append a log_id bytes = triple_bind _ (IsStaying-append_both log_id bytes) (λ grown.
      triple_bind _ (IsStaying-lift _) (λ hash.
        triple_bind _ (IsStaying-lift _)
          (λ root. triple_bind _ (IsStaying-anchor a log_id root _) (λ sth. IsStaying-pure _))))
