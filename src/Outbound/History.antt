-- ===== src/Outbound/History.antt =====
-- Runs of services/signer/src and services/broadcaster/src over one database: requests, messages of the
-- queue, timers and restarts, one after the other.
use hara_registry.Prelude.{ℕ, ◌≡◌, refl, sym, ap, ◌∙◌, Option, some, List, [], ◌∷◌, Has, inl, inr}
use mathlib.Core.Path.{subst}
use hara_registry.Errors.{Result, ok, err, stuck}
use hara_registry.Sha256.{Text}
use hara_registry.Assoc.{lookup}
use hara_registry.Exec.Triples.{Outcome}
use hara_registry.Outbound.Database.{Database, TxRow}
use hara_registry.Outbound.Signer
use hara_registry.Outbound.Signer.{SubmitBody, post_tx}
use hara_registry.Outbound.Signer.Nonces.{post_tx_lem}
use hara_registry.Outbound.Broadcaster
use hara_registry.Outbound.Broadcaster.{consume, re_enqueue, recover_rows}
use hara_registry.Outbound.Broadcaster.Keeping.{consume-IsSound}
use hara_registry.Outbound.Broadcaster.Timers.{re_enqueue-IsSound, recover_rows-IsSound}
use hara_registry.Outbound.Invariant.{IsSound}

pub data Event : Type 0 where
  request : Signer.Config → Option Text → SubmitBody → Event
  message timer : Event
  restart : List (Text × TxRow) → Event

module _ (signer : Signer.Outside) (out : Broadcaster.Outside) (config : Broadcaster.Config) where
  step : Event → Database → Database
  step (request settings client body) db = (post_tx signer settings client body db).1
  step message db = consume out config db
  step timer db = re_enqueue out db
  step (restart rows) db = recover_rows out rows db

  unfoldable pub history : List Event → Database → Database
  unfolding step
  history [] db = db
  history (e ∷ es) db = history es (step e db)

  request_end :
      {A : Type 0} (max : ℕ) (r : Result A) (t : Database)
      → Outcome (λ _ db. IsSound max db) (IsSound max) r t
      → IsSound max t
  request_end max (ok x) t p = p
  request_end max (err e) t p = p
  request_end max stuck t p = p

  step-IsSound :
      (e : Event) (db : Database)
      → IsSound config.max_retries db
      → IsSound config.max_retries (step e db)
  unfolding step
  step-IsSound (request settings client body) db s =
      request_end config.max_retries _ _
        ((post_tx_lem config.max_retries signer settings client body).at db s)
  step-IsSound message db s = consume-IsSound config.max_retries out config refl db s
  step-IsSound timer db s = re_enqueue-IsSound config.max_retries out db s
  step-IsSound (restart rows) db s = recover_rows-IsSound config.max_retries out rows db s

  -- From a database that keeps the rules, every list of requests, messages, timers and restarts, those
  -- that fail included, leads to one that keeps them: no two transactions of a wallet have one nonce,
  -- every nonce is below the wallet's next one, what is queued or waits for a timer has its nonce and
  -- its signature, and a row that was retried was retried fewer times than the bound.
  pub history-IsSound :
      (es : List Event) (db : Database)
      → IsSound config.max_retries db
      → IsSound config.max_retries (history es db)
  unfolding history
  history-IsSound [] db s = s
  history-IsSound (e ∷ es) db s = history-IsSound es (step e db) (step-IsSound e db s)

no_entry : (id : Text) (row : TxRow) → lookup id [] ≡ some row → ⊥
unfolding lookup
no_entry id row h = cc

-- Before the first request: no transaction and no message.
pub empty-IsSound :
    (max : ℕ) (db : Database)
    → db.transactions ≡ []
    → db.queue ≡ []
    → db.delayed ≡ []
    → IsSound max db
empty-IsSound max db e f g = record {
  reserved = λ id row n there has. absurd (nothing id row there);
  one_nonce = λ i j r q n there there' same has has'. absurd (nothing i r there);
  signed = λ id there. elim there [
    | inl k ↦ absurd (subst (Has id) f k)
    | inr k ↦ absurd (subst (Has id) g k)
  ];
  few_retries = λ id row there. absurd (nothing id row there);
}
  where
    nothing : (id : Text) (row : TxRow) → lookup id db.transactions ≡ some row → ⊥
    nothing id row there = no_entry id row (sym (ap (lookup id) e) ∙ there)
