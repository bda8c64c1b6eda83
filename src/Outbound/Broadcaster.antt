-- ===== src/Outbound/Broadcaster.antt =====
-- services/broadcaster/src/index.ts. The chain's clients and the clock are parameters. The timer that
-- puts a message back into the queue is the list `delayed` of the database, and what an error says is
-- left out of the rows.
pub mod Polling
pub mod Keeping
pub mod Timers
use hara_registry.Prelude.{
  ℕ, codes, zero, suc, ◌+◌, Option, none, some, List, [], ◌∷◌, ◌++◌, Bool, true, false, not, ◌=t=◌,
  ltb, leb, if◌then◌else◌,
}
use hara_registry.Errors.{Result, ok, err, stuck, error}
use hara_registry.Sha256.{Text}
use hara_registry.Hex.{lc}
use hara_registry.Assoc.{Assoc, lookup, insert}
use hara_registry.Exec.{Exec, pure, throw, lift, gets, ◌>>=◌, ◌>>◌, value_of, attempt, change}
use hara_registry.Outbound.Database.{
  Database, TxRow, TxStatus, Attempt, broadcasted, confirmed, reverted, failed, retrying, use_of,
  reach, update_row, update_tx, xadd,
}

pub record Receipt : Type 0 where
  pub success : Bool
  pub block_number : ℕ
  pub gas_used : ℕ

-- What the broadcaster asks of others: `none` is a call that throws.
pub record Outside : Type 0 where
  pub breaks : ℕ → Bool
  pub send_raw_transaction : ℕ → Text → Option Text
  pub transaction_receipt : ℕ → Text → Option Receipt
  -- `Date.now()`
  pub now : ℕ → ℕ

pub record Config : Type 0 where
  pub max_retries : ℕ
  pub receipt_timeout_ms : ℕ

abbrev pub or_blank : Option Text → Text
or_blank none = []
or_blank (some t) = t

module _ (out : Outside) where
  unfoldable pub mark_failed : Text → Text → Exec Database (Unit {0})
  mark_failed tx_id message =
      update_tx out.breaks tx_id
        (λ row. record row { status = failed; error_message = some message })

  unfoldable pub insert_attempt : Attempt → Exec Database (Unit {0})
  insert_attempt attempt = do
    reach out.breaks
    change (λ db. record db { attempts = db.attempts ++ (attempt ∷ []) })

  -- `GREATEST(last_confirmed, nonce)`, kept plus one; a null nonce leaves it.
  greatest : ℕ → Option ℕ → ℕ
  greatest last none = last
  greatest last (some nonce) = if ltb last (nonce + 1) then nonce + 1 else last

  raise : Text → Option ℕ → Assoc ℕ → Assoc ℕ
  unfolding greatest
  raise address nonce ledger = elim (lookup address ledger) [
    | none ↦ ledger
    | some last ↦ insert address (greatest last nonce) ledger
  ]

  -- What a receipt writes.
  unfoldable pub record_receipt : Text → TxRow → Receipt → Exec Database (Unit {0})
  unfolding raise
  record_receipt tx_id row receipt = do
    update_tx out.breaks tx_id (λ r. record r {
      status = if receipt.success then confirmed else reverted;
      receipt_status = some (if receipt.success then 1 else 0);
      block_number = some receipt.block_number;
      gas_used = some receipt.gas_used;
    })
    reach out.breaks
    change (λ db. record db { confirmed = raise row.from_address row.nonce db.confirmed })

  -- The `try` of the broadcast: the hash that the node gave.
  unfoldable pub broadcast : Text → Text → Option Text → ℕ → Exec Database Text
  broadcast tx_id raw_tx expected attempt_number = do
    answer ← use_of (λ n. out.send_raw_transaction n raw_tx)
    submitted ← value_of answer
    tx_hash ← value_of expected
    let hash = if lc submitted =t= lc tx_hash then tx_hash else submitted
    update_tx out.breaks tx_id (λ row. record row { status = broadcasted; tx_hash = some hash })
    insert_attempt (record {
      tx_id = tx_id;
      attempt_number = attempt_number;
      tx_hash = some hash;
      error_message = none;
    })
    pure hash

  -- One look for the receipt, and what it writes.
  unfoldable pub look : Text → TxRow → Text → Exec Database (Unit {0})
  look tx_id row tx_hash = do
    answer ← use_of (λ n. out.transaction_receipt n tx_hash)
    receipt ← value_of answer
    record_receipt tx_id row receipt

  -- `return` where a receipt was written, and the next round where the look threw.
  unfoldable pub after_look : Result (Unit {0}) → Exec Database Bool → Exec Database Bool
  after_look (ok done) again = pure true
  after_look (err thrown) again = again
  after_look stuck again = lift stuck

  -- The loop up to the deadline, with rounds to spare in `fuel`; `true` is the `return` in it.
  unfoldable pub poll : ℕ → ℕ → Text → TxRow → Text → Exec Database Bool
  poll zero deadline tx_id row tx_hash = lift stuck
  poll (suc fuel) deadline tx_id row tx_hash =
      let again = poll fuel deadline tx_id row tx_hash in
      do
        time ← use_of out.now
        if not (ltb time deadline)
            then pure false
            else (do seen ← attempt (look tx_id row tx_hash); after_look seen again)

  -- The `catch` of the broadcast.
  unfoldable pub retry_later : Config → Text → TxRow → Exec Database (Unit {0})
  retry_later config tx_id row = do
    insert_attempt (record {
      tx_id = tx_id;
      attempt_number = row.retry_count + 1;
      tx_hash = none;
      error_message = some (codes "broadcast failed");
    })
    if leb config.max_retries (row.retry_count + 1)
        then mark_failed tx_id (codes "broadcast failed")
        else (do
          update_tx out.breaks tx_id (λ r. record r {
            status = retrying;
            retry_count = r.retry_count + 1;
            error_message = some (codes "broadcast failed");
          })
          change (λ db. record db { delayed = db.delayed ++ (tx_id ∷ []) }))

  -- After the `try`: the polling, which has a round for each millisecond up to the deadline.
  unfoldable pub settle : Config → Text → TxRow → Result Text → Exec Database (Unit {0})
  settle config tx_id row stuck = lift stuck
  settle config tx_id row (err thrown) = retry_later config tx_id row
  settle config tx_id row (ok tx_hash) = do
    start ← use_of out.now
    seen ←
        poll (config.receipt_timeout_ms + 1) (start + config.receipt_timeout_ms) tx_id row tx_hash
    if seen then pure tt else mark_failed tx_id (codes "receipt not seen")

  -- `if (!raw_tx)`, and the rest.
  unfoldable pub process_raw : Config → Text → TxRow → Option Text → Exec Database (Unit {0})
  process_raw config tx_id row none = mark_failed tx_id (codes "raw_tx is null")
  process_raw config tx_id row (some []) = mark_failed tx_id (codes "raw_tx is null")
  process_raw config tx_id row (some (c ∷ cs)) = do
    answer ← attempt (broadcast tx_id (c ∷ cs) row.tx_hash (row.retry_count + 1))
    settle config tx_id row answer

  unfoldable pub process_row : Config → Text → Option TxRow → Exec Database (Unit {0})
  process_row config tx_id none = pure tt
  process_row config tx_id (some row) = process_raw config tx_id row row.raw_tx

  unfoldable pub process_tx : Config → Text → Exec Database (Unit {0})
  process_tx config tx_id = do
    reach out.breaks
    looked ← gets (λ db. lookup tx_id db.transactions)
    process_row config tx_id looked

-- A message of the queue: what processing throws is caught, and the message is acknowledged.
unfoldable pub consume : Outside → Config → Database → Database
consume out config db = elim db.queue [
  | [] ↦ db
  | tx_id ∷ rest ↦ (process_tx out config tx_id (record db { queue = rest })).1
]

-- The timer of a message fires; what Redis refuses is lost.
unfoldable pub re_enqueue : Outside → Database → Database
re_enqueue out db = elim db.delayed [
  | [] ↦ db
  | tx_id ∷ rest ↦ (xadd out.breaks tx_id (record db { delayed = rest })).1
]

-- recoverOrphanedTxs: a row in BROADCASTED with a hash is looked up once. Which rows are young enough
-- for the query is a parameter.
recoverable : TxRow → Option Text
recoverable row = elim row.status [ broadcasted ↦ row.tx_hash | _ ↦ none ]

unfoldable pub recover_hash : Outside → Text → TxRow → Option Text → Exec Database (Unit {0})
recover_hash out id row none = pure tt
recover_hash out id row (some tx_hash) = do seen ← attempt (look out id row tx_hash); pure tt

unfoldable pub recover_rows : Outside → List (Text × TxRow) → Database → Database
unfolding recoverable
recover_rows out [] db = db
recover_rows out ((id, row) ∷ rows) db =
    recover_rows out rows (recover_hash out id row (recoverable row) db).1
