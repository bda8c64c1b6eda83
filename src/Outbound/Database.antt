-- ===== src/Outbound/Database.antt =====
-- The tables `transactions`, `wallet_nonces` and `wallets` and the queue of services/shared/src/types.ts,
-- which services/signer/src and services/broadcaster/src share. Timestamps are left out.
use hara_registry.Prelude.{ℕ, ◌+◌, Option, none, some, List, [], ◌∷◌, ◌++◌, Bool, if◌then◌else◌}
use hara_registry.Errors.{error}
use hara_registry.Sha256.{Text}
use hara_registry.Assoc.{Assoc, lookup, insert}
use hara_registry.Exec.{Exec, pure, throw, run, ◌>>=◌, ◌>>◌, change}

pub data TxStatus : Type 0 where
  draft queued signed broadcasted confirmed reverted failed retrying : TxStatus

pub record TxRow : Type 0 where
  pub from_address : Text
  pub to_address : Option Text
  pub input : Text
  pub value : ℕ
  pub gas_limit : ℕ
  pub nonce : Option ℕ
  pub chain_id : ℕ
  pub raw_tx : Option Text
  pub tx_hash : Option Text
  pub status : TxStatus
  pub receipt_status : Option ℕ
  pub block_number : Option ℕ
  pub gas_used : Option ℕ
  pub error_message : Option Text
  pub retry_count : ℕ
  pub submitted_by : Text

pub record Attempt : Type 0 where
  pub tx_id : Text
  pub attempt_number : ℕ
  pub tx_hash : Option Text
  pub error_message : Option Text

-- `last_reserved` and `last_confirmed` start at -1: they are kept plus one, as numbers of nonces.
pub record Database : Type 0 where
  -- Address to Vault path.
  pub wallets : Assoc Text
  pub reserved : Assoc ℕ
  pub confirmed : Assoc ℕ
  -- The primary key is the transaction's id.
  pub transactions : Assoc TxRow
  pub attempts : List Attempt
  -- The stream `hara:tx:outbound`, and the messages that a timer is to add to it.
  pub queue : List Text
  pub delayed : List Text
  pub uses : ℕ

unfoldable pub use_of : {A : Type 0} → (ℕ → A) → Exec Database A
use_of f = run (λ db. (f db.uses, record db { uses = db.uses + 1 }))

-- A call of the database or of Redis; `breaks` says of each use whether it fails.
unfoldable pub reach : (ℕ → Bool) → Exec Database (Unit {0})
reach breaks = do down ← use_of breaks; if down then throw error else pure tt

-- `UPDATE transactions SET … WHERE tx_id = …`
unfoldable pub update_row : Text → (TxRow → TxRow) → Assoc TxRow → Assoc TxRow
update_row tx_id f rows = elim (lookup tx_id rows) [
  | none ↦ rows
  | some row ↦ insert tx_id (f row) rows
]

unfoldable pub update_tx : (ℕ → Bool) → Text → (TxRow → TxRow) → Exec Database (Unit {0})
update_tx breaks tx_id f = do
  reach breaks
  change (λ db. record db { transactions = update_row tx_id f db.transactions })

unfoldable pub xadd : (ℕ → Bool) → Text → Exec Database (Unit {0})
xadd breaks tx_id = do reach breaks; change (λ db. record db { queue = db.queue ++ (tx_id ∷ []) })
