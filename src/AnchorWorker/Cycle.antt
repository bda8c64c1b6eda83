-- ===== src/AnchorWorker/Cycle.antt =====
-- runOnce and the main loop of services/anchor-worker/src/index.ts, with the writes of store.ts, the
-- transaction of chain.ts and the signature of pq.ts. The database, the object store, the chain and
-- ML-DSA-65 are not code of the repository: what they answer is a parameter, and a run numbers its
-- uses of them.
pub mod Steps
pub mod Coverage
use hara_registry.Prelude.{
  ℕ, codes, zero, suc, ◌+◌, Bool, true, false, not, ◌&&◌, Option, none, some, List, [], ◌∷◌, ◌++◌,
  length, ltb, leb, ◌==◌, ◌=t=◌, if◌then◌else◌,
}
use hara_registry.Errors.{Result, ok, err, stuck, error}
use hara_registry.Sha256.{Bytes, Text}
use hara_registry.Hex.{to_hex, hex_body, lc}
use hara_registry.AnchorService.{EventLog, Receipt, AnchorArgs}
use hara_registry.Assoc.{Assoc, insert}
use hara_registry.Exec.{Exec, pure, throw, lift, gets, run, ◌>>=◌, ◌>>◌, value_of, attempt, change}
use hara_registry.AnchorWorker.Merkle.{Keccak256}
use hara_registry.AnchorWorker.Events.{IndexedEvent, EventRow, fetch_events_since, hex_to_bytes32}
use hara_registry.AnchorWorker.Message.{MessageArgs, canonical_message, slice_of}

pub record Config : Type 0 where
  pub min_events : ℕ
  pub max_events : ℕ
  pub algorithm : Text
  pub anchor_chain_tag : Text
  pub pq_anchor_address : Text
  pub bucket : Text
  pub signer_did : Text
  pub pq_secret_key : Bytes

-- A row of `pq_anchor_signatures`.
pub record SignatureRow : Type 0 where
  pub commitment_hash : Bytes
  pub algo : Text
  pub signer_did : Text
  pub anchor_tx_hash : Bytes
  pub bucket : Text
  pub object_key : Text
  pub size_bytes : ℕ

-- What the worker asks of others; the number is that of the use. `none` is a call that throws.
pub record Outside : Type 0 where
  pub utf8 : Text → Bytes
  pub ml_dsa65_sign : Bytes → Bytes → Bytes
  -- `BigInt(text)`
  pub big_int : Text → Option ℕ
  pub get_block_number : ℕ → Option ℕ
  pub indexed_events : ℕ → List IndexedEvent
  pub write_contract : ℕ → AnchorArgs → Option Text
  pub receipt_of : ℕ → Text → Option Receipt
  pub bucket_exists : ℕ → Bool
  -- A call of the database or of the object store fails.
  pub breaks : ℕ → Bool

-- The cursor starts at -1: it is kept here as the number of blocks up to it, `last_anchored_block + 1`.
pub record Worker : Type 0 where
  pub anchored_blocks : ℕ
  pub last_anchor_id : Option ℕ
  pub bucket_ready : Bool
  pub blobs : Assoc Bytes
  pub rows : List SignatureRow
  -- The transactions that the chain has taken.
  pub submitted : List AnchorArgs
  pub uses : ℕ

unfoldable pub use_of : {A : Type 0} → (ℕ → A) → Exec Worker A
use_of f = run (λ s. (f s.uses, record s { uses = s.uses + 1 }))

pub data Status : Type 0 where
  anchored noop failed : Status

-- sign of pq.ts
unfoldable pub pq_sign : (Bytes → Bytes → Bytes) → Bytes → Bytes → Result Bytes
pq_sign ml_dsa65_sign secret_key message =
    if not (length secret_key == 4032)
    then err error
    else if not (length (ml_dsa65_sign secret_key message) == 3309)
    then err error
    else ok (ml_dsa65_sign secret_key message)

-- The first log of the registry that has a topic: its second topic, or 0.
unfoldable pub anchor_id_of : (Text → Option ℕ) → Text → List EventLog → Option ℕ
anchor_id_of big_int registry [] = some 0
anchor_id_of big_int registry (log ∷ logs) =
    let rest = anchor_id_of big_int registry logs in
    elim log.topics [
      | [] ↦ rest
      | t ∷ ts ↦
          if lc log.address =t= lc registry
          then elim ts [ [] ↦ some 0 | id ∷ more ↦ big_int id ]
          else rest
    ]

-- `ON CONFLICT (commitment_hash) DO NOTHING`
unfoldable pub insert_row : SignatureRow → List SignatureRow → List SignatureRow
insert_row row [] = row ∷ []
insert_row row (r ∷ rs) =
    let rest = insert_row row rs in
    if r.commitment_hash =t= row.commitment_hash then r ∷ rs else r ∷ rest

module _ (out : Outside) where
  -- A call of the database or of the object store.
  unfoldable pub reach : Exec Worker (Unit {0})
  reach = do down ← use_of out.breaks; if down then throw error else pure tt

  unfoldable pub ensure_bucket : Exec Worker (Unit {0})
  ensure_bucket = do
    ready ← gets (λ s. s.bucket_ready)
    if ready then pure tt else (do
      exists ← use_of out.bucket_exists
      if exists then pure tt else reach
      change (λ s. record s { bucket_ready = true }))

  unfoldable pub persist_anchor : Config → Bytes → Bytes → Bytes → Exec Worker (Unit {0})
  persist_anchor config commitment_hash anchor_tx_hash signature = do
    ensure_bucket
    let object_key = lc config.algorithm ++ (b'/' ∷ (hex_body commitment_hash ++ codes ".sig"))
    reach
    change (λ s. record s { blobs = insert object_key signature s.blobs })
    reach
    change (λ s. record s {
      rows =
          insert_row
            (record {
              commitment_hash = commitment_hash;
              algo = lc config.algorithm;
              signer_did = config.signer_did;
              anchor_tx_hash = anchor_tx_hash;
              bucket = config.bucket;
              object_key = object_key;
              size_bytes = length signature;
            })
            s.rows;
    })

  unfoldable pub advance_cursor : ℕ → ℕ → Exec Worker (Unit {0})
  advance_cursor to_block anchor_id = do
    reach
    change (λ s. record s { anchored_blocks = to_block + 1; last_anchor_id = some anchor_id })

  -- The transaction's hash and the id of the anchor.
  unfoldable pub record_anchor : Config → AnchorArgs → Exec Worker (Text × ℕ)
  record_anchor config args = do
    sent ← use_of (λ n. out.write_contract n args)
    tx_hash ← value_of sent
    change (λ s. record s { submitted = s.submitted ++ (args ∷ []) })
    answer ← use_of (λ n. out.receipt_of n tx_hash)
    receipt ← value_of answer
    anchor_id ← value_of (anchor_id_of out.big_int config.pq_anchor_address receipt.logs)
    pure (tx_hash, anchor_id)

unfoldable pub anchor_args : MessageArgs → Bytes → AnchorArgs
anchor_args slice commitment_hash = record {
  merkle_root = to_hex slice.merkle_root;
  sha3_root = to_hex slice.merkle_root;
  block_from = slice.block_from;
  block_to = slice.block_to;
  event_count = slice.event_count;
  anchor_chain = to_hex slice.anchor_chain;
  pq_signature_hash = to_hex commitment_hash;
}

module _ ⦃kec : Keccak256⦄ (out : Outside) where
  -- What follows the `try`: an error of the transaction ends the cycle, and the cursor stays.
  unfoldable pub finish :
      Config → MessageArgs → Bytes → Bytes → Result (Text × ℕ) → Exec Worker (Status × ℕ)
  finish config slice commitment_hash signature stuck = lift stuck
  finish config slice commitment_hash signature (err thrown) = pure (failed, slice.event_count)
  finish config slice commitment_hash signature (ok (tx_hash, anchor_id)) = do
    persist_anchor out config commitment_hash (hex_to_bytes32 tx_hash) signature
    advance_cursor out slice.block_to anchor_id
    pure (anchored, slice.event_count)

  -- The cycle from the events on.
  unfoldable pub anchor_events : Config → List EventRow → Exec Worker (Status × ℕ)
  unfolding anchor_args finish
  anchor_events config events = do
    slice ← lift (slice_of config.algorithm (hex_to_bytes32 config.anchor_chain_tag) events)
    message ← lift (canonical_message out.utf8 slice)
    signature ← lift (pq_sign out.ml_dsa65_sign config.pq_secret_key message)
    let commitment_hash = kec.digest signature
    answer ← attempt (record_anchor out config (anchor_args slice commitment_hash))
    finish config slice commitment_hash signature answer

  unfoldable pub run_once : Config → Exec Worker (Status × ℕ)
  run_once config = do
    reach out
    last_anchored ← gets (λ s. s.anchored_blocks)
    answer ← use_of out.get_block_number
    latest ← value_of answer
    if leb latest last_anchored then pure (noop, 0) else (do
      reach out
      indexed ← use_of out.indexed_events
      let events = fetch_events_since last_anchored latest config.max_events indexed
      if ltb (length events) config.min_events
          then pure (noop, length events)
          else anchor_events config events)

  -- `n` rounds of the main loop, which catches what a cycle throws.
  unfoldable pub main_loop : ℕ → Config → Worker → Worker
  main_loop zero config s = s
  main_loop (suc n) config s = main_loop n config (run_once config s).1
