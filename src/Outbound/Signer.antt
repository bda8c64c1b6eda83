-- ===== src/Outbound/Signer.antt =====
-- services/signer/src: index.ts, nonce.ts and sign.ts. Vault, the chain and the signature are not code
-- of the repository: they are parameters. The cache of keys is left out: it holds what Vault gave.
pub mod Nonces
use hara_registry.Prelude.{
  ℕ, codes, ◌+◌, Option, none, some, List, [], ◌∷◌, Bool, true, false, not, ◌=t=◌, ltb,
  if◌then◌else◌,
}
use hara_registry.Errors.{Result, ok, err, stuck, error}
use hara_registry.Sha256.{Text}
use hara_registry.Hex.{lc}
use hara_registry.Assoc.{Assoc, lookup, insert}
use hara_registry.Exec.{Exec, pure, throw, lift, gets, ◌>>=◌, ◌>>◌, value_of, attempt, change}
use hara_registry.Outbound.Database.{
  Database, TxRow, TxStatus, draft, queued, failed, use_of, reach, update_tx, xadd,
}

pub record UnsignedTx : Type 0 where
  pub from : Text
  pub to : Option Text
  pub input : Text
  pub value : ℕ
  pub gas_limit : ℕ
  pub nonce : ℕ

pub record SignedTx : Type 0 where
  pub raw_tx : Text
  pub tx_hash : Text

pub record SignerKey : Type 0 where
  pub address : Text
  pub private_key : Text

pub record SubmitBody : Type 0 where
  pub from : Option Text
  pub to : Option Text
  pub input : Option Text
  pub value : Option Text
  pub gas_limit : Option ℕ

-- What the signer asks of others: `none` is a call that throws.
pub record Outside : Type 0 where
  pub breaks : ℕ → Bool
  pub transaction_count : ℕ → Text → Option ℕ
  pub fetch_signer_key : ℕ → Text → Option SignerKey
  pub sign_transaction : Text → ℕ → ℕ → UnsignedTx → Option Text
  pub keccak256 : Text → Text
  pub random_uuid : ℕ → Text
  -- `BigInt(text)`
  pub big_int : Text → Option ℕ

pub record Config : Type 0 where
  pub chain_id : ℕ
  pub default_gas_limit : ℕ
  pub default_gas_price : ℕ

pub data Reply : Type 0 where
  bad_request : Reply
  sign_failed : Text → Reply
  accepted : Text → Reply

-- `option ?? default`
abbrev or_else : {A : Type 0} → Option A → A → A
or_else none d = d
or_else (some x) d = x

-- `to ? to.toLowerCase() : null`
lower_to : Option Text → Option Text
lower_to none = none
lower_to (some []) = none
lower_to (some (c ∷ cs)) = some (lc (c ∷ cs))

-- `last_reserved + 1` or the chain's count, whichever is greater.
abbrev pub next_of : ℕ → ℕ → ℕ
next_of last chain_nonce = if ltb chain_nonce last then last else chain_nonce

module _ (out : Outside) where
  -- The row is written as the number of nonces up to the reserved one.
  unfoldable pub reserve_nonce : Text → Exec Database ℕ
  reserve_nonce address = do
    let addr = lc address
    answer ← use_of (λ n. out.transaction_count n addr)
    chain_nonce ← value_of answer
    reach out.breaks
    looked ← gets (λ db. lookup addr db.reserved)
    last ← value_of looked
    reach out.breaks
    reach out.breaks
    change (λ db. record db { reserved = insert addr (next_of last chain_nonce + 1) db.reserved })
    pure (next_of last chain_nonce)

  unfoldable pub sign_tx : Config → Text → UnsignedTx → Exec Database SignedTx
  sign_tx config vault_path tx = do
    answer ← use_of (λ n. out.fetch_signer_key n vault_path)
    key ← value_of answer
    if not (lc key.address =t= lc tx.from) then throw error else (do
      raw_tx ←
          value_of
            (out.sign_transaction key.private_key config.chain_id config.default_gas_price tx)
      pure (record { raw_tx = raw_tx; tx_hash = out.keccak256 raw_tx }))

  -- `INSERT INTO transactions`: a key that is there is refused.
  unfoldable pub put_draft : Text → TxRow → Option TxRow → Exec Database (Unit {0})
  put_draft tx_id row (some old) = throw error
  put_draft tx_id row none =
      change (λ db. record db { transactions = insert tx_id row db.transactions })

  unfoldable pub insert_draft : Text → TxRow → Exec Database (Unit {0})
  insert_draft tx_id row = do
    reach out.breaks
    there ← gets (λ db. lookup tx_id db.transactions)
    put_draft tx_id row there

  -- The `try`: a nonce is reserved, and the transaction is signed with it.
  unfoldable pub reserve_and_sign :
      Config → Text → Text → Option Text → Text → ℕ → ℕ → Exec Database (ℕ × SignedTx)
  reserve_and_sign config vault_path from to input value gas_limit = do
    nonce ← reserve_nonce from
    tx ← sign_tx config vault_path (record {
      from = from;
      to = to;
      input = input;
      value = value;
      gas_limit = gas_limit;
      nonce = nonce;
    })
    pure (nonce, tx)

  unfoldable pub enqueue : Text → Result (ℕ × SignedTx) → Exec Database Reply
  enqueue tx_id stuck = lift stuck
  enqueue tx_id (err thrown) = do
    update_tx out.breaks tx_id
        (λ row. record row { status = failed; error_message = some (codes "sign failed") })
    pure (sign_failed tx_id)
  enqueue tx_id (ok (nonce, tx)) = do
    update_tx out.breaks tx_id (λ row. record row {
      nonce = some nonce;
      raw_tx = some tx.raw_tx;
      tx_hash = some tx.tx_hash;
      status = queued;
    })
    xadd out.breaks tx_id
    pure (accepted tx_id)

  -- From the wallet on.
  unfoldable pub submit :
      Config → Text → Text → Text → Option Text → Text → ℕ → ℕ → Exec Database Reply
  submit config client_id vault_path from to input value gas_limit = do
    tx_id ← use_of out.random_uuid
    insert_draft tx_id (record {
      from_address = from;
      to_address = to;
      input = input;
      value = value;
      gas_limit = gas_limit;
      nonce = none;
      chain_id = config.chain_id;
      raw_tx = none;
      tx_hash = none;
      status = draft;
      receipt_status = none;
      block_number = none;
      gas_used = none;
      error_message = none;
      retry_count = 0;
      submitted_by = client_id;
    })
    answer ← attempt (reserve_and_sign config vault_path from to input value gas_limit)
    enqueue tx_id answer

  unfoldable pub submit_from :
      Config → Option Text → SubmitBody → Text → ℕ → Option Text → Exec Database Reply
  unfolding lower_to
  submit_from config client_id body from value none = pure bad_request
  submit_from config client_id body from value (some vault_path) =
      submit config (or_else client_id (codes "anonymous")) vault_path from (lower_to body.to)
        (or_else body.input (codes "0x")) value (or_else body.gas_limit config.default_gas_limit)

  unfoldable pub post_from : Config → Option Text → SubmitBody → Option Text → Exec Database Reply
  post_from config client_id body none = pure bad_request
  post_from config client_id body (some []) = pure bad_request
  post_from config client_id body (some (c ∷ cs)) = do
    value ← value_of (out.big_int (or_else body.value (codes "0")))
    reach out.breaks
    wallet ← gets (λ db. lookup (lc (c ∷ cs)) db.wallets)
    submit_from config client_id body (lc (c ∷ cs)) value wallet

  -- `POST /v1/tx`
  unfoldable pub post_tx : Config → Option Text → SubmitBody → Exec Database Reply
  post_tx config client_id body = post_from config client_id body body.from
