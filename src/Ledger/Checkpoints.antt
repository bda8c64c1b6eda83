-- ===== src/Ledger/Checkpoints.antt =====
-- The checkpoint methods of LedgerService.
use hara_registry.Prelude.{ℕ, codes, ◌||◌, Option, none, some, length, ltb, ◌==◌, if◌then◌else◌}
use hara_registry.Errors.{problem, proof_unavailable}
use hara_registry.Sha256.{Text, Sha256}
use hara_registry.Hex.{lc}
use hara_registry.TransparencyLog.{tree_size, root_at_hex, consistency_proof}
use hara_registry.Store
use hara_registry.Store.{
  MemoryStore, AttestationRecord, StatusEntry, EvidenceRecord, CheckpointRecord, RecordStatus,
  active, superseded, revoked, Links,
}
use hara_registry.Types.{Anchor, Checkpoint, ConsistencyResponse}
use hara_registry.Exec.{Exec, pure, throw, lift, ◌>>=◌, ◌>>◌}
use hara_registry.Ledger.{World, Anchors, Ledger, rand_id, write, read, anchor, get_log}

-- `sth.anchor?.txHash` and `sth.anchor?.onChainId`
tx_hash_of : Option Anchor → Option Text
tx_hash_of none = none
tx_hash_of (some anchor) = anchor.tx_hash

on_chain_id_of : Option Anchor → Option Text
on_chain_id_of none = none
on_chain_id_of (some anchor) = anchor.on_chain_id

module _ ⦃sha : Sha256⦄ (w : World) (a : Anchors) where
  unfoldable pub submit_checkpoint : Text → ℕ → Text → Exec Ledger Checkpoint
  unfolding tx_hash_of on_chain_id_of
  submit_checkpoint log_id size root_hash = do
    checkpoint_id ← rand_id w (codes "ckpt:")
    sth ← anchor a log_id (lc root_hash) size
    write (λ store. Store.put_checkpoint store (record {
      checkpoint_id = checkpoint_id;
      log_id = log_id;
      tree_size = size;
      root_hash = lc root_hash;
      timestamp = sth.timestamp;
      tx_hash = tx_hash_of sth.anchor;
      on_chain_id = on_chain_id_of sth.anchor;
    }))
    pure (record { checkpoint_id = checkpoint_id; sth = sth })

  unfoldable pub get_consistency : Text → ℕ → ℕ → Exec Ledger ConsistencyResponse
  get_consistency log_id from to = do
    leaves ← read (λ store. Store.get_leaves store log_id)
    if length leaves == 0 then throw (problem proof_unavailable) else (do
      tl ← get_log log_id
      if ltb from 1 || ltb (tree_size tl) to || ltb to from
          then throw (problem proof_unavailable)
          else (do
            cp ← lift (consistency_proof tl from to)
            first_root ← lift (root_at_hex tl from)
            first ← anchor a log_id first_root from
            second_root ← lift (root_at_hex tl to)
            second ← anchor a log_id second_root to
            pure (record {
              log_id = log_id;
              first = first;
              second = second;
              consistency_path = cp.consistency_path;
            })))
