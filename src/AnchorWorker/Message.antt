-- ===== src/AnchorWorker/Message.antt =====
-- canonicalMessage of services/anchor-worker/src/index.ts, and what runOnce signs of a list of events.
pub mod Signed
use hara_registry.Prelude.{ℕ, List, [], ◌∷◌, ◌++◌, length, map}
use hara_registry.Errors.{Result, ok, err, error, ◌>>=◌}
use hara_registry.Sha256.{Bytes, Text}
use hara_registry.AnchorService.{write_uint}
use hara_registry.AnchorWorker.Merkle.{Keccak256, merkle_root, leaf_from_event}
use hara_registry.AnchorWorker.Events.{EventRow, last_block}

pub record MessageArgs : Type 0 where
  pub algorithm : Text
  pub merkle_root : Bytes
  pub block_from : ℕ
  pub block_to : ℕ
  pub event_count : ℕ
  pub anchor_chain : Bytes

unfoldable pub canonical_message : (Text → Bytes) → MessageArgs → Result Bytes
canonical_message utf8 args = do
  algo_len ← write_uint 2 (length (utf8 args.algorithm))
  from_bytes ← write_uint 8 args.block_from
  to_bytes ← write_uint 8 args.block_to
  count_bytes ← write_uint 8 args.event_count
  ok (
      algo_len
      ++ (utf8 args.algorithm
          ++ (args.merkle_root
              ++ (from_bytes ++ (to_bytes ++ (count_bytes ++ args.anchor_chain))))))

module _ ⦃kec : Keccak256⦄ where
  -- `leafFromEvent(e.txHash, e.logIndex)`
  unfoldable pub event_leaf : EventRow → Bytes
  event_leaf e = leaf_from_event e.tx_hash e.log_index

  -- What runOnce signs: of no event `events[0].blockNumber` throws.
  unfoldable pub slice_of : Text → Bytes → List EventRow → Result MessageArgs
  slice_of algorithm anchor_chain [] = err error
  slice_of algorithm anchor_chain (e ∷ es) = do
    tree ← merkle_root (map event_leaf (e ∷ es))
    ok (record {
      algorithm = algorithm;
      merkle_root = tree.root;
      block_from = e.block_number;
      block_to = last_block e es;
      event_count = length (e ∷ es);
      anchor_chain = anchor_chain;
    })
