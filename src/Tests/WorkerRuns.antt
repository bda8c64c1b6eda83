-- ===== src/Tests/WorkerRuns.antt =====
-- The anchor worker on two events.
use hara_registry.Prelude.{
  ℕ, zero, suc, ◌≤◌, ◌<◌, ◌^◌, true, false, ◌≡◌, refl, arith, none, some, List, [], ◌∷◌, length,
  map, ◌⊎◌, codes,
}
use hara_registry.Errors.{Result, ok, err, stuck}
use hara_registry.Sha256.{Bytes}
use hara_registry.AnchorService.{write_uint}
use hara_registry.Exec.Triples.{Outcome}
use hara_registry.AnchorWorker.Merkle.{
  Keccak256, merkle_loop, merkle_root, fit_leaf, next_level, pad,
}
use hara_registry.AnchorWorker.Merkle.Rounds.{merkle_root_ends}
use hara_registry.AnchorWorker.Merkle.Binding.{Collision}
use hara_registry.AnchorWorker.Events.{EventRow}
use hara_registry.AnchorWorker.Message.{MessageArgs, canonical_message, slice_of}
use hara_registry.AnchorWorker.Message.Signed.{log_key, one_message_one_list}
use hara_registry.AnchorWorker.Cycle.{Config, Outside, Worker, run_once, main_loop}
use hara_registry.AnchorWorker.Cycle.Steps.{IsBacked, Mid, Any}
use hara_registry.AnchorWorker.Cycle.Coverage.{Covers, cycle-Covers, main_loop-IsBacked}
use hara_registry.Tests.Toy.{toy_digest, length-toy_digest}

instance abbrev toy_keccak : Keccak256
toy_keccak = record { digest = toy_digest; length-digest = length-toy_digest }

abbrev three : List Bytes
three = (1 ∷ []) ∷ (2 ∷ []) ∷ (3 ∷ []) ∷ []

merkle_root_ends_example :
    (root : Bytes) × (merkle_loop 2 (map fit_leaf three) ≡ ok root)
    × (merkle_root three ≡ ok (record { root = root; leaf_count = 3 }))
    × (length root ≡ 32)
merkle_root_ends_example = merkle_root_ends 2 three (omega arith) (omega arith)

abbrev two_events : List EventRow
two_events =
    record { block_number = 4; tx_hash = toy_digest (1 ∷ []); log_index = 0 }
    ∷ record { block_number = 5; tx_hash = toy_digest (2 ∷ []); log_index = 1 }
    ∷ []

abbrev answer_of {ℓ} : {A : Type ℓ} → Result A → A → A
answer_of (ok x) d = x
answer_of (err e) d = d
answer_of stuck d = d

abbrev no_slice : MessageArgs
no_slice = record {
  algorithm = [];
  merkle_root = [];
  block_from = 0;
  block_to = 0;
  event_count = 0;
  anchor_chain = [];
}

abbrev two_slice : MessageArgs
two_slice = answer_of (slice_of (65 ∷ []) [] two_events) no_slice

abbrev two_message : Bytes
two_message = answer_of (canonical_message (λ t. t) two_slice) []

sliced : slice_of (65 ∷ []) [] two_events ≡ ok two_slice
unfolding slice_of merkle_root merkle_loop next_level pad
sliced = refl

written : canonical_message (λ t. t) two_slice ≡ ok two_message
unfolding canonical_message write_uint slice_of merkle_root merkle_loop next_level pad
written = refl

one_message_one_list_example : (map log_key two_events ≡ map log_key two_events) ⊎ Collision
one_message_one_list_example =
    one_message_one_list (λ t. t) (65 ∷ []) (65 ∷ []) [] [] two_message two_events two_events
      two_slice two_slice (keys, (keys_too, tt)) (keys, (keys_too, tt)) sliced sliced written
      written
  where
    keys : (length (toy_digest (1 ∷ [])) ≡ 32) × (0 < 2 ^ 32)
    keys = (length-toy_digest (1 ∷ []), omega arith)

    keys_too : (length (toy_digest (2 ∷ [])) ≡ 32) × (1 < 2 ^ 32)
    keys_too = (length-toy_digest (2 ∷ []), omega arith)

abbrev many : ℕ → ℕ → Bytes
many zero b = []
many (suc n) b = b ∷ many n b

abbrev settings : Config
settings = record {
  min_events = 1;
  max_events = 10;
  algorithm = codes "ML-DSA-65";
  anchor_chain_tag = codes "0x00";
  pq_anchor_address = codes "0xaa";
  bucket = codes "hara-pq-anchors";
  signer_did = codes "did:hara:eth:0xaa";
  pq_secret_key = many 4032 0;
}

abbrev outside : Outside
outside = record {
  utf8 = λ t. t;
  ml_dsa65_sign = λ key message. many 3309 0;
  big_int = λ t. some 7;
  get_block_number = λ n. some 9;
  indexed_events = λ n.
      record { block_number = 5; tx_hash = codes "0x02"; log_index = 1 }
      ∷ record { block_number = 4; tx_hash = codes "0x01"; log_index = 0 }
      ∷ [];
  write_contract = λ n args. some (codes "0x03");
  receipt_of = λ n tx. some (record { success = true; logs = [] });
  bucket_exists = λ n. true;
  breaks = λ n. false;
}

abbrev start : Worker
start = record {
  anchored_blocks = 0;
  last_anchor_id = none;
  bucket_ready = false;
  blobs = [];
  rows = [];
  submitted = [];
  uses = 0;
}

no_rows : IsBacked [] []
no_rows row h = absurd h

cycle-Covers_example :
    Outcome
      (Covers outside settings 0)
      (Mid 0 Any)
      (run_once outside settings start).0
      (run_once outside settings start).1
cycle-Covers_example = cycle-Covers outside settings 0 start refl no_rows

main_loop-IsBacked_example :
    IsBacked (main_loop outside 2 settings start).blobs (main_loop outside 2 settings start).rows
    × (0 ≤ (main_loop outside 2 settings start).anchored_blocks)
main_loop-IsBacked_example = main_loop-IsBacked outside settings 2 start no_rows
