-- ===== src/AnchorWorker/Events.antt =====
-- The query of services/anchor-worker/src/store.ts for events, and its conversions of texts to bytes.
pub mod Order
use hara_registry.Prelude.{
  ℕ, zero, suc, ◌-◌, Bool, ◌&&◌, ◌||◌, List, [], ◌∷◌, ◌++◌, length, map, ltb, leb, ◌==◌,
  if◌then◌else◌,
}
use hara_registry.Sha256.{Bytes, Text}
use hara_registry.AnchorService.{pq_pairs, clean}

-- A row of `indexed_events`.
pub record IndexedEvent : Type 0 where
  pub block_number : ℕ
  pub tx_hash : Text
  pub log_index : ℕ

pub record EventRow : Type 0 where
  pub block_number : ℕ
  pub tx_hash : Bytes
  pub log_index : ℕ

-- hexToBytes of store.ts
unfoldable pub hex_to_bytes : Text → Bytes
hex_to_bytes hex = pq_pairs (clean hex)

zeros : ℕ → Text
zeros zero = []
zeros (suc n) = b'0' ∷ zeros n

abbrev pub take : {A : Type 0} → ℕ → List A → List A
take zero xs = []
take (suc n) [] = []
take (suc n) (x ∷ xs) = x ∷ take n xs

-- `padStart(64, "0")`, and the first 32 pairs of what it gives.
unfoldable pub hex_to_bytes32 : Text → Bytes
unfolding zeros
hex_to_bytes32 hex = let h = clean hex in take 32 (pq_pairs (zeros (64 - length h) ++ h))

-- `ORDER BY block_number, log_index`
unfoldable pub before : IndexedEvent → IndexedEvent → Bool
before a b =
    ltb a.block_number b.block_number
    || (a.block_number == b.block_number && leb a.log_index b.log_index)

unfoldable pub insert_event : IndexedEvent → List IndexedEvent → List IndexedEvent
insert_event e [] = e ∷ []
insert_event e (x ∷ xs) =
    let rest = insert_event e xs in if before e x then e ∷ x ∷ xs else x ∷ rest

-- The rows from block `from` on and below block `to`, in order.
unfoldable pub select_events : ℕ → ℕ → List IndexedEvent → List IndexedEvent
select_events from to [] = []
select_events from to (e ∷ es) =
    let rest = select_events from to es in
    if leb from e.block_number && ltb e.block_number to then insert_event e rest else rest

unfoldable pub event_row : IndexedEvent → EventRow
event_row e = record {
  block_number = e.block_number;
  tx_hash = hex_to_bytes e.tx_hash;
  log_index = e.log_index;
}

-- With the bounds kept plus one, as the cursor is.
unfoldable pub fetch_events_since : ℕ → ℕ → ℕ → List IndexedEvent → List EventRow
fetch_events_since from to cap events = map event_row (take cap (select_events from to events))

-- The block of the last row that a list of rows ends with, if there is one.
abbrev pub last_block : EventRow → List EventRow → ℕ
last_block e [] = e.block_number
last_block e (x ∷ xs) = last_block x xs
