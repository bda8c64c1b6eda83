-- ===== src/AnchorWorker/Cycle/Coverage.antt =====
-- What a cycle of the anchor worker does on every path.
use hara_registry.Prelude.{
  ℕ, zero, suc, ◌+◌, ◌≤◌, ◌<◌, ◌≡◌, ◌≢◌, refl, sym, ap, ◌∙◌, arith, List, [], ◌∷◌, length, ◌⊎◌, inl,
  inr, Has, leb, ltb,
}
use hara_registry.Errors.{Result, ok, err, stuck, ok_inj, >>=_parts}
use hara_registry.Sha256.{Bytes, Text}
use hara_registry.AnchorService.{AnchorArgs}
use hara_registry.Exec.{pure}
use hara_registry.Exec.Triples.{
  Triple, triple_bind, triple_pure, triple_gets, triple_lift, triple_lift_bind, triple_if,
  triple_weaken, triple_given, triple_value, triple_attempt, triple_change, Outcome,
}
use hara_registry.AnchorWorker.Merkle.{Keccak256, merkle_root}
use hara_registry.AnchorWorker.Events.{
  IndexedEvent, EventRow, event_row, last_block, select_events, fetch_events_since, hex_to_bytes32,
}
use hara_registry.AnchorWorker.Events.Order.{fetch_range, fetch_complete}
use hara_registry.AnchorWorker.Message.{MessageArgs, canonical_message, slice_of}
use hara_registry.AnchorWorker.Cycle.{
  Config, Outside, Worker, pq_sign, anchored, noop, failed, Status, advance_cursor, anchor_args,
  finish, anchor_events, run_once, main_loop,
}
use hara_registry.AnchorWorker.Cycle.Steps.{
  IsBacked, Mid, Any, triple_use, reach_keeps, persist_anchor_keeps, record_anchor_keeps,
}

pq_sign_length :
    (ml_dsa65_sign : Bytes → Bytes → Bytes) (key message signature : Bytes)
    → pq_sign ml_dsa65_sign key message ≡ ok signature
    → length signature ≡ 3309
unfolding pq_sign
pq_sign_length f key message signature h = ground arith

module _ ⦃kec : Keccak256⦄ (out : Outside) (config : Config) (c : ℕ) where
  -- The cursor stayed, or an anchor of `slice` was sent and the cursor stands behind its last block.
  abbrev Ended : MessageArgs → Bytes → Status × ℕ → Worker → Type 0
  Ended slice commitment (status, n) t =
      IsBacked t.blobs t.rows
      × (((status ≢ anchored) × (t.anchored_blocks ≡ c))
          ⊎ ((status ≡ anchored)
              × (t.anchored_blocks ≡ slice.block_to + 1)
              × Has (anchor_args slice commitment) t.submitted))

  advance_lem :
      (slice : MessageArgs) (anchor_id : ℕ) (X : List AnchorArgs → Type 0)
      → Triple
          (Mid c X)
          (advance_cursor out slice.block_to anchor_id)
          (λ _ t.
            IsBacked t.blobs t.rows × (t.anchored_blocks ≡ slice.block_to + 1) × X t.submitted)
          (Mid c Any)
  unfolding advance_cursor
  advance_lem slice anchor_id X =
      triple_bind (λ _. Mid c X) (reach_keeps out c X)
        (λ _. triple_change _ (λ s (p, q, r). (q, refl, r)))

  finish_lem :
      (slice : MessageArgs) (commitment signature : Bytes) (answer : Result (Text × ℕ))
      → length signature ≡ 3309
      → Triple
          (Outcome (λ _. Mid c (Has (anchor_args slice commitment))) (Mid c Any) answer)
          (finish out config slice commitment signature answer)
          (Ended slice commitment)
          (Mid c Any)
  unfolding finish
  finish_lem slice commitment signature stuck len = triple_lift stuck (λ x s e p. cc) (λ s p. p)
  finish_lem slice commitment signature (err thrown) len =
      triple_pure (failed, slice.event_count) (λ s (p, q, r). (q, inl ((λ e. cc), p)))
  finish_lem slice commitment signature (ok (tx_hash, anchor_id)) len =
      let sent = Has (anchor_args slice commitment) in
      let moved : Worker → Type 0 = λ t.
        IsBacked t.blobs t.rows × (t.anchored_blocks ≡ slice.block_to + 1) × sent t.submitted in
      triple_bind (λ _. Mid c sent)
        (persist_anchor_keeps out c sent config commitment (hex_to_bytes32 tx_hash) signature len)
        (λ _.
          triple_bind (λ _. moved) (advance_lem slice anchor_id sent)
            (λ _. triple_pure (anchored, slice.event_count) (λ s (p, q, r). (p, inr (refl, q, r)))))

  -- What an anchor covers: the rows that the query gave, and the slice made of them.
  pub record Anchored (t : Worker) : Type 0 where
    pub latest : ℕ
    pub query : ℕ
    pub first : EventRow
    pub others : List EventRow
    pub slice : MessageArgs
    pub commitment : Bytes
    pub fetched :
        fetch_events_since c latest config.max_events (out.indexed_events query) ≡ first ∷ others
    pub sliced :
        slice_of config.algorithm (hex_to_bytes32 config.anchor_chain_tag) (first ∷ others)
        ≡ ok slice
    pub sent : Has (anchor_args slice commitment) t.submitted
    pub moved : t.anchored_blocks ≡ last_block first others + 1

  abbrev pub Report : Status × ℕ → Worker → Type 0
  Report (status, n) t =
      IsBacked t.blobs t.rows
      × (((status ≢ anchored) × (t.anchored_blocks ≡ c)) ⊎ ((status ≡ anchored) × Anchored t))

  slice_block :
      (first : EventRow) (others : List EventRow) (slice : MessageArgs)
      → slice_of config.algorithm (hex_to_bytes32 config.anchor_chain_tag) (first ∷ others)
        ≡ ok slice
      → last_block first others ≡ slice.block_to
  unfolding slice_of
  slice_block first others slice h =
      let (tree, ht, h1) = >>=_parts (merkle_root _) _ h in ap (λ z. z.block_to) (ok_inj h1)

  report :
      (latest query : ℕ) (events : List EventRow) (slice : MessageArgs) (commitment : Bytes)
      (answer : Status × ℕ) (t : Worker)
      → events ≡ fetch_events_since c latest config.max_events (out.indexed_events query)
      → slice_of config.algorithm (hex_to_bytes32 config.anchor_chain_tag) events ≡ ok slice
      → Ended slice commitment answer t
      → Report answer t
  report latest query [] slice commitment answer t e h p = absurd (unfold slice_of in cc h)
  report latest query (first ∷ others) slice commitment answer t e h (b, inl stay) = (b, inl stay)
  report latest query (first ∷ others) slice commitment answer t e h (b, inr (st, moved, sent)) = (
    b,
    inr (
      st,
      record {
        latest = latest;
        query = query;
        first = first;
        others = others;
        slice = slice;
        commitment = commitment;
        fetched = sym e;
        sliced = h;
        sent = sent;
        moved = moved ∙ ap (λ z. z + 1) (sym (slice_block first others slice h));
      },
    ),
  )

  anchor_events_lem :
      (latest query : ℕ) (events : List EventRow)
      → events ≡ fetch_events_since c latest config.max_events (out.indexed_events query)
      → Triple (Mid c Any) (anchor_events out config events) Report (Mid c Any)
  unfolding anchor_events
  anchor_events_lem latest query events e =
      let tag = hex_to_bytes32 config.anchor_chain_tag in
      triple_lift_bind (slice_of config.algorithm tag events)
        (λ slice sliced.
          triple_lift_bind (canonical_message out.utf8 slice)
            (λ message written.
              triple_lift_bind (pq_sign out.ml_dsa65_sign config.pq_secret_key message)
                (λ signature signed.
                  let commitment = kec.digest signature in
                  let args = anchor_args slice commitment in
                  triple_bind (Outcome (λ _. Mid c (Has args)) (Mid c Any))
                    (triple_attempt (record_anchor_keeps out c config args))
                    (λ answer.
                      triple_weaken
                        (finish_lem slice commitment signature answer (
                          pq_sign_length out.ml_dsa65_sign config.pq_secret_key message signature
                            signed))
                        (λ s p. p)
                        (λ x s p. report latest query events slice commitment x s e sliced p)
                        (λ s p. p)))
                (λ s p. p))
            (λ s p. p))
        (λ s p. p)

  noop_lem : (n : ℕ) → Triple (Mid c Any) (pure (noop, n)) Report (Mid c Any)
  noop_lem n = triple_pure (noop, n) (λ s (p, q, r). (q, inl ((λ e. cc), p)))

  run_once_lem : Triple (Mid c Any) (run_once out config) Report (Mid c Any)
  unfolding run_once
  run_once_lem =
      triple_bind (λ _. Mid c Any) (reach_keeps out c Any)
        (λ _.
          triple_bind (λ last t. Mid c Any t × (c ≡ last))
            (triple_gets _ (λ s (p, q, r). ((p, q, r), sym p)))
            (λ last. triple_given (λ e.
              triple_bind (λ answer. Mid c Any) (triple_use _ (λ s p. p))
                (λ answer.
                  triple_bind (λ latest. Mid c Any) (triple_value answer (λ x s h p. p) (λ s p. p))
                    (λ latest.
                      triple_if (leb latest last) (λ done. noop_lem 0)
                        (λ more.
                          triple_bind (λ _. Mid c Any) (reach_keeps out c Any)
                            (λ _.
                              triple_bind
                                (λ indexed t.
                                  Mid c Any t × ((k : ℕ) × (indexed ≡ out.indexed_events k)))
                                (triple_use _ (λ s p. (p, (s.uses, refl))))
                                (λ indexed. triple_given (λ (k, f).
                                  triple_if
                                    (ltb
                                      (length
                                        (fetch_events_since last latest config.max_events indexed))
                                      config.min_events)
                                    (λ few. noop_lem _)
                                    (λ enough.
                                      anchor_events_lem latest k
                                        (fetch_events_since last latest config.max_events indexed)
                                        (cc (e, f))))))))))))

  -- The events that an answer `anchored` accounts for.
  abbrev pub Covers : Status × ℕ → Worker → Type 0
  Covers (status, n) t =
      IsBacked t.blobs t.rows
      × (((status ≢ anchored) × (t.anchored_blocks ≡ c))
          ⊎ ((a : Anchored t) × (status ≡ anchored)
              × (c < t.anchored_blocks)
              × (t.anchored_blocks ≤ a.latest)
              × ((e : IndexedEvent)
                  → Has e (out.indexed_events a.query)
                  → c ≤ e.block_number
                  → e.block_number < t.anchored_blocks
                  → (e.block_number + 1 < t.anchored_blocks)
                    ⊎ (length (select_events c a.latest (out.indexed_events a.query))
                        ≤ config.max_events)
                  → Has (event_row e) (a.first ∷ a.others))))

  covers : (answer : Status × ℕ) (t : Worker) → Report answer t → Covers answer t
  covers answer t (b, inl stay) = (b, inl stay)
  covers answer t (b, inr (st, a)) =
      let indexed = out.indexed_events a.query in
      let (low, high) =
        fetch_range c a.latest config.max_events indexed a.first a.others a.fetched in
      let moved = a.moved in
      (
        b,
        inr (
          a,
          st,
          omega arith,
          omega arith,
          λ e there from to side.
              fetch_complete c a.latest config.max_events indexed a.first a.others e a.fetched there
                (from, omega arith)
                (elim side [ inl early ↦ inl (omega arith) | inr all ↦ inr all ]),
        ),
      )

  Covers-all :
      (r : Result (Status × ℕ)) (t : Worker)
      → Outcome Report (Mid c Any) r t
      → Outcome Covers (Mid c Any) r t
  Covers-all (ok answer) t h = covers answer t h
  Covers-all (err thrown) t h = h
  Covers-all stuck t h = h

  -- Take a state in which each row of `pq_anchor_signatures` has its blob, whole. After a cycle, on every
  -- path, it still has. An error, and an answer that is not `anchored`, leave the cursor where it was. An
  -- answer `anchored` moves it on, up to the last block of a slice that was sent to the chain, and no
  -- event of the blocks that it passes is missing from the slice, except that where the query found
  -- more than `maxEvents` events, those of the last block may be.
  pub cycle-Covers :
      (s : Worker)
      → s.anchored_blocks ≡ c
      → IsBacked s.blobs s.rows
      → Outcome Covers (Mid c Any) (run_once out config s).0 (run_once out config s).1
  cycle-Covers s p q = Covers-all _ _ (run_once_lem.at s (p, q, tt))

module _ ⦃kec : Keccak256⦄ (out : Outside) (config : Config) where
  cycle_keeps :
      (s : Worker)
      → IsBacked s.blobs s.rows
      → IsBacked (run_once out config s).1.blobs (run_once out config s).1.rows
        × (s.anchored_blocks ≤ (run_once out config s).1.anchored_blocks)
  cycle_keeps s h =
      go (run_once out config s).0 (run_once out config s).1
        (cycle-Covers out config s.anchored_blocks s refl h)
    where
      go :
          (r : Result (Status × ℕ)) (t : Worker)
          → Outcome (Covers out config s.anchored_blocks) (Mid s.anchored_blocks Any) r t
          → IsBacked t.blobs t.rows × (s.anchored_blocks ≤ t.anchored_blocks)
      go (ok answer) t (b, inl (st, same)) = (b, omega arith)
      go (ok answer) t (b, inr (a, st, up, _, _)) = (b, omega arith)
      go (err thrown) t (same, b, _) = (b, omega arith)
      go stuck t (same, b, _) = (b, omega arith)

  -- Over any number of rounds of the main loop, those that throw included, each row of
  -- `pq_anchor_signatures` has its blob of 3309 bytes in the object store, and the cursor does not move
  -- back, if the rows had their blobs before.
  pub main_loop-IsBacked :
      (n : ℕ) (s : Worker)
      → IsBacked s.blobs s.rows
      → IsBacked (main_loop out n config s).blobs (main_loop out n config s).rows
        × (s.anchored_blocks ≤ (main_loop out n config s).anchored_blocks)
  unfolding main_loop
  main_loop-IsBacked zero s h = (h, omega arith)
  main_loop-IsBacked (suc n) s h =
      let (b, up) = cycle_keeps s h in
      let (b', up') = main_loop-IsBacked n (run_once out config s).1 b in (b', omega arith)
