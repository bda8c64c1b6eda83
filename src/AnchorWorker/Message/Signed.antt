-- ===== src/AnchorWorker/Message/Signed.antt =====
-- What the signed message of an anchor says of the events.
use hara_registry.Prelude.{
  ℕ, ◌^◌, ◌≤◌, ◌<◌, ◌≡◌, refl, sym, ap, ◌∙◌, arith, List, [], ◌∷◌, ◌++◌, length, map, ◌⊎◌, inl, inr,
  All, Bool-cases, ltb, append_inj_left, length-map,
}
use hara_registry.Errors.{ok, ok_inj, >>=_parts}
use hara_registry.Sha256.{Bytes, Text}
use hara_registry.AnchorService.{write_uint, big_endian}
use hara_registry.AnchorWorker.Merkle.{Keccak256, MerkleResult, merkle_root}
use hara_registry.AnchorWorker.Merkle.Rounds.{Is32, merkle_root_ends, pow2_large}
use hara_registry.AnchorWorker.Merkle.Binding.{
  Collision, big_endian_inj, length-big_endian, merkle_root_inj, leaf_from_event_inj,
  length-leaf_from_event,
}
use hara_registry.AnchorWorker.Events.{EventRow}
use hara_registry.AnchorWorker.Message.{MessageArgs, canonical_message, slice_of, event_leaf}

write_uint_parts :
    (n v : ℕ) (b : Bytes) → write_uint n v ≡ ok b → (v < 256 ^ n) × (b ≡ big_endian n v)
unfolding write_uint
write_uint_parts n v b h = elim (Bool-cases (ltb v (256 ^ n))) [
  | inl fits ↦ let h' = rw fits at h in (ground arith, sym (ok_inj h'))
  | inr large ↦ let h' = rw large at h in absurd (cc h')
]

same_width : (n v w : ℕ) → length (big_endian n v) ≡ length (big_endian n w)
same_width n v w = length-big_endian n v ∙ sym (length-big_endian n w)

module _ (utf8 : Text → Bytes) where
  -- The message of arguments that fit, field by field.
  abbrev layout : MessageArgs → Bytes
  layout a =
      big_endian 2 (length (utf8 a.algorithm))
      ++ (utf8 a.algorithm
          ++ (a.merkle_root
              ++ (big_endian 8 a.block_from
                  ++ (big_endian 8 a.block_to ++ (big_endian 8 a.event_count ++ a.anchor_chain)))))

  abbrev IsFit : MessageArgs → Type 0
  IsFit a =
      (length (utf8 a.algorithm) < 256 ^ 2)
      × (a.block_from < 256 ^ 8)
      × (a.block_to < 256 ^ 8)
      × (a.event_count < 256 ^ 8)

  message_parts :
      (a : MessageArgs) (m : Bytes) → canonical_message utf8 a ≡ ok m → IsFit a × (m ≡ layout a)
  unfolding canonical_message
  message_parts a m h =
      let (l, hl, h1) = >>=_parts (write_uint 2 _) _ h in
      let (f, hf, h2) = >>=_parts (write_uint 8 a.block_from) _ h1 in
      let (t, ht, h3) = >>=_parts (write_uint 8 a.block_to) _ h2 in
      let (c, hc, h4) = >>=_parts (write_uint 8 a.event_count) _ h3 in
      let (kl, el) = write_uint_parts 2 _ l hl in
      let (kf, ef) = write_uint_parts 8 _ f hf in
      let (kt, et) = write_uint_parts 8 _ t ht in
      let (kc, ec) = write_uint_parts 8 _ c hc in ((kl, kf, kt, kc), cc)

  -- Two messages that are one sequence of bytes have the same fields.
  pub canonical_message_inj :
      (a b : MessageArgs) (m : Bytes)
      → length a.merkle_root ≡ length b.merkle_root
      → canonical_message utf8 a ≡ ok m
      → canonical_message utf8 b ≡ ok m
      → (utf8 a.algorithm ≡ utf8 b.algorithm)
        × (a.merkle_root ≡ b.merkle_root)
        × (a.block_from ≡ b.block_from)
        × (a.block_to ≡ b.block_to)
        × (a.event_count ≡ b.event_count)
        × (a.anchor_chain ≡ b.anchor_chain)
  canonical_message_inj a b m roots h k =
      let ((la, fa, ta, ca), ea) = message_parts a m h in
      let ((lb, fb, tb, cb), eb) = message_parts b m k in
      let (p0, q0) = append_inj_left _ _ _ _ (same_width 2 _ _) (sym ea ∙ eb) in
      let len = big_endian_inj 2 _ _ la lb p0 in
      let (algo, q1) = append_inj_left _ _ _ _ len q0 in
      let (root, q2) = append_inj_left _ _ _ _ roots q1 in
      let (p3, q3) = append_inj_left _ _ _ _ (same_width 8 _ _) q2 in
      let (p4, q4) = append_inj_left _ _ _ _ (same_width 8 _ _) q3 in
      let (p5, chain) = append_inj_left _ _ _ _ (same_width 8 _ _) q4 in
      (
        algo,
        root,
        big_endian_inj 8 _ _ fa fb p3,
        big_endian_inj 8 _ _ ta tb p4,
        big_endian_inj 8 _ _ ca cb p5,
        chain,
      )

-- What the columns hold: a hash of 32 bytes, and an index that `setUint32` keeps whole.
abbrev pub IsLogKey : EventRow → Type 0
IsLogKey e = (length e.tx_hash ≡ 32) × (e.log_index < 2 ^ 32)

-- What the leaf of an event is made of.
abbrev pub log_key : EventRow → Bytes × ℕ
log_key e = (e.tx_hash, e.log_index)

module _ ⦃kec : Keccak256⦄ where
  event_leaves_32 : (es : List EventRow) → All Is32 (map event_leaf es)
  unfolding event_leaf
  event_leaves_32 [] = tt
  event_leaves_32 (e ∷ es) = (length-leaf_from_event _ _, event_leaves_32 es)

  event_leaves_inj :
      (es fs : List EventRow)
      → All IsLogKey es
      → All IsLogKey fs
      → map event_leaf es ≡ map event_leaf fs
      → (map log_key es ≡ map log_key fs) ⊎ Collision
  unfolding event_leaf
  event_leaves_inj [] [] h k e = inl refl
  event_leaves_inj [] (f ∷ fs) h k e = absurd (cc e)
  event_leaves_inj (x ∷ es) [] h k e = absurd (cc e)
  event_leaves_inj (x ∷ es) (f ∷ fs) ((hl, hi), hs) ((kl, ki), ks) e =
      let rest = event_leaves_inj es fs hs ks (cc e) in
      elim (leaf_from_event_inj x.tx_hash f.tx_hash x.log_index f.log_index (hl ∙ sym kl) hi ki
        (cc e)) [ inl (p, q) ↦ elim rest [ inl same ↦ inl (cc) | inr c ↦ inr c ] | inr c ↦ inr c ]

  length-root :
      (leaves : List Bytes) (result : MerkleResult)
      → 1 ≤ length leaves
      → merkle_root leaves ≡ ok result
      → (length result.root ≡ 32) × (result.leaf_count ≡ length leaves)
  length-root leaves result h e =
      let (r, _, answer, len) = merkle_root_ends (length leaves) leaves h (pow2_large _) in
      let same = ok_inj (sym e ∙ answer) in
      (ap (λ z. length z.root) same ∙ len, ap (λ z. z.leaf_count) same)

  -- The tree that a slice is made of.
  slice_parts :
      (algorithm : Text) (chain : Bytes) (es : List EventRow) (slice : MessageArgs)
      → slice_of algorithm chain es ≡ ok slice
      → (1 ≤ length es)
        × (merkle_root (map event_leaf es)
            ≡ ok (record { root = slice.merkle_root; leaf_count = length es }))
        × (slice.event_count ≡ length es)
        × (length slice.merkle_root ≡ 32)
  unfolding slice_of
  slice_parts algorithm chain [] slice h = absurd (cc h)
  slice_parts algorithm chain (e ∷ es) slice h =
      let (tree, ht, h1) = >>=_parts (merkle_root _) _ h in
      let same = ok_inj h1 in
      let (len, count) = length-root (map event_leaf (e ∷ es)) tree (omega arith) ht in
      let root : tree.root ≡ slice.merkle_root = ap (λ z. z.merkle_root) same in
      let many : tree.leaf_count ≡ length (e ∷ es) = count ∙ length-map event_leaf (e ∷ es) in
      (omega arith, ht ∙ cc (root, many), sym (ap (λ z. z.event_count) same), rw root at len)

  -- Two lists of events for which the worker signs one message are, up to their block numbers, one
  -- list of transaction hashes and log indexes, or two different messages with one Keccak-256 digest
  -- are in hand. The hashes are 32 bytes, and the indexes are below 2^32.
  pub one_message_one_list :
      (utf8 : Text → Bytes) (algorithm algorithm' : Text) (chain chain' m : Bytes)
      (es fs : List EventRow) (a b : MessageArgs)
      → All IsLogKey es
      → All IsLogKey fs
      → slice_of algorithm chain es ≡ ok a
      → slice_of algorithm' chain' fs ≡ ok b
      → canonical_message utf8 a ≡ ok m
      → canonical_message utf8 b ≡ ok m
      → (map log_key es ≡ map log_key fs) ⊎ Collision
  one_message_one_list utf8 algorithm algorithm' chain chain' m es fs a b he hf ea eb ma mb =
      let (na, ra, ca, la) = slice_parts algorithm chain es a ea in
      let (nb, rb, cb, lb) = slice_parts algorithm' chain' fs b eb in
      let (_, root, _, _, count, _) = canonical_message_inj utf8 a b m (la ∙ sym lb) ma mb in
      let many : length es ≡ length fs = sym ca ∙ count ∙ cb in
      elim (merkle_root_inj (map event_leaf es) (map event_leaf fs)
        (record { root = b.merkle_root; leaf_count = length fs })
        (omega (arith, length-map event_leaf es)) (omega (arith, length-map event_leaf fs))
        (event_leaves_32 es) (event_leaves_32 fs) (ra ∙ cc (root, many)) rb) [
          | inl same ↦ event_leaves_inj es fs he hf same
          | inr c ↦ inr c
        ]
