-- ===== src/Verifiers/Soundness.antt =====
-- What an accepted inclusion proof shows.
use hara_registry.Prelude.{
  ℕ, ◌-◌, ◌≤◌, ◌<◌, ◌≡◌, ◌≢◌, refl, ap, sym, ◌∙◌, arith, leb, true, Option, none, some, List, [],
  ◌∷◌, ◌++◌, length, All, Has, if◌then◌else◌, ◌==◌, ◌=t=◌, =t=_iff, append_inj_left,
  append_inj_right, Bool-cases, ◌⊎◌, inl, inr,
}
use hara_registry.Errors.{ok, >>=_parts}
use hara_registry.Sha256.{
  Bytes, Text, IsByte, Sha256, hash_leaf-IsByte, hash_children-IsByte, hash_leaf, hash_children,
  length-hash_leaf, length-hash_children,
}
use hara_registry.Hex.{to_hex, from_hex, lc, decode_all}
use hara_registry.Verifiers.{
  verify_inclusion, inclusion_verdict, Climb, climb, move, joins_left, inclusion_loop,
}
use hara_registry.Hex.RoundTrip.{from_hex-to_hex, lc-to_hex, to_hex_inj}
use hara_registry.TransparencyLog.Rfc6962.{audit}
use hara_registry.TransparencyLog.{TransparencyLog, root_at_hex}
use hara_registry.TransparencyLog.Operations.{max_size, leaf_at, root_of, root_at_hex_lem}
use hara_registry.TransparencyLog.Shape.{tree-IsByte}
use hara_registry.Verifiers.Inclusion.{at, climb_all, climb_whole}

module _ ⦃sha : Sha256⦄ where
  -- The message that a round of the climb hashes.
  abbrev pub climb_message : Climb → Bytes → Bytes
  climb_message s p = if joins_left s.fn s.sn then 0x01 ∷ (p ++ s.r) else 0x01 ∷ (s.r ++ p)

  -- The messages that a climb from a leaf hashes, the leaf's own first.
  unfoldable pub climb_messages : List Bytes → Climb → List Bytes
  climb_messages [] s = []
  climb_messages (p ∷ rest) s = climb_message s p ∷ climb_messages rest (climb s p)

  abbrev pub messages : Bytes → ℕ → ℕ → List Bytes → List Bytes
  messages leaf index size nodes =
      (0x00 ∷ leaf) ∷ climb_messages nodes (at index (size - 1) (hash_leaf leaf))

  -- A message of one list and another one of the other list, with one digest.
  abbrev pub Clash : List Bytes → List Bytes → Type 0
  Clash xs ys =
      (a : Bytes) × (b : Bytes) × Has a xs × Has b ys × (a ≢ b) × (sha.digest a ≡ sha.digest b)

  Clash-more : (x y : Bytes) (xs ys : List Bytes) → Clash xs ys → Clash (x ∷ xs) (y ∷ ys)
  Clash-more x y xs ys (a, b, h, k, differ, same) = (a, b, inr h, inr k, differ, same)

  -- First messages with one digest are equal, or they clash.
  same_digest :
      (a b : Bytes) (xs ys : List Bytes)
      → sha.digest a ≡ sha.digest b
      → (a ≡ b) ⊎ Clash (a ∷ xs) (b ∷ ys)
  same_digest a b xs ys h = elim (Bool-cases (a =t= b)) [
    | inl same ↦ inl ((=t=_iff a b).0 same)
    | inr differ ↦ inr (a, b, inl refl, inl refl, (λ e. cc ((=t=_iff a b).1 e)), h)
  ]

  hash_leaf_inj :
      (a b : Bytes) (xs ys : List Bytes)
      → hash_leaf a ≡ hash_leaf b
      → (a ≡ b) ⊎ Clash ((0x00 ∷ a) ∷ xs) ((0x00 ∷ b) ∷ ys)
  unfolding hash_leaf
  hash_leaf_inj a b xs ys h = elim (same_digest (0x00 ∷ a) (0x00 ∷ b) xs ys h) [
    | inl same ↦ inl (cc)
    | inr c ↦ inr c
  ]

  climb_inj :
      (fn sn : ℕ) (r r' p q : Bytes) (xs ys : List Bytes)
      → length r ≡ length r'
      → (climb (at fn sn r) p).r ≡ (climb (at fn sn r') q).r
      → (r ≡ r') ⊎ Clash (climb_message (at fn sn r) p ∷ xs) (climb_message (at fn sn r') q ∷ ys)
  unfolding climb hash_children
  climb_inj fn sn r r' p q xs ys len h = elim (Bool-cases (joins_left fn sn)) [
    | inl left ↦
        rw left (elim (same_digest (0x01 ∷ (p ++ r)) (0x01 ∷ (q ++ r')) xs ys (rw left at h)) [
          | inl same ↦ inl (append_inj_right p r q r' len (cc)).1
          | inr c ↦ inr c
        ])
    | inr right ↦
        rw right (elim (same_digest (0x01 ∷ (r ++ p)) (0x01 ∷ (r' ++ q)) xs ys (rw right at h)) [
          | inl same ↦ inl (append_inj_left r p r' q len (cc)).0
          | inr c ↦ inr c
        ])
  ]

  length-climb : (s : Climb) (p : Bytes) → length (climb s p).r ≡ 32
  unfolding climb
  length-climb s p = elim (Bool-cases (joins_left s.fn s.sn)) [
    | inl left ↦ rw left (length-hash_children p s.r)
    | inr right ↦ rw right (length-hash_children s.r p)
  ]

  climb_round :
      (ps : List Bytes) (fn sn : ℕ) (r p : Bytes) (t : Climb)
      → climb_all (p ∷ ps) (at fn sn r) ≡ some t
      → (sn ≢ 0)
        × (climb_all ps (at (move fn sn).0 (move fn sn).1 (climb (at fn sn r) p).r) ≡ some t)
  unfolding climb_all climb
  climb_round ps fn sn r p t h = ground arith

  -- Two climbs from one position to one root started from one hash, or two of their messages clash.
  pub climb_all_inj :
      (ps qs : List Bytes) (fn sn f f' : ℕ) (r r' x : Bytes)
      → length r ≡ length r'
      → climb_all ps (at fn sn r) ≡ some (at f 0 x)
      → climb_all qs (at fn sn r') ≡ some (at f' 0 x)
      → (r ≡ r') ⊎ Clash (climb_messages ps (at fn sn r)) (climb_messages qs (at fn sn r'))
  unfolding climb_messages
  climb_all_inj [] [] fn sn f f' r r' x len h h' = inl (unfold climb_all in cc)
  climb_all_inj [] (q ∷ qs) fn sn f f' r r' x len h h' =
      absurd ((climb_round qs fn sn r' q _ h').0 (unfold climb_all in ground arith))
  climb_all_inj (p ∷ ps) [] fn sn f f' r r' x len h h' =
      absurd ((climb_round ps fn sn r p _ h).0 (unfold climb_all in ground arith))
  climb_all_inj (p ∷ ps) (q ∷ qs) fn sn f f' r r' x len h h' =
      elim (climb_all_inj ps qs _ _ f f' _ _ x
        (length-climb (at fn sn r) p ∙ sym (length-climb (at fn sn r') q))
        (climb_round ps fn sn r p _ h).1 (climb_round qs fn sn r' q _ h').1) [
          | inl same ↦ climb_inj fn sn r r' p q _ _ len same
          | inr c ↦ inr (Clash-more _ _ _ _ (unfold climb in c))
        ]

  -- What the loop does on a path of texts, it does on the bytes that they stand for.
  inclusion_loop_nodes :
      (path : List Text) (s t : Climb)
      → inclusion_loop path s ≡ ok (some t)
      → (nodes : List Bytes) × (decode_all path ≡ ok nodes) × (climb_all nodes s ≡ some t)
  unfolding inclusion_loop climb_all decode_all
  inclusion_loop_nodes [] s t h = ([], refl, cc)
  inclusion_loop_nodes (p ∷ path) s t h = elim (Bool-cases (s.sn == 0)) [
    | inl ended ↦ cc (rw ended at h)
    | inr live ↦
        let (b, decoded, later) = >>=_parts (from_hex p) _ (rw live at h) in
        let (nodes, read, ran) = inclusion_loop_nodes path (climb s b) t later in
        (b ∷ nodes, rw (decoded, read) refl, rw live ran)
  ]

  climb-IsByte : (s : Climb) (p : Bytes) → All IsByte (climb s p).r
  unfolding climb
  climb-IsByte s p = elim (Bool-cases (joins_left s.fn s.sn)) [
    | inl left ↦ rw left (hash_children-IsByte p s.r)
    | inr right ↦ rw right (hash_children-IsByte s.r p)
  ]

  climb_all-IsByte :
      (nodes : List Bytes) (s t : Climb)
      → All IsByte s.r
      → climb_all nodes s ≡ some t
      → All IsByte t.r
  unfolding climb_all climb
  climb_all-IsByte [] s t h e = let same : s.r ≡ t.r = ground arith in rw same at h
  climb_all-IsByte (p ∷ nodes) s t h e = elim (Bool-cases (s.sn == 0)) [
    | inl ended ↦ cc (rw ended at e)
    | inr live ↦ climb_all-IsByte nodes (climb s p) t (climb-IsByte s p) (rw live at e)
  ]

  verdict_true :
      (root : Text) (end : Option Climb)
      → inclusion_verdict root end ≡ true
      → (t : Climb) × (end ≡ some t) × (t.sn ≡ 0) × (to_hex t.r ≡ lc root)
  unfolding inclusion_verdict
  verdict_true root none h = cc
  verdict_true root (some t) h =
      (t, refl, ground arith, (=t=_iff (to_hex t.r) (lc root)).0 (ground arith))

  -- What verifyInclusion has found when it accepts.
  accepted_climb :
      (leaf_hex root : Text) (index size : ℕ) (path : List Text)
      → verify_inclusion leaf_hex
          (record { leaf_index = index; tree_size = size; audit_path = path })
          root
        ≡ ok true
      → (h : Bytes) × (nodes : List Bytes) × (t : Climb) × (index < size)
        × (from_hex leaf_hex ≡ ok h)
        × (decode_all path ≡ ok nodes)
        × (climb_all nodes (at index (size - 1) h) ≡ some t)
        × (t.sn ≡ 0)
        × (to_hex t.r ≡ lc root)
  unfolding verify_inclusion
  accepted_climb leaf_hex root index size path accepted = elim (Bool-cases (leb size index)) [
    | inl out ↦ cc (rw out at accepted)
    | inr within ↦
        let (h, decoded, later) = >>=_parts (from_hex leaf_hex) _ (rw within at accepted) in
        let (end, ran, verdict) = >>=_parts (inclusion_loop path (at index (size - 1) h)) _ later in
        let (t, stopped, used_up, root_fits) = verdict_true root end (cc) in
        let (nodes, read, climbed) = inclusion_loop_nodes path (at index (size - 1) h) t (cc) in
        (h, nodes, t, ground arith, decoded, read, climbed, used_up, root_fits)
  ]

  module _ (log : TransparencyLog) where
    -- If verifyInclusion accepts a leaf's hash at an index, against the log's own root at a size
    -- that the log has reached, of at most 2^30 leaves, then the index is below the size, the path is
    -- read as bytes, and the leaf is the one that the log holds there. Otherwise one of the messages
    -- that this run of the verifier hashes and a different one that it hashes for the log's own leaf and
    -- RFC 6962 path have one SHA-256 digest.
    pub inclusion_sound :
        (leaf : Bytes) (index size : ℕ) (path : List Text) (root : Text)
        → size ≤ length log.leaves
        → size ≤ max_size
        → root_at_hex log size ≡ ok root
        → verify_inclusion
            (to_hex (hash_leaf leaf))
            (record { leaf_index = index; tree_size = size; audit_path = path })
            root
          ≡ ok true
        → (index < size)
          × ((nodes : List Bytes) × (decode_all path ≡ ok nodes)
              × ((leaf ≡ leaf_at log index)
                  ⊎ Clash (messages leaf index size nodes) (
                      messages
                        (leaf_at log index)
                        index
                        size
                        (audit (leaf_at log) 30 0 size index))))
    inclusion_sound leaf index size path root fit small e accepted =
        let (h, nodes, t, lt, decoded, read, climbed, used_up, root_fits) =
          accepted_climb (to_hex (hash_leaf leaf)) root index size path accepted in
        let start : h ≡ hash_leaf leaf =
          cc (from_hex-to_hex (hash_leaf leaf) (hash_leaf-IsByte leaf)) in
        let tree_bytes = tree-IsByte (leaf_at log) 30 0 size in
        let bytes =
          climb_all-IsByte nodes (at index (size - 1) h) t (rw start (hash_leaf-IsByte leaf))
            climbed in
        let text : root ≡ to_hex (root_of log size) = cc (root_at_hex_lem log size fit small) in
        let same : t.r ≡ root_of log size =
          to_hex_inj t.r (root_of log size) bytes tree_bytes
            (root_fits ∙ ap lc text ∙ lc-to_hex (root_of log size) tree_bytes) in
        let ours = climb_whole (leaf_at log) 30 size index small lt (omega arith) in
        let there : t ≡ at t.fn 0 (root_of log size) =
          λ i. record { fn = t.fn; sn = used_up i; r = same i } in
        (
          lt,
          (
            nodes,
            read,
            elim (climb_all_inj nodes (audit (leaf_at log) 30 0 size index) index (size - 1) t.fn 0
                (hash_leaf leaf) (hash_leaf (leaf_at log index)) (root_of log size)
                (length-hash_leaf leaf ∙ sym (length-hash_leaf (leaf_at log index)))
                ((rw start at climbed) ∙ ap some there) ours) [
                  | inl same_hash ↦ hash_leaf_inj leaf (leaf_at log index) _ _ same_hash
                  | inr (a, b, ha, hb, differ, same) ↦ inr (a, b, inr ha, inr hb, differ, same)
                ],
          ),
        )
