-- ===== src/Ledger/Invariant.antt =====
-- The invariant of LedgerService: the logs in memory are the logs of the store, and every attestation
-- points at a leaf with its hash.
use hara_registry.Prelude.{
  ℕ, ◌<◌, ◌≡◌, ap, ◌∙◌, arith, some, List, [], ◌∷◌, ◌++◌, length, length-append, get_or,
  get_or-append, All, ◌=t=◌, =t=_iff, Bool-cases, inl, inr, if◌then◌else◌,
}
use hara_registry.Errors.{ok, >>=_parts}
use hara_registry.Sha256.{Bytes, Text, IsByte, Sha256, hash_leaf}
use hara_registry.Hex.{to_hex, from_hex, decode_all}
use hara_registry.Hex.RoundTrip.{from_hex-to_hex}
use hara_registry.Assoc.{Assoc, lookup, insert, lookup-insert}
use hara_registry.TransparencyLog.{TransparencyLog, append}
use hara_registry.Store.{MemoryStore, AttestationRecord, get_leaves, append_leaf}

pub get_leaves-append_leaf :
    (st : MemoryStore) (id j : Text) (hex : Text)
    → get_leaves (append_leaf st id hex).0 j
      ≡ (if id =t= j then get_leaves st id ++ (hex ∷ []) else get_leaves st j)
unfolding get_leaves append_leaf
get_leaves-append_leaf st id j hex = elim (Bool-cases (id =t= j)) [
  | inl same ↦ rw (lookup-insert, same)
  | inr other ↦ rw (lookup-insert, other)
]

pub decode_all-snoc :
    (texts : List Text) (leaves : List Bytes) (leaf : Bytes)
    → All IsByte leaf
    → decode_all texts ≡ ok leaves
    → decode_all (texts ++ (to_hex leaf ∷ [])) ≡ ok (leaves ++ (leaf ∷ []))
unfolding decode_all
decode_all-snoc [] leaves leaf h e = rw (from_hex-to_hex leaf h) (cc)
decode_all-snoc (t ∷ ts) leaves leaf h e =
    let (b, decoded, later) = >>=_parts (from_hex t) _ e in
    let (bs, rest, both) = >>=_parts (decode_all ts) _ later in
    rw (decoded, decode_all-snoc ts bs leaf h rest) (cc)

module _ ⦃sha : Sha256⦄ where
  -- The stored leaves of a log can be read, and one of them has the hash.
  pub record Fits (texts : List Text) (index : ℕ) (hash : Text) : Type 0 where
    pub leaves : List Bytes
    pub decoded : decode_all texts ≡ ok leaves
    pub in_range : index < length leaves
    pub hashed : hash ≡ to_hex (hash_leaf (get_or leaves index []))

  abbrev pub AttestationFits : MemoryStore → AttestationRecord → Type 0
  AttestationFits st rec = Fits (get_leaves st rec.log_id) rec.leaf_index rec.leaf_hash

  pub record IsConsistent (st : MemoryStore) (logs : Assoc TransparencyLog) : Type 0 where
    pub logs_fit :
        (id : Text) (tl : TransparencyLog)
        → lookup id logs ≡ some tl
        → decode_all (get_leaves st id) ≡ ok tl.leaves
    pub atts_fit : All (AttestationFits st) st.atts

  pub Fits-append_leaf :
      (st : MemoryStore) (id log_id : Text) (index : ℕ) (hash : Text) (leaf : Bytes)
      → All IsByte leaf
      → Fits (get_leaves st log_id) index hash
      → Fits (get_leaves (append_leaf st id (to_hex leaf)).0 log_id) index hash
  Fits-append_leaf st id log_id index hash leaf h fit = elim (Bool-cases (id =t= log_id)) [
    | inl same ↦ record {
      leaves = fit.leaves ++ (leaf ∷ []);
      decoded = grown ((=t=_iff id log_id).0 same);
      in_range = omega (arith, length-append fit.leaves (leaf ∷ []), fit.in_range);
      hashed = rw (get_or-append fit.leaves (leaf ∷ []) index [] fit.in_range) fit.hashed;
    }
    | inr other ↦ record {
      leaves = fit.leaves;
      decoded = rw (get_leaves-append_leaf, other) fit.decoded;
      in_range = fit.in_range;
      hashed = fit.hashed;
    }
  ]
    where
      grown :
          id ≡ log_id
          → decode_all (get_leaves (append_leaf st id (to_hex leaf)).0 log_id)
            ≡ ok (fit.leaves ++ (leaf ∷ []))
      grown e =
          rw (get_leaves-append_leaf, (=t=_iff id log_id).1 e, e)
            (decode_all-snoc (get_leaves st log_id) fit.leaves leaf h fit.decoded)

  All-Fits :
      (st : MemoryStore) (id : Text) (leaf : Bytes) (recs : List AttestationRecord)
      → All IsByte leaf
      → All (AttestationFits st) recs
      → All (AttestationFits (append_leaf st id (to_hex leaf)).0) recs
  All-Fits st id leaf [] h fits = tt
  All-Fits st id leaf (rec ∷ recs) h (fit, fits) = (
    Fits-append_leaf st id rec.log_id rec.leaf_index rec.leaf_hash leaf h fit,
    All-Fits st id leaf recs h fits,
  )

  pub grown_leaves : (a b : TransparencyLog) → some a ≡ some b → a.leaves ≡ b.leaves
  grown_leaves a b e = ground arith

  -- One leaf more, in the log in memory and in the store.
  pub grow-IsConsistent :
      (st : MemoryStore) (logs : Assoc TransparencyLog) (id : Text) (tl : TransparencyLog)
      (leaf : Bytes)
      → All IsByte leaf
      → IsConsistent st logs
      → lookup id logs ≡ some tl
      → IsConsistent (append_leaf st id (to_hex leaf)).0 (insert id (append tl leaf).0 logs)
  unfolding append
  grow-IsConsistent st logs id tl leaf h c opened = record {
    logs_fit = λ j other e. elim (Bool-cases (id =t= j)) [
      | inl same ↦
          let got : tl.leaves ++ (leaf ∷ []) ≡ other.leaves =
            grown_leaves (append tl leaf).0 other (rw (lookup-insert, same) at e) in
          rw (get_leaves-append_leaf, same)
            (decode_all-snoc (get_leaves st id) tl.leaves leaf h (c.logs_fit id tl opened)
              ∙ ap ok got)
      | inr differ ↦
          rw (get_leaves-append_leaf, differ) (c.logs_fit j other (rw (lookup-insert, differ) at e))
    ];
    atts_fit = unfold append_leaf in All-Fits st id leaf st.atts h c.atts_fit;
  }
