-- ===== src/Ledger/Appending.antt =====
-- `appendAndAnchor` and the writes of the store, with the invariant.
use hara_registry.Prelude.{
  ℕ, zero, suc, ◌+◌, ◌≡◌, refl, sym, ◌∙◌, arith, Option-cases, inl, inr, List, [], ◌∷◌, All,
  All-append, length, get_or, get_elem?,
}
use mathlib.Core.List.{append-nil}
use hara_registry.Errors.{ok, ok_inj}
use hara_registry.Sha256.{Bytes, Text, IsByte, Sha256, hash_leaf}
use hara_registry.Hex.{to_hex}
use hara_registry.Assoc.{Assoc, lookup}
use hara_registry.TransparencyLog.{TransparencyLog, leaf_hash_hex}
use hara_registry.TransparencyLog.Operations.{leaf_hash_hex_lem}
use hara_registry.Store.{
  MemoryStore, AttestationRecord, StatusEntry, EvidenceRecord, CheckpointRecord, RecordStatus,
  get_leaves, update, put_attestation, set_attestation_status, append_status, put_evidence,
  update_evidence, put_checkpoint,
}
use hara_registry.Ledger.{Anchors, append_and_anchor}
use hara_registry.Ledger.Invariant.{IsConsistent, Fits, AttestationFits}
use hara_registry.Ledger.Hoare.{
  Extends, Extends-refl, Hoare, Hoare-bind, Hoare-lift, Hoare-anchor, Hoare-pure, Hoare-append_both,
  Hoare-weaken, Last, Any,
}

All-update {ℓ} :
    {A : Type ℓ} (P : A → Type 0) (f : A → A)
    → ((x : A) → P x → P (f x))
    → (i : ℕ) (xs : List A) → All P xs
    → All P (update f i xs)
unfolding update
All-update P f k i [] h = tt
All-update P f k zero (x ∷ xs) (px, h) = (k x px, h)
All-update P f k (suc i) (x ∷ xs) (px, h) = (px, All-update P f k i xs h)

module _ ⦃sha : Sha256⦄ where
  -- A write that leaves the logs alone.
  abbrev Keeps : (MemoryStore → MemoryStore) → (MemoryStore → Type 0) → Type 0
  Keeps f P =
      (st : MemoryStore) (logs : Assoc TransparencyLog)
      → IsConsistent st logs
      → P st
      → IsConsistent (f st) logs × Extends st (f st) × Unit {0}

  same_leaves : (a b : MemoryStore) → b.leaves_by_log ≡ a.leaves_by_log → Extends a b
  unfolding get_leaves
  same_leaves a b e = record { more = λ id. ([], rw (e) (sym (append-nil _))) }

  pub put_attestation-Keeps :
      (rec : AttestationRecord)
      → Keeps (λ st. put_attestation st rec) (λ st. AttestationFits st rec)
  unfolding put_attestation get_leaves
  put_attestation-Keeps rec st logs c fit = (
    record {
      logs_fit = c.logs_fit;
      atts_fit = All-append (AttestationFits st) st.atts (rec ∷ []) c.atts_fit (fit, tt);
    },
    same_leaves st _ refl,
    tt,
  )

  pub set_attestation_status-Keeps :
      (id : Text) (status : RecordStatus) → Keeps (λ st. set_attestation_status st id status) Any
  unfolding set_attestation_status get_leaves
  set_attestation_status-Keeps id status st logs c p =
      elim (Option-cases (lookup id st.att_by_id)) [
        | inl e ↦ rw (e, set_attestation_status) (c, Extends-refl st, tt)
        | inr (ref, e) ↦
            rw (e, set_attestation_status)
              (
                record {
                  logs_fit = c.logs_fit;
                  atts_fit = All-update (AttestationFits st) _ (λ rec h. h) ref st.atts c.atts_fit;
                },
                same_leaves st _ refl,
                tt,
              )
      ]

  pub append_status-Keeps : (entry : StatusEntry) → Keeps (λ st. append_status st entry) Any
  unfolding append_status get_leaves
  append_status-Keeps entry st logs c p =
      (record { logs_fit = c.logs_fit; atts_fit = c.atts_fit }, same_leaves st _ refl, tt)

  pub put_evidence-Keeps : (rec : EvidenceRecord) → Keeps (λ st. put_evidence st rec) Any
  unfolding put_evidence get_leaves
  put_evidence-Keeps rec st logs c p =
      (record { logs_fit = c.logs_fit; atts_fit = c.atts_fit }, same_leaves st _ refl, tt)

  pub put_checkpoint-Keeps : (rec : CheckpointRecord) → Keeps (λ st. put_checkpoint st rec) Any
  unfolding put_checkpoint get_leaves
  put_checkpoint-Keeps rec st logs c p =
      (record { logs_fit = c.logs_fit; atts_fit = c.atts_fit }, same_leaves st _ refl, tt)

  pub update_evidence-Keeps :
      (id : Text) (f : EvidenceRecord → EvidenceRecord) → Keeps (λ st. update_evidence st id f) Any
  unfolding update_evidence get_leaves
  update_evidence-Keeps id f st logs c p = elim (Option-cases (lookup id st.ev_by_id)) [
    | inl e ↦ rw (e, update_evidence) (c, Extends-refl st, tt)
    | inr (ref, e) ↦ elim (Option-cases (get_elem? st.evs ref)) [
      | inl g ↦ rw (e, g, update_evidence) (c, Extends-refl st, tt)
      | inr (old, g) ↦
          rw (e, g, update_evidence)
            (record { logs_fit = c.logs_fit; atts_fit = c.atts_fit }, same_leaves st _ refl, tt)
    ]
  ]

  hash_last :
      (tl : TransparencyLog) (i : ℕ) (leaf : Bytes) (hash : Text)
      → i + 1 ≡ length tl.leaves
      → get_or tl.leaves i [] ≡ leaf
      → leaf_hash_hex tl i ≡ ok hash
      → hash ≡ to_hex (hash_leaf (get_or tl.leaves i []))
  hash_last tl i leaf hash size same e = ok_inj (sym e ∙ leaf_hash_hex_lem tl i (omega arith))

  -- The leaf of an append fits the store that the append leaves.
  pub Hoare-append_and_anchor :
      {P : MemoryStore → Type 0} (a : Anchors) (id : Text) (leaf : Bytes)
      → All IsByte leaf
      → Hoare P
          (append_and_anchor a id leaf)
          (λ done st. Fits (get_leaves st id) done.leaf_index done.leaf_hash)
  unfolding append_and_anchor
  Hoare-append_and_anchor a id leaf h = Hoare-bind _ _ (Hoare-append_both id leaf h) λ grown.
      Hoare-bind _ _
        (Hoare-lift
          {Q = λ hash st. Last id leaf grown st × (leaf_hash_hex grown.0 grown.1 ≡ ok hash)} _
          (λ x st e p. (p, e)))
        λ hash.
          Hoare-bind _ _
            (Hoare-lift
              {Q = λ root st. Last id leaf grown st × (leaf_hash_hex grown.0 grown.1 ≡ ok hash)} _
              (λ x st e p. p))
            λ root. Hoare-bind _ _ (Hoare-anchor a id root _) λ sth.
              Hoare-weaken (Hoare-pure _)
                (λ st p.
                  let (((held, size, last), hashed), _, _) = p in
                  record {
                    leaves = grown.0.leaves;
                    decoded = held;
                    in_range = omega arith;
                    hashed = hash_last grown.0 grown.1 leaf hash size last hashed;
                  })
                (λ x st q. q)
