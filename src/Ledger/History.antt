-- ===== src/Ledger/History.antt =====
-- Histories of calls of LedgerService.
use hara_registry.Prelude.{
  ℕ, zero, suc, ◌+◌, ◌-◌, ◌^◌, ◌≤◌, ◌<◌, ◌≡◌, refl, sym, ap, ◌∙◌, arith, true, List, [], ◌∷◌, ◌++◌,
  length, length-append, get_or, get_or-append, Bool-cases, inl, inr, leb, ◌==◌,
}
use hara_registry.Errors.{Result, ok, >>=_parts, ok_inj}
use hara_registry.Sha256.{Bytes, Text, Sha256}
use hara_registry.Hex.{from_hex, decode_all, to_hex}
use hara_registry.TransparencyLog.{
  TransparencyLog, root_at_hex, consistency_proof, ConsistencyProof,
}
use hara_registry.TransparencyLog.Rfc6962.{tree}
use hara_registry.TransparencyLog.Operations.{max_size, root_at_hex_lem}
use hara_registry.Verifiers.{verify_consistency}
use hara_registry.Verifiers.ConsistencyAcceptance.{consistency_accepted}
use hara_registry.Store.{MemoryStore, get_leaves}
use hara_registry.Ledger.{World, Ledger, Anchors, get_log}
use hara_registry.Ledger.Invariant.{IsConsistent}
use hara_registry.Ledger.Hoare.{Extends, Extends-refl, Extends-trans, get_log-Opened}
use hara_registry.Ledger.AppendOnly.{
  IsSteady, get_attestation-IsSteady, get_inclusion-IsSteady, get_status_record-IsSteady,
  submit_checkpoint-IsSteady, get_evidence-IsSteady, register_evidence-IsSteady,
  update_retention-IsSteady, delete_evidence-IsSteady, set_status-IsSteady,
  get_consistency-IsSteady, anchor_attestation-IsSteady, verify_bundle-IsSteady,
}
use hara_registry.Ledger.Service.{
  Call, anchoring, attestation_of, inclusion_of, status_of, status_change, checkpoint,
  consistency_of, evidence_registration, evidence_of, retention_update, evidence_deletion,
  bundle_of, perform, perform_all,
}

module _ ⦃sha : Sha256⦄ (w : World) (a : Anchors) where
  -- The state of a service that its calls may leave, from the state that they found.
  abbrev Follows : Ledger → Ledger → Type 0
  Follows s t = IsConsistent t.store t.logs × Extends s.store t.store

  leaves :
      {A : Type 0} {m : Ledger → Result A × Ledger}
      → IsSteady m
      → (s : Ledger) → IsConsistent s.store s.logs
      → Follows s (m s).1
  leaves h s c = let (keep, ext, _) = h.at s c tt in (keep, ext)

  perform-Follows :
      (call : Call) (s : Ledger) → IsConsistent s.store s.logs → Follows s (perform w a call s)
  unfolding perform
  perform-Follows (anchoring req tenant) s c =
      leaves (anchor_attestation-IsSteady a w req tenant) s c
  perform-Follows (attestation_of id) s c = leaves (get_attestation-IsSteady a id) s c
  perform-Follows (inclusion_of id size) s c = leaves (get_inclusion-IsSteady a id size) s c
  perform-Follows (status_of id) s c = leaves (get_status_record-IsSteady a id) s c
  perform-Follows (status_change id action reason by actor) s c =
      leaves (set_status-IsSteady a w id action reason by actor) s c
  perform-Follows (checkpoint id size root) s c =
      leaves (submit_checkpoint-IsSteady a w id size root) s c
  perform-Follows (consistency_of id from to) s c =
      leaves (get_consistency-IsSteady a w id from to) s c
  perform-Follows (evidence_registration req tenant) s c =
      leaves (register_evidence-IsSteady a w req tenant) s c
  perform-Follows (evidence_of id) s c = leaves (get_evidence-IsSteady a w id) s c
  perform-Follows (retention_update id hold until tenant) s c =
      leaves (update_retention-IsSteady a w id hold until tenant) s c
  perform-Follows (evidence_deletion id tenant) s c =
      leaves (delete_evidence-IsSteady a w id tenant) s c
  perform-Follows (bundle_of subject) s c = leaves (verify_bundle-IsSteady a w subject) s c

  -- From a state whose logs and attestations agree with the store, any list of calls, refused ones
  -- included, leads to such a state, and each log keeps its leaves as a prefix.
  pub history_kept :
      (calls : List Call) (s : Ledger)
      → IsConsistent s.store s.logs
      → IsConsistent (perform_all w a calls s).store (perform_all w a calls s).logs
        × Extends s.store (perform_all w a calls s).store
  unfolding perform_all
  history_kept [] s c = (c, Extends-refl s.store)
  history_kept (call ∷ calls) s c =
      let (keep, ext) = perform-Follows call s c in
      let (keep', ext') = history_kept calls (perform w a call s) keep in
      (keep', Extends-trans _ _ _ ext ext')

decode_all-append :
    (xs ys : List Text) (old new : List Bytes)
    → decode_all xs ≡ ok old
    → decode_all (xs ++ ys) ≡ ok new
    → (more : List Bytes) × (new ≡ old ++ more)
unfolding decode_all
decode_all-append [] ys old new e f = (new, ap (λ (t : List Bytes). t ++ new) (ok_inj e))
decode_all-append (x ∷ xs) ys old new e f =
    let (b, decoded, later) = >>=_parts (from_hex x) _ e in
    let (bs, rest, whole) = >>=_parts (decode_all xs) _ later in
    let (b', decoded', later') = >>=_parts (from_hex x) _ f in
    let (bs', rest', whole') = >>=_parts (decode_all (xs ++ ys)) _ later' in
    let (more, split) = decode_all-append xs ys bs bs' rest rest' in
    let same : b' ≡ b = ok_inj (sym decoded' ∙ decoded) in
    (
      more,
      sym (ok_inj whole')
          ∙ ap (λ (t : Bytes). t ∷ bs') same
          ∙ ap (λ (t : List Bytes). b ∷ t) split
          ∙ ap (λ (t : List Bytes). t ++ more) (ok_inj whole),
    )

module _ ⦃sha : Sha256⦄ where
  tree_agrees :
      (f g : ℕ → Bytes) (d start n : ℕ)
      → ((i : ℕ) → i < start + n → f i ≡ g i)
      → tree f d start n ≡ tree g d start n
  unfolding tree
  tree_agrees f g zero start n h = elim (Bool-cases (n == 0)) [
    | inl e ↦ rw (e) refl
    | inr e ↦ rw (e, h start (ground arith)) refl
  ]
  tree_agrees f g (suc d) start n h = elim (Bool-cases (leb n (2 ^ d))) [
    | inl e ↦ rw (e) (tree_agrees f g d start n h)
    | inr e ↦
        let le : start + 2 ^ d ≤ start + n = ground arith in
        rw
          (
            e,
            tree_agrees f g d start (2 ^ d) (λ i lt. h i (omega arith)),
            tree_agrees f g d (start + 2 ^ d) (n - 2 ^ d) (λ i lt. h i (omega arith)),
          )
          refl
  ]

  prefix_root :
      (old new : TransparencyLog) (more : List Bytes) (size : ℕ)
      → new.leaves ≡ old.leaves ++ more
      → size ≤ length old.leaves
      → size ≤ max_size
      → root_at_hex old size ≡ root_at_hex new size
  prefix_root old new more size grown fit small =
      root_at_hex_lem old size fit small
      ∙ ap (λ (t : Bytes). ok (to_hex t))
          (tree_agrees _ _ 30 0 size λ i lt.
            sym (get_or-append old.leaves more i [] (omega arith))
            ∙ ap (λ (t : List Bytes). get_or t i []) (sym grown))
      ∙ sym (
          root_at_hex_lem new size
            (omega (arith, ap (λ (t : List Bytes). length t) grown, length-append old.leaves more))
            small)

  -- The log that `get_log` returns is the stored one.
  pub opened_leaves :
      (id : Text) (s : Ledger) (tl : TransparencyLog)
      → IsConsistent s.store s.logs
      → (get_log id s).0 ≡ ok tl
      → decode_all (get_leaves s.store id) ≡ ok tl.leaves
  opened_leaves id s tl c e =
      let (keep, same, found) = get_log-Opened id s c in
      ap (λ (t : MemoryStore). decode_all (get_leaves t id)) (sym same)
      ∙ keep.logs_fit id tl (found tl e)

  module _ (w : World) (a : Anchors) where
    -- In a state whose logs and attestations agree with the store, take a log that the service
    -- opens and the same log opened after any list of calls, with at most 2^30 leaves then. For
    -- each size that the earlier log had reached, its root, the later log's root and a consistency
    -- proof of the later log between the two exist, and verifyConsistency accepts them.
    pub old_head_consistent :
        (calls : List Call) (s : Ledger) (id : Text) (old new : TransparencyLog) (size : ℕ)
        → IsConsistent s.store s.logs
        → (get_log id s).0 ≡ ok old
        → (get_log id (perform_all w a calls s)).0 ≡ ok new
        → size ≤ length old.leaves
        → length new.leaves ≤ max_size
        → (proof : ConsistencyProof) × (old_root : Text) × (new_root : Text) × (consistency_proof
              new size
              (length new.leaves)
            ≡ ok proof)
          × (root_at_hex old size ≡ ok old_root)
          × (root_at_hex new (length new.leaves) ≡ ok new_root)
          × (verify_consistency size old_root (length new.leaves) new_root proof.consistency_path
              ≡ ok true)
    old_head_consistent calls s id old new size c opened reopened fit small =
        let (keep, ext) = history_kept w a calls s c in
        let (added, texts) = ext.more id in
        let (more, grown) =
          decode_all-append (get_leaves s.store id) added old.leaves new.leaves
            (opened_leaves id s old c opened)
            (ap (λ (t : List Text). decode_all t) (sym texts)
              ∙ opened_leaves id _ new keep reopened) in
        let size_fits : size ≤ length new.leaves =
          omega (arith, ap (λ (t : List Bytes). length t) grown, length-append old.leaves more) in
        let (proof, old_root, new_root, p, r, r', v) =
          consistency_accepted new size (length new.leaves) size_fits (omega arith) small in
        (
          proof,
          old_root,
          new_root,
          p,
          prefix_root old new more size grown fit (omega arith) ∙ r,
          r',
          v,
        )
