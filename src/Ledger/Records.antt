-- ===== src/Ledger/Records.antt =====
-- The methods of LedgerService: what holds of the attestations stays, if their own writes keep it.
use hara_registry.Prelude.{
  ℕ, Bool, Option, Option-cases, none, some, List, [], ◌∷◌, get_elem?, inl, inr, if◌then◌else◌,
}
use hara_registry.Sha256.{Bytes, Text, Sha256}
use hara_registry.Assoc.{Assoc, lookup}
use hara_registry.Errors.{Exception, Result}
use hara_registry.Exec.{Exec, pure, throw, lift, ◌>>=◌}
use hara_registry.Store.{
  MemoryStore, AttestationRecord, EvidenceRecord, StatusEntry, CheckpointRecord, append_leaf,
  append_status, put_evidence, update_evidence, put_checkpoint, RecordStatus, put_attestation,
  set_attestation_status,
}
use hara_registry.Types.{AttestationRequest, EvidenceRequest}
use hara_registry.Ledger.{
  World, Ledger, Anchors, observe, rand_id, read, write, anchor, get_log, append_and_anchor,
  Appended, tenant_log_id,
}
use hara_registry.Ledger.Staying.{
  IsStaying, IsStaying-bind, IsStaying-pure, IsStaying-throw, IsStaying-lift, IsStaying-if,
  IsStaying-found, IsStaying-observe, IsStaying-rand, IsStaying-read, IsStaying-write,
  IsStaying-log, IsStaying-anchor, IsStaying-append,
}
use hara_registry.Ledger.Attestations.{
  found, new_record, anchor_new, known_or_new, anchor_attestation, change_status,
  build_attestation_dto, get_attestation, get_inclusion, get_status_record,
}
use hara_registry.Ledger.EvidenceStore.{
  live, extended, no_earlier, until_ms, to_retention, build_evidence_dto, register_new,
  known_evidence_or_new, register_evidence, get_evidence, update_retention, delete_evidence,
}
use hara_registry.Ledger.Checkpoints.{submit_checkpoint, get_consistency}
use hara_registry.Ledger.Bundle.{
  verify_bundle, bundle_attestation, bundle_attestations, bundle_evidence, bundle_checkpoints,
}

module _ (Y : List AttestationRecord → Assoc ℕ → Type 0) where
  abbrev pub Attestations : MemoryStore → Type 0
  Attestations st = Y st.atts st.att_by_id

  pub leaf_apart :
      (st : MemoryStore) (id hex : Text) → Attestations st → Attestations (append_leaf st id hex).0
  unfolding append_leaf
  leaf_apart st id hex p = p

  update_apart :
      (id : Text) (f : EvidenceRecord → EvidenceRecord) (st : MemoryStore)
      → Attestations st
      → Attestations (update_evidence st id f)
  unfolding update_evidence
  update_apart id f st p = elim (Option-cases (lookup id st.ev_by_id)) [
    | inl unknown ↦ rw (unknown, update_evidence) p
    | inr (ref, known) ↦ elim (Option-cases (get_elem? st.evs ref)) [
      | inl gone ↦ rw (known, gone, update_evidence) p
      | inr (old, there) ↦ rw (known, there, update_evidence) p
    ]
  ]

  module _ ⦃sha : Sha256⦄ (a : Anchors) (w : World) where
    abbrev pub IsApart : {A : Type 0} → Exec Ledger A → Type 0
    IsApart m = IsStaying Attestations leaf_apart m

    pub IsApart-bind :
        {A B : Type 0} (m : Exec Ledger A) (f : A → Exec Ledger B)
        → IsApart m
        → ((x : A) → IsApart (f x))
        → IsApart (m >>= f)
    IsApart-bind m f h k = IsStaying-bind Attestations leaf_apart m f h k

    pub IsApart-if :
        {A : Type 0} (b : Bool) (m n : Exec Ledger A)
        → IsApart m
        → IsApart n
        → IsApart (if b then m else n)
    IsApart-if b m n h k = IsStaying-if Attestations leaf_apart b m n h k

    pub IsApart-pure : {A : Type 0} (x : A) → IsApart (pure x)
    IsApart-pure x = IsStaying-pure Attestations leaf_apart x

    pub IsApart-throw : {A : Type 0} (e : Exception) → IsApart (throw {A = A} e)
    IsApart-throw e = IsStaying-throw Attestations leaf_apart e

    pub IsApart-lift : {A : Type 0} (r : Result A) → IsApart (lift r)
    IsApart-lift r = IsStaying-lift Attestations leaf_apart r

    pub IsApart-found : {A : Type 0} (o : Option A) → IsApart (found o)
    IsApart-found o = IsStaying-found Attestations leaf_apart o

    pub IsApart-observe : {A : Type 0} (f : ℕ → A) → IsApart (observe f)
    IsApart-observe f = IsStaying-observe Attestations leaf_apart f

    pub IsApart-rand : (prefix : Text) → IsApart (rand_id w prefix)
    IsApart-rand prefix = IsStaying-rand Attestations leaf_apart w prefix

    pub IsApart-read : {A : Type 0} (f : MemoryStore → A) → IsApart (read f)
    IsApart-read f = IsStaying-read Attestations leaf_apart f

    pub IsApart-log : (id : Text) → IsApart (get_log id)
    IsApart-log id = IsStaying-log Attestations leaf_apart id

    pub IsApart-anchor : (id root : Text) (size : ℕ) → IsApart (anchor a id root size)
    IsApart-anchor id root size = IsStaying-anchor Attestations leaf_apart a id root size

    pub IsApart-append : (id : Text) (bytes : Bytes) → IsApart (append_and_anchor a id bytes)
    IsApart-append id bytes = IsStaying-append Attestations leaf_apart a id bytes

    pub IsApart-append_status :
        (entry : StatusEntry) → IsApart (write (λ st. append_status st entry))
    unfolding append_status
    IsApart-append_status entry = IsStaying-write Attestations leaf_apart _ (λ st p. p)

    pub IsApart-put_evidence : (rec : EvidenceRecord) → IsApart (write (λ st. put_evidence st rec))
    unfolding put_evidence
    IsApart-put_evidence rec = IsStaying-write Attestations leaf_apart _ (λ st p. p)

    pub IsApart-update_evidence :
        (id : Text) (f : EvidenceRecord → EvidenceRecord)
        → IsApart (write (λ st. update_evidence st id f))
    IsApart-update_evidence id f =
        IsStaying-write Attestations leaf_apart _ (λ st p. update_apart id f st p)

    pub IsApart-put_checkpoint :
        (rec : CheckpointRecord) → IsApart (write (λ st. put_checkpoint st rec))
    unfolding put_checkpoint
    IsApart-put_checkpoint rec = IsStaying-write Attestations leaf_apart _ (λ st p. p)

    pub IsApart-live : (o : Option EvidenceRecord) → IsApart (live o)
    unfolding live
    IsApart-live none = IsApart-throw _
    IsApart-live (some rec) = IsApart-if _ _ _ (IsApart-throw _) (IsApart-pure rec)

    pub ruleset apart = (
      IsApart-bind, IsApart-if, IsApart-pure, IsApart-throw, IsApart-lift, IsApart-found,
      IsApart-observe, IsApart-rand, IsApart-read, IsApart-log, IsApart-anchor, IsApart-append,
      IsApart-append_status, IsApart-put_evidence, IsApart-update_evidence, IsApart-put_checkpoint,
      IsApart-live,
    )

    pub build_attestation_dto-IsApart :
        (rec : AttestationRecord) → IsApart (build_attestation_dto a rec)
    unfolding build_attestation_dto
    build_attestation_dto-IsApart rec = search apart

    pub get_attestation-IsApart : (id : Text) → IsApart (get_attestation a id)
    unfolding get_attestation
    get_attestation-IsApart id = search (apart, build_attestation_dto-IsApart)

    pub get_inclusion-IsApart :
        (id : Text) (wanted : Option ℕ) → IsApart (get_inclusion a id wanted)
    unfolding get_inclusion
    get_inclusion-IsApart id wanted = search apart depth 14

    pub get_status_record-IsApart : (id : Text) → IsApart (get_status_record a id)
    unfolding get_status_record
    get_status_record-IsApart id = search apart depth 14

    pub submit_checkpoint-IsApart :
        (id : Text) (size : ℕ) (root : Text) → IsApart (submit_checkpoint w a id size root)
    unfolding submit_checkpoint
    submit_checkpoint-IsApart id size root = search apart depth 14

    to_retention-IsApart : (rec : EvidenceRecord) → IsApart (to_retention w rec)
    unfolding to_retention
    to_retention-IsApart rec = search apart depth 14

    build_evidence_dto-IsApart : (rec : EvidenceRecord) → IsApart (build_evidence_dto w a rec)
    unfolding build_evidence_dto
    build_evidence_dto-IsApart rec = search (apart, to_retention-IsApart) depth 14

    pub get_evidence-IsApart : (id : Text) → IsApart (get_evidence w a id)
    unfolding get_evidence
    get_evidence-IsApart id = search (apart, build_evidence_dto-IsApart) depth 14

    register_new-IsApart :
        (req : EvidenceRequest) (tenant : Text) → IsApart (register_new w a req tenant)
    unfolding register_new
    register_new-IsApart req tenant = search (apart, to_retention-IsApart) depth 14

    known_evidence_or_new-IsApart :
        (req : EvidenceRequest) (tenant : Text) (o : Option EvidenceRecord)
        → IsApart (known_evidence_or_new w a req tenant o)
    unfolding known_evidence_or_new
    known_evidence_or_new-IsApart req tenant none = register_new-IsApart req tenant
    known_evidence_or_new-IsApart req tenant (some rec) =
        search (apart, build_evidence_dto-IsApart) depth 14

    pub register_evidence-IsApart :
        (req : EvidenceRequest) (tenant : Text) → IsApart (register_evidence w a req tenant)
    unfolding register_evidence
    register_evidence-IsApart req tenant = search (apart, known_evidence_or_new-IsApart) depth 14

    no_earlier-IsApart : (until next : Text) (o : Option ℕ) → IsApart (no_earlier w until next o)
    unfolding no_earlier
    no_earlier-IsApart until next none = IsApart-throw _
    no_earlier-IsApart until next (some ms) = IsApart-if _ _ _ (IsApart-throw _) (IsApart-pure next)

    extended-IsApart : (until : Text) (next : Option Text) → IsApart (extended w until next)
    unfolding extended
    extended-IsApart until none = IsApart-pure until
    extended-IsApart until (some next) = no_earlier-IsApart until next (until_ms w next)

    pub update_retention-IsApart :
        (id : Text) (hold : Option Bool) (next : Option Text) (tenant : Text)
        → IsApart (update_retention w a id hold next tenant)
    unfolding update_retention
    update_retention-IsApart id hold next tenant =
        search (apart, extended-IsApart, build_evidence_dto-IsApart) depth 14

    pub delete_evidence-IsApart : (id tenant : Text) → IsApart (delete_evidence w a id tenant)
    unfolding delete_evidence
    delete_evidence-IsApart id tenant = search apart depth 14

    pub get_consistency-IsApart :
        (id : Text) (from to : ℕ) → IsApart (get_consistency w a id from to)
    unfolding get_consistency
    get_consistency-IsApart id from to = search apart depth 20

    bundle_attestation-IsApart : (rec : AttestationRecord) → IsApart (bundle_attestation w a rec)
    unfolding bundle_attestation
    bundle_attestation-IsApart rec = search apart depth 14

    bundle_attestations-IsApart :
        (recs : List AttestationRecord) → IsApart (bundle_attestations w a recs)
    unfolding bundle_attestations
    bundle_attestations-IsApart [] = IsApart-pure []
    bundle_attestations-IsApart (rec ∷ recs) =
        IsApart-bind _ _ (bundle_attestation-IsApart rec)
          λ x. IsApart-bind _ _ (bundle_attestations-IsApart recs) λ y. IsApart-pure _

    bundle_evidence-IsApart : (recs : List EvidenceRecord) → IsApart (bundle_evidence w a recs)
    unfolding bundle_evidence
    bundle_evidence-IsApart [] = IsApart-pure []
    bundle_evidence-IsApart (rec ∷ recs) =
        IsApart-bind _ _ (build_evidence_dto-IsApart rec)
          λ x. IsApart-bind _ _ (bundle_evidence-IsApart recs) λ y. IsApart-pure _

    bundle_checkpoints-IsApart : (ids : List Text) → IsApart (bundle_checkpoints ids)
    unfolding bundle_checkpoints
    bundle_checkpoints-IsApart [] = IsApart-pure []
    bundle_checkpoints-IsApart (id ∷ ids) =
        IsApart-bind _ _ (IsApart-read _)
          λ x. IsApart-bind _ _ (bundle_checkpoints-IsApart ids) λ y. IsApart-pure _

    pub verify_bundle-IsApart : (subject : Text) → IsApart (verify_bundle w a subject)
    unfolding verify_bundle
    verify_bundle-IsApart subject =
        search
          (apart, bundle_attestations-IsApart, bundle_evidence-IsApart, bundle_checkpoints-IsApart)
          depth 16

    -- With the write of a status, and with the write of a new attestation.
    pub change_status-IsApart :
        (rec : AttestationRecord) (id : Text) (next : RecordStatus) (reason : Text)
        (by : Option Text) (actor : Text)
        → IsApart (write (λ st. set_attestation_status st id next))
        → IsApart (change_status w a rec id next reason by actor)
    unfolding change_status
    change_status-IsApart rec id next reason by actor set =
        IsApart-bind _ _ (IsApart-observe _) λ since.
          IsApart-bind _ _ (IsApart-append _ _) λ appended.
            IsApart-bind _ _ (IsApart-append_status _)
              λ x. IsApart-bind _ _ set λ y. search apart depth 14

    module _ (req : AttestationRequest) (tenant : Text)
        (put : (id : Text) (at : Appended) (anchored : Text)
          → IsApart (
              write (λ st.
                put_attestation st
                  (new_record req tenant (tenant_log_id tenant) id at anchored)))) where
      anchor_new-IsApart : IsApart (anchor_new w a req tenant)
      unfolding anchor_new new_record
      anchor_new-IsApart = IsApart-bind _ _ (IsApart-rand _) λ id.
          IsApart-bind _ _ (IsApart-append _ _) λ appended.
            IsApart-bind _ _ (IsApart-observe _)
              λ at. IsApart-bind _ _ (put id appended at) λ x. search apart depth 14

      known_or_new-IsApart :
          (o : Option AttestationRecord) → IsApart (known_or_new w a req tenant o)
      unfolding known_or_new
      known_or_new-IsApart none = anchor_new-IsApart
      known_or_new-IsApart (some old) = search (apart, build_attestation_dto-IsApart) depth 14

      pub anchor_attestation-IsApart : IsApart (anchor_attestation w a req tenant)
      unfolding anchor_attestation
      anchor_attestation-IsApart = search (apart, known_or_new-IsApart) depth 14
