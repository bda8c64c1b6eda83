-- ===== src/Ledger/AppendOnly.antt =====
-- The methods of LedgerService against the rules: one lemma for each.
use hara_registry.Prelude.{ℕ, Bool, Option, none, some, List, [], ◌∷◌, All, if◌then◌else◌}
use hara_registry.Errors.{Exception, Result}
use hara_registry.Sha256.{Bytes, Text, IsByte, Sha256}
use hara_registry.Store.{
  MemoryStore, AttestationRecord, EvidenceRecord, RecordStatus, StatusEntry, CheckpointRecord,
  append_status, set_attestation_status, put_evidence, update_evidence, put_checkpoint,
  put_attestation,
}
use hara_registry.Types.{AttestationRequest, EvidenceRequest}
use hara_registry.Exec.{Exec, pure, throw, lift, ◌>>=◌}
use hara_registry.Ledger.{
  World, Ledger, Anchors, observe, read, write, anchor, rand_id, get_log, append_and_anchor,
  attestation_leaf, status_leaf, evidence_leaf, delete_attempt_leaf,
}
use hara_registry.Ledger.Invariant.{AttestationFits}
use hara_registry.Ledger.Hoare.{
  Hoare, Hoare-bind, Hoare-lift, Hoare-anchor, Hoare-pure, Hoare-throw, Hoare-read, Hoare-observe,
  Hoare-write, Hoare-if, Hoare-get_log, Hoare-weaken, Any, Any₂,
}
use hara_registry.Ledger.Appending.{
  Hoare-append_and_anchor, put_attestation-Keeps, set_attestation_status-Keeps, append_status-Keeps,
  put_evidence-Keeps, put_checkpoint-Keeps, update_evidence-Keeps,
}
use hara_registry.Ledger.Attestations.{
  Action, found, new_record, first_status, build_attestation_dto, get_attestation, get_inclusion,
  get_status_record, anchor_new, known_or_new, anchor_attestation, change_status, set_status,
}
use hara_registry.Ledger.EvidenceStore.{
  live, extended, no_earlier, until_ms, to_retention, build_evidence_dto, register_new,
  known_evidence_or_new, register_evidence, get_evidence, update_retention, delete_evidence,
}
use hara_registry.Ledger.Checkpoints.{submit_checkpoint, get_consistency}
use hara_registry.Ledger.Bundle.{
  verify_bundle, bundle_attestation, bundle_attestations, bundle_evidence, bundle_checkpoints,
}

module _ ⦃sha : Sha256⦄ where
  abbrev pub IsSteady : {A : Type 0} → Exec Ledger A → Type 0
  IsSteady m = Hoare Any m Any₂

  still_bind :
      {A B : Type 0} (m : Exec Ledger A) (f : A → Exec Ledger B)
      → IsSteady m
      → ((x : A) → IsSteady (f x))
      → IsSteady (m >>= f)
  still_bind m f h k = Hoare-bind m f h k

  still_if :
      {A : Type 0} (b : Bool) (m n : Exec Ledger A)
      → IsSteady m
      → IsSteady n
      → IsSteady (if b then m else n)
  still_if b m n h k = Hoare-if b m n (λ e. h) (λ e. k)

  still_pure : {A : Type 0} (x : A) → IsSteady (pure x)
  still_pure x = Hoare-pure x

  still_lift : {A : Type 0} (r : Result A) → IsSteady (lift r)
  still_lift r = Hoare-lift r (λ x st e p. tt)

  still_read : {A : Type 0} (f : MemoryStore → A) → IsSteady (read f)
  still_read f = Hoare-weaken (Hoare-read f) (λ st p. p) (λ x st p. tt)

  still_throw : {A : Type 0} (e : Exception) → IsSteady (throw {A = A} e)
  still_throw e = Hoare-throw e

  still_found : {A : Type 0} (o : Option A) → IsSteady (found o)
  still_found none = Hoare-throw _
  still_found (some x) = still_pure x

  module _ (a : Anchors) where
    still_anchor : (id root : Text) (size : ℕ) → IsSteady (anchor a id root size)
    still_anchor id root size =
        Hoare-weaken (Hoare-anchor a id root size) (λ st p. p) (λ x st p. tt)

    still_log : (id : Text) → IsSteady (get_log id)
    still_log id = Hoare-weaken (Hoare-get_log id) (λ st p. p) (λ x st p. tt)

    still_append :
        (id : Text) (leaf : Bytes) → All IsByte leaf → IsSteady (append_and_anchor a id leaf)
    still_append id leaf h =
        Hoare-weaken (Hoare-append_and_anchor a id leaf h) (λ st p. p) (λ x st p. tt)

    ruleset steady = (
      still_bind, still_if, still_pure, still_lift, still_read, still_found, still_throw,
      still_anchor, still_log,
    )

    build_attestation_dto-IsSteady :
        (rec : AttestationRecord) → IsSteady (build_attestation_dto a rec)
    unfolding build_attestation_dto
    build_attestation_dto-IsSteady rec = search steady

    pub get_attestation-IsSteady : (id : Text) → IsSteady (get_attestation a id)
    unfolding get_attestation
    get_attestation-IsSteady id = search (steady, build_attestation_dto-IsSteady)

    pub get_inclusion-IsSteady :
        (id : Text) (wanted : Option ℕ) → IsSteady (get_inclusion a id wanted)
    unfolding get_inclusion
    get_inclusion-IsSteady id wanted = search steady depth 14

    pub get_status_record-IsSteady : (id : Text) → IsSteady (get_status_record a id)
    unfolding get_status_record
    get_status_record-IsSteady id = search steady depth 14

    module _ (w : World) where
      still_observe : {A : Type 0} (f : ℕ → A) → IsSteady (observe f)
      still_observe f = Hoare-observe f

      still_rand : (prefix : Text) → IsSteady (rand_id w prefix)
      unfolding rand_id
      still_rand prefix = Hoare-observe _

      still_attestation :
          (id hash subject issuer record_type log : Text)
          → IsSteady
              (append_and_anchor a log (attestation_leaf w id hash subject issuer record_type))
      unfolding attestation_leaf
      still_attestation id hash subject issuer record_type log =
          still_append log _ (w.utf8-IsByte _)

      still_status :
          (id : Text) (status : RecordStatus) (since actor : Text) (by : Option Text) (log : Text)
          → IsSteady (append_and_anchor a log (status_leaf w id status since actor by))
      unfolding status_leaf
      still_status id status since actor by log = still_append log _ (w.utf8-IsByte _)

      still_evidence :
          (id hash until basis : Text) (hold : Bool) (log : Text)
          → IsSteady (append_and_anchor a log (evidence_leaf w id hash until basis hold))
      unfolding evidence_leaf
      still_evidence id hash until basis hold log = still_append log _ (w.utf8-IsByte _)

      still_refusal :
          (id at actor log : Text)
          → IsSteady (append_and_anchor a log (delete_attempt_leaf w id at actor))
      unfolding delete_attempt_leaf
      still_refusal id at actor log = still_append log _ (w.utf8-IsByte _)

      still_append_status : (entry : StatusEntry) → IsSteady (write (λ st. append_status st entry))
      still_append_status entry = Hoare-write _ (append_status-Keeps entry)

      still_set_status :
          (id : Text) (status : RecordStatus)
          → IsSteady (write (λ st. set_attestation_status st id status))
      still_set_status id status = Hoare-write _ (set_attestation_status-Keeps id status)

      still_put_evidence : (rec : EvidenceRecord) → IsSteady (write (λ st. put_evidence st rec))
      still_put_evidence rec = Hoare-write _ (put_evidence-Keeps rec)

      still_update_evidence :
          (id : Text) (f : EvidenceRecord → EvidenceRecord)
          → IsSteady (write (λ st. update_evidence st id f))
      still_update_evidence id f = Hoare-write _ (update_evidence-Keeps id f)

      still_put_checkpoint :
          (rec : CheckpointRecord) → IsSteady (write (λ st. put_checkpoint st rec))
      still_put_checkpoint rec = Hoare-write _ (put_checkpoint-Keeps rec)

      still_put_attestation :
          (rec : AttestationRecord)
          → Hoare (λ st. AttestationFits st rec) (write (λ st. put_attestation st rec)) Any₂
      still_put_attestation rec = Hoare-write _ (put_attestation-Keeps rec)

      still_live : (o : Option EvidenceRecord) → IsSteady (live o)
      unfolding live
      still_live none = Hoare-throw _
      still_live (some rec) = still_if _ _ _ (Hoare-throw _) (still_pure rec)

      ruleset moving = (
        steady, still_observe, still_rand, still_live, still_status, still_evidence, still_refusal,
        still_append_status, still_set_status, still_put_evidence, still_update_evidence,
        still_put_checkpoint,
      )

      pub submit_checkpoint-IsSteady :
          (id : Text) (size : ℕ) (root : Text) → IsSteady (submit_checkpoint w a id size root)
      unfolding submit_checkpoint
      submit_checkpoint-IsSteady id size root = search moving depth 14

      to_retention-IsSteady : (rec : EvidenceRecord) → IsSteady (to_retention w rec)
      unfolding to_retention
      to_retention-IsSteady rec = search moving depth 14

      build_evidence_dto-IsSteady : (rec : EvidenceRecord) → IsSteady (build_evidence_dto w a rec)
      unfolding build_evidence_dto
      build_evidence_dto-IsSteady rec = search (moving, to_retention-IsSteady) depth 14

      pub get_evidence-IsSteady : (id : Text) → IsSteady (get_evidence w a id)
      unfolding get_evidence
      get_evidence-IsSteady id = search (moving, build_evidence_dto-IsSteady) depth 14

      register_new-IsSteady :
          (req : EvidenceRequest) (tenant : Text) → IsSteady (register_new w a req tenant)
      unfolding register_new
      register_new-IsSteady req tenant = search (moving, to_retention-IsSteady) depth 14

      known_evidence_or_new-IsSteady :
          (req : EvidenceRequest) (tenant : Text) (o : Option EvidenceRecord)
          → IsSteady (known_evidence_or_new w a req tenant o)
      unfolding known_evidence_or_new
      known_evidence_or_new-IsSteady req tenant none = register_new-IsSteady req tenant
      known_evidence_or_new-IsSteady req tenant (some rec) =
          search (moving, build_evidence_dto-IsSteady) depth 14

      pub register_evidence-IsSteady :
          (req : EvidenceRequest) (tenant : Text) → IsSteady (register_evidence w a req tenant)
      unfolding register_evidence
      register_evidence-IsSteady req tenant =
          search (moving, known_evidence_or_new-IsSteady) depth 14

      no_earlier-IsSteady :
          (until next : Text) (o : Option ℕ) → IsSteady (no_earlier w until next o)
      unfolding no_earlier
      no_earlier-IsSteady until next none = Hoare-throw _
      no_earlier-IsSteady until next (some ms) = still_if _ _ _ (Hoare-throw _) (still_pure next)

      extended-IsSteady : (until : Text) (next : Option Text) → IsSteady (extended w until next)
      unfolding extended
      extended-IsSteady until none = still_pure until
      extended-IsSteady until (some next) = no_earlier-IsSteady until next (until_ms w next)

      pub update_retention-IsSteady :
          (id : Text) (hold : Option Bool) (next : Option Text) (tenant : Text)
          → IsSteady (update_retention w a id hold next tenant)
      unfolding update_retention
      update_retention-IsSteady id hold next tenant =
          search (moving, extended-IsSteady, build_evidence_dto-IsSteady) depth 14

      pub delete_evidence-IsSteady : (id tenant : Text) → IsSteady (delete_evidence w a id tenant)
      unfolding delete_evidence
      delete_evidence-IsSteady id tenant = search moving depth 14

      change_status-IsSteady :
          (rec : AttestationRecord) (id : Text) (next : RecordStatus) (reason : Text)
          (by : Option Text) (actor : Text)
          → IsSteady (change_status w a rec id next reason by actor)
      unfolding change_status
      change_status-IsSteady rec id next reason by actor = search moving depth 16

      pub set_status-IsSteady :
          (id : Text) (action : Action) (reason : Text) (by : Option Text) (actor : Text)
          → IsSteady (set_status w a id action reason by actor)
      unfolding set_status
      set_status-IsSteady id action reason by actor =
          search (moving, change_status-IsSteady) depth 14

      pub get_consistency-IsSteady :
          (id : Text) (from to : ℕ) → IsSteady (get_consistency w a id from to)
      unfolding get_consistency
      get_consistency-IsSteady id from to = search moving depth 20

      anchor_new-IsSteady :
          (req : AttestationRequest) (tenant : Text) → IsSteady (anchor_new w a req tenant)
      unfolding anchor_new new_record attestation_leaf first_status
      anchor_new-IsSteady req tenant = Hoare-bind _ _ (still_rand _) λ id.
          Hoare-bind _ _ (Hoare-append_and_anchor a _ _ (w.utf8-IsByte _)) λ appended.
            Hoare-bind _ _ (Hoare-observe _)
              λ at. Hoare-bind _ _ (still_put_attestation _) λ x. search moving depth 14

      known_or_new-IsSteady :
          (req : AttestationRequest) (tenant : Text) (o : Option AttestationRecord)
          → IsSteady (known_or_new w a req tenant o)
      unfolding known_or_new
      known_or_new-IsSteady req tenant none = anchor_new-IsSteady req tenant
      known_or_new-IsSteady req tenant (some rec) =
          search (moving, build_attestation_dto-IsSteady) depth 14

      pub anchor_attestation-IsSteady :
          (req : AttestationRequest) (tenant : Text) → IsSteady (anchor_attestation w a req tenant)
      unfolding anchor_attestation
      anchor_attestation-IsSteady req tenant = search (moving, known_or_new-IsSteady) depth 14

      bundle_attestation-IsSteady :
          (rec : AttestationRecord) → IsSteady (bundle_attestation w a rec)
      unfolding bundle_attestation
      bundle_attestation-IsSteady rec = search moving depth 14

      bundle_attestations-IsSteady :
          (recs : List AttestationRecord) → IsSteady (bundle_attestations w a recs)
      unfolding bundle_attestations
      bundle_attestations-IsSteady [] = still_pure []
      bundle_attestations-IsSteady (rec ∷ recs) =
          still_bind _ _ (bundle_attestation-IsSteady rec)
            λ x. still_bind _ _ (bundle_attestations-IsSteady recs) λ y. still_pure _

      bundle_evidence-IsSteady : (recs : List EvidenceRecord) → IsSteady (bundle_evidence w a recs)
      unfolding bundle_evidence
      bundle_evidence-IsSteady [] = still_pure []
      bundle_evidence-IsSteady (rec ∷ recs) =
          still_bind _ _ (build_evidence_dto-IsSteady rec)
            λ x. still_bind _ _ (bundle_evidence-IsSteady recs) λ y. still_pure _

      bundle_checkpoints-IsSteady : (ids : List Text) → IsSteady (bundle_checkpoints ids)
      unfolding bundle_checkpoints
      bundle_checkpoints-IsSteady [] = still_pure []
      bundle_checkpoints-IsSteady (id ∷ ids) =
          still_bind _ _ (still_read _)
            λ x. still_bind _ _ (bundle_checkpoints-IsSteady ids) λ y. still_pure _

      pub verify_bundle-IsSteady : (subject : Text) → IsSteady (verify_bundle w a subject)
      unfolding verify_bundle
      verify_bundle-IsSteady subject =
          search
            (
              moving, bundle_attestations-IsSteady, bundle_evidence-IsSteady,
              bundle_checkpoints-IsSteady,
            )
            depth 16
