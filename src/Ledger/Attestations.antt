-- ===== src/Ledger/Attestations.antt =====
-- The attestation methods of LedgerService.
use hara_registry.Prelude.{
  ℕ, codes, Bool, true, false, not, ◌||◌, Option, none, some, ltb, leb, ◌=t=◌, if◌then◌else◌,
}
use hara_registry.Errors.{problem, not_found, forbidden_tenant, status_conflict, proof_unavailable}
use hara_registry.Sha256.{Text, Sha256}
use hara_registry.Hex.{lc}
use hara_registry.TransparencyLog.{
  InclusionProof, tree_size, current_root_hex, root_at_hex, inclusion_proof,
}
use hara_registry.Store
use hara_registry.Store.{
  MemoryStore, AttestationRecord, StatusEntry, EvidenceRecord, CheckpointRecord, RecordStatus,
  active, superseded, revoked, Links,
}
use hara_registry.Types.{Sth, AttestationRequest, Attestation, InclusionResponse, StatusRecord}
use hara_registry.Exec.{Exec, pure, throw, lift, ◌>>=◌, ◌>>◌}
use hara_registry.Ledger.{
  World, Anchors, Ledger, tenant_log_id, attestation_leaf, status_leaf, observe, rand_id, write,
  read, anchor, Appended, get_log, append_and_anchor,
}

abbrev pub or_else {ℓ} : {A : Type ℓ} → Option A → A → A
or_else none d = d
or_else (some x) d = x

pub data Action : Type 0 where
  revoke supersede : Action

abbrev pub status_after : Action → RecordStatus
status_after revoke = revoked
status_after supersede = superseded

-- `if (!rec) throw new ProblemError("not_found")`
abbrev pub found : {A : Type 0} → Option A → Exec Ledger A
found none = throw (problem not_found)
found (some x) = pure x

passport_of : Option Links → Option Text
passport_of none = none
passport_of (some links) = links.passport

-- What a new request stores.
unfoldable pub new_record :
    AttestationRequest → Text → Text → Text → Appended → Text → AttestationRecord
unfolding passport_of
new_record req tenant log_id registry_id at anchored_at = record {
  registry_id = registry_id;
  subject = req.subject;
  issuer = req.issuer;
  record_type = req.record_type;
  content_hash = lc req.content_hash;
  hash_alg = or_else req.hash_alg (codes "sha256");
  status = active;
  tenant = tenant;
  log_id = log_id;
  leaf_index = at.leaf_index;
  leaf_hash = at.leaf_hash;
  passport = passport_of req.links;
  links = req.links;
  issued_at = req.issued_at;
  anchored_at = anchored_at;
}

unfoldable pub first_status : AttestationRecord → StatusEntry
first_status rec = record {
  registry_id = rec.registry_id;
  status = active;
  since = rec.anchored_at;
  reason = none;
  superseded_by = none;
  actor = rec.issuer;
  log_id = rec.log_id;
  leaf_index = rec.leaf_index;
  leaf_hash = rec.leaf_hash;
}

unfoldable pub attestation_dto : AttestationRecord → InclusionProof → Sth → Attestation
attestation_dto rec inclusion sth = record {
  registry_id = rec.registry_id;
  subject = rec.subject;
  issuer = rec.issuer;
  record_type = rec.record_type;
  status = rec.status;
  anchored_at = rec.anchored_at;
  log = record { log_id = rec.log_id; leaf_index = rec.leaf_index; leaf_hash = rec.leaf_hash };
  inclusion_proof = inclusion;
  sth = sth;
}

module _ ⦃sha : Sha256⦄ (a : Anchors) where
  unfoldable pub build_attestation_dto : AttestationRecord → Exec Ledger Attestation
  build_attestation_dto rec = do
    tl ← get_log rec.log_id
    inclusion ← lift (inclusion_proof tl rec.leaf_index (tree_size tl))
    root ← lift (current_root_hex tl)
    sth ← anchor a rec.log_id root (tree_size tl)
    pure (attestation_dto rec inclusion sth)

  unfoldable pub get_attestation : Text → Exec Ledger Attestation
  get_attestation registry_id = do
    looked ← read (λ store. Store.get_attestation_by_id store registry_id)
    rec ← found looked
    build_attestation_dto rec

  unfoldable pub get_inclusion : Text → Option ℕ → Exec Ledger InclusionResponse
  get_inclusion registry_id wanted = do
    looked ← read (λ store. Store.get_attestation_by_id store registry_id)
    rec ← found looked
    tl ← get_log rec.log_id
    let size = or_else wanted (tree_size tl)
    if ltb size 1 || ltb (tree_size tl) size || leb size rec.leaf_index
        then throw (problem proof_unavailable)
        else (do
          inclusion ← lift (inclusion_proof tl rec.leaf_index size)
          root ← lift (root_at_hex tl size)
          sth ← anchor a rec.log_id root size
          pure (record { registry_id = registry_id; inclusion_proof = inclusion; sth = sth }))

  -- The entry that `latest?.field ?? default` reads.
  status_source : AttestationRecord → Option StatusEntry → StatusEntry
  unfolding first_status
  status_source rec none = first_status rec
  status_source rec (some latest) = latest

  unfoldable pub get_status_record : Text → Exec Ledger StatusRecord
  unfolding status_source
  get_status_record registry_id = do
    looked ← read (λ store. Store.get_attestation_by_id store registry_id)
    rec ← found looked
    latest ← read (λ store. Store.get_latest_status store registry_id)
    tl ← get_log rec.log_id
    let source = status_source rec latest
    proof ← lift (inclusion_proof tl source.leaf_index (tree_size tl))
    root ← lift (current_root_hex tl)
    sth ← anchor a rec.log_id root (tree_size tl)
    pure (record {
      registry_id = registry_id;
      status = rec.status;
      since = source.since;
      reason = source.reason;
      superseded_by = source.superseded_by;
      actor = source.actor;
      proof = proof;
      sth = sth;
    })

module _ ⦃sha : Sha256⦄ (w : World) (a : Anchors) where
  -- `true` beside the answer means that the hash was anchored before.
  unfoldable pub anchor_new : AttestationRequest → Text → Exec Ledger (Attestation × Bool)
  unfolding new_record first_status
  anchor_new req tenant = do
    let log_id = tenant_log_id tenant
    registry_id ← rand_id w (codes "reg:att:")
    let leaf =
        attestation_leaf w registry_id (lc req.content_hash) req.subject req.issuer req.record_type
    appended ← append_and_anchor a log_id leaf
    anchored_at ← observe w.now_iso
    let rec = new_record req tenant log_id registry_id appended anchored_at
    write (λ store. Store.put_attestation store rec)
    write (λ store. Store.append_status store (first_status rec))
    tl ← get_log log_id
    inclusion ← lift (inclusion_proof tl appended.leaf_index (tree_size tl))
    pure (attestation_dto rec inclusion appended.sth, false)

  unfoldable pub known_or_new :
      AttestationRequest → Text → Option AttestationRecord → Exec Ledger (Attestation × Bool)
  known_or_new req tenant (some rec) = do dto ← build_attestation_dto a rec; pure (dto, true)
  known_or_new req tenant none = anchor_new req tenant

  unfoldable pub anchor_attestation : AttestationRequest → Text → Exec Ledger (Attestation × Bool)
  unfolding known_or_new
  anchor_attestation req tenant = do
    existing ←
        read (λ store. Store.get_attestation_by_content_hash store tenant (lc req.content_hash))
    known_or_new req tenant existing

  -- The change of status itself, past the guards.
  unfoldable pub change_status :
      AttestationRecord → Text → RecordStatus → Text → Option Text → Text → Exec Ledger StatusRecord
  change_status rec registry_id new_status reason superseded_by actor = do
    since ← observe w.now_iso
    let leaf = status_leaf w registry_id new_status since actor superseded_by
    appended ← append_and_anchor a rec.log_id leaf
    write (λ store. Store.append_status store (record {
      registry_id = registry_id;
      status = new_status;
      since = since;
      reason = some reason;
      superseded_by = superseded_by;
      actor = actor;
      log_id = rec.log_id;
      leaf_index = appended.leaf_index;
      leaf_hash = appended.leaf_hash;
    }))
    write (λ store. Store.set_attestation_status store registry_id new_status)
    tl ← get_log rec.log_id
    proof ← lift (inclusion_proof tl appended.leaf_index (tree_size tl))
    pure (record {
      registry_id = registry_id;
      status = new_status;
      since = since;
      reason = some reason;
      superseded_by = superseded_by;
      actor = actor;
      proof = proof;
      sth = appended.sth;
    })

  unfoldable pub is_revoked : RecordStatus → Bool
  is_revoked revoked = true
  is_revoked _ = false

  unfoldable pub set_status : Text → Action → Text → Option Text → Text → Exec Ledger StatusRecord
  unfolding is_revoked
  set_status registry_id action reason superseded_by actor_tenant = do
    looked ← read (λ store. Store.get_attestation_by_id store registry_id)
    rec ← found looked
    if not (rec.tenant =t= actor_tenant)
        then throw (problem forbidden_tenant)
        else if is_revoked rec.status
        then throw (problem status_conflict)
        else change_status rec registry_id (status_after action) reason superseded_by actor_tenant
