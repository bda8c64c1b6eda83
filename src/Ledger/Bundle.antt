-- ===== src/Ledger/Bundle.antt =====
-- verifyBundle of LedgerService.
use hara_registry.Prelude.{
  Bool, false, ◌||◌, Option, none, some, List, [], ◌∷◌, ◌++◌, ◌=t=◌, if◌then◌else◌,
}
use hara_registry.Sha256.{Text, Sha256}
use hara_registry.TransparencyLog.{tree_size, current_root_hex, inclusion_proof}
use hara_registry.Store
use hara_registry.Store.{
  MemoryStore, AttestationRecord, StatusEntry, EvidenceRecord, CheckpointRecord, RecordStatus,
  active, superseded, revoked, Links,
}
use hara_registry.Types.{
  Anchor, Evidence, VerifyBundle, VerifyBundleAttestation, VerifyBundleCheckpoint,
}
use hara_registry.Exec.{Exec, pure, lift, ◌>>=◌}
use hara_registry.Ledger.{World, Anchors, Ledger, observe, read, anchor, get_log}
use hara_registry.Ledger.EvidenceStore.{build_evidence_dto}

contains : List Text → Text → Bool
contains [] t = false
contains (u ∷ us) t = u =t= t || contains us t

-- `checkpointLogs.add(logId)`
add : Text → List Text → List Text
unfolding contains
add t set = if contains set t then set else set ++ (t ∷ [])

checkpoint_anchor : CheckpointRecord → Option Text → Option Anchor
checkpoint_anchor latest none = none
checkpoint_anchor latest (some []) = none
checkpoint_anchor latest (some (c ∷ cs)) = some (record {
  chain_id = 0;
  tx_hash = some (c ∷ cs);
  on_chain_id = latest.on_chain_id;
  contract = none;
})

pub bundle_checkpoint : Text → CheckpointRecord → VerifyBundleCheckpoint
unfolding checkpoint_anchor
bundle_checkpoint log_id latest = record {
  log_id = log_id;
  sth = record {
    log_id = log_id;
    tree_size = latest.tree_size;
    root_hash = latest.root_hash;
    timestamp = latest.timestamp;
    anchor = checkpoint_anchor latest latest.tx_hash;
  };
}

-- The latest checkpoint of each log, where there is one.
unfoldable pub bundle_checkpoints : List Text → Exec Ledger (List VerifyBundleCheckpoint)
bundle_checkpoints [] = pure []
bundle_checkpoints (log_id ∷ rest) = do
  latest ← read (λ store. Store.latest_checkpoint store log_id)
  others ← bundle_checkpoints rest
  pure (elim latest [ none ↦ others | some c ↦ bundle_checkpoint log_id c ∷ others ])

module _ ⦃sha : Sha256⦄ (w : World) (a : Anchors) where
  unfoldable pub bundle_attestation : AttestationRecord → Exec Ledger VerifyBundleAttestation
  bundle_attestation rec = do
    tl ← get_log rec.log_id
    inclusion ← lift (inclusion_proof tl rec.leaf_index (tree_size tl))
    root ← lift (current_root_hex tl)
    sth ← anchor a rec.log_id root (tree_size tl)
    pure (record {
      registry_id = rec.registry_id;
      record_type = rec.record_type;
      status = rec.status;
      subject = rec.subject;
      issuer = rec.issuer;
      inclusion_proof = inclusion;
      sth = sth;
    })

  unfoldable pub bundle_attestations :
      List AttestationRecord → Exec Ledger (List VerifyBundleAttestation)
  unfolding bundle_attestation
  bundle_attestations [] = pure []
  bundle_attestations (rec ∷ recs) = do
    first ← bundle_attestation rec
    rest ← bundle_attestations recs
    pure (first ∷ rest)

  unfoldable pub bundle_evidence : List EvidenceRecord → Exec Ledger (List Evidence)
  bundle_evidence [] = pure []
  bundle_evidence (rec ∷ recs) = do
    first ← build_evidence_dto w a rec
    rest ← bundle_evidence recs
    pure (first ∷ rest)

  pub log_ids : List AttestationRecord → List Text → List Text
  log_ids [] set = set
  log_ids (rec ∷ recs) set = log_ids recs (add rec.log_id set)

  unfoldable pub verify_bundle : Text → Exec Ledger VerifyBundle
  verify_bundle subject = do
    atts ← read (λ store. Store.list_attestations_by_subject store subject)
    evs ← read (λ store. Store.list_evidence_by_subject store subject)
    attestations ← bundle_attestations atts
    checkpoints ← bundle_checkpoints (log_ids atts [])
    evidence ← bundle_evidence evs
    generated_at ← observe w.now_iso
    pure (record {
      subject = subject;
      generated_at = generated_at;
      attestations = attestations;
      checkpoints = checkpoints;
      evidence = evidence;
    })
