-- ===== src/Ledger/Service.antt =====
-- The service as a machine: the calls that a client can make, and the state after a list of them.
use hara_registry.Prelude.{ℕ, Bool, Option, List, [], ◌∷◌}
use hara_registry.Sha256.{Text, Sha256}
use hara_registry.Types.{AttestationRequest, EvidenceRequest}
use hara_registry.Ledger.{World, Ledger, Anchors}
use hara_registry.Ledger.Attestations.{
  Action, get_attestation, get_inclusion, get_status_record, anchor_attestation, set_status,
}
use hara_registry.Ledger.EvidenceStore.{
  register_evidence, get_evidence, update_retention, delete_evidence,
}
use hara_registry.Ledger.Checkpoints.{submit_checkpoint, get_consistency}
use hara_registry.Ledger.Bundle.{verify_bundle}

-- A public method with its arguments.
pub data Call : Type 0 where
  anchoring : AttestationRequest → Text → Call
  attestation_of : Text → Call
  inclusion_of : Text → Option ℕ → Call
  status_of : Text → Call
  status_change : Text → Action → Text → Option Text → Text → Call
  checkpoint : Text → ℕ → Text → Call
  consistency_of : Text → ℕ → ℕ → Call
  evidence_registration : EvidenceRequest → Text → Call
  evidence_of : Text → Call
  retention_update : Text → Option Bool → Option Text → Text → Call
  evidence_deletion : Text → Text → Call
  bundle_of : Text → Call

module _ ⦃sha : Sha256⦄ (w : World) (a : Anchors) where
  -- The state that a call leaves, whether it answers or throws.
  unfoldable pub perform : Call → Ledger → Ledger
  perform (anchoring req tenant) s = (anchor_attestation w a req tenant s).1
  perform (attestation_of id) s = (get_attestation a id s).1
  perform (inclusion_of id size) s = (get_inclusion a id size s).1
  perform (status_of id) s = (get_status_record a id s).1
  perform (status_change id action reason by actor) s =
      (set_status w a id action reason by actor s).1
  perform (checkpoint id size root) s = (submit_checkpoint w a id size root s).1
  perform (consistency_of id from to) s = (get_consistency w a id from to s).1
  perform (evidence_registration req tenant) s = (register_evidence w a req tenant s).1
  perform (evidence_of id) s = (get_evidence w a id s).1
  perform (retention_update id hold until tenant) s =
      (update_retention w a id hold until tenant s).1
  perform (evidence_deletion id tenant) s = (delete_evidence w a id tenant s).1
  perform (bundle_of subject) s = (verify_bundle w a subject s).1

  unfoldable pub perform_all : List Call → Ledger → Ledger
  perform_all [] s = s
  perform_all (call ∷ calls) s = perform_all calls (perform call s)
