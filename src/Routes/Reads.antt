-- ===== src/Routes/Reads.antt =====
-- The routes of services/registry-ledger/src/routes that only read. `number` is JavaScript's `Number` on
-- a text, where it gives an integer that is not negative.
use hara_registry.Prelude.{ℕ, ◌||◌, Option, none, some, [], ◌∷◌, ltb, if◌then◌else◌, codes}
use hara_registry.Errors.{problem, invalid_request, invalid_did}
use hara_registry.Sha256.{Text, Sha256}
use hara_registry.Types.{
  Attestation, InclusionResponse, StatusRecord, ConsistencyResponse, Evidence, VerifyBundle,
}
use hara_registry.Exec.{Exec, throw}
use hara_registry.Ledger.{World, Ledger, Anchors, after}
use hara_registry.Ledger.Attestations.{get_attestation, get_inclusion, get_status_record}
use hara_registry.Ledger.EvidenceStore.{get_evidence}
use hara_registry.Ledger.Checkpoints.{get_consistency}
use hara_registry.Ledger.Bundle.{verify_bundle}

module _ ⦃sha : Sha256⦄ (w : World) (a : Anchors) (number : Text → Option ℕ) where
  abbrev pub get_attestation_route : Text → Exec Ledger Attestation
  get_attestation_route registry_id = get_attestation a registry_id

  proof_of_size : Text → Option ℕ → Exec Ledger InclusionResponse
  proof_of_size registry_id none = throw (problem invalid_request)
  proof_of_size registry_id (some size) =
      if ltb size 1
      then throw (problem invalid_request)
      else get_inclusion a registry_id (some size)

  unfoldable pub get_proof_route : Text → Option Text → Exec Ledger InclusionResponse
  unfolding proof_of_size
  get_proof_route registry_id none = get_inclusion a registry_id none
  get_proof_route registry_id (some tree_size) = proof_of_size registry_id (number tree_size)

  abbrev pub get_status_route : Text → Exec Ledger StatusRecord
  get_status_route registry_id = get_status_record a registry_id

  abbrev pub get_evidence_route : Text → Exec Ledger Evidence
  get_evidence_route evidence_id = get_evidence w a evidence_id

  or_text : Option Text → Text
  or_text none = codes "undefined"
  or_text (some t) = t

  between : Text → Option ℕ → Option ℕ → Exec Ledger ConsistencyResponse
  between log_id (some from) (some to) =
      if ltb from 1 || ltb to 1
      then throw (problem invalid_request)
      else get_consistency w a log_id from to
  between log_id none to = throw (problem invalid_request)
  between log_id (some from) none = throw (problem invalid_request)

  unfoldable pub get_consistency_route :
      Option Text → Option Text → Option Text → Exec Ledger ConsistencyResponse
  unfolding between or_text
  get_consistency_route none from to = throw (problem invalid_request)
  get_consistency_route (some []) from to = throw (problem invalid_request)
  get_consistency_route (some (c ∷ cs)) from to =
      between (c ∷ cs) (number (or_text from)) (number (or_text to))

  bundle_for : Text → Option Text → Exec Ledger VerifyBundle
  bundle_for subject none = throw (problem invalid_did)
  bundle_for subject (some rest) = verify_bundle w a subject

  unfoldable pub get_bundle_route : Option Text → Exec Ledger VerifyBundle
  unfolding bundle_for
  get_bundle_route none = throw (problem invalid_did)
  get_bundle_route (some subject) = bundle_for subject (after (codes "did:hara:") subject)
