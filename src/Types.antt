-- ===== src/Types.antt =====
-- services/registry-ledger/src/types.ts: what the service takes and gives.
use hara_registry.Prelude.{ℕ, Bool, Option, List}
use hara_registry.Sha256.{Text}
use hara_registry.Store.{RecordStatus, Links}
use hara_registry.TransparencyLog.{InclusionProof}

pub record Anchor : Type 0 where
  pub chain_id : ℕ
  pub tx_hash : Option Text
  pub on_chain_id : Option Text
  pub contract : Option Text

pub record Sth : Type 0 where
  pub log_id : Text
  pub tree_size : ℕ
  pub root_hash : Text
  pub timestamp : Text
  pub anchor : Option Anchor

pub record AttestationRequest : Type 0 where
  pub subject : Text
  pub issuer : Text
  pub record_type : Text
  pub content_hash : Text
  pub hash_alg : Option Text
  pub issued_at : Option Text
  pub links : Option Links

pub record LogRef : Type 0 where
  pub log_id : Text
  pub leaf_index : ℕ
  pub leaf_hash : Text

pub record Attestation : Type 0 where
  pub registry_id : Text
  pub subject : Text
  pub issuer : Text
  pub record_type : Text
  pub status : RecordStatus
  pub anchored_at : Text
  pub log : LogRef
  pub inclusion_proof : InclusionProof
  pub sth : Sth

pub record InclusionResponse : Type 0 where
  pub registry_id : Text
  pub inclusion_proof : InclusionProof
  pub sth : Sth

pub record StatusRecord : Type 0 where
  pub registry_id : Text
  pub status : RecordStatus
  pub since : Text
  pub reason : Option Text
  pub superseded_by : Option Text
  pub actor : Text
  pub proof : InclusionProof
  pub sth : Sth

pub record Checkpoint : Type 0 where
  pub checkpoint_id : Text
  pub sth : Sth

pub record ConsistencyResponse : Type 0 where
  pub log_id : Text
  pub first : Sth
  pub second : Sth
  pub consistency_path : List Text

pub record Retention : Type 0 where
  pub until : Text
  pub basis : Text
  pub legal_hold : Bool
  pub deletable : Bool

pub record EvidenceRequest : Type 0 where
  pub content_hash : Text
  pub hash_alg : Option Text
  pub until : Text
  pub basis : Text
  pub legal_hold : Option Bool
  pub links : Option Links

pub record Evidence : Type 0 where
  pub evidence_id : Text
  pub content_hash : Text
  pub anchored : Bool
  pub retention : Retention
  pub sth : Sth

pub record VerifyBundleAttestation : Type 0 where
  pub registry_id : Text
  pub record_type : Text
  pub status : RecordStatus
  pub subject : Text
  pub issuer : Text
  pub inclusion_proof : InclusionProof
  pub sth : Sth

pub record VerifyBundleCheckpoint : Type 0 where
  pub log_id : Text
  pub sth : Sth

pub record VerifyBundle : Type 0 where
  pub subject : Text
  pub generated_at : Text
  pub attestations : List VerifyBundleAttestation
  pub checkpoints : List VerifyBundleCheckpoint
  pub evidence : List Evidence
