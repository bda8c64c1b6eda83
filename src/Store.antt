-- ===== src/Store.antt =====
-- services/registry-ledger/src/store: the records of index.ts and the MemoryStore of memory.ts.
-- The two maps of attestations hold references to shared objects, and so do those of evidence:
-- an object is a cell of `atts` or `evs`, and a reference is its number.
use hara_registry.Prelude.{
  ℕ, zero, suc, ◌-◌, Bool, false, ◌||◌, Option, none, some, List, [], ◌∷◌, ◌++◌, length, get_elem?,
  ◌=t=◌, if◌then◌else◌,
}
use hara_registry.Sha256.{Text}
use hara_registry.Hex.{lc}
use hara_registry.Assoc.{Assoc, lookup, insert, values}

pub data RecordStatus : Type 0 where
  active superseded revoked : RecordStatus

-- `links` is free-form; the code reads two of its members, where they are strings.
pub record Links : Type 0 where
  pub subject : Option Text
  pub passport : Option Text

pub record AttestationRecord : Type 0 where
  pub registry_id : Text
  pub subject : Text
  pub issuer : Text
  pub record_type : Text
  pub content_hash : Text
  pub hash_alg : Text
  pub status : RecordStatus
  pub tenant : Text
  pub log_id : Text
  pub leaf_index : ℕ
  pub leaf_hash : Text
  pub passport : Option Text
  pub links : Option Links
  pub issued_at : Option Text
  pub anchored_at : Text

pub record StatusEntry : Type 0 where
  pub registry_id : Text
  pub status : RecordStatus
  pub since : Text
  pub reason : Option Text
  pub superseded_by : Option Text
  pub actor : Text
  pub log_id : Text
  pub leaf_index : ℕ
  pub leaf_hash : Text

pub record EvidenceRecord : Type 0 where
  pub evidence_id : Text
  pub content_hash : Text
  pub hash_alg : Text
  pub until : Text
  pub basis : Text
  pub legal_hold : Bool
  pub tenant : Text
  pub log_id : Text
  pub leaf_index : ℕ
  pub links : Option Links
  pub anchored_at : Text
  pub deleted : Bool

pub record CheckpointRecord : Type 0 where
  pub checkpoint_id : Text
  pub log_id : Text
  pub tree_size : ℕ
  pub root_hash : Text
  pub timestamp : Text
  pub tx_hash : Option Text
  pub on_chain_id : Option Text

pub record MemoryStore : Type 0 where
  pub atts : List AttestationRecord
  pub att_by_id : Assoc ℕ
  pub att_by_content : Assoc ℕ
  pub status_by_registry : Assoc (List StatusEntry)
  pub evs : List EvidenceRecord
  pub ev_by_id : Assoc ℕ
  pub ev_by_content : Assoc ℕ
  pub checkpoints_by_id : Assoc CheckpointRecord
  pub checkpoints_by_log : Assoc (List CheckpointRecord)
  pub leaves_by_log : Assoc (List Text)

unfoldable pub empty_store : MemoryStore
empty_store = record {
  atts = [];
  att_by_id = [];
  att_by_content = [];
  status_by_registry = [];
  evs = [];
  ev_by_id = [];
  ev_by_content = [];
  checkpoints_by_id = [];
  checkpoints_by_log = [];
  leaves_by_log = [];
}

-- `${tenant}|${hash.toLowerCase()}`
unfoldable pub content_key : Text → Text → Text
content_key tenant hash = tenant ++ (b'|' ∷ lc hash)

-- The object behind a reference.
abbrev pub deref {ℓ} : {A : Type ℓ} → List A → Option ℕ → Option A
deref cells none = none
deref cells (some ref) = get_elem? cells ref

-- An assignment to a field of the object behind a reference.
unfoldable pub update {ℓ} : {A : Type ℓ} → (A → A) → ℕ → List A → List A
update f i [] = []
update f zero (x ∷ xs) = f x ∷ xs
update f (suc i) (x ∷ xs) = x ∷ update f i xs

abbrev pub or_empty {ℓ} : {A : Type ℓ} → Option (List A) → List A
or_empty none = []
or_empty (some xs) = xs

abbrev pub get_last? {ℓ} : {A : Type ℓ} → List A → Option A
get_last? [] = none
get_last? (x ∷ []) = some x
get_last? (x ∷ y ∷ ys) = get_last? (y ∷ ys)

abbrev pub same_text : Option Text → Text → Bool
same_text none t = false
same_text (some s) t = s =t= t

-- Attestations.

unfoldable pub get_attestation_by_id : MemoryStore → Text → Option AttestationRecord
get_attestation_by_id s id = deref s.atts (lookup id s.att_by_id)

unfoldable pub get_attestation_by_content_hash :
    MemoryStore → Text → Text → Option AttestationRecord
get_attestation_by_content_hash s tenant hash =
    deref s.atts (lookup (content_key tenant hash) s.att_by_content)

unfoldable pub put_attestation : MemoryStore → AttestationRecord → MemoryStore
put_attestation s rec =
    let ref = length s.atts in
    record s {
      atts = s.atts ++ (rec ∷ []);
      att_by_id = insert rec.registry_id ref s.att_by_id;
      att_by_content = insert (content_key rec.tenant rec.content_hash) ref s.att_by_content;
    }

set_status_of : RecordStatus → AttestationRecord → AttestationRecord
set_status_of status rec = record rec { status = status }

unfoldable pub set_attestation_status : MemoryStore → Text → RecordStatus → MemoryStore
unfolding set_status_of
set_attestation_status s id status = elim (lookup id s.att_by_id) [
  | none ↦ s
  | some ref ↦ record s { atts = update (set_status_of status) ref s.atts }
]

filter_by {ℓ} : {A : Type ℓ} → (A → Bool) → List A → List A
filter_by p [] = []
filter_by p (x ∷ xs) = let rest = filter_by p xs in if p x then x ∷ rest else rest

deref_all {ℓ} : {A : Type ℓ} → List A → List ℕ → List A
deref_all cells [] = []
deref_all cells (ref ∷ refs) = elim (get_elem? cells ref) [
  | none ↦ deref_all cells refs
  | some x ↦ x ∷ deref_all cells refs
]

unfoldable pub list_attestations_by_subject : MemoryStore → Text → List AttestationRecord
unfolding filter_by deref_all
list_attestations_by_subject s who =
    filter_by (λ rec. rec.subject =t= who || same_text rec.passport who)
      (deref_all s.atts (values s.att_by_id))

-- Status history.

unfoldable pub append_status : MemoryStore → StatusEntry → MemoryStore
append_status s entry =
    let list = or_empty (lookup entry.registry_id s.status_by_registry) in
    record s {
      status_by_registry = insert entry.registry_id (list ++ (entry ∷ [])) s.status_by_registry;
    }

unfoldable pub get_latest_status : MemoryStore → Text → Option StatusEntry
get_latest_status s id = get_last? (or_empty (lookup id s.status_by_registry))

-- Evidence and retention.

unfoldable pub get_evidence_by_id : MemoryStore → Text → Option EvidenceRecord
get_evidence_by_id s id = deref s.evs (lookup id s.ev_by_id)

unfoldable pub get_evidence_by_content_hash : MemoryStore → Text → Text → Option EvidenceRecord
get_evidence_by_content_hash s tenant hash =
    deref s.evs (lookup (content_key tenant hash) s.ev_by_content)

unfoldable pub put_evidence : MemoryStore → EvidenceRecord → MemoryStore
put_evidence s rec =
    let ref = length s.evs in
    record s {
      evs = s.evs ++ (rec ∷ []);
      ev_by_id = insert rec.evidence_id ref s.ev_by_id;
      ev_by_content = insert (content_key rec.tenant rec.content_hash) ref s.ev_by_content;
    }

-- The assignments to the fields of the object that `id` leads to, and `updateEvidence` of it.
unfoldable pub update_evidence :
    MemoryStore → Text → (EvidenceRecord → EvidenceRecord) → MemoryStore
update_evidence s id f = elim (lookup id s.ev_by_id) [
  | none ↦ s
  | some ref ↦ elim (get_elem? s.evs ref) [
    | none ↦ s
    | some old ↦
        let rec = f old in
        record s {
          evs = update f ref s.evs;
          ev_by_id = insert rec.evidence_id ref s.ev_by_id;
          ev_by_content = insert (content_key rec.tenant rec.content_hash) ref s.ev_by_content;
        }
  ]
]

evidence_concerns : Text → EvidenceRecord → Bool
evidence_concerns who rec = if rec.deleted then false else elim rec.links [
  | none ↦ false
  | some links ↦ same_text links.subject who || same_text links.passport who
]

unfoldable pub list_evidence_by_subject : MemoryStore → Text → List EvidenceRecord
unfolding filter_by deref_all evidence_concerns
list_evidence_by_subject s who =
    filter_by (evidence_concerns who) (deref_all s.evs (values s.ev_by_id))

-- Checkpoints.

unfoldable pub put_checkpoint : MemoryStore → CheckpointRecord → MemoryStore
put_checkpoint s rec =
    let list = or_empty (lookup rec.log_id s.checkpoints_by_log) in
    record s {
      checkpoints_by_id = insert rec.checkpoint_id rec s.checkpoints_by_id;
      checkpoints_by_log = insert rec.log_id (list ++ (rec ∷ [])) s.checkpoints_by_log;
    }

unfoldable pub get_checkpoint : MemoryStore → Text → Option CheckpointRecord
get_checkpoint s id = lookup id s.checkpoints_by_id

unfoldable pub latest_checkpoint : MemoryStore → Text → Option CheckpointRecord
latest_checkpoint s log_id = get_last? (or_empty (lookup log_id s.checkpoints_by_log))

-- The leaves of each log.

unfoldable pub get_leaves : MemoryStore → Text → List Text
get_leaves s log_id = or_empty (lookup log_id s.leaves_by_log)

unfoldable pub append_leaf : MemoryStore → Text → Text → MemoryStore × ℕ
append_leaf s log_id leaf_hex =
    let list = or_empty (lookup log_id s.leaves_by_log) ++ (leaf_hex ∷ []) in
    (record s { leaves_by_log = insert log_id list s.leaves_by_log }, length list - 1)
