-- ===== src/Ledger.antt =====
-- The class LedgerService of services/registry-ledger/src/services/ledger.ts, over the MemoryStore.
-- Each method runs to its end before the next one starts.
pub mod Attestations
pub mod Invariant
pub mod Hoare
pub mod Appending
pub mod AppendOnly
pub mod Service
pub mod History
pub mod Answers
pub mod Checkpoints
pub mod EvidenceStore
pub mod Bundle
pub mod Staying
pub mod Records
pub mod Revoked
pub mod Retained
use hara_registry.Prelude.{
  ℕ, codes, zero, suc, ◌+◌, ◌-◌, ◌≡◌, Bool, true, false, not, ◌&&◌, ◌||◌, Option, none, some, List,
  [], ◌∷◌, ◌++◌, length, ltb, leb, ◌==◌, ◌=t=◌, if◌then◌else◌, All,
}
use hara_registry.Errors
use hara_registry.Errors.{
  Result, ok, err, Exception, problem, not_found, forbidden_tenant, status_conflict,
  proof_unavailable, invalid_request, retention_locked,
}
use hara_registry.Sha256.{Bytes, Text, IsByte, Sha256}
use hara_registry.Hex.{to_hex, lc, decode_all}
use hara_registry.Assoc.{Assoc, lookup, insert}
use hara_registry.TransparencyLog.{
  TransparencyLog, InclusionProof, append, tree_size, leaf_hash_hex, current_root_hex, root_at_hex,
  inclusion_proof, consistency_proof,
}
use hara_registry.Store
use hara_registry.Store.{
  MemoryStore, AttestationRecord, StatusEntry, EvidenceRecord, CheckpointRecord, RecordStatus,
  active, superseded, revoked, Links,
}
use hara_registry.Types.{
  Sth, Anchor, AttestationRequest, Attestation, InclusionResponse, StatusRecord, Checkpoint,
  ConsistencyResponse, Retention, EvidenceRequest, Evidence, VerifyBundle, VerifyBundleAttestation,
  VerifyBundleCheckpoint,
}
use hara_registry.Exec.{Exec, pure, throw, lift, gets, run, ◌>>=◌, ◌>>◌}

-- What the service asks of its surroundings. Each use of the clock, of the random source or of the
-- anchor service has its number in the order of the run.
pub record World : Type 0 where
  pub now_iso : ℕ → Text
  pub now_ms : ℕ → ℕ
  pub random_hex : ℕ → Text
  pub utf8 : Text → Bytes
  -- `new Date(text).getTime()`, in milliseconds from the year 0 on; `none` is NaN.
  pub date_ms : Text → Option ℕ
  pub utf8-IsByte : (t : Text) → All IsByte (utf8 t)

-- The anchor service, as its client sees it: a head that it publishes is the head that it was given.
pub record Anchors : Type 0 where
  pub anchor_sth : ℕ → Text → Text → ℕ → Result Sth
  pub same_head :
      (call : ℕ) (log_id root : Text) (size : ℕ) (sth : Sth)
      → anchor_sth call log_id root size ≡ ok sth
      → (sth.log_id ≡ log_id) × (sth.root_hash ≡ root) × (sth.tree_size ≡ size)

pub record Ledger : Type 0 where
  pub store : MemoryStore
  pub logs : Assoc TransparencyLog
  -- The uses of the surroundings so far.
  pub effects : ℕ

-- A text with a line break between the fields: `[…].join("\n")`.
join_lines : List Text → Text
join_lines [] = []
join_lines (t ∷ []) = t
join_lines (t ∷ u ∷ ts) = t ++ (10 ∷ join_lines (u ∷ ts))

-- What follows a prefix.
unfoldable pub after : Text → Text → Option Text
after [] text = some text
after (p ∷ ps) [] = none
after (p ∷ ps) (c ∷ cs) = let rest = after ps cs in if p == c then rest else none

-- `text.replace(/^prefix/, "")`
strip_prefix : Text → Text → Text
strip_prefix prefix text = elim (after prefix text) [ none ↦ text | some rest ↦ rest ]

-- did:hara:tenant:surveyor-psi → tenant:surveyor-psi
unfoldable pub tenant_log_id : Text → Text
unfolding strip_prefix
tenant_log_id tenant_did = codes "tenant:" ++ strip_prefix (codes "did:hara:tenant:") tenant_did

unfoldable pub status_text : RecordStatus → Text
status_text active = codes "active"
status_text superseded = codes "superseded"
status_text revoked = codes "revoked"

bool_text : Bool → Text
bool_text true = codes "true"
bool_text false = codes "false"

or_blank : Option Text → Text
or_blank none = []
or_blank (some t) = t

module _ (w : World) where
  unfoldable pub attestation_leaf : Text → Text → Text → Text → Text → Bytes
  unfolding join_lines
  attestation_leaf registry_id content_hash subject issuer record_type = w.utf8 (
      join_lines
        (codes "att" ∷ registry_id ∷ lc content_hash ∷ subject ∷ issuer ∷ record_type ∷ []))

  unfoldable pub status_leaf : Text → RecordStatus → Text → Text → Option Text → Bytes
  unfolding join_lines or_blank
  status_leaf registry_id status since actor superseded_by = w.utf8 (
      join_lines (
        codes "status"
        ∷ registry_id
        ∷ status_text status
        ∷ since
        ∷ actor
        ∷ or_blank superseded_by
        ∷ []))

  unfoldable pub evidence_leaf : Text → Text → Text → Text → Bool → Bytes
  unfolding join_lines bool_text
  evidence_leaf evidence_id content_hash until basis legal_hold = w.utf8 (
      join_lines (
        codes "evidence"
        ∷ evidence_id
        ∷ lc content_hash
        ∷ until
        ∷ basis
        ∷ bool_text legal_hold
        ∷ []))

  unfoldable pub delete_attempt_leaf : Text → Text → Text → Bytes
  unfolding join_lines
  delete_attempt_leaf evidence_id at actor =
      w.utf8 (join_lines (codes "evidence-delete-refused" ∷ evidence_id ∷ at ∷ actor ∷ []))

-- A use of the clock or of the random source.
unfoldable pub observe {ℓ} : {A : Type ℓ} → (ℕ → A) → Ledger → Result A × Ledger
observe f s = (ok (f s.effects), record s { effects = s.effects + 1 })

unfoldable pub rand_id : World → Text → Exec Ledger Text
rand_id w prefix = observe (λ n. prefix ++ w.random_hex n)

-- A write to the store.
unfoldable pub write : (MemoryStore → MemoryStore) → Exec Ledger (Unit {0})
write f s = (ok tt, record s { store = f s.store })

unfoldable pub read {ℓ} : {A : Type ℓ} → (MemoryStore → A) → Ledger → Result A × Ledger
read f s = (ok (f s.store), s)

unfoldable pub anchor : Anchors → Text → Text → ℕ → Exec Ledger Sth
anchor a log_id root size s =
    (a.anchor_sth s.effects log_id root size, record s { effects = s.effects + 1 })

pub record Appended : Type 0 where
  pub leaf_index : ℕ
  pub leaf_hash : Text
  pub tree_size : ℕ
  pub root : Text
  pub sth : Sth

remember : Text → TransparencyLog → Exec Ledger (Unit {0})
remember log_id tl s = (ok tt, record s { logs = insert log_id tl s.logs })

make_log : Text → List Bytes → Exec Ledger TransparencyLog
make_log log_id leaves = do
  let tl : TransparencyLog = record { log_id = log_id; leaves = leaves }
  remember log_id tl
  pure tl

-- The log of an id: the one in memory, or one made of the store's leaves.
open_log : Text → Option TransparencyLog → Exec Ledger TransparencyLog
open_log log_id (some tl) = pure tl
open_log log_id none = do
  texts ← read (λ store. Store.get_leaves store log_id)
  leaves ← lift (decode_all texts)
  make_log log_id leaves

unfoldable pub get_log : Text → Exec Ledger TransparencyLog
unfolding open_log make_log remember
get_log log_id s = open_log log_id (lookup log_id s.logs) s

-- `tl.append(leaf)` changes the log that `getLog` keeps.
append_to : Text → TransparencyLog → Bytes → Exec Ledger (TransparencyLog × ℕ)
unfolding remember
append_to log_id tl leaf = do let grown = append tl leaf; remember log_id grown.0; pure grown

-- The first half of `appendAndAnchor`: the leaf goes into the log in memory and into the store.
unfoldable pub append_both : Text → Bytes → Exec Ledger (TransparencyLog × ℕ)
unfolding append_to remember
append_both log_id leaf = do
  opened ← get_log log_id
  grown ← append_to log_id opened leaf
  write (λ store. (Store.append_leaf store log_id (to_hex leaf)).0)
  pure grown

module _ ⦃sha : Sha256⦄ (a : Anchors) where
  unfoldable pub append_and_anchor : Text → Bytes → Exec Ledger Appended
  append_and_anchor log_id leaf = do
    (tl, leaf_index) ← append_both log_id leaf
    leaf_hash ← lift (leaf_hash_hex tl leaf_index)
    root ← lift (current_root_hex tl)
    sth ← anchor a log_id root (tree_size tl)
    pure (record {
      leaf_index = leaf_index;
      leaf_hash = leaf_hash;
      tree_size = tree_size tl;
      root = root;
      sth = sth;
    })
