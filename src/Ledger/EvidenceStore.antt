-- ===== src/Ledger/EvidenceStore.antt =====
-- The evidence methods of LedgerService.
use hara_registry.Prelude.{
  ℕ, codes, Bool, true, false, not, ◌&&◌, ◌||◌, Option, none, some, ◌++◌, ltb, ◌=t=◌, if◌then◌else◌,
}
use hara_registry.Errors.{
  problem, not_found, forbidden_tenant, status_conflict, invalid_request, retention_locked,
}
use hara_registry.Sha256.{Text, Sha256}
use hara_registry.Hex.{lc}
use hara_registry.TransparencyLog.{tree_size, current_root_hex}
use hara_registry.Store
use hara_registry.Store.{
  MemoryStore, AttestationRecord, StatusEntry, EvidenceRecord, CheckpointRecord, RecordStatus,
  active, superseded, revoked, Links,
}
use hara_registry.Types.{Anchor, Retention, EvidenceRequest, Evidence}
use hara_registry.Exec.{Exec, pure, throw, lift, ◌>>=◌, ◌>>◌}
use hara_registry.Ledger.{
  World, Anchors, Ledger, tenant_log_id, evidence_leaf, delete_attempt_leaf, observe, rand_id,
  write, read, anchor, get_log, append_and_anchor,
}
use hara_registry.Ledger.Attestations.{or_else}

-- `rec.until + "T00:00:00Z"`
midnight : Text → Text
midnight until = until ++ codes "T00:00:00Z"

-- `a > b`, where `none` is NaN.
abbrev pub after_ms : Option ℕ → ℕ → Bool
after_ms none now = false
after_ms (some until) now = ltb now until

has_anchor : Option Anchor → Bool
has_anchor none = false
has_anchor (some x) = true

-- The record that an id leads to, unless it is deleted.
unfoldable pub live : Option EvidenceRecord → Exec Ledger EvidenceRecord
live none = throw (problem not_found)
live (some rec) = if rec.deleted then throw (problem not_found) else pure rec

set_until : Text → EvidenceRecord → EvidenceRecord
set_until until rec = record rec { until = until }

set_hold : Option Bool → EvidenceRecord → EvidenceRecord
set_hold none rec = rec
set_hold (some hold) rec = record rec { legal_hold = hold }

set_deleted : EvidenceRecord → EvidenceRecord
set_deleted rec = record rec { deleted = true }

module _ (w : World) where
  unfoldable pub until_ms : Text → Option ℕ
  unfolding midnight
  until_ms until = w.date_ms (midnight until)

  unfoldable pub to_retention : EvidenceRecord → Exec Ledger Retention
  to_retention rec = do
    now ← observe w.now_ms
    pure (record {
      until = rec.until;
      basis = rec.basis;
      legal_hold = rec.legal_hold;
      deletable = not (after_ms (until_ms rec.until) now) && not rec.legal_hold;
    })

  -- `next` as the new expiry, where `next_ms` is its time.
  unfoldable pub no_earlier : Text → Text → Option ℕ → Exec Ledger Text
  no_earlier until next none = throw (problem invalid_request)
  no_earlier until next (some next_ms) =
      if after_ms (until_ms until) next_ms then throw (problem status_conflict) else pure next

  -- The new expiry of a patch, or the error that it meets.
  unfoldable pub extended : Text → Option Text → Exec Ledger Text
  unfolding no_earlier
  extended until none = pure until
  extended until (some next) = no_earlier until next (until_ms next)

module _ ⦃sha : Sha256⦄ (w : World) (a : Anchors) where
  unfoldable pub build_evidence_dto : EvidenceRecord → Exec Ledger Evidence
  unfolding has_anchor
  build_evidence_dto rec = do
    tl ← get_log rec.log_id
    root ← lift (current_root_hex tl)
    sth ← anchor a rec.log_id root (tree_size tl)
    retention ← to_retention w rec
    pure (record {
      evidence_id = rec.evidence_id;
      content_hash = rec.content_hash;
      anchored = has_anchor sth.anchor;
      retention = retention;
      sth = sth;
    })

  unfoldable pub register_new : EvidenceRequest → Text → Exec Ledger (Evidence × Bool)
  unfolding has_anchor
  register_new req tenant = do
    let log_id = tenant_log_id tenant
    evidence_id ← rand_id w (codes "ev:")
    let hold = or_else req.legal_hold false
    appended ←
        append_and_anchor a log_id
          (evidence_leaf w evidence_id (lc req.content_hash) req.until req.basis hold)
    anchored_at ← observe w.now_iso
    let rec : EvidenceRecord = record {
      evidence_id = evidence_id;
      content_hash = lc req.content_hash;
      hash_alg = or_else req.hash_alg (codes "sha256");
      until = req.until;
      basis = req.basis;
      legal_hold = hold;
      tenant = tenant;
      log_id = log_id;
      leaf_index = appended.leaf_index;
      links = req.links;
      anchored_at = anchored_at;
      deleted = false;
    }
    write (λ store. Store.put_evidence store rec)
    retention ← to_retention w rec
    let sth = appended.sth
    pure (
      record {
        evidence_id = evidence_id;
        content_hash = lc req.content_hash;
        anchored = has_anchor sth.anchor;
        retention = retention;
        sth = sth;
      },
      false,
    )

  unfoldable pub known_evidence_or_new :
      EvidenceRequest → Text → Option EvidenceRecord → Exec Ledger (Evidence × Bool)
  unfolding register_new
  known_evidence_or_new req tenant (some rec) = do dto ← build_evidence_dto rec; pure (dto, true)
  known_evidence_or_new req tenant none = register_new req tenant

  unfoldable pub register_evidence : EvidenceRequest → Text → Exec Ledger (Evidence × Bool)
  unfolding known_evidence_or_new
  register_evidence req tenant = do
    existing ← read (λ store. Store.get_evidence_by_content_hash store tenant (lc req.content_hash))
    known_evidence_or_new req tenant existing

  unfoldable pub get_evidence : Text → Exec Ledger Evidence
  unfolding live
  get_evidence evidence_id = do
    looked ← read (λ store. Store.get_evidence_by_id store evidence_id)
    rec ← live looked
    build_evidence_dto rec

  unfoldable pub update_retention : Text → Option Bool → Option Text → Text → Exec Ledger Evidence
  unfolding live set_until set_hold
  update_retention evidence_id hold extend_until tenant = do
    looked ← read (λ store. Store.get_evidence_by_id store evidence_id)
    rec ← live looked
    if not (rec.tenant =t= tenant) then throw (problem forbidden_tenant) else (do
      until ← extended w rec.until extend_until
      let changed = set_hold hold (set_until until rec)
      write (λ store.
          Store.update_evidence store evidence_id (λ r. set_hold hold (set_until until r)))
      build_evidence_dto changed)

  unfoldable pub delete_evidence : Text → Text → Exec Ledger (Unit {0})
  unfolding live set_deleted
  delete_evidence evidence_id tenant = do
    looked ← read (λ store. Store.get_evidence_by_id store evidence_id)
    rec ← live looked
    if not (rec.tenant =t= tenant) then throw (problem forbidden_tenant) else (do
      now ← observe w.now_ms
      if after_ms (until_ms w rec.until) now || rec.legal_hold
          then (do
            at ← observe w.now_iso
            append_and_anchor a rec.log_id (delete_attempt_leaf w evidence_id at tenant)
            throw (problem retention_locked))
          else write (λ store. Store.update_evidence store evidence_id set_deleted))
