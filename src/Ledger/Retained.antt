-- ===== src/Ledger/Retained.antt =====
-- Evidence under retention or legal hold, against deleteEvidence of
-- services/registry-ledger/src/services/ledger.ts.
use hara_registry.Prelude.{
  ℕ, ◌≡◌, ◌≢◌, refl, sym, ap, ◌∙◌, true, not, ◌||◌, Option, none, some, ◌=t=◌, if◌then◌else◌,
}
use hara_registry.Errors.{Result, ok, err, stuck, problem, retention_locked}
use hara_registry.Sha256.{Text, Sha256}
use hara_registry.Store
use hara_registry.Store.{MemoryStore, EvidenceRecord, get_evidence_by_id, append_leaf, get_leaves}
use hara_registry.Exec.{throw, ◌>>=◌, ◌>>◌}
use hara_registry.Exec.Triples.{
  Triple, Outcome, triple_bind, triple_pure, triple_throw, triple_if, triple_given,
}
use hara_registry.Ledger.{
  World, Anchors, Ledger, observe, write, read, append_and_anchor, delete_attempt_leaf,
}
use hara_registry.Ledger.Staying.{IsStaying-observe, IsStaying-append}
use hara_registry.Ledger.EvidenceStore.{live, after_ms, until_ms, delete_evidence}

some_inj : {V : Type 0} {x y : V} → some x ≡ some y → x ≡ y
some_inj e = cc

module _ (id : Text) (rec : EvidenceRecord) where
  -- The evidence is there, as it was.
  abbrev IsThere : MemoryStore → Type 0
  IsThere st = get_evidence_by_id st id ≡ some rec

  abbrev Stays : Ledger → Type 0
  Stays s = IsThere s.store

  leaf_apart :
      (st : MemoryStore) (log_id hex : Text) → IsThere st → IsThere (append_leaf st log_id hex).0
  unfolding append_leaf get_evidence_by_id
  leaf_apart st log_id hex p = p

  module _ ⦃sha : Sha256⦄ (w : World) (a : Anchors) where
    -- The lock: a legal hold, or an expiry after the clock's reading at the use `n`.
    abbrev pub IsLocked : ℕ → Type 0
    IsLocked n = (after_ms (until_ms w rec.until) (w.now_ms n) || rec.legal_hold) ≡ true

    abbrev Never : {A : Type 0} → A → Ledger → Type 0
    Never x s = ⊥

    now_lem :
        (n : ℕ)
        → Triple
            (λ s. Stays s × (s.effects ≡ n))
            (observe w.now_ms)
            (λ now s. Stays s × (now ≡ w.now_ms n))
            Stays
    unfolding observe
    now_lem n = record { at = λ s (p, e). (p, ap w.now_ms e) }

    locked_delete :
        (tenant : Text) (n : ℕ)
        → IsLocked n
        → Triple
            (λ s. Stays s × (s.effects ≡ n))
            (do
              now ← observe w.now_ms
              if after_ms (until_ms w rec.until) now || rec.legal_hold
                  then (do
                    at ← observe w.now_iso
                    append_and_anchor a rec.log_id (delete_attempt_leaf w id at tenant)
                    throw (problem retention_locked))
                  else write
                      (λ store. Store.update_evidence store id (λ r. record r { deleted = true })))
            Never
            Stays
    locked_delete tenant n locked =
        triple_bind (λ now s. Stays s × (now ≡ w.now_ms n)) (now_lem n)
          (λ now. triple_given (λ e.
            triple_if (after_ms (until_ms w rec.until) now || rec.legal_hold)
              (λ f. triple_bind _ (IsStaying-observe IsThere leaf_apart w.now_iso) (λ at.
                triple_bind _
                  (IsStaying-append IsThere leaf_apart a rec.log_id
                    (delete_attempt_leaf w id at tenant))
                  (λ _. triple_throw _ (λ s p. p))))
              (λ f.
                let e' = ap (λ z. after_ms (until_ms w rec.until) z || rec.legal_hold) e in
                absurd (cc (e', f, locked)))))

    read_lem :
        (n : ℕ)
        → Triple
            (λ s. Stays s × (s.effects ≡ n))
            (read (λ store. get_evidence_by_id store id))
            (λ looked s. (Stays s × (s.effects ≡ n)) × (get_evidence_by_id s.store id ≡ looked))
            Stays
    unfolding read
    read_lem n = record { at = λ s p. (p, refl) }

    found_live :
        (tenant : Text) (n : ℕ) (looked : Option EvidenceRecord)
        → Triple
            (λ s. (Stays s × (s.effects ≡ n)) × (get_evidence_by_id s.store id ≡ looked))
            (live looked)
            (λ r s. (Stays s × (s.effects ≡ n)) × (r ≡ rec))
            Stays
    unfolding live
    found_live tenant n none = triple_throw _ (λ s ((p, q), e). p)
    found_live tenant n (some r) =
        triple_if r.deleted (λ f. triple_throw _ (λ s ((p, q), e). p))
          (λ f. triple_pure r (λ s ((p, q), e). ((p, q), some_inj (sym e ∙ p))))

    delete_lem :
        (tenant : Text) (n : ℕ)
        → IsLocked n
        → Triple (λ s. Stays s × (s.effects ≡ n)) (delete_evidence w a id tenant) Never Stays
    unfolding delete_evidence
    delete_lem tenant n locked =
        triple_bind
          (λ looked s. (Stays s × (s.effects ≡ n)) × (get_evidence_by_id s.store id ≡ looked))
          (read_lem n)
          (λ looked.
            triple_bind (λ r s. (Stays s × (s.effects ≡ n)) × (r ≡ rec))
              (found_live tenant n looked)
              (λ r. triple_given (λ e. rw e (
                triple_if (not (rec.tenant =t= tenant)) (λ f. triple_throw _ (λ s (p, q). p))
                  (λ f. locked_delete tenant n locked)))))

    no_answer :
        (r : Result (Unit {0})) (t : Ledger)
        → Outcome Never Stays r t
        → ((x : Unit {0}) → r ≢ ok x) × Stays t
    no_answer (ok x) t p = absurd p
    no_answer (err e) t p = ((λ x h. cc), p)
    no_answer stuck t p = ((λ x h. cc), p)

    -- An attempt to delete evidence that is under legal hold, or whose expiry is after the clock's
    -- reading, is not answered with success, whoever asks, and the evidence is there afterwards, as it
    -- was.
    pub locked_evidence_stays :
        (tenant : Text) (s : Ledger)
        → get_evidence_by_id s.store id ≡ some rec
        → IsLocked s.effects
        → ((x : Unit {0}) → (delete_evidence w a id tenant s).0 ≢ ok x)
          × (get_evidence_by_id (delete_evidence w a id tenant s).1.store id ≡ some rec)
    locked_evidence_stays tenant s found locked =
        no_answer _ _ ((delete_lem tenant s.effects locked).at s (found, refl))
