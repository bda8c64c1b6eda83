-- ===== src/Ledger/Revoked.antt =====
-- A revoked attestation over the calls of LedgerService.
use hara_registry.Prelude.{
  ℕ, suc, zero, ◌≡◌, ◌≢◌, refl, sym, ap, ◌∙◌, not, false, Option, Option-cases, none, some, List,
  [], ◌∷◌, ◌++◌, get_elem?, ◌=t=◌, inl, inr,
}
use hara_registry.Sha256.{Text, Sha256}
use hara_registry.Assoc.{Assoc, lookup}
use hara_registry.Store.{
  MemoryStore, AttestationRecord, RecordStatus, revoked, deref, get_attestation_by_id,
  put_attestation, set_attestation_status, update,
}
use hara_registry.Exec.{Exec}
use hara_registry.Exec.Triples.{
  Triple, triple_bind, triple_pure, triple_throw, triple_if, triple_weaken,
}
use hara_registry.Ledger.{World, Anchors, Ledger, read, write}
use hara_registry.Ledger.Staying.{any_end, IsStaying-write}
use hara_registry.Ledger.Records.{
  Attestations, leaf_apart, IsApart, get_attestation-IsApart, get_inclusion-IsApart,
  get_status_record-IsApart, submit_checkpoint-IsApart, get_evidence-IsApart,
  register_evidence-IsApart, update_retention-IsApart, delete_evidence-IsApart,
  get_consistency-IsApart, verify_bundle-IsApart, change_status-IsApart, anchor_attestation-IsApart,
}
use hara_registry.Ledger.Attestations.{
  Action, found, is_revoked, status_after, change_status, set_status,
}
use hara_registry.Ledger.Service.{
  Call, anchoring, attestation_of, inclusion_of, status_of, status_change, checkpoint,
  consistency_of, evidence_registration, evidence_of, retention_update, evidence_deletion,
  bundle_of, perform, perform_all,
}

some_inj : {V : Type 0} {x y : V} → some x ≡ some y → x ≡ y
some_inj e = cc

get_elem?-append :
    {V : Type 0} (xs ys : List V) (i : ℕ) (x : V)
    → get_elem? xs i ≡ some x
    → get_elem? (xs ++ ys) i ≡ some x
get_elem?-append [] ys i x e = absurd (cc)
get_elem?-append (y ∷ xs) ys zero x e = e
get_elem?-append (y ∷ xs) ys (suc i) x e = get_elem?-append xs ys i x e

get_elem?-update :
    {V : Type 0} (f : V → V) (j i : ℕ) (xs : List V)
    → j ≢ i
    → get_elem? (update f j xs) i ≡ get_elem? xs i
unfolding update
get_elem?-update f j i [] d = refl
get_elem?-update f zero zero (x ∷ xs) d = absurd (d refl)
get_elem?-update f zero (suc i) (x ∷ xs) d = refl
get_elem?-update f (suc j) zero (x ∷ xs) d = refl
get_elem?-update f (suc j) (suc i) (x ∷ xs) d = get_elem?-update f j i xs (λ e. d (ap suc e))

module _ (i : ℕ) (rec : AttestationRecord) (gone : rec.status ≡ revoked) where
  -- The object is there, as it is.
  abbrev IsThere : List AttestationRecord → Assoc ℕ → Type 0
  IsThere atts ids = get_elem? atts i ≡ some rec

  -- And `id` does not lead to it.
  abbrev IsOther : Text → List AttestationRecord → Assoc ℕ → Type 0
  IsOther id atts ids = (get_elem? atts i ≡ some rec) × (lookup id ids ≢ some i)

  module _ ⦃sha : Sha256⦄ (w : World) (a : Anchors) where
    abbrev Keeps : {A : Type 0} → Exec Ledger A → Type 0
    Keeps m = IsApart IsThere a w m

    put_there : (new : AttestationRecord) → Keeps (write (λ st. put_attestation st new))
    unfolding put_attestation
    put_there new =
        IsStaying-write _ (leaf_apart IsThere) _
          (λ st p. get_elem?-append st.atts (new ∷ []) i rec p)

    set-IsOther :
        (id : Text) (status : RecordStatus) (st : MemoryStore)
        → Attestations (IsOther id) st
        → Attestations (IsOther id) (set_attestation_status st id status)
    unfolding set_attestation_status
    set-IsOther id status st (p, d) = elim (Option-cases (lookup id st.att_by_id)) [
      | inl unknown ↦ rw (unknown, set_attestation_status) (p, d)
      | inr (ref, known) ↦
          rw (known, set_attestation_status)
            (get_elem?-update _ ref i st.atts (λ e. d (known ∙ ap some e)) ∙ p, d)
    ]

    set-IsOther-IsApart :
        (id : Text) (status : RecordStatus)
        → IsApart (IsOther id) a w (write (λ st. set_attestation_status st id status))
    set-IsOther-IsApart id status =
        IsStaying-write _ (leaf_apart (IsOther id)) _ (set-IsOther id status)

    change-IsOther :
        (old : AttestationRecord) (id : Text) (next : RecordStatus) (reason : Text)
        (by : Option Text) (actor : Text)
        → IsApart (IsOther id) a w (change_status w a old id next reason by actor)
    change-IsOther old id next reason by actor =
        change_status-IsApart (IsOther id) a w old id next reason by actor
          (set-IsOther-IsApart id next)

    abbrev Found : Text → Option AttestationRecord → Ledger → Type 0
    Found id looked s =
        (get_elem? s.store.atts i ≡ some rec) × (get_attestation_by_id s.store id ≡ looked)

    abbrev There : Ledger → Type 0
    There s = get_elem? s.store.atts i ≡ some rec

    -- A record that is not revoked is not the one that stays.
    not_the_one :
        (id : Text) (old : AttestationRecord) (s : Ledger)
        → is_revoked w a old.status ≡ false
        → Found id (some old) s
        → Attestations (IsOther id) s.store
    unfolding get_attestation_by_id
    not_the_one id old s live (p, e) = (
      p,
      λ leads.
          let same : rec ≡ old = some_inj (sym p ∙ ap (deref s.store.atts) (sym leads) ∙ e) in
          let both : is_revoked w a revoked ≡ false =
            ap (is_revoked w a) (sym gone ∙ ap (λ (r : AttestationRecord). r.status) same) ∙ live in
          unfold is_revoked in absurd (cc both),
    )

    found_lem :
        (id : Text) (looked : Option AttestationRecord)
        → Triple (Found id looked) (found looked) (λ old. Found id (some old)) There
    found_lem id none = triple_throw _ (λ s (p, e). p)
    found_lem id (some old) = triple_pure old (λ s p. p)

    set_status-Keeps :
        (id : Text) (action : Action) (reason : Text) (by : Option Text) (actor : Text)
        → Keeps (set_status w a id action reason by actor)
    unfolding set_status read
    set_status-Keeps id action reason by actor =
        triple_bind (λ looked. Found id looked) (record { at = λ s p. (p, refl) })
          (λ looked.
            triple_bind (λ old. Found id (some old)) (found_lem id looked)
              (λ old.
                triple_if (not (old.tenant =t= actor)) (λ e. triple_throw _ (λ s (p, e). p))
                  (λ e.
                    triple_if (is_revoked w a old.status) (λ f. triple_throw _ (λ s (p, e). p))
                      (λ f.
                        triple_weaken (change-IsOther old id (status_after action) reason by actor)
                          (λ s p. not_the_one id old s f p) (λ x s (p, d). p) (λ s (p, d). p)))))

    perform-Keeps : (call : Call) (s : Ledger) → There s → There (perform w a call s)
    unfolding perform
    perform-Keeps (anchoring req tenant) s p =
        any_end (anchor_attestation-IsApart IsThere a w req tenant (λ id at anchored. put_there _))
          s p
    perform-Keeps (attestation_of id) s p = any_end (get_attestation-IsApart IsThere a w id) s p
    perform-Keeps (inclusion_of id size) s p =
        any_end (get_inclusion-IsApart IsThere a w id size) s p
    perform-Keeps (status_of id) s p = any_end (get_status_record-IsApart IsThere a w id) s p
    perform-Keeps (status_change id action reason by actor) s p =
        any_end (set_status-Keeps id action reason by actor) s p
    perform-Keeps (checkpoint id size root) s p =
        any_end (submit_checkpoint-IsApart IsThere a w id size root) s p
    perform-Keeps (consistency_of id from to) s p =
        any_end (get_consistency-IsApart IsThere a w id from to) s p
    perform-Keeps (evidence_registration req tenant) s p =
        any_end (register_evidence-IsApart IsThere a w req tenant) s p
    perform-Keeps (evidence_of id) s p = any_end (get_evidence-IsApart IsThere a w id) s p
    perform-Keeps (retention_update id hold until tenant) s p =
        any_end (update_retention-IsApart IsThere a w id hold until tenant) s p
    perform-Keeps (evidence_deletion id tenant) s p =
        any_end (delete_evidence-IsApart IsThere a w id tenant) s p
    perform-Keeps (bundle_of subject) s p = any_end (verify_bundle-IsApart IsThere a w subject) s p

    -- The object of an attestation that is revoked is the same, field by field, after any list of calls of
    -- the service, whoever makes them and whether they answer or throw: it stays revoked.
    pub revoked_stays :
        (calls : List Call) (s : Ledger)
        → get_elem? s.store.atts i ≡ some rec
        → get_elem? (perform_all w a calls s).store.atts i ≡ some rec
    unfolding perform_all
    revoked_stays [] s p = p
    revoked_stays (call ∷ calls) s p =
        revoked_stays calls (perform w a call s) (perform-Keeps call s p)
