-- ===== src/Routes/Isolation.antt =====
-- The attestations of a tenant against the requests of other tenants.
use hara_registry.Prelude.{
  ℕ, suc, zero, ◌≡◌, ◌≢◌, refl, sym, ap, ◌∙◌, not, true, false, Bool, Option, Option-cases, none,
  some, List, [], ◌∷◌, ◌++◌, All, All-append, get_elem?, ◌=t=◌, =t=_iff, Bool-cases, inl, inr,
  if◌then◌else◌,
}
use hara_registry.Errors.{ok, ProblemCode}
use hara_registry.Sha256.{Text, Sha256}
use hara_registry.Assoc.{Assoc, lookup}
use hara_registry.Store.{
  MemoryStore, AttestationRecord, RecordStatus, deref, get_attestation_by_id, put_attestation,
  set_attestation_status, update,
}
use hara_registry.Types.{AttestationRequest}
use hara_registry.Exec.{Exec}
use hara_registry.Exec.Triples.{
  Triple, triple_bind, triple_lift_bind, triple_pure, triple_throw, triple_if, triple_weaken,
}
use hara_registry.Ledger.{World, Anchors, Ledger, read, write, Appended, tenant_log_id}
use hara_registry.Ledger.Staying.{any_end, IsStaying-write}
use hara_registry.Ledger.Records.{
  Attestations, leaf_apart, IsApart, IsApart-bind, IsApart-pure, IsApart-throw,
  change_status-IsApart, anchor_attestation-IsApart, submit_checkpoint-IsApart,
  register_evidence-IsApart, update_retention-IsApart, delete_evidence-IsApart,
}
use hara_registry.Ledger.Attestations.{
  Action, found, is_revoked, status_after, new_record, set_status,
}
use hara_registry.Auth.{Identity, enforce_tenant}
use hara_registry.Routes.{
  AttestationBody, or_empty_text, refuse, request_of, attestation_problem, Request, attest, change,
  register, retain, delete, check, from, serve, serve_all, post_attestation, post_revoke,
  post_evidence, patch_evidence, remove_evidence, post_checkpoint,
}

some_inj : {V : Type 0} {x y : V} → some x ≡ some y → x ≡ y
some_inj e = cc

not-false : (b : Bool) → not b ≡ false → b ≡ true
not-false true e = refl
not-false false e = cc

-- The attestations with an issuer, in the order of their writing.
unfoldable pub issued_by : Text → List AttestationRecord → List AttestationRecord
issued_by tenant [] = []
issued_by tenant (r ∷ rs) =
    let rest = issued_by tenant rs in if r.issuer =t= tenant then r ∷ rest else rest

abbrev pub IsOwn : AttestationRecord → Type 0
IsOwn r = r.issuer ≡ r.tenant

differ : (t u : Text) → t ≢ u → (t =t= u) ≡ false
differ t u d = elim (Bool-cases (t =t= u)) [
  | inl same ↦ absurd (d ((=t=_iff t u).0 same))
  | inr other ↦ other
]

issued_by-snoc :
    (t : Text) (rs : List AttestationRecord) (r : AttestationRecord)
    → r.issuer ≢ t
    → issued_by t (rs ++ (r ∷ [])) ≡ issued_by t rs
unfolding issued_by
issued_by-snoc t [] r d = rw (differ r.issuer t d) refl
issued_by-snoc t (x ∷ rs) r d = rw (issued_by-snoc t rs r d) refl

-- An assignment that keeps issuer and tenant.
module _ (f : AttestationRecord → AttestationRecord)
    (same : (r : AttestationRecord) → ((f r).issuer ≡ r.issuer) × ((f r).tenant ≡ r.tenant)) where
  update-IsOwn : (i : ℕ) (rs : List AttestationRecord) → All IsOwn rs → All IsOwn (update f i rs)
  unfolding update
  update-IsOwn i [] h = tt
  update-IsOwn zero (r ∷ rs) (p, h) = ((same r).0 ∙ p ∙ sym (same r).1, h)
  update-IsOwn (suc i) (r ∷ rs) (p, h) = (p, update-IsOwn i rs h)

  issued_by-update :
      (t : Text) (i : ℕ) (rs : List AttestationRecord)
      → ((r : AttestationRecord) → get_elem? rs i ≡ some r → r.issuer ≢ t)
      → issued_by t (update f i rs) ≡ issued_by t rs
  unfolding issued_by update
  issued_by-update t i [] d = refl
  issued_by-update t zero (r ∷ rs) d =
      let other : (r.issuer =t= t) ≡ false = differ r.issuer t (d r refl) in
      let other' : ((f r).issuer =t= t) ≡ false = ap (λ u. u =t= t) (same r).0 ∙ other in
      rw (other, other') refl
  issued_by-update t (suc i) (r ∷ rs) d = rw (issued_by-update t i rs d) refl

  update_tenant :
      (i : ℕ) (rs : List AttestationRecord) (r : AttestationRecord)
      → get_elem? (update f i rs) i ≡ some r
      → (old : AttestationRecord) × (get_elem? rs i ≡ some old) × (old.tenant ≡ r.tenant)
  unfolding update
  update_tenant i [] r e = absurd (cc)
  update_tenant zero (x ∷ rs) r e =
      (x, refl, sym (same x).1 ∙ ap (λ (z : AttestationRecord). z.tenant) (some_inj e))
  update_tenant (suc i) (x ∷ rs) r e = update_tenant i rs r e

own_at :
    (i : ℕ) (rs : List AttestationRecord) (r : AttestationRecord)
    → All IsOwn rs
    → get_elem? rs i ≡ some r
    → r.issuer ≡ r.tenant
own_at i [] r h e = absurd (cc)
own_at zero (x ∷ rs) r (p, h) e =
    let same : x ≡ r = cc in
    sym (ap (λ (z : AttestationRecord). z.issuer) same)
    ∙ p
    ∙ ap (λ (z : AttestationRecord). z.tenant) same
own_at (suc i) (x ∷ rs) r (p, h) e = own_at i rs r h e

module _ (t : Text) (before : List AttestationRecord) where
  -- The attestations of issuer `t` are those of before, and each one's tenant is its issuer.
  abbrev IsKept : List AttestationRecord → Assoc ℕ → Type 0
  IsKept atts ids = All IsOwn atts × (issued_by t atts ≡ before)

  -- And `id` leads to an attestation of another tenant, if to any.
  abbrev IsForeign : Text → List AttestationRecord → Assoc ℕ → Type 0
  IsForeign id atts ids =
      IsKept atts ids
      × ((ref : ℕ) (r : AttestationRecord)
          → lookup id ids ≡ some ref
          → get_elem? atts ref ≡ some r
          → r.tenant ≢ t)

  set-IsForeign :
      (id : Text) (status : RecordStatus) (st : MemoryStore)
      → Attestations (IsForeign id) st
      → Attestations (IsForeign id) (set_attestation_status st id status)
  unfolding set_attestation_status
  set-IsForeign id status st ((own, kept), other) = elim (Option-cases (lookup id st.att_by_id)) [
    | inl unknown ↦ rw (unknown, set_attestation_status) ((own, kept), other)
    | inr (ref, known) ↦
        rw (known, set_attestation_status)
          (
            (
              update-IsOwn _ (λ r. (refl, refl)) ref st.atts own,
              issued_by-update _ (λ r. (refl, refl)) t ref st.atts
                    (λ r e same. other ref r known e (sym (own_at ref st.atts r own e) ∙ same))
                  ∙ kept,
            ),
            λ at r leads e.
                let here : ref ≡ at = cc (known, leads) in
                let (old, e', same) =
                  update_tenant _ (λ r. (refl, refl)) ref st.atts r (rw (sym here) at e) in
                λ mine. other ref old known e' (same ∙ mine),
          )
  ]

  module _ ⦃sha : Sha256⦄ (w : World) (a : Anchors) where
    abbrev Keeps : {A : Type 0} → Exec Ledger A → Type 0
    Keeps m = IsApart IsKept a w m

    abbrev Kept : Ledger → Type 0
    Kept s = Attestations IsKept s.store

    refuse-Keeps :
        {A : Type 0} (o : Option ProblemCode) (m : Exec Ledger A) → Keeps m → Keeps (refuse o m)
    refuse-Keeps none m h = h
    refuse-Keeps (some code) m h = IsApart-throw IsKept a w _

    put-Keeps :
        (req : AttestationRequest) (tenant id : Text) (at : Appended) (anchored : Text)
        → req.issuer ≡ tenant
        → tenant ≢ t
        → Keeps (
            write (λ st.
              put_attestation st (new_record req tenant (tenant_log_id tenant) id at anchored)))
    unfolding put_attestation new_record
    put-Keeps req tenant id at anchored own other =
        IsStaying-write _ (leaf_apart IsKept) _ (λ st (h, k). (
          All-append IsOwn st.atts _ h (own, tt),
          issued_by-snoc t st.atts _ (λ e. other (sym own ∙ e)) ∙ k,
        ))

    Found : Text → Option AttestationRecord → Ledger → Type 0
    Found id looked s = Kept s × (get_attestation_by_id s.store id ≡ looked)

    found_lem :
        (id : Text) (looked : Option AttestationRecord)
        → Triple (Found id looked) (found looked) (λ old. Found id (some old)) Kept
    unfolding Found
    found_lem id none = triple_throw _ (λ s (p, e). p)
    found_lem id (some old) = triple_pure old (λ s p. p)

    found-IsForeign :
        (id : Text) (old : AttestationRecord) (s : Ledger)
        → old.tenant ≢ t
        → Found id (some old) s
        → Attestations (IsForeign id) s.store
    unfolding Found get_attestation_by_id
    found-IsForeign id old s other (p, e) = (
      p,
      λ ref r leads there mine.
          let same : old ≡ r = some_inj (sym e ∙ ap (deref s.store.atts) leads ∙ there) in
          other (ap (λ (z : AttestationRecord). z.tenant) same ∙ mine),
    )

    set_status-Keeps :
        (id : Text) (action : Action) (reason : Text) (by : Option Text) (actor : Text)
        → actor ≢ t
        → Keeps (set_status w a id action reason by actor)
    unfolding set_status read Found
    set_status-Keeps id action reason by actor other =
        triple_bind (λ looked. Found id looked) (record { at = λ s p. (p, refl) })
          (λ looked.
            triple_bind (λ old. Found id (some old)) (found_lem id looked)
              (λ old.
                triple_if (not (old.tenant =t= actor)) (λ e. triple_throw _ (λ s (p, e). p))
                  (λ e.
                    triple_if (is_revoked w a old.status) (λ f. triple_throw _ (λ s (p, e). p))
                      (λ f.
                        let his : old.tenant ≡ actor =
                          (=t=_iff old.tenant actor).0 (not-false _ e) in
                        triple_weaken
                          (change_status-IsApart (IsForeign id) a w old id (status_after action)
                            reason by actor
                            (IsStaying-write _ (leaf_apart (IsForeign id)) _
                              (set-IsForeign id (status_after action))))
                          (λ s p. found-IsForeign id old s (λ mine. other (sym his ∙ mine)) p)
                          (λ x s (p, d). p) (λ s (p, d). p)))))

    enforced :
        (req : Identity) (issuer : Text)
        → enforce_tenant req issuer ≡ ok tt
        → req.tenant_did ≡ issuer
    unfolding enforce_tenant
    enforced req issuer e = elim (Bool-cases (req.tenant_did =t= issuer)) [
      | inl same ↦ (=t=_iff req.tenant_did issuer).0 same
      | inr other ↦ cc (rw other at e)
    ]

    post_attestation-Keeps :
        (req : Identity) (body : AttestationBody)
        → req.tenant_did ≢ t
        → Keeps (post_attestation w a req body)
    unfolding post_attestation
    post_attestation-Keeps req body other = refuse-Keeps (attestation_problem body) _ (
        triple_lift_bind (enforce_tenant req (or_empty_text body.issuer))
          (λ x e.
            IsApart-bind IsKept a w _ _
              (anchor_attestation-IsApart IsKept a w (request_of body) req.tenant_did
                (λ id at anchored.
                  put-Keeps (request_of body) req.tenant_did id at anchored
                    (sym (enforced req (or_empty_text body.issuer) e)) other))
              (λ answer. IsApart-pure IsKept a w _))
          (λ s p. p))

    serve-Keeps :
        (r : Request) (s : Ledger) → (from r).tenant_did ≢ t → Kept s → Kept (serve w a r s)
    unfolding serve from post_revoke post_evidence patch_evidence remove_evidence post_checkpoint
    serve-Keeps (attest req body) s other p = any_end (post_attestation-Keeps req body other) s p
    serve-Keeps (change req id action reason by) s other p =
        any_end
          (refuse-Keeps _ _ (
            IsApart-bind IsKept a w _ _
              (set_status-Keeps id _ (or_empty_text reason) by req.tenant_did other)
              (λ rec. IsApart-pure IsKept a w _)))
          s p
    serve-Keeps (register req hash until basis body) s other p =
        any_end
          (refuse-Keeps _ _ (
            IsApart-bind IsKept a w _ _ (register_evidence-IsApart IsKept a w body req.tenant_did)
              (λ answer. IsApart-pure IsKept a w _)))
          s p
    serve-Keeps (retain req id hold until) s other p =
        any_end (refuse-Keeps _ _ (update_retention-IsApart IsKept a w id _ _ req.tenant_did)) s p
    serve-Keeps (delete req id) s other p =
        any_end
          (IsApart-bind IsKept a w _ _ (delete_evidence-IsApart IsKept a w id req.tenant_did)
            (λ done. IsApart-pure IsKept a w _))
          s p
    serve-Keeps (check req id root size) s other p =
        any_end
          (refuse-Keeps _ _ (
            IsApart-bind IsKept a w _ _
              (submit_checkpoint-IsApart IsKept a w (or_empty_text id) _ (or_empty_text root))
              (λ checkpoint. IsApart-pure IsKept a w _)))
          s p

    serve_all-Keeps :
        (rs : List Request) (s : Ledger)
        → All (λ r. (from r).tenant_did ≢ t) rs
        → Kept s
        → Kept (serve_all w a rs s)
    unfolding serve_all
    serve_all-Keeps [] s others p = p
    serve_all-Keeps (r ∷ rs) s (other, others) p =
        serve_all-Keeps rs (serve w a r s) others (serve-Keeps r s other p)

module _ ⦃sha : Sha256⦄ (w : World) (a : Anchors) where
  -- Where the issuer of each attestation is its tenant, any requests to the routes that write, by tenants
  -- other than `t`, refused ones included, leave it so, and the attestations with the issuer `t` are the
  -- same after them: none is added, and none changes its status or another field.
  pub others_keep_attestations :
      (t : Text) (rs : List Request) (s : Ledger)
      → All IsOwn s.store.atts
      → All (λ r. (from r).tenant_did ≢ t) rs
      → All IsOwn (serve_all w a rs s).store.atts
        × (issued_by t (serve_all w a rs s).store.atts ≡ issued_by t s.store.atts)
  others_keep_attestations t rs s own others =
      serve_all-Keeps t (issued_by t s.store.atts) w a rs s others (own, refl)
