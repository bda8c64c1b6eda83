-- ===== src/Ledger/Answers.antt =====
-- The answers of getAttestation of LedgerService.
use hara_registry.Prelude.{
  ℕ, zero, suc, ◌≤◌, ◌<◌, ◌≡◌, refl, sym, ap, ◌∙◌, arith, true, Option, none, some, List, [], ◌∷◌,
  All, length, get_or, get_elem?, Option-cases, inl, inr,
}
use mathlib.Core.Path.{subst}
use hara_registry.Errors.{Result, ok, ok_inj, >>=_parts}
use hara_registry.Sha256.{Bytes, Text, IsByte, Sha256, hash_leaf}
use hara_registry.Hex.{from_hex, to_hex, decode_all}
use hara_registry.Assoc.{lookup}
use hara_registry.TransparencyLog.{
  TransparencyLog, InclusionProof, current_root_hex, root_at_hex, tree_size, leaf_hash_hex,
}
use hara_registry.TransparencyLog.Operations.{
  max_size, leaf_at, root_of, root_at_hex_lem, leaf_hash_hex_lem,
}
use hara_registry.TransparencyLog.Shape.{tree-IsByte, length-tree}
use hara_registry.Verifiers.{verify_inclusion}
use hara_registry.Verifiers.Acceptance.{inclusion_accepted}
use hara_registry.Store.{AttestationRecord, get_leaves, deref, get_attestation_by_id}
use hara_registry.Types.{Sth, Attestation}
use hara_registry.Exec.{Exec, pure, lift, ◌>>=◌}
use hara_registry.Ledger.{Ledger, Anchors, read, anchor, get_log, open_log, make_log, remember}
use hara_registry.Ledger.Invariant.{IsConsistent, AttestationFits}
use hara_registry.Ledger.History.{opened_leaves}
use hara_registry.Ledger.Attestations.{build_attestation_dto, get_attestation, attestation_dto}

-- What follows a step that answers.
bind-ok :
    {A B : Type 0} (m : Exec Ledger A) (f : A → Exec Ledger B) (s : Ledger) (x : A) (r : Result B)
    → (m s).0 ≡ ok x
    → (f x (m s).1).0 ≡ r
    → ((m >>= f) s).0 ≡ r
unfolding ◌>>=◌
bind-ok m f s x r e h = rw (e) h

bind-lift :
    {A B : Type 0} (r : Result A) (f : A → Exec Ledger B) (s : Ledger) (x : A) (y : Result B)
    → r ≡ ok x
    → (f x s).0 ≡ y
    → ((lift r >>= f) s).0 ≡ y
unfolding lift
bind-lift r f s x y e h = bind-ok (lift r) f s x y e h

some_inj {ℓ} : {A : Type ℓ} {x y : A} → some x ≡ some y → x ≡ y
some_inj e = cc

get_elem?-All {ℓ} :
    {A : Type ℓ} (P : A → Type 0) (xs : List A) (i : ℕ) (x : A)
    → All P xs
    → get_elem? xs i ≡ some x
    → P x
get_elem?-All P [] i x h e = absurd (cc)
get_elem?-All P (y ∷ ys) zero x (py, h) e = subst P (some_inj e) py
get_elem?-All P (y ∷ ys) (suc i) x (py, h) e = get_elem?-All P ys i x h e

module _ ⦃sha : Sha256⦄ where
  stored-Fits :
      (s : Ledger) (id : Text) (rec : AttestationRecord)
      → IsConsistent s.store s.logs
      → get_attestation_by_id s.store id ≡ some rec
      → AttestationFits s.store rec
  unfolding get_attestation_by_id
  stored-Fits s id rec c e = elim (Option-cases (lookup id s.store.att_by_id)) [
    | inl missing ↦ absurd (cc (ap (deref s.store.atts) (sym missing) ∙ e))
    | inr (ref, there) ↦
        get_elem?-All (AttestationFits s.store) s.store.atts ref rec c.atts_fit
          (ap (deref s.store.atts) (sym there) ∙ e)
  ]

  open_log-ok :
      (id : Text) (s : Ledger) (known : Option TransparencyLog) (leaves : List Bytes)
      → decode_all (get_leaves s.store id) ≡ ok leaves
      → (tl : TransparencyLog) × ((open_log id known s).0 ≡ ok tl)
  open_log-ok id s (some tl) leaves e = unfold open_log pure in (tl, refl)
  open_log-ok id s none leaves e =
      unfold open_log read ◌>>=◌ lift make_log remember pure in
      (record { log_id = id; leaves = leaves }, rw (e) refl)

  get_log-ok :
      (id : Text) (s : Ledger) (leaves : List Bytes)
      → decode_all (get_leaves s.store id) ≡ ok leaves
      → (tl : TransparencyLog) × ((get_log id s).0 ≡ ok tl)
  unfolding get_log
  get_log-ok id s leaves e = open_log-ok id s (lookup id s.logs) leaves e

  -- The record's hash is the log's hash of the leaf at its index.
  stored_hash :
      (tl : TransparencyLog) (leaves : List Bytes) (i : ℕ) (stored hash : Text)
      → tl.leaves ≡ leaves
      → i < length tl.leaves
      → stored ≡ to_hex (hash_leaf (get_or leaves i []))
      → leaf_hash_hex tl i ≡ ok hash
      → stored ≡ hash
  stored_hash tl leaves i stored hash same lt e h =
      e
      ∙ ap (λ (t : List Bytes). to_hex (hash_leaf (get_or t i []))) (sym same)
      ∙ ok_inj (sym (leaf_hash_hex_lem tl i lt) ∙ h)

  verified_as :
      (leaf leaf' root root' : Text) (inclusion : InclusionProof)
      → leaf' ≡ leaf
      → root' ≡ root
      → verify_inclusion leaf inclusion root ≡ ok true
      → verify_inclusion leaf' inclusion root' ≡ ok true
  verified_as leaf leaf' root root' inclusion e f h = rw (e, f) h

  length-decode_all :
      (texts : List Text) (leaves : List Bytes)
      → decode_all texts ≡ ok leaves
      → length leaves ≡ length texts
  unfolding decode_all
  length-decode_all [] leaves e = ap (λ (t : List Bytes). length t) (sym (ok_inj e))
  length-decode_all (t ∷ ts) leaves e =
      let (b, decoded, later) = >>=_parts (from_hex t) _ e in
      let (bs, rest, whole) = >>=_parts (decode_all ts) _ later in
      ap (λ (t : List Bytes). length t) (sym (ok_inj whole)) ∙ ap suc (length-decode_all ts bs rest)

  whole_root : (tl : TransparencyLog) → root_at_hex tl (length tl.leaves) ≡ current_root_hex tl
  unfolding root_at_hex current_root_hex
  whole_root tl = ground arith

  -- The anchor service answers for a log, whatever root of 32 bytes, written by toHex, and
  -- whatever size up to 2^30 it is asked for.
  abbrev pub IsAnswering : Anchors → Text → Type 0
  IsAnswering a log_id =
      (call : ℕ) (root : Bytes) (size : ℕ)
      → All IsByte root
      → length root ≡ 32
      → size ≤ max_size
      → (sth : Sth) × (a.anchor_sth call log_id (to_hex root) size ≡ ok sth)

  -- In a state whose logs and attestations agree with the store, a known attestation whose log has
  -- at most 2^30 leaves is returned, where the anchor service answers for every root of 32 bytes of a size
  -- up to 2^30, and verifyInclusion accepts the inclusion proof of its leaf hash under its head's root.
  pub attestation_verifies :
      (a : Anchors) (s : Ledger) (id : Text) (rec : AttestationRecord)
      → IsConsistent s.store s.logs
      → get_attestation_by_id s.store id ≡ some rec
      → length (get_leaves s.store rec.log_id) ≤ max_size
      → IsAnswering a rec.log_id
      → (dto : Attestation) × ((get_attestation a id s).0 ≡ ok dto)
        × (verify_inclusion dto.log.leaf_hash dto.inclusion_proof dto.sth.root_hash ≡ ok true)
  unfolding get_attestation build_attestation_dto attestation_dto read pure anchor tree_size
  attestation_verifies a s id rec c stored small answers =
      let fit = stored-Fits s id rec c stored in
      let (tl, opened) = get_log-ok rec.log_id s fit.leaves fit.decoded in
      let same : tl.leaves ≡ fit.leaves =
        ok_inj (sym (opened_leaves rec.log_id s tl c opened) ∙ fit.decoded) in
      let in_range : rec.leaf_index < length tl.leaves = rw (same) fit.in_range in
      let fits : length tl.leaves ≤ max_size =
        rw (same)
          (rw (length-decode_all (get_leaves s.store rec.log_id) fit.leaves fit.decoded) small) in
      let (leaf, inclusion, root, hashed, proved, rooted, verified) =
        inclusion_accepted tl rec.leaf_index (length tl.leaves) in_range (omega arith) fits in
      let bytes = root_of tl (length tl.leaves) in
      let written : root ≡ to_hex bytes =
        ok_inj (sym rooted ∙ root_at_hex_lem tl (length tl.leaves) (omega arith) fits) in
      let (sth, anchored') =
        answers (get_log rec.log_id s).1.effects bytes (length tl.leaves)
          (tree-IsByte (leaf_at tl) 30 0 (length tl.leaves))
          (length-tree (leaf_at tl) 30 0 (length tl.leaves)) fits in
      let anchored : a.anchor_sth (get_log rec.log_id s).1.effects rec.log_id root
            (length tl.leaves)
          ≡ ok sth =
        rw written anchored' in
      let (_, same_root, _) = a.same_head _ _ _ _ sth anchored in
      (
        attestation_dto rec inclusion sth,
        bind-ok _ _ s _ _ (ap ok stored) (
            bind-ok _ _ s rec _ refl (
              bind-ok _ _ s tl _ opened (
                bind-lift _ _ _ inclusion _ proved (
                  bind-lift _ _ _ root _ (sym (whole_root tl) ∙ rooted)
                    (bind-ok _ _ _ sth _ anchored refl))))),
        verified_as leaf rec.leaf_hash root sth.root_hash inclusion
            (stored_hash tl fit.leaves rec.leaf_index rec.leaf_hash leaf same in_range fit.hashed
              hashed)
            same_root verified,
      )
