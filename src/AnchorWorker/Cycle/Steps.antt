-- ===== src/AnchorWorker/Cycle/Steps.antt =====
-- The steps of a cycle of the anchor worker, against what is kept on every path.
use hara_registry.Prelude.{
  ℕ, codes, ◌+◌, ◌≡◌, refl, sym, ◌∙◌, some, List, [], ◌∷◌, ◌++◌, length, ◌⊎◌, inl, inr, Has,
  Bool-cases, ◌=t=◌, =t=-refl,
}
use mathlib.Core.Path.{subst}
use hara_registry.Errors.{error}
use hara_registry.Sha256.{Bytes, Text}
use hara_registry.Hex.{lc, hex_body}
use hara_registry.AnchorService.{AnchorArgs}
use hara_registry.Assoc.{Assoc, lookup, insert, lookup-insert}
use hara_registry.Exec.Triples.{
  Triple, triple_bind, triple_pure, triple_throw, triple_gets, triple_if, triple_run, triple_value,
  triple_change,
}
use hara_registry.AnchorWorker.Cycle.{
  Config, SignatureRow, Outside, Worker, use_of, reach, ensure_bucket, insert_row, persist_anchor,
  record_anchor, anchor_id_of,
}

-- A row's object is in the object store, whole.
abbrev pub HasBlob : Assoc Bytes → SignatureRow → Type 0
HasBlob blobs row =
    (blob : Bytes) × (lookup row.object_key blobs ≡ some blob)
    × (length blob ≡ 3309)
    × (row.size_bytes ≡ 3309)

abbrev pub IsBacked : Assoc Bytes → List SignatureRow → Type 0
IsBacked blobs rows = (row : SignatureRow) → Has row rows → HasBlob blobs row

-- Between the writes: the cursor is at `c`, every row has its blob, and `X` holds of what was sent.
abbrev pub Mid : ℕ → (List AnchorArgs → Type 0) → Worker → Type 0
Mid c X t = (t.anchored_blocks ≡ c) × IsBacked t.blobs t.rows × X t.submitted

abbrev pub Any : List AnchorArgs → Type 0
Any sent = Unit {0}

forget : (c : ℕ) (X : List AnchorArgs → Type 0) (t : Worker) → Mid c X t → Mid c Any t
forget c X t (p, q, r) = (p, q, tt)

insert-IsBacked :
    (key : Text) (blob : Bytes) (blobs : Assoc Bytes) (rows : List SignatureRow)
    → length blob ≡ 3309
    → IsBacked blobs rows
    → IsBacked (insert key blob blobs) rows
insert-IsBacked key blob blobs rows len h row there =
    let (old, found, old_len, size) = h row there in
    elim (Bool-cases (key =t= row.object_key)) [
      | inl same ↦ (blob, lookup-insert key row.object_key blob blobs ∙ rw same refl, len, size)
      | inr other ↦
          (old, lookup-insert key row.object_key blob blobs ∙ rw other found, old_len, size)
    ]

append-Has : (args : AnchorArgs) (sent : List AnchorArgs) → Has args (sent ++ (args ∷ []))
append-Has args [] = inl refl
append-Has args (x ∷ xs) = inr (append-Has args xs)

insert_row-Has :
    (new row : SignatureRow) (rows : List SignatureRow)
    → Has row (insert_row new rows)
    → (row ≡ new) ⊎ Has row rows
unfolding insert_row
insert_row-Has new row [] h = elim h [ inl e ↦ inl e | inr k ↦ absurd k ]
insert_row-Has new row (r ∷ rs) h =
    let rest = insert_row-Has new row rs in
    elim (Bool-cases (r.commitment_hash =t= new.commitment_hash)) [
      | inl same ↦ inr (rw same at h)
      | inr other ↦ elim (rw other at h) [
        | inl e ↦ inr (inl e)
        | inr k ↦ elim (rest k) [ inl e ↦ inl e | inr there ↦ inr (inr there) ]
      ]
    ]

insert_row-IsBacked :
    (new : SignatureRow) (blobs : Assoc Bytes) (rows : List SignatureRow)
    → HasBlob blobs new
    → IsBacked blobs rows
    → IsBacked blobs (insert_row new rows)
insert_row-IsBacked new blobs rows h k row there = elim (insert_row-Has new row rows there) [
  | inl e ↦ subst (HasBlob blobs) (sym e) h
  | inr old ↦ k row old
]

module _ {A : Type 0} {P : Worker → Type 0} {Q : A → Worker → Type 0} {E : Worker → Type 0} where
  pub triple_use :
      (f : ℕ → A)
      → ((s : Worker) → P s → Q (f s.uses) (record s { uses = s.uses + 1 }))
      → Triple P (use_of f) Q E
  unfolding use_of
  triple_use f h = triple_run _ h

module _ (out : Outside) (c : ℕ) (X : List AnchorArgs → Type 0) where
  pub reach_keeps : Triple (Mid c X) (reach out) (λ _. Mid c X) (Mid c Any)
  unfolding reach
  reach_keeps =
      triple_bind (λ down. Mid c X) (triple_use out.breaks (λ s p. p))
        (λ down.
          triple_if down (λ e. triple_throw error (forget c X)) (λ e. triple_pure tt (λ s p. p)))

  reach_puts :
      (key : Text) (signature : Bytes)
      → Triple
          (λ t. Mid c X t × (lookup key t.blobs ≡ some signature))
          (reach out)
          (λ _ t. Mid c X t × (lookup key t.blobs ≡ some signature))
          (Mid c Any)
  unfolding reach
  reach_puts key signature =
      let put : Worker → Type 0 = λ t. Mid c X t × (lookup key t.blobs ≡ some signature) in
      triple_bind (λ down. put) (triple_use out.breaks (λ s p. p))
        (λ down.
          triple_if down (λ e. triple_throw error (λ s (p, q). forget c X s p))
            (λ e. triple_pure tt (λ s p. p)))

  ensure_bucket_keeps : Triple (Mid c X) (ensure_bucket out) (λ _. Mid c X) (Mid c Any)
  unfolding ensure_bucket
  ensure_bucket_keeps =
      triple_bind (λ ready. Mid c X) (triple_gets _ (λ s p. p))
        (λ ready.
          triple_if ready (λ e. triple_pure tt (λ s p. p))
            (λ e.
              triple_bind (λ exists. Mid c X) (triple_use out.bucket_exists (λ s p. p))
                (λ exists.
                  triple_bind (λ _. Mid c X)
                    (triple_if exists (λ e. triple_pure tt (λ s p. p)) (λ e. reach_keeps))
                    (λ _. triple_change _ (λ s p. p)))))

  pub persist_anchor_keeps :
      (config : Config) (commitment_hash anchor_tx_hash signature : Bytes)
      → length signature ≡ 3309
      → Triple
          (Mid c X)
          (persist_anchor out config commitment_hash anchor_tx_hash signature)
          (λ _. Mid c X)
          (Mid c Any)
  unfolding persist_anchor
  persist_anchor_keeps config commitment_hash anchor_tx_hash signature len =
      let key = lc config.algorithm ++ (b'/' ∷ (hex_body commitment_hash ++ codes ".sig")) in
      let put : Worker → Type 0 = λ t. Mid c X t × (lookup key t.blobs ≡ some signature) in
      triple_bind (λ _. Mid c X) ensure_bucket_keeps
        (λ _.
          triple_bind (λ _. Mid c X) reach_keeps
            (λ _.
              triple_bind (λ _. put)
                (triple_change _ (λ s (p, q, r). (
                  (p, insert-IsBacked key signature s.blobs s.rows len q, r),
                  lookup-insert key key signature s.blobs ∙ rw (=t=-refl key) refl,
                )))
                (λ _.
                  triple_bind (λ _. put) (reach_puts key signature)
                    (λ _. triple_change _ (λ s ((p, q, r), there). (
                      p,
                      insert_row-IsBacked _ s.blobs s.rows (signature, there, len, len) q,
                      r,
                    ))))))

module _ (out : Outside) (c : ℕ) where
  pub record_anchor_keeps :
      (config : Config) (args : AnchorArgs)
      → Triple (Mid c Any) (record_anchor out config args) (λ _. Mid c (Has args)) (Mid c Any)
  unfolding record_anchor
  record_anchor_keeps config args =
      triple_bind (λ sent. Mid c Any) (triple_use _ (λ s p. p))
        (λ sent.
          triple_bind (λ tx. Mid c Any) (triple_value sent (λ x s e p. p) (λ s p. p))
            (λ tx_hash.
              triple_bind (λ _. Mid c (Has args))
                (triple_change _ (λ s (p, q, r). (p, q, append-Has args s.submitted)))
                (λ _.
                  triple_bind (λ answer. Mid c (Has args)) (triple_use _ (λ s p. p))
                    (λ answer.
                      triple_bind (λ receipt. Mid c (Has args))
                        (triple_value answer (λ x s e p. p) (forget c (Has args)))
                        (λ receipt.
                          triple_bind (λ id. Mid c (Has args))
                            (triple_value
                              (anchor_id_of out.big_int config.pq_anchor_address receipt.logs)
                              (λ x s e p. p) (forget c (Has args)))
                            (λ anchor_id. triple_pure (tx_hash, anchor_id) (λ s p. p)))))))
