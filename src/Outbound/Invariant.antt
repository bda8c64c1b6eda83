-- ===== src/Outbound/Invariant.antt =====
-- What the tables of transactions and the queue keep.
use hara_registry.Prelude.{
  ℕ, ◌<◌, ◌≡◌, refl, sym, ap, ◌∙◌, none, some, List, [], ◌∷◌, ◌++◌, Has, false, Bool-cases,
  Option-cases, ◌⊎◌, inl, inr, ◌=t=◌, =t=_iff, =t=-refl,
}
use mathlib.Core.Path.{subst}
use hara_registry.Sha256.{Text}
use hara_registry.Assoc.{Assoc, lookup, insert, lookup-insert}
use hara_registry.Outbound.Database.{Database, TxRow, Attempt, update_row}

-- A row that was given its nonce and its signature.
abbrev pub IsSigned : TxRow → Type 0
IsSigned row = (n : ℕ) × (raw : Text) × (row.nonce ≡ some n) × (row.raw_tx ≡ some raw)

abbrev pub IsSignedAt : Assoc TxRow → Text → Type 0
IsSignedAt rows id = (row : TxRow) × (lookup id rows ≡ some row) × IsSigned row

pub record IsSound (max_retries : ℕ) (db : Database) : Type 0 where
  -- A nonce that a row has is below the next one of its wallet.
  pub reserved :
      (id : Text) (row : TxRow) (n : ℕ)
      → lookup id db.transactions ≡ some row
      → row.nonce ≡ some n
      → (k : ℕ) × (lookup row.from_address db.reserved ≡ some k) × (n < k)
  -- No two rows of a wallet have one nonce.
  pub one_nonce :
      (i j : Text) (r q : TxRow) (n : ℕ)
      → lookup i db.transactions ≡ some r
      → lookup j db.transactions ≡ some q
      → r.from_address ≡ q.from_address
      → r.nonce ≡ some n
      → q.nonce ≡ some n
      → i ≡ j
  -- What is in the queue, or waits for a timer, was signed.
  pub signed : (id : Text) → Has id db.queue ⊎ Has id db.delayed → IsSignedAt db.transactions id
  pub few_retries :
      (id : Text) (row : TxRow)
      → lookup id db.transactions ≡ some row
      → (row.retry_count ≡ 0) ⊎ (row.retry_count < max_retries)

-- A look-up after a row was written: the row, or what was there.
pub some_inj : {V : Type 0} {x y : V} → some x ≡ some y → x ≡ y
some_inj e = cc

-- A look-up after a row was written: the row, or what was there.
pub insert_cases :
    {V : Type 0} (id j : Text) (new q : V) (rows : Assoc V)
    → lookup j (insert id new rows) ≡ some q
    → ((id ≡ j) × (new ≡ q)) ⊎ ((id =t= j) ≡ false) × (lookup j rows ≡ some q)
insert_cases id j new q rows h = elim (Bool-cases (id =t= j)) [
  | inl same ↦
      let h' = sym (lookup-insert id j new rows) ∙ h in
      inl ((=t=_iff id j).0 same, some_inj (rw same at h'))
  | inr other ↦ let h' = sym (lookup-insert id j new rows) ∙ h in inr (other, rw other at h')
]

pub lookup_same :
    {V : Type 0} (id : Text) (new : V) (rows : Assoc V) → lookup id (insert id new rows) ≡ some new
lookup_same id new rows = lookup-insert id id new rows ∙ rw (=t=-refl id) refl

pub lookup_other :
    {V : Type 0} (id j : Text) (new : V) (rows : Assoc V)
    → (id =t= j) ≡ false
    → lookup j (insert id new rows) ≡ lookup j rows
lookup_other id j new rows h = lookup-insert id j new rows ∙ rw h refl

module _ (max_retries : ℕ) (db : Database) (id : Text) (new : TxRow) where
  pub signed_after :
      (j : Text)
      → ((old : TxRow) → lookup id db.transactions ≡ some old → IsSigned old → IsSigned new)
      → IsSignedAt db.transactions j
      → IsSignedAt (insert id new db.transactions) j
  signed_after j keep (row, found, s) = elim (Bool-cases (id =t= j)) [
    | inl same ↦
        let e : id ≡ j = (=t=_iff id j).0 same in
        (
          new,
          lookup-insert id j new db.transactions ∙ rw same refl,
          keep row (ap (λ z. lookup z db.transactions) e ∙ found) s,
        )
    | inr other ↦ (row, lookup_other id j new db.transactions other ∙ found, s)
  ]

  -- A row that is written keeps the rules if its nonce is below the next one and no other row of the
  -- wallet has it, if a signed row stays signed, and if it was not retried too often.
  pub insert-IsSound :
      IsSound max_retries db
      → ((n : ℕ)
          → new.nonce ≡ some n
          → ((k : ℕ) × (lookup new.from_address db.reserved ≡ some k) × (n < k))
            × ((j : Text) (q : TxRow)
                → lookup j db.transactions ≡ some q
                → q.from_address ≡ new.from_address
                → q.nonce ≡ some n
                → j ≡ id))
      → ((old : TxRow) → lookup id db.transactions ≡ some old → IsSigned old → IsSigned new)
      → (new.retry_count ≡ 0) ⊎ (new.retry_count < max_retries)
      → IsSound max_retries (record db { transactions = insert id new db.transactions })
  insert-IsSound s nonce_ok keep few = record {
    reserved = λ j row n found has. elim (insert_cases id j new row db.transactions found) [
      | inl (e, same) ↦
          subst (λ z. (k : ℕ) × (lookup z.from_address db.reserved ≡ some k) × (n < k)) same
            (nonce_ok n (ap (λ z. z.nonce) same ∙ has)).0
      | inr (other, old) ↦ s.reserved j row n old has
    ];
    one_nonce = λ i j r q n fi fj from hi hj. elim (insert_cases id i new r db.transactions fi) [
      | inl (e, same) ↦ elim (insert_cases id j new q db.transactions fj) [
        | inl (e', same') ↦ sym e ∙ e'
        | inr (other, old) ↦
            sym e
            ∙ sym (
                (nonce_ok n (ap (λ z. z.nonce) same ∙ hi)).1 j q old
                  (sym (ap (λ z. z.from_address) same ∙ from)) hj)
      ]
      | inr (other, old) ↦ elim (insert_cases id j new q db.transactions fj) [
        | inl (e', same') ↦
            (nonce_ok n (ap (λ z. z.nonce) same' ∙ hj)).1 i r old
              (from ∙ sym (ap (λ z. z.from_address) same')) hi
            ∙ e'
        | inr (other', old') ↦ s.one_nonce i j r q n old old' from hi hj
      ]
    ];
    signed = λ j there. signed_after j keep (s.signed j there);
    few_retries = λ j row found. elim (insert_cases id j new row db.transactions found) [
      | inl (e, same) ↦ subst (λ z. (z.retry_count ≡ 0) ⊎ (z.retry_count < max_retries)) same few
      | inr (other, old) ↦ s.few_retries j row old
    ];
  }

pub update_row-none :
    (id : Text) (f : TxRow → TxRow) (rows : Assoc TxRow)
    → lookup id rows ≡ none
    → update_row id f rows ≡ rows
unfolding update_row
update_row-none id f rows h = rw (h, update_row) refl

pub update_row-some :
    (id : Text) (f : TxRow → TxRow) (row : TxRow) (rows : Assoc TxRow)
    → lookup id rows ≡ some row
    → update_row id f rows ≡ insert id (f row) rows
unfolding update_row
update_row-some id f row rows h = rw (h, update_row) refl

-- A change of a row that leaves its wallet, its nonce and its signed form.
abbrev pub IsSameTx : TxRow → TxRow → Type 0
IsSameTx old new =
    (old.from_address ≡ new.from_address) × (old.nonce ≡ new.nonce) × (old.raw_tx ≡ new.raw_tx)

module _ (max_retries : ℕ) (db : Database) (id : Text) (f : TxRow → TxRow) where
  -- An update of a row that keeps the transaction keeps the rules.
  pub update_row-IsSound :
      IsSound max_retries db
      → ((row : TxRow) → lookup id db.transactions ≡ some row → IsSameTx row (f row))
      → ((row : TxRow)
          → lookup id db.transactions ≡ some row
          → ((f row).retry_count ≡ 0) ⊎ ((f row).retry_count < max_retries))
      → IsSound max_retries (record db { transactions = update_row id f db.transactions })
  update_row-IsSound s same few = elim (Option-cases (lookup id db.transactions)) [
    | inl none_there ↦
        subst (λ z. IsSound max_retries (record db { transactions = z }))
          (sym (update_row-none id f db.transactions none_there)) s
    | inr (row, there) ↦
        let (from, nonce, raw) = same row there in
        subst (λ z. IsSound max_retries (record db { transactions = z }))
          (sym (update_row-some id f row db.transactions there))
          (insert-IsSound max_retries db id (f row) s
            (λ n has.
              let has' = nonce ∙ has in
              (
                subst (λ z. (k : ℕ) × (lookup z db.reserved ≡ some k) × (n < k)) from
                    (s.reserved id row n there has'),
                λ j q found from' has''.
                    s.one_nonce j id q row n found there (from' ∙ sym from) has'' has',
              ))
            (λ old found (n, bytes, hn, hb).
              let e : old ≡ row = some_inj (sym found ∙ there) in
              (
                n,
                bytes,
                sym nonce ∙ ap (λ z. z.nonce) (sym e) ∙ hn,
                sym raw ∙ ap (λ z. z.raw_tx) (sym e) ∙ hb,
              ))
            (few row there))
  ]

-- The rules do not read these parts.
pub IsSound-as :
    (max : ℕ) (db : Database) (attempts : List Attempt) (confirmed : Assoc ℕ) (uses : ℕ)
    → IsSound max db
    → IsSound max (record db { attempts = attempts; confirmed = confirmed; uses = uses })
IsSound-as max db attempts confirmed uses s = record {
  reserved = s.reserved;
  one_nonce = s.one_nonce;
  signed = s.signed;
  few_retries = s.few_retries;
}

Has-snoc : (a x : Text) (xs : List Text) → Has a (xs ++ (x ∷ [])) → Has a xs ⊎ (a ≡ x)
Has-snoc a x [] h = elim h [ inl e ↦ inr e | inr k ↦ absurd k ]
Has-snoc a x (y ∷ ys) h = elim h [
  | inl e ↦ inl (inl e)
  | inr k ↦ elim (Has-snoc a x ys k) [ inl there ↦ inl (inr there) | inr e ↦ inr e ]
]

module _ (max : ℕ) (db : Database) (id : Text) where
  -- A signed row may be queued, and may wait for a timer.
  pub queue-IsSound :
      IsSound max db
      → IsSignedAt db.transactions id
      → IsSound max (record db { queue = db.queue ++ (id ∷ []) })
  queue-IsSound s h = record {
    reserved = s.reserved;
    one_nonce = s.one_nonce;
    signed = λ j there. elim there [
      | inl k ↦ elim (Has-snoc j id db.queue k) [
        | inl old ↦ s.signed j (inl old)
        | inr e ↦ subst (IsSignedAt db.transactions) (sym e) h
      ]
      | inr k ↦ s.signed j (inr k)
    ];
    few_retries = s.few_retries;
  }

  pub delayed-IsSound :
      IsSound max db
      → IsSignedAt db.transactions id
      → IsSound max (record db { delayed = db.delayed ++ (id ∷ []) })
  delayed-IsSound s h = record {
    reserved = s.reserved;
    one_nonce = s.one_nonce;
    signed = λ j there. elim there [
      | inl k ↦ s.signed j (inl k)
      | inr k ↦ elim (Has-snoc j id db.delayed k) [
        | inl old ↦ s.signed j (inr old)
        | inr e ↦ subst (IsSignedAt db.transactions) (sym e) h
      ]
    ];
    few_retries = s.few_retries;
  }

module _ (max : ℕ) where
  -- A message is taken.
  pub take_queue :
      (db : Database) (id : Text) (rest : List Text)
      → db.queue ≡ id ∷ rest
      → IsSound max db
      → IsSound max (record db { queue = rest })
  take_queue db id rest e s = record {
    reserved = s.reserved;
    one_nonce = s.one_nonce;
    signed = λ j there. elim there [
      | inl k ↦ s.signed j (inl (subst (Has j) (sym e) (inr k)))
      | inr k ↦ s.signed j (inr k)
    ];
    few_retries = s.few_retries;
  }

  pub take_delayed :
      (db : Database) (id : Text) (rest : List Text)
      → db.delayed ≡ id ∷ rest
      → IsSound max db
      → IsSound max (record db { delayed = rest })
  take_delayed db id rest e s = record {
    reserved = s.reserved;
    one_nonce = s.one_nonce;
    signed = λ j there. elim there [
      | inl k ↦ s.signed j (inl k)
      | inr k ↦ s.signed j (inr (subst (Has j) (sym e) (inr k)))
    ];
    few_retries = s.few_retries;
  }
