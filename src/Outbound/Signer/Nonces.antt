-- ===== src/Outbound/Signer/Nonces.antt =====
-- What the signer keeps of the tables and the queue.
use hara_registry.Prelude.{
  ℕ, ◌+◌, ◌≤◌, ◌<◌, ◌≡◌, refl, sym, ap, ◌∙◌, arith, Option, none, some, [], ◌∷◌, not, inl, inr,
  ◌=t=◌, Bool-cases, =t=_iff,
}
use mathlib.Core.Path.{subst}
use hara_registry.Errors.{Result, ok, err, stuck, error}
use hara_registry.Sha256.{Text}
use hara_registry.Hex.{lc}
use hara_registry.Hex.RoundTrip.{lc-lc}
use hara_registry.Assoc.{lookup, insert}
use hara_registry.Exec.{pure, ◌>>◌, change}
use hara_registry.Exec.Triples.{
  Triple, Outcome, triple_bind, triple_pure, triple_throw, triple_gets, triple_lift, triple_if,
  triple_run, triple_value, triple_attempt, triple_change, triple_weaken,
}
use hara_registry.Outbound.Database.{Database, TxRow, use_of, reach, update_row, update_tx}
use hara_registry.Outbound.Invariant.{
  IsSound, IsSignedAt, IsSound-as, insert-IsSound, update_row-some, lookup_same, lookup_other,
  some_inj,
}
use hara_registry.Outbound.Broadcaster.Timers.{triple_reach, sends, IsSound-update}
use hara_registry.Outbound.Signer.{
  Outside, Config, UnsignedTx, SignedTx, SubmitBody, accepted, sign_failed, bad_request, next_of,
  reserve_nonce, sign_tx, put_draft, insert_draft, reserve_and_sign, enqueue, submit, submit_from,
  post_from, post_tx,
}

-- A row of the wallet `from` that has no nonce yet.
abbrev pub IsDraft : Text → Text → Database → Type 0
IsDraft id from db =
    (row : TxRow) × (lookup id db.transactions ≡ some row)
    × (row.from_address ≡ from)
    × (row.nonce ≡ none)
    × (row.retry_count ≡ 0)

-- The nonce `n` of the wallet is reserved, and no row has it.
abbrev pub IsFresh : Text → ℕ → Database → Type 0
IsFresh from n db =
    (lookup from db.reserved ≡ some (n + 1))
    × ((j : Text) (q : TxRow) (m : ℕ)
        → lookup j db.transactions ≡ some q
        → q.from_address ≡ from
        → q.nonce ≡ some m
        → m < n)

module _ (max : ℕ) (db : Database) (from : Text) (last n : ℕ) where
  reserve-IsSound :
      IsSound max db
      → lookup from db.reserved ≡ some last
      → last ≤ n
      → IsSound max (record db { reserved = insert from (n + 1) db.reserved })
  reserve-IsSound s found up = record {
    reserved = λ id row m there has.
        let (k, at, below) = s.reserved id row m there has in
        elim (Bool-cases (from =t= row.from_address)) [
          | inl same ↦
              let e : from ≡ row.from_address = (=t=_iff from row.from_address).0 same in
              let e' : last ≡ k = some_inj (sym found ∙ ap (λ z. lookup z db.reserved) e ∙ at) in
              (
                n + 1,
                sym (ap (λ z. lookup z (insert from (n + 1) db.reserved)) e)
                    ∙ lookup_same from (n + 1) db.reserved,
                omega arith,
              )
          | inr other ↦
              (k, lookup_other from row.from_address (n + 1) db.reserved other ∙ at, below)
        ];
    one_nonce = s.one_nonce;
    signed = s.signed;
    few_retries = s.few_retries;
  }

  reserve-IsFresh :
      IsSound max db
      → lookup from db.reserved ≡ some last
      → last ≤ n
      → IsFresh from n (record db { reserved = insert from (n + 1) db.reserved })
  reserve-IsFresh s found up = (
    lookup_same from (n + 1) db.reserved,
    λ j q m there same has.
        let (k, at, below) = s.reserved j q m there has in
        let e : k ≡ last = some_inj (sym at ∙ ap (λ z. lookup z db.reserved) same ∙ found) in
        omega arith,
  )

IsSound-reach :
    (max : ℕ) (out : Outside)
    → Triple (IsSound max) (reach out.breaks) (λ _. IsSound max) (IsSound max)
IsSound-reach max out =
    triple_weaken (triple_reach max out.breaks (λ db. Unit {0}) (λ db n x. x)) (λ s p. (p, tt))
      (λ x s (p, q). p) (λ s (p, q). p)

module _ (max : ℕ) (out : Outside) (id from : Text) where
  -- The rules hold, and the row is a draft.
  abbrev Drafted : Database → Type 0
  Drafted db = IsSound max db × IsDraft id from db

  use_drafted :
      {A : Type 0} (f : ℕ → A) (X : Database → Type 0)
      → ((db : Database) (n : ℕ) → X db → X (record db { uses = n }))
      → {E : Database → Type 0}
      → Triple (λ db. IsSound max db × X db) (use_of f) (λ _ db. IsSound max db × X db) E
  unfolding use_of
  use_drafted f X same =
      triple_run _
        (λ db (p, x). (IsSound-as max db db.attempts db.confirmed (db.uses + 1) p, same db _ x))

  reach_known :
      (X : Database → Type 0)
      → ((db : Database) (n : ℕ) → X db → X (record db { uses = n }))
      → Triple
          (λ db. IsSound max db × (IsDraft id from db × X db))
          (reach out.breaks)
          (λ _ db. IsSound max db × (IsDraft id from db × X db))
          Drafted
  reach_known X same =
      triple_weaken
        (triple_reach max out.breaks (λ db. IsDraft id from db × X db)
          (λ db n (x, y). (x, same db n y)))
        (λ s p. p) (λ x s p. p) (λ s (p, (q, r)). (p, q))

  reserve_rest :
      (address : Text) (chain_nonce last : ℕ)
      → lc address ≡ from
      → Triple
          (λ db.
            IsSound max db × (IsDraft id from db × (lookup (lc address) db.reserved ≡ some last)))
          (do
            reach out.breaks
            reach out.breaks
            change (λ db. record db {
              reserved = insert (lc address) (next_of last chain_nonce + 1) db.reserved;
            })
            pure (next_of last chain_nonce))
          (λ n db. IsSound max db × (IsDraft id from db × IsFresh from n db))
          Drafted
  reserve_rest address chain_nonce last e =
      let n = next_of last chain_nonce in
      let up : last ≤ next_of last chain_nonce = ground arith in
      triple_bind _ (reach_known (λ db. lookup (lc address) db.reserved ≡ some last) (λ db n x. x))
        (λ _.
          triple_bind _
            (reach_known (λ db. lookup (lc address) db.reserved ≡ some last) (λ db n x. x))
            (λ _.
              triple_bind (λ _ db. IsSound max db × (IsDraft id from db × IsFresh from n db))
                (triple_change _ (λ db (p, (q, found)). (
                  reserve-IsSound max db (lc address) last n p found up,
                  (
                    q,
                    subst
                        (λ z.
                          IsFresh z n
                            (record db { reserved = insert (lc address) (n + 1) db.reserved }))
                        e (reserve-IsFresh max db (lc address) last n p found up),
                  ),
                )))
                (λ _. triple_pure n (λ s p. p))))

  reserve_nonce_lem :
      (address : Text)
      → lc address ≡ from
      → Triple Drafted
          (reserve_nonce out address)
          (λ n db. IsSound max db × (IsDraft id from db × IsFresh from n db))
          Drafted
  unfolding reserve_nonce
  reserve_nonce_lem address e =
      let known : ℕ → Database → Type 0 =
        λ last db. IsDraft id from db × (lookup (lc address) db.reserved ≡ some last) in
      triple_bind (λ _. Drafted) (use_drafted _ (IsDraft id from) (λ db n x. x))
        (λ answer.
          triple_bind (λ _. Drafted) (triple_value answer (λ x s f p. p) (λ s p. p))
            (λ chain_nonce.
              triple_bind (λ _. Drafted)
                (triple_reach max out.breaks (IsDraft id from) (λ db n x. x))
                (λ _.
                  triple_bind (λ looked db. Drafted db × (lookup (lc address) db.reserved ≡ looked))
                    (triple_gets _ (λ s p. (p, refl)))
                    (λ looked.
                      triple_bind (λ last db. IsSound max db × known last db)
                        (triple_value looked (λ x s f ((p, q), g). (p, (q, g ∙ f))) (λ s (p, g). p))
                        (λ last. reserve_rest address chain_nonce last e)))))

  -- The nonce `n` is reserved for the draft.
  abbrev Ready : ℕ → Database → Type 0
  Ready n db = IsSound max db × (IsDraft id from db × IsFresh from n db)

  sign_tx_lem :
      (config : Config) (vault_path : Text) (tx : UnsignedTx) (n : ℕ)
      → Triple (Ready n) (sign_tx out config vault_path tx) (λ _. Ready n) Drafted
  unfolding sign_tx
  sign_tx_lem config vault_path tx n =
      triple_bind (λ _. Ready n)
        (use_drafted _ (λ db. IsDraft id from db × IsFresh from n db) (λ db k x. x))
        (λ answer.
          triple_bind (λ _. Ready n) (triple_value answer (λ x s e p. p) draft_only)
            (λ key.
              triple_if (not (lc key.address =t= lc tx.from)) (λ e. triple_throw error draft_only)
                (λ e.
                  triple_bind (λ _. Ready n) (triple_value _ (λ x s f p. p) draft_only)
                    (λ raw. triple_pure _ (λ s p. p)))))
    where
      draft_only : (db : Database) → Ready n db → Drafted db
      draft_only db (p, (q, r)) = (p, q)

  reserve_and_sign_lem :
      (config : Config) (vault_path : Text) (to : Option Text) (input : Text) (value gas : ℕ)
      → lc from ≡ from
      → Triple Drafted
          (reserve_and_sign out config vault_path from to input value gas)
          (λ answer. Ready answer.0)
          Drafted
  unfolding reserve_and_sign
  reserve_and_sign_lem config vault_path to input value gas low =
      triple_bind Ready (reserve_nonce_lem from low) (λ nonce.
        triple_bind (λ _. Ready nonce) (sign_tx_lem config vault_path _ nonce)
          (λ tx. triple_pure (nonce, tx) (λ s p. p)))

  sign_row :
      (n : ℕ) (raw : Text) (f : TxRow → TxRow) (db : Database)
      → ((row : TxRow)
          → ((f row).from_address ≡ row.from_address)
            × ((f row).nonce ≡ some n)
            × ((f row).raw_tx ≡ some raw)
            × ((f row).retry_count ≡ row.retry_count))
      → Ready n db
      → IsSound max (record db { transactions = update_row id f db.transactions })
        × IsSignedAt (update_row id f db.transactions) id
  sign_row n raw f db h (s, ((row, there, owner, fresh, no_retry), (next, free))) =
      let written = update_row-some id f row db.transactions there in
      let (from_same, nonce_now, raw_now, retries) = h row in
      let owner' : (f row).from_address ≡ from = from_same ∙ owner in
      (
        subst (λ z. IsSound max (record db { transactions = z })) (sym written)
            (insert-IsSound max db id (f row) s
              (λ m has.
                let e : n ≡ m = some_inj (sym nonce_now ∙ has) in
                (
                  (n + 1, ap (λ z. lookup z db.reserved) owner' ∙ next, omega arith),
                  λ j q found same has'.
                      let low = free j q m found (same ∙ owner') has' in absurd (omega arith),
                ))
              (λ old found signed. (n, raw, nonce_now, raw_now)) (inl (retries ∙ no_retry))),
        subst (λ z. IsSignedAt z id) (sym written)
            (f row, lookup_same id (f row) db.transactions, (n, raw, nonce_now, raw_now)),
      )

  enqueue_lem :
      (answer : Result (ℕ × SignedTx))
      → Triple
          (Outcome (λ x. Ready x.0) Drafted answer)
          (enqueue out id answer)
          (λ _. IsSound max)
          (IsSound max)
  unfolding enqueue update_tx
  enqueue_lem stuck = triple_lift stuck (λ x s e p. cc) (λ s (p, q). p)
  enqueue_lem (err thrown) =
      triple_weaken
        (triple_bind (λ _. IsSound max)
          (IsSound-update max out.breaks id _ (λ r. (refl, refl, refl)) (λ r. refl))
          (λ _. triple_pure (sign_failed id) (λ s p. p)))
        (λ s (p, q). p) (λ x s p. p) (λ s p. p)
  enqueue_lem (ok (nonce, tx)) =
      triple_bind (λ _ db. IsSound max db × IsSignedAt db.transactions id)
        (triple_bind (λ _. Ready nonce)
          (triple_weaken
            (triple_reach max out.breaks (λ db. IsDraft id from db × IsFresh from nonce db)
              (λ db n x. x))
            (λ s p. p) (λ x s p. p) (λ s (p, q). p))
          (λ _.
            triple_change _
              (λ db p. sign_row nonce tx.raw_tx _ db (λ r. (refl, refl, refl, refl)) p)))
        (λ _.
          triple_bind (λ _. IsSound max) (sends max out.breaks id)
            (λ _. triple_pure (accepted id) (λ s p. p)))

  put_draft_lem :
      (row : TxRow) (there : Option TxRow)
      → row.from_address ≡ from
      → row.nonce ≡ none
      → row.retry_count ≡ 0
      → Triple
          (λ db. IsSound max db × (lookup id db.transactions ≡ there))
          (put_draft out id row there)
          (λ _. Drafted)
          (IsSound max)
  unfolding put_draft
  put_draft_lem row (some old) owner fresh no_retry = triple_throw error (λ s (p, q). p)
  put_draft_lem row none owner fresh no_retry = triple_change _ (λ db (p, q). (
    insert-IsSound max db id row p (λ n has. absurd (cc (fresh, has)))
        (λ old found signed. absurd (cc (found, q))) (inl no_retry),
    (row, lookup_same id row db.transactions, owner, fresh, no_retry),
  ))

  insert_draft_lem :
      (row : TxRow)
      → row.from_address ≡ from
      → row.nonce ≡ none
      → row.retry_count ≡ 0
      → Triple (IsSound max) (insert_draft out id row) (λ _. Drafted) (IsSound max)
  unfolding insert_draft
  insert_draft_lem row owner fresh no_retry =
      triple_bind (λ _. IsSound max) (IsSound-reach max out)
        (λ _.
          triple_bind (λ there db. IsSound max db × (lookup id db.transactions ≡ there))
            (triple_gets _ (λ s p. (p, refl)))
            (λ there. put_draft_lem row there owner fresh no_retry))

module _ (max : ℕ) (out : Outside) (config : Config) where
  submit_lem :
      (client vault from : Text) (to : Option Text) (input : Text) (value gas : ℕ)
      → lc from ≡ from
      → Triple
          (IsSound max)
          (submit out config client vault from to input value gas)
          (λ _. IsSound max)
          (IsSound max)
  unfolding submit use_of
  submit_lem client vault from to input value gas low =
      triple_bind (λ _. IsSound max)
        (triple_run _ (λ db p. IsSound-as max db db.attempts db.confirmed (db.uses + 1) p))
        (λ id.
          triple_bind (λ _. Drafted max out id from)
            (insert_draft_lem max out id from _ refl refl refl)
            (λ _.
              triple_bind (Outcome (λ x. Ready max out id from x.0) (Drafted max out id from))
                (triple_attempt
                  (reserve_and_sign_lem max out id from config vault to input value gas low))
                (λ answer. enqueue_lem max out id from answer)))

  submit_from_lem :
      (client : Option Text) (body : SubmitBody) (from : Text) (value : ℕ) (wallet : Option Text)
      → lc from ≡ from
      → Triple
          (IsSound max)
          (submit_from out config client body from value wallet)
          (λ _. IsSound max)
          (IsSound max)
  unfolding submit_from
  submit_from_lem client body from value none low = triple_pure bad_request (λ s p. p)
  submit_from_lem client body from value (some vault) low = submit_lem _ vault from _ _ value _ low

  post_from_lem :
      (client : Option Text) (body : SubmitBody) (from : Option Text)
      → Triple
          (IsSound max)
          (post_from out config client body from)
          (λ _. IsSound max)
          (IsSound max)
  unfolding post_from
  post_from_lem client body none = triple_pure bad_request (λ s p. p)
  post_from_lem client body (some []) = triple_pure bad_request (λ s p. p)
  post_from_lem client body (some (c ∷ cs)) =
      triple_bind (λ _. IsSound max) (triple_value _ (λ x s e p. p) (λ s p. p))
        (λ value.
          triple_bind (λ _. IsSound max) (IsSound-reach max out)
            (λ _.
              triple_bind (λ _. IsSound max) (triple_gets _ (λ s p. p))
                (λ wallet.
                  submit_from_lem client body (lc (c ∷ cs)) value wallet (lc-lc (c ∷ cs)))))

  pub post_tx_lem :
      (client : Option Text) (body : SubmitBody)
      → Triple (IsSound max) (post_tx out config client body) (λ _. IsSound max) (IsSound max)
  unfolding post_tx
  post_tx_lem client body = post_from_lem client body body.from
