-- ===== src/Gateway/Anchored.antt =====
-- The gateway anchors a digest once.
use hara_registry.Prelude.{
  ℕ, ◌+◌, ◌-◌, ltb, ◌≡◌, refl, sym, ap, ◌∙◌, arith, true, ◌==◌, Option, none, some, List, [], ◌∷◌,
  length, Has, inl, inr, ◌=t=◌, =t=_iff, Bool-cases, if◌then◌else◌,
}
use mathlib.Core.Path.{subst}
use hara_registry.Errors.{ok}
use hara_registry.Sha256.{Bytes, Text}
use hara_registry.Hex.{to_hex, lc}
use hara_registry.Hex.RoundTrip.{lc-lc}
use hara_registry.Assoc.{lookup, insert, lookup-insert}
use hara_registry.AnchorService.{AnchorArgs, pq_from_hex}
use hara_registry.Gateway.{
  Attempt, done, refused, invalid_digest, anchor_failed, thrown, >>=_parts, thrown-done, done_inj,
  unless_parts, AnchorRecord, Sent, Gateway, get_anchor_by_digest, put_anchor, expire,
  get_idempotency, put_idempotency, idempotency_ttl_ms, IdempotencyEntry,
}
use hara_registry.Gateway.Service.{
  Surroundings, Anchor, Receipt, PqKeypair, CreateRequest, Created, Mined, writes_enabled, to_dto,
  prepare, confirm, record_of, persist, reached, await_receipt, submit, create_new, create_from,
  create_anchor,
}
use hara_registry.Gateway.Reads.{get_anchor}
use hara_registry.Gateway.Http.{
  AnchorBody, Post, check_body, plain, remember, replay, by_entry, by_key, by_body, post_anchor,
  posts,
}

module _ (env : Surroundings) where
  -- The transaction of a record: its roots are the digest, and a receipt says that it was mined in the
  -- record's block without being reverted.
  abbrev pub IsOnChain : List Sent → AnchorRecord → Type 0
  IsOnChain sent rec =
      (x : Sent) × Has x sent
      × (rec.tx_hash ≡ some x.tx_hash)
      × ((bytes : Bytes) × (pq_from_hex rec.digest ≡ ok bytes)
          × (length bytes ≡ 32)
          × (x.args.merkle_root ≡ to_hex bytes)
          × (x.args.sha3_root ≡ to_hex bytes))
      × ((n : ℕ) × (receipt : Receipt) × (env.wait_for_receipt n x.tx_hash ≡ some receipt)
          × (receipt.success ≡ true)
          × (rec.block_number ≡ some receipt.block_number))

  abbrev pub AllOnChain : Gateway → Type 0
  AllOnChain s =
      (digest : Text) (rec : AnchorRecord)
      → lookup digest s.by_digest ≡ some rec
      → (rec.digest ≡ digest) × IsOnChain s.sent rec

  -- From one state to a later one: records stay as they are, and each has its transaction.
  abbrev pub Later : Gateway → Gateway → Type 0
  Later s t =
      AllOnChain t
      × ((digest : Text) (rec : AnchorRecord)
          → lookup digest s.by_digest ≡ some rec
          → lookup digest t.by_digest ≡ some rec)

  Later-trans : (s t u : Gateway) → Later s t → Later t u → Later s u
  Later-trans s t u (h, k) (h', k') = (h', λ d r e. k' d r (k d r e))

  sent-AllOnChain :
      (s : Gateway) (x : Sent) → AllOnChain s → AllOnChain (record s { sent = x ∷ s.sent })
  sent-AllOnChain s x h d r e =
      let (same, (y, there, hash, roots, mined)) = h d r e in
      (same, (y, inr there, hash, roots, mined))

  -- What the arguments of recordAnchor hold.
  abbrev Roots : Text → AnchorArgs → Type 0
  Roots digest args =
      (bytes : Bytes) × (pq_from_hex digest ≡ ok bytes)
      × (length bytes ≡ 32)
      × (args.merkle_root ≡ to_hex bytes)
      × (args.sha3_root ≡ to_hex bytes)

  reached-done : {A : Type 0} (o : Option A) {x : A} → reached o ≡ done x → o ≡ some x
  reached-done none e = cc
  reached-done (some x) e = cc

  prepare-Roots :
      (call : ℕ) (pair : PqKeypair) (req : CreateRequest) (digest : Text) (args : AnchorArgs)
      → prepare env call pair req digest ≡ done args
      → Roots digest args
  unfolding prepare
  prepare-Roots call pair req digest args e =
      let (latest, _, e1) = >>=_parts (reached (env.get_block_number call)) _ e in
      let (bytes, read, e2) = >>=_parts (thrown (pq_from_hex digest)) _ e1 in
      let (sized, e3) = unless_parts (length bytes == 32) invalid_digest e2 in
      let (chain, _, e4) = >>=_parts _ _ e3 in
      let (msg, _, e5) = >>=_parts _ _ e4 in
      let (sig, _, e6) = >>=_parts _ _ e5 in
      let is = sym (done_inj e6) in
      let long : length bytes ≡ 32 = ground (arith, sized) in
      (bytes, thrown-done _ read, long, ap (λ a. a.merkle_root) is, ap (λ a. a.sha3_root) is)

  confirm_lem :
      (call : ℕ) (hash : Text) (mined : Mined)
      → confirm env call hash ≡ done mined
      → (receipt : Receipt) × (env.wait_for_receipt call hash ≡ some receipt)
        × (receipt.success ≡ true)
        × (mined.block_number ≡ receipt.block_number)
  unfolding confirm
  confirm_lem call hash mined e =
      let (receipt, got, e1) = >>=_parts (reached (env.wait_for_receipt call hash)) _ e in
      let (success, e2) = unless_parts receipt.success anchor_failed e1 in
      let (event, _, e3) = >>=_parts _ _ e2 in
      (receipt, reached-done _ got, success, ap (λ m. m.block_number) (sym (done_inj e3)))

  put_lem :
      (rec : AnchorRecord) (s : Gateway)
      → AllOnChain s
      → lc rec.digest ≡ rec.digest
      → lookup rec.digest s.by_digest ≡ none
      → IsOnChain s.sent rec
      → Later s (put_anchor rec s)
  unfolding put_anchor
  put_lem rec s h low free chain = (all, keeps)
    where
      look :
          (d : Text)
          → lookup d (insert (lc rec.digest) rec s.by_digest)
            ≡ (if rec.digest =t= d then some rec else lookup d s.by_digest)
      look d = rw low (lookup-insert rec.digest d rec s.by_digest)

      all : AllOnChain (put_anchor rec s)
      all d r e = elim (Bool-cases (rec.digest =t= d)) [
        | inl same ↦
            let is : rec ≡ r = cc (rw same at (sym (look d) ∙ e)) in
            (
              ap (λ x. x.digest) (sym is) ∙ (=t=_iff rec.digest d).0 same,
              subst (IsOnChain s.sent) is chain,
            )
        | inr other ↦ h d r (rw other at (sym (look d) ∙ e))
      ]

      keeps :
          (d : Text) (r : AnchorRecord)
          → lookup d s.by_digest ≡ some r
          → lookup d (put_anchor rec s).by_digest ≡ some r
      keeps d r e = elim (Bool-cases (rec.digest =t= d)) [
        | inl same ↦
            absurd (
              cc (subst (λ x. lookup x s.by_digest ≡ none) ((=t=_iff rec.digest d).0 same) free, e))
        | inr other ↦ look d ∙ (rw other e)
      ]

  module _ (call : ℕ) (pair : PqKeypair) (req : CreateRequest) (digest : Text)
      (low : lc digest ≡ digest) where
    persist_lem :
        (args : AnchorArgs) (hash : Text) (m : Attempt Mined) (s : Gateway)
        → confirm env call hash ≡ m
        → AllOnChain s
        → lookup digest s.by_digest ≡ none
        → Roots digest args
        → Has (record { args = args; tx_hash = hash }) s.sent
        → Later s (persist env call pair req digest hash m s).1
    unfolding persist record_of
    persist_lem args hash (refused code) s e h free roots there = (h, λ d r e. e)
    persist_lem args hash (done mined) s e h free roots there =
        let (receipt, got, success, block) = confirm_lem call hash mined e in
        put_lem _ s h low free (
          record { args = args; tx_hash = hash },
          there,
          refl,
          roots,
          (call, receipt, got, success, ap some block),
        )

    submit_lem :
        (a : Attempt AnchorArgs) (s : Gateway)
        → prepare env call pair req digest ≡ a
        → AllOnChain s
        → lookup digest s.by_digest ≡ none
        → Later s (submit env call pair req digest a s).1
    unfolding submit await_receipt
    submit_lem (refused code) s e h free = (h, λ d r e. e)
    submit_lem (done args) s e h free = go (env.write_contract call args)
      where
        go : (o : Option Text) → Later s (await_receipt env call pair req digest args o s).1
        go none = (h, λ d r e. e)
        go (some hash) =
            persist_lem args hash (confirm env call hash) _ refl (sent-AllOnChain s _ h) free
              (prepare-Roots call pair req digest args e) (inl refl)

  create_new_lem :
      (req : CreateRequest) (digest : Text) (keys : Option PqKeypair) (s : Gateway)
      → lc digest ≡ digest
      → AllOnChain s
      → lookup digest s.by_digest ≡ none
      → Later s (create_new env req digest keys s).1
  unfolding create_new
  create_new_lem req digest none s low h free = (h, λ d r e. e)
  create_new_lem req digest (some pair) s low h free = elim (Bool-cases (writes_enabled env)) [
    | inl on ↦ rw on (submit_lem s.uses pair req digest low _ _ refl h free)
    | inr off ↦ rw off (h, λ d r e. e)
  ]

  create_lem :
      (req : CreateRequest) (s : Gateway) → AllOnChain s → Later s (create_anchor env req s).1
  unfolding create_anchor create_from get_anchor_by_digest
  create_lem req s h = go (lookup (lc (lc req.digest)) s.by_digest) refl
    where
      go :
          (o : Option AnchorRecord)
          → lookup (lc (lc req.digest)) s.by_digest ≡ o
          → Later s (create_from env req (lc req.digest) o s).1
      go (some r) e = (h, λ d r e. e)
      go none e =
          create_new_lem req (lc req.digest) env.pq_keypair s (lc-lc req.digest) h
            (rw (lc-lc req.digest) at e)

module _ (env : Surroundings) (stringify : AnchorBody → Bytes) (sha256_hex : Bytes → Text) where
  expire_lem :
      (now : ℕ) (key : Text) (o : Option IdempotencyEntry) (s : Gateway)
      → AllOnChain env s
      → Later env s (expire now key o s).1
  unfolding expire
  expire_lem now key none s h = (h, λ d r e. e)
  expire_lem now key (some x) s h = elim (Bool-cases (ltb idempotency_ttl_ms (now - x.stored_at))) [
    | inl old ↦ rw old (h, λ d r e. e)
    | inr new ↦ rw new (h, λ d r e. e)
  ]

  remember_lem :
      (key hash : Text) (s : Gateway) (p : Attempt Created × Gateway)
      → Later env s p.1
      → Later env s (remember env stringify sha256_hex key hash p).1
  unfolding remember put_idempotency
  remember_lem key hash s (refused code, t) h = h
  remember_lem key hash s (done c, t) h = h

  plain_lem :
      (s : Gateway) (p : Attempt Created × Gateway)
      → Later env s p.1
      → Later env s (plain env stringify sha256_hex p).1
  unfolding plain
  plain_lem s (refused code, t) h = h
  plain_lem s (done c, t) h = h

  replay_lem :
      (a : Attempt Anchor) (s : Gateway)
      → AllOnChain env s
      → Later env s (replay env stringify sha256_hex a s).1
  unfolding replay
  replay_lem (refused code) s h = (h, λ d r e. e)
  replay_lem (done a) s h = (h, λ d r e. e)

  by_entry_lem :
      (key hash : Text) (req : CreateRequest) (s : Gateway) (p : Option IdempotencyEntry × Gateway)
      → Later env s p.1
      → Later env s (by_entry env stringify sha256_hex key hash req p).1
  unfolding by_entry
  by_entry_lem key hash req s (none, t) l =
      remember_lem key hash s (create_anchor env req t)
        (Later-trans env s t (create_anchor env req t).1 l (create_lem env req t l.0))
  by_entry_lem key hash req s (some cached, t) l = elim (Bool-cases (cached.body_hash =t= hash)) [
    | inl same ↦ rw same (
        Later-trans env s t
          (replay env stringify sha256_hex (get_anchor env cached.anchor_id t) t).1 l
          (replay_lem (get_anchor env cached.anchor_id t) t l.0))
    | inr other ↦ rw other l
  ]

  by_key_lem :
      (key : Option Text) (hash : Text) (req : CreateRequest) (s : Gateway)
      → AllOnChain env s
      → Later env s (by_key env stringify sha256_hex key hash req s).1
  unfolding by_key get_idempotency
  by_key_lem none hash req s h = plain_lem s _ (create_lem env req s h)
  by_key_lem (some []) hash req s h = plain_lem s _ (create_lem env req s h)
  by_key_lem (some (c ∷ cs)) hash req s h = by_entry_lem (c ∷ cs) hash req s _ (
      expire_lem (env.now_ms s.uses) (c ∷ cs) (lookup (c ∷ cs) s.idem)
        (record s { uses = s.uses + 1 }) h)

  by_body_lem :
      (key : Option Text) (hash : Text) (a : Attempt CreateRequest) (s : Gateway)
      → AllOnChain env s
      → Later env s (by_body env stringify sha256_hex key hash a s).1
  unfolding by_body
  by_body_lem key hash (refused code) s h = (h, λ d r e. e)
  by_body_lem key hash (done req) s h = by_key_lem key hash req s h

  posts_lem :
      (ps : List Post) (s : Gateway)
      → AllOnChain env s
      → Later env s (posts env stringify sha256_hex ps s)
  unfolding posts post_anchor
  posts_lem [] s h = (h, λ d r e. e)
  posts_lem (p ∷ rest) s h =
      let first = by_body_lem p.key _ (check_body p.tenant p.body) s h in
      let next = (post_anchor env stringify sha256_hex p s).1 in
      Later-trans env s next (posts env stringify sha256_hex rest next) first
        (posts_lem rest next first.0)

  -- Take a gateway where each record stands under its digest, and a transaction of it, with the digest as both
  -- roots, was sent and has a receipt without a revert in the record's block, and a digest with a record
  -- there, in any case of its letters. Any requests to POST /v1/anchors, refused ones included, lead to such
  -- a gateway, and createAnchor then answers the digest with that record's anchor as already anchored,
  -- whatever else the request says, and leaves the store and the transactions that were sent as they are.
  pub anchored_once :
      (ps : List Post) (s : Gateway) (req : CreateRequest) (rec : AnchorRecord)
      → AllOnChain env s
      → get_anchor_by_digest req.digest s ≡ some rec
      → AllOnChain env (posts env stringify sha256_hex ps s)
        × (create_anchor env req (posts env stringify sha256_hex ps s) ≡ (
          done (record { anchor = to_dto env rec; already_anchored = true }),
          posts env stringify sha256_hex ps s,
        ))
  unfolding create_anchor create_from get_anchor_by_digest
  anchored_once ps s req rec h e =
      let (all, keeps) = posts_lem ps s h in
      (all, rw (lc-lc req.digest, keeps (lc req.digest) rec e) refl)
