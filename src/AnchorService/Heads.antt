-- ===== src/AnchorService/Heads.antt =====
-- The heads that the anchor service publishes.
use hara_registry.Prelude.{
  ℕ, ◌≡◌, refl, sym, ap, ◌∙◌, arith, true, false, Bool, Option, none, some, length, ◌==◌,
  Bool-cases, inl, inr, ◌≢◌,
}
use hara_registry.Errors.{ok, ok_inj, >>=_parts}
use hara_registry.Sha256.{Bytes, Text}
use hara_registry.Types.{Sth}
use hara_registry.Ledger.{Anchors}
use hara_registry.AnchorService.{
  Surroundings, anchor_sth, publish, signature_hash, submit, writes_enabled, pq_from_hex,
  is_ledger_scoped_registry, with_anchor,
}

-- The head's fields are the request's, and an anchor is there only where writes are enabled.
abbrev IsHeadOf : Surroundings → Sth → Sth → Type 0
IsHeadOf env base sth =
    (sth.log_id ≡ base.log_id)
    × (sth.root_hash ≡ base.root_hash)
    × (sth.tree_size ≡ base.tree_size)
    × (sth.anchor ≢ none → is_ledger_scoped_registry env.pq_anchor_registry ≡ true)

scoped_of :
    (env : Surroundings) (key : Option Bytes)
    → writes_enabled env key ≡ true
    → is_ledger_scoped_registry env.pq_anchor_registry ≡ true
unfolding writes_enabled
scoped_of env none e = absurd (cc e)
scoped_of env (some key) e = ground arith

unanchored :
    (env : Surroundings) (base sth : Sth) → base.anchor ≡ none → base ≡ sth → IsHeadOf env base sth
unanchored env base sth bare e = (
  ap (λ (t : Sth). t.log_id) (sym e),
  ap (λ (t : Sth). t.root_hash) (sym e),
  ap (λ (t : Sth). t.tree_size) (sym e),
  λ anchored. absurd (anchored (ap (λ (t : Sth). t.anchor) (sym e) ∙ bare)),
)

publish_lem :
    (env : Surroundings) (base sth : Sth) (call : ℕ) (root : Bytes) (signed : Option Text)
    (enabled : Bool)
    → base.anchor ≡ none
    → enabled ≡ writes_enabled env env.pq_secret_key
    → publish env base call root signed enabled ≡ ok sth
    → IsHeadOf env base sth
unfolding publish
publish_lem env base sth call root (some h) true bare same e =
    let (anchor, submitted, whole) =
      >>=_parts (submit env call base.log_id base.tree_size root h) _ e in
    let done : with_anchor env base anchor ≡ sth = ok_inj whole in
    (
      ap (λ (t : Sth). t.log_id) (sym done),
      ap (λ (t : Sth). t.root_hash) (sym done),
      ap (λ (t : Sth). t.tree_size) (sym done),
      λ anchored. scoped_of env env.pq_secret_key (sym same),
    )
publish_lem env base sth call root (some h) false bare same e =
    unanchored env base sth bare (ok_inj e)
publish_lem env base sth call root none enabled bare same e =
    unanchored env base sth bare (ok_inj e)

-- A head that the anchor service returns has the log, the root and the size that it was asked for,
-- and it carries an anchor only if the registry is one of the ledger's own: a 20-byte address, not
-- the zero address and not the registry that the platform shares.
pub anchor_sth_lem :
    (env : Surroundings) (call : ℕ) (log_id root_hex : Text) (size : ℕ) (sth : Sth)
    → anchor_sth env call log_id root_hex size ≡ ok sth
    → (sth.log_id ≡ log_id)
      × (sth.root_hash ≡ root_hex)
      × (sth.tree_size ≡ size)
      × (sth.anchor ≢ none → is_ledger_scoped_registry env.pq_anchor_registry ≡ true)
unfolding anchor_sth
anchor_sth_lem env call log_id root_hex size sth e =
    let (root, read, later) = >>=_parts (pq_from_hex root_hex) _ e in
    elim (Bool-cases (length root == 32)) [
      | inl fits ↦
          let (signed, hashed, last) =
            >>=_parts (signature_hash env env.pq_secret_key call log_id size root) _
              (rw (fits) at later) in
          publish_lem env _ sth call root signed _ refl refl last
      | inr short ↦ absurd (cc (rw (short) at later))
    ]

-- The anchor service as the ledger uses it.
abbrev pub anchors_of : Surroundings → Anchors
anchors_of env = record {
  anchor_sth = anchor_sth env;
  same_head = λ call log_id root size sth e.
      let (id, same_root, same_size, _) = anchor_sth_lem env call log_id root size sth e in
      (id, same_root, same_size);
}
