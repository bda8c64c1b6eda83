-- ===== src/Ledger/Hoare.antt =====
-- Rules for what the methods of LedgerService (services/registry-ledger/src/services/ledger.ts) do to the
-- invariant and to the logs, step by step.
use hara_registry.Prelude.{
  ℕ, ◌+◌, ◌≡◌, refl, sym, ap, ◌∙◌, arith, Bool, true, false, Option, none, some, List, [], ◌∷◌,
  ◌++◌, All, ◌=t=◌, =t=_iff, =t=-refl, length, length-append, ◌-◌, get_or, Bool-cases, inl, inr,
  if◌then◌else◌,
}
use mathlib.Core.Path.{subst}
use mathlib.Core.List.{append_assoc, append-nil}
use hara_registry.Errors.{Exception, Result, ok, err, stuck, ok_inj}
use hara_registry.Sha256.{Bytes, Text, IsByte, Sha256}
use hara_registry.Hex.{to_hex, decode_all}
use hara_registry.Assoc.{Assoc, lookup, insert, lookup-insert}
use hara_registry.TransparencyLog.{TransparencyLog, append}
use hara_registry.Store.{MemoryStore, get_leaves, append_leaf}
use hara_registry.Exec
use hara_registry.Exec.{Exec, pure, throw, lift, ◌>>=◌, ◌>>◌}
use hara_registry.Ledger.{
  Ledger, Anchors, observe, write, read, anchor, get_log, open_log, remember, make_log, append_to,
  append_both,
}
use hara_registry.Ledger.Invariant.{
  IsConsistent, grow-IsConsistent, get_leaves-append_leaf, grown_leaves,
}

-- Every log of `before` is a prefix of the same log of `after`.
pub record Extends (before after : MemoryStore) : Type 0 where
  pub more :
      (id : Text) → (added : List Text) × (get_leaves after id ≡ get_leaves before id ++ added)

pub Extends-refl : (st : MemoryStore) → Extends st st
Extends-refl st = record { more = λ id. ([], sym (append-nil _)) }

pub Extends-trans : (a b c : MemoryStore) → Extends a b → Extends b c → Extends a c
Extends-trans a b c p q = record {
  more = λ id.
      let (xs, e) = p.more id in
      let (ys, f) = q.more id in
      (xs ++ ys, f ∙ ap (λ (t : List Text). t ++ ys) e ∙ append_assoc _ xs ys);
}

module _ ⦃sha : Sha256⦄ where
  -- `P` before, on the store, and `Q` after, on the answer and the store.
  pub record Hoare {A : Type 0} (P : MemoryStore → Type 0) (m : Exec Ledger A)
      (Q : A → MemoryStore → Type 0) : Type 0 where
    pub at :
        (s : Ledger)
        → IsConsistent s.store s.logs
        → P s.store
        → IsConsistent (m s).1.store (m s).1.logs
          × Extends s.store (m s).1.store
          × ((x : A) → (m s).0 ≡ ok x → Q x (m s).1.store)

  abbrev pub Any : MemoryStore → Type 0
  Any st = Unit

  abbrev pub Any₂ : {A : Type 0} → A → MemoryStore → Type 0
  Any₂ x st = Unit

  -- What a method owes at a state: the parts of `Hoare`, for the result `r` and the state `t`.
  abbrev pub Owes :
      {A : Type 0} → MemoryStore → (A → MemoryStore → Type 0) → Result A → Ledger → Type 0
  Owes {A} before Q r t =
      IsConsistent t.store t.logs × Extends before t.store × ((x : A) → r ≡ ok x → Q x t.store)

  pub Hoare-pure : {A : Type 0} {Q : A → MemoryStore → Type 0} (x : A) → Hoare (Q x) (pure x) Q
  unfolding pure
  Hoare-pure {Q = Q} x = record {
    at = λ s c p. (c, Extends-refl s.store, λ y e. subst (λ z. Q z s.store) (ok_inj e) p);
  }

  pub Hoare-throw :
      {A : Type 0} {P : MemoryStore → Type 0} {Q : A → MemoryStore → Type 0} (e : Exception)
      → Hoare P (throw e) Q
  unfolding throw
  Hoare-throw e = record { at = λ s c p. (c, Extends-refl s.store, λ x h. cc) }

  pub Hoare-lift :
      {A : Type 0} {P : MemoryStore → Type 0} {Q : A → MemoryStore → Type 0} (r : Result A)
      → ((x : A) (st : MemoryStore) → r ≡ ok x → P st → Q x st)
      → Hoare P (lift r) Q
  unfolding lift
  Hoare-lift r k = record { at = λ s c p. (c, Extends-refl s.store, λ x e. k x s.store e p) }

  pub Hoare-read :
      {A : Type 0} {P : MemoryStore → Type 0} (f : MemoryStore → A)
      → Hoare P (read f) (λ x st. (f st ≡ x) × P st)
  unfolding read
  Hoare-read f = record { at = λ s c p. (c, Extends-refl s.store, λ x e. (ok_inj e, p)) }

  pub Hoare-observe :
      {A : Type 0} {P : MemoryStore → Type 0} (f : ℕ → A) → Hoare P (observe f) (λ x st. P st)
  unfolding observe
  Hoare-observe f = record { at = λ s c p. (c, Extends-refl s.store, λ x e. p) }

  pub Hoare-anchor :
      {P : MemoryStore → Type 0} (a : Anchors) (id root : Text) (size : ℕ)
      → Hoare P
          (anchor a id root size)
          (λ sth st. P st × (sth.root_hash ≡ root) × (sth.tree_size ≡ size))
  unfolding anchor
  Hoare-anchor a id root size = record {
    at = λ s c p. (
      c,
      Extends-refl s.store,
      λ sth e.
          let (_, same_root, same_size) = a.same_head s.effects id root size sth e in
          (p, same_root, same_size),
    );
  }

  pub Hoare-write :
      {P : MemoryStore → Type 0} {Q : Unit {0} → MemoryStore → Type 0}
      (f : MemoryStore → MemoryStore)
      → ((st : MemoryStore) (logs : Assoc TransparencyLog)
          → IsConsistent st logs
          → P st
          → IsConsistent (f st) logs × Extends st (f st) × Q tt (f st))
      → Hoare P (write f) Q
  unfolding write
  Hoare-write f k = record {
    at = λ s c p. let (keep, ext, q) = k s.store s.logs c p in (keep, ext, λ x e. q);
  }

  pub Hoare-weaken :
      {A : Type 0} {P P' : MemoryStore → Type 0} {Q Q' : A → MemoryStore → Type 0}
      {m : Exec Ledger A}
      → Hoare P m Q
      → ((st : MemoryStore) → P' st → P st)
      → ((x : A) (st : MemoryStore) → Q x st → Q' x st)
      → Hoare P' m Q'
  Hoare-weaken {m = m} h before after = record {
    at = λ s c p.
        let (keep, ext, q) = h.at s c (before s.store p) in
        (keep, ext, λ x e. after x (m s).1.store (q x e));
  }

  resume-Owes :
      {A B : Type 0} {Q : A → MemoryStore → Type 0} {R : B → MemoryStore → Type 0}
      (f : A → Exec Ledger B)
      → ((x : A) → Hoare (Q x) (f x) R)
      → (before : MemoryStore) (r : Result A) (t : Ledger) → Owes before Q r t
      → Owes before R (Exec.resume r f t).0 (Exec.resume r f t).1
  resume-Owes f hf before (ok x) t (c, ext, q) =
      let (keep, ext', r) = (hf x).at t c (q x refl) in (keep, Extends-trans _ _ _ ext ext', r)
  resume-Owes f hf before (err e) t (c, ext, q) = (c, ext, λ x h. cc)
  resume-Owes f hf before stuck t (c, ext, q) = (c, ext, λ x h. cc)

  pub Hoare-bind :
      {A B : Type 0} {P : MemoryStore → Type 0} {Q : A → MemoryStore → Type 0}
      {R : B → MemoryStore → Type 0} (m : Exec Ledger A) (f : A → Exec Ledger B)
      → Hoare P m Q
      → ((x : A) → Hoare (Q x) (f x) R)
      → Hoare P (m >>= f) R
  unfolding ◌>>=◌
  Hoare-bind m f hm hf = record {
    at = λ s c p. resume-Owes f hf s.store (m s).0 (m s).1 (hm.at s c p);
  }

  pub Hoare-if :
      {A : Type 0} {P : MemoryStore → Type 0} {Q : A → MemoryStore → Type 0} (b : Bool)
      (m n : Exec Ledger A)
      → (b ≡ true → Hoare P m Q)
      → (b ≡ false → Hoare P n Q)
      → Hoare P (if b then m else n) Q
  Hoare-if true m n hm hn = hm refl
  Hoare-if false m n hm hn = hn refl

  -- The log of an id has the leaves that the store holds for it.
  abbrev pub Holds : Text → TransparencyLog → MemoryStore → Type 0
  Holds id tl st = decode_all (get_leaves st id) ≡ ok tl.leaves

  -- What `get_log` owes: the log that it returns is the one in memory.
  abbrev Opened : Text → MemoryStore → Result TransparencyLog → Ledger → Type 0
  Opened id before r t =
      IsConsistent t.store t.logs
      × (t.store ≡ before)
      × ((x : TransparencyLog) → r ≡ ok x → lookup id t.logs ≡ some x)

  lookup-insert_self :
      (id : Text) (tl : TransparencyLog) (logs : Assoc TransparencyLog)
      → lookup id (insert id tl logs) ≡ some tl
  lookup-insert_self id tl logs = rw (lookup-insert, =t=-refl id)

  make_log-Opened :
      (id : Text) (s : Ledger) (d : Result (List Bytes))
      → IsConsistent s.store s.logs
      → decode_all (get_leaves s.store id) ≡ d
      → Opened id s.store (Exec.resume d (make_log id) s).0 (Exec.resume d (make_log id) s).1
  unfolding make_log remember ◌>>=◌ pure
  make_log-Opened id s (ok leaves) c e = (
    record {
      logs_fit = λ j other h. elim (Bool-cases (id =t= j)) [
        | inl same ↦
            let here : id ≡ j = (=t=_iff id j).0 same in
            rw (← here) (
              e
              ∙ ap ok (
                  grown_leaves (record { log_id = id; leaves = leaves }) other
                    (rw (lookup-insert, same) at h)))
        | inr differ ↦ c.logs_fit j other (rw (lookup-insert, differ) at h)
      ];
      atts_fit = c.atts_fit;
    },
    refl,
    λ x h. lookup-insert_self id _ s.logs ∙ ap some (ok_inj h),
  )
  make_log-Opened id s (err x) c e = (c, refl, λ y h. cc)
  make_log-Opened id s stuck c e = (c, refl, λ y h. cc)

  open_log-Opened :
      (id : Text) (s : Ledger) (known : Option TransparencyLog)
      → IsConsistent s.store s.logs
      → lookup id s.logs ≡ known
      → Opened id s.store (open_log id known s).0 (open_log id known s).1
  open_log-Opened id s (some tl) c e =
      unfold open_log pure in (c, refl, λ x h. e ∙ ap some (ok_inj h))
  open_log-Opened id s none c e =
      unfold open_log ◌>>=◌ read lift in
      make_log-Opened id s (decode_all (get_leaves s.store id)) c refl

  pub get_log-Opened :
      (id : Text) (s : Ledger)
      → IsConsistent s.store s.logs
      → Opened id s.store (get_log id s).0 (get_log id s).1
  unfolding get_log
  get_log-Opened id s c = open_log-Opened id s (lookup id s.logs) c refl

  Extends-eq : (a b : MemoryStore) → b ≡ a → Extends a b
  Extends-eq a b e = rw e (Extends-refl a)

  pub Hoare-get_log :
      {P : MemoryStore → Type 0} (id : Text) → Hoare P (get_log id) (λ tl st. P st × Holds id tl st)
  Hoare-get_log {P} id = record {
    at = λ s c p.
        let (keep, same, found) = get_log-Opened id s c in
        (
          keep,
          Extends-eq s.store _ same,
          λ x e. (subst P (sym same) p, keep.logs_fit id x (found x e)),
        );
  }

  Extends-append_leaf : (st : MemoryStore) (id hex : Text) → Extends st (append_leaf st id hex).0
  Extends-append_leaf st id hex = record {
    more = λ j. elim (Bool-cases (id =t= j)) [
      | inl same ↦
          let here : id ≡ j = (=t=_iff id j).0 same in
          (hex ∷ [], rw (get_leaves-append_leaf, same, here))
      | inr differ ↦ ([], rw (get_leaves-append_leaf, differ) (sym (append-nil _)))
    ];
  }

  -- What an append leaves: the leaf is the last one of its log.
  abbrev pub Last : Text → Bytes → TransparencyLog × ℕ → MemoryStore → Type 0
  Last id leaf grown st =
      Holds id grown.0 st
      × (grown.1 + 1 ≡ length grown.0.leaves)
      × (get_or grown.0.leaves grown.1 [] ≡ leaf)

  get_or-last :
      (leaves : List Bytes) (leaf : Bytes)
      → get_or (leaves ++ (leaf ∷ [])) (length leaves) [] ≡ leaf
  get_or-last [] leaf = refl
  get_or-last (x ∷ xs) leaf = get_or-last xs leaf

  last_index :
      (leaves : List Bytes) (leaf : Bytes)
      → length (leaves ++ (leaf ∷ [])) - 1 + 1 ≡ length (leaves ++ (leaf ∷ []))
  last_index leaves leaf = omega (arith, length-append leaves (leaf ∷ []))

  last_leaf :
      (leaves : List Bytes) (leaf : Bytes)
      → get_or (leaves ++ (leaf ∷ [])) (length (leaves ++ (leaf ∷ [])) - 1) [] ≡ leaf
  last_leaf leaves leaf =
      let at_end : length (leaves ++ (leaf ∷ [])) - 1 ≡ length leaves =
        omega (arith, length-append leaves (leaf ∷ [])) in
      rw (at_end) (get_or-last leaves leaf)

  abbrev rest : Text → Bytes → TransparencyLog → Exec Ledger (TransparencyLog × ℕ)
  rest id leaf opened = do
    grown ← append_to id opened leaf
    write (λ store. (append_leaf store id (to_hex leaf)).0)
    pure grown

  rest-Owes :
      (id : Text) (leaf : Bytes) (before : MemoryStore) (r : Result TransparencyLog) (t : Ledger)
      → All IsByte leaf
      → Opened id before r t
      → Owes before
          (Last id leaf)
          (Exec.resume r (rest id leaf) t).0
          (Exec.resume r (rest id leaf) t).1
  unfolding append_to remember write pure ◌>>=◌ append
  rest-Owes id leaf before (ok tl) t h (c, same, found) =
      let next = grow-IsConsistent t.store t.logs id tl leaf h c (found tl refl) in
      (
        next,
        rw (← same) (Extends-append_leaf t.store id (to_hex leaf)),
        λ grown e.
            subst (λ g. Last id leaf g (append_leaf t.store id (to_hex leaf)).0) (ok_inj e)
              (
                next.logs_fit id (append tl leaf).0 (lookup-insert_self id _ t.logs),
                last_index tl.leaves leaf,
                last_leaf tl.leaves leaf,
              ),
      )
  rest-Owes id leaf before (err e) t h (c, same, found) = (c, Extends-eq before _ same, λ x e. cc)
  rest-Owes id leaf before stuck t h (c, same, found) = (c, Extends-eq before _ same, λ x e. cc)

  pub Hoare-append_both :
      {P : MemoryStore → Type 0} (id : Text) (leaf : Bytes)
      → All IsByte leaf
      → Hoare P (append_both id leaf) (Last id leaf)
  unfolding append_both ◌>>=◌
  Hoare-append_both id leaf h = record {
    at = λ s c p.
        rest-Owes id leaf s.store (get_log id s).0 (get_log id s).1 h (get_log-Opened id s c);
  }
