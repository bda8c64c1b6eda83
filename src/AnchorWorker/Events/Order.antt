-- ===== src/AnchorWorker/Events/Order.antt =====
-- What the query for events leaves out, and what it does not.
use hara_registry.Prelude.{
  ℕ, zero, suc, ◌≤◌, ◌<◌, ◌≡◌, refl, arith, true, false, List, [], ◌∷◌, length, map, ◌⊎◌, inl, inr,
  All, Has, All-Has, map-Has, Bool-cases, ltb, leb, ◌&&◌,
}
use mathlib.Core.Path.{subst}
use hara_registry.AnchorWorker.Events.{
  IndexedEvent, EventRow, before, insert_event, select_events, take, event_row, last_block,
  fetch_events_since,
}

-- Blocks do not go down.
abbrev pub IsOrdered : List IndexedEvent → Type 0
IsOrdered [] = Unit {0}
IsOrdered (x ∷ xs) = All (λ y. x.block_number ≤ y.block_number) xs × IsOrdered xs

-- An entry of the list with one more is that one, or was there before.
All-insert_event :
    (P : IndexedEvent → Type 0) (e : IndexedEvent) (xs : List IndexedEvent)
    → P e
    → All P xs
    → All P (insert_event e xs)
unfolding insert_event
All-insert_event P e [] h k = (h, tt)
All-insert_event P e (x ∷ xs) h (kx, ks) =
    let rest = All-insert_event P e xs h ks in
    elim (Bool-cases (before e x)) [
      | inl first ↦ rw first (h, (kx, ks))
      | inr later ↦ rw later (kx, rest)
    ]

All-weaken :
    (P Q : IndexedEvent → Type 0) (xs : List IndexedEvent)
    → ((x : IndexedEvent) → P x → Q x)
    → All P xs
    → All Q xs
All-weaken P Q [] f h = tt
All-weaken P Q (x ∷ xs) f (hx, hs) = (f x hx, All-weaken P Q xs f hs)

before_yes : (a b : IndexedEvent) → before a b ≡ true → a.block_number ≤ b.block_number
unfolding before
before_yes a b h = ground arith

before_no : (a b : IndexedEvent) → before a b ≡ false → b.block_number ≤ a.block_number
unfolding before
before_no a b h = ground arith

insert_event-IsOrdered :
    (e : IndexedEvent) (xs : List IndexedEvent) → IsOrdered xs → IsOrdered (insert_event e xs)
unfolding insert_event
insert_event-IsOrdered e [] h = (tt, tt)
insert_event-IsOrdered e (x ∷ xs) (hx, hs) =
    let rest = insert_event-IsOrdered e xs hs in
    elim (Bool-cases (before e x)) [
      | inl first ↦
          let low = before_yes e x first in
          rw first ((low, All-weaken _ _ xs (λ y k. omega arith) hx), (hx, hs))
      | inr later ↦
          let low = before_no e x later in
          rw later (All-insert_event (λ y. x.block_number ≤ y.block_number) e xs low hx, rest)
    ]

Has-insert_event : (e : IndexedEvent) (xs : List IndexedEvent) → Has e (insert_event e xs)
unfolding insert_event
Has-insert_event e [] = inl refl
Has-insert_event e (x ∷ xs) =
    let rest = Has-insert_event e xs in
    elim (Bool-cases (before e x)) [
      | inl first ↦ rw first (inl refl)
      | inr later ↦ rw later (inr rest)
    ]

insert_event-keeps :
    (e a : IndexedEvent) (xs : List IndexedEvent) → Has a xs → Has a (insert_event e xs)
unfolding insert_event
insert_event-keeps e a [] h = absurd h
insert_event-keeps e a (x ∷ xs) h =
    let rest = insert_event-keeps e a xs in
    elim (Bool-cases (before e x)) [
      | inl first ↦ rw first (inr h)
      | inr later ↦ rw later (elim h [ inl same ↦ inl same | inr k ↦ inr (rest k) ])
    ]

select_events-IsOrdered :
    (from to : ℕ) (es : List IndexedEvent) → IsOrdered (select_events from to es)
unfolding select_events
select_events-IsOrdered from to [] = tt
select_events-IsOrdered from to (e ∷ es) =
    let rest = select_events-IsOrdered from to es in
    elim (Bool-cases (leb from e.block_number && ltb e.block_number to)) [
      | inl inside ↦ rw inside (insert_event-IsOrdered e _ rest)
      | inr outside ↦ rw outside rest
    ]

-- The blocks that are asked for.
abbrev pub IsWithin : ℕ → ℕ → IndexedEvent → Type 0
IsWithin from to e = (from ≤ e.block_number) × (e.block_number < to)

select_events-IsWithin :
    (from to : ℕ) (es : List IndexedEvent) → All (IsWithin from to) (select_events from to es)
unfolding select_events
select_events-IsWithin from to [] = tt
select_events-IsWithin from to (e ∷ es) =
    let rest = select_events-IsWithin from to es in
    elim (Bool-cases (leb from e.block_number && ltb e.block_number to)) [
      | inl inside ↦
          rw inside (All-insert_event (IsWithin from to) e _ (ground arith, ground arith) rest)
      | inr outside ↦ rw outside rest
    ]

select_events-Has :
    (from to : ℕ) (a : IndexedEvent) (es : List IndexedEvent)
    → IsWithin from to a
    → Has a es
    → Has a (select_events from to es)
unfolding select_events
select_events-Has from to a [] h k = absurd k
select_events-Has from to a (e ∷ es) h k =
    let rest = select_events-Has from to a es h in
    elim (Bool-cases (leb from e.block_number && ltb e.block_number to)) [
      | inl inside ↦ rw inside (elim k [
        | inl same ↦ let same' : a ≡ e = same in rw same' (Has-insert_event e _)
        | inr there ↦ insert_event-keeps e a _ (rest there)
      ])
      | inr outside ↦ rw outside (elim k [
        | inl same ↦ let same' : a ≡ e = same in absurd (ground arith)
        | inr there ↦ rest there
      ])
    ]

-- A row that a cut leaves out comes no earlier than each that it keeps.
take-Has :
    (cap : ℕ) (a : IndexedEvent) (xs : List IndexedEvent)
    → IsOrdered xs
    → Has a xs
    → Has a (take cap xs)
      ⊎ ((cap < length xs) × All (λ y. y.block_number ≤ a.block_number) (take cap xs))
take-Has zero a [] o h = absurd h
take-Has zero a (x ∷ xs) o h = inr (omega arith, tt)
take-Has (suc cap) a [] o h = absurd h
take-Has (suc cap) a (x ∷ xs) (ox, os) (inl same) = inl (inl same)
take-Has (suc cap) a (x ∷ xs) (ox, os) (inr h) = elim (take-Has cap a xs os h) [
  | inl there ↦ inl (inr there)
  | inr (less, low) ↦
      inr (omega arith, (All-Has (λ y. x.block_number ≤ y.block_number) a xs ox h, low))
]

module _ (P : ℕ → Type 0) where
  last_of_all :
      (x : IndexedEvent) (xs : List IndexedEvent)
      → All (λ y. P y.block_number) (x ∷ xs)
      → P (last_block (event_row x) (map event_row xs))
  unfolding event_row
  last_of_all x [] (h, hs) = h
  last_of_all x (y ∷ ys) (h, hs) = last_of_all y ys hs

  pub last_of_rows :
      (xs : List IndexedEvent) (r : EventRow) (rs : List EventRow)
      → map event_row xs ≡ r ∷ rs
      → All (λ y. P y.block_number) xs
      → P (last_block r rs)
  last_of_rows [] r rs e h = absurd (cc e)
  last_of_rows (x ∷ xs) r rs e h =
      let head : event_row x ≡ r = cc e in
      let rest : map event_row xs ≡ rs = cc e in rw (head, rest) at (last_of_all x xs h)

All-take :
    (P : IndexedEvent → Type 0) (n : ℕ) (xs : List IndexedEvent) → All P xs → All P (take n xs)
All-take P zero xs h = tt
All-take P (suc n) [] h = tt
All-take P (suc n) (x ∷ xs) (hx, hs) = (hx, All-take P n xs hs)

module _ (from to cap : ℕ) (indexed : List IndexedEvent) (r : EventRow) (rs : List EventRow) where
  -- The last row's block is among the blocks that are asked for.
  pub fetch_range :
      fetch_events_since from to cap indexed ≡ r ∷ rs
      → (from ≤ last_block r rs) × (last_block r rs < to)
  unfolding fetch_events_since
  fetch_range e =
      last_of_rows (λ b. (from ≤ b) × (b < to)) (take cap (select_events from to indexed)) r rs e
        (All-take (IsWithin from to) cap _ (select_events-IsWithin from to indexed))

  -- An event of those blocks is among the rows, unless the cut fell in or before its block.
  pub fetch_complete :
      (a : IndexedEvent)
      → fetch_events_since from to cap indexed ≡ r ∷ rs
      → Has a indexed
      → IsWithin from to a
      → (a.block_number < last_block r rs) ⊎ (length (select_events from to indexed) ≤ cap)
      → Has (event_row a) (r ∷ rs)
  unfolding fetch_events_since
  fetch_complete a e h w side =
      let taken = take cap (select_events from to indexed) in
      let there = select_events-Has from to a indexed w h in
      elim (take-Has cap a (select_events from to indexed) (select_events-IsOrdered from to indexed)
        there) [
          | inl k ↦ subst (Has (event_row a)) e (map-Has event_row a taken k)
          | inr (less, low) ↦
              let cut = last_of_rows (λ b. b ≤ a.block_number) taken r rs e low in
              elim side [ inl early ↦ absurd (omega arith) | inr all ↦ absurd (omega arith) ]
        ]
