-- ===== src/Sdk/Agreement.antt =====
-- The verifier of the SDK and the service's own verifier.
use hara_registry.Prelude.{
  ℕ, zero, suc, ◌-◌, ◌/◌, ◌%◌, ◌^◌, ◌≤◌, ◌<◌, ◌≡◌, ◌≢◌, refl, ap, arith, Bool, true, false, ◌&&◌,
  Option, none, some, List, [], ◌∷◌, map, length, leb, ◌==◌, if◌then◌else◌, shr1_small, sar1_small,
  All, ◌=t=◌, =t=_iff, =t=-refl, Bool-cases, inl, inr,
}
use mathlib.Core.Path.{subst}
use hara_registry.Errors.{ok}
use hara_registry.Sha256.{Bytes, IsByte, Sha256, hash_children, hash_children-IsByte}
use hara_registry.Hex.{to_hex, hex_body, hex_digit}
use hara_registry.Hex.RoundTrip.{from_hex-to_hex, lc-to_hex, to_hex_inj}
use hara_registry.TransparencyLog.{InclusionProof}
use hara_registry.Verifiers
use hara_registry.Verifiers.{Climb, shift_while_even}
use hara_registry.Verifiers.Inclusion.{climb_all, inclusion_loop_lem}
use hara_registry.ParseInt.{parse_pair, digit, after_digit, is_space}
use hara_registry.Sdk
use hara_registry.Sdk.{
  hex, raw, do_shift, hex_to_bytes, to_bytes, bytes_equal, differs, parse_pairs, cons_byte,
  strip_prefix, node_hash, inclusion_end,
}

-- The two loops that walk up agree from a left child that is not the first node.
do_shift_lem :
    (fuel fn sn : ℕ)
    → fn < 2 ^ 31
    → sn < 2 ^ 31
    → fn ≢ 0
    → fn % 2 ≡ 0
    → do_shift (suc fuel) fn sn ≡ shift_while_even (suc fuel) fn sn
unfolding do_shift shift_while_even
do_shift_lem zero fn sn h k live even =
    ground (arith, sar1_small fn, sar1_small sn, shr1_small fn, shr1_small sn)
do_shift_lem (suc fuel) fn sn h k live even = ground (
  arith,
  sar1_small fn,
  sar1_small sn,
  shr1_small fn,
  shr1_small sn,
  do_shift_lem fuel (fn / 2) (sn / 2),
)

shift_bound :
    (fuel fn sn : ℕ)
    → fn < 2 ^ 31
    → sn < 2 ^ 31
    → ((shift_while_even fuel fn sn).0 ≤ fn) × ((shift_while_even fuel fn sn).1 ≤ sn)
unfolding shift_while_even
shift_bound zero fn sn h k = (omega arith, omega arith)
shift_bound (suc fuel) fn sn h k =
    ground (arith, sar1_small fn, sar1_small sn, shift_bound fuel (fn / 2) (sn / 2))

move_lem : (fn sn : ℕ) → fn < 2 ^ 31 → sn < 2 ^ 31 → sn ≢ 0 → Sdk.move fn sn ≡ Verifiers.move fn sn
unfolding Sdk.move Verifiers.move
move_lem fn sn h k live = elim (Bool-cases (Verifiers.joins_left fn sn && fn % 2 == 0)) [
  | inl e ↦
      let even : fn % 2 ≡ 0 = ground arith in
      let edge : fn ≡ sn = ground arith in
      let (f, g) = shift_bound 32 fn sn h k in
      rw
        (
          e,
          do_shift_lem 31 fn sn h k (omega arith) even,
          sar1_small (shift_while_even 32 fn sn).0 (omega arith),
          sar1_small (shift_while_even 32 fn sn).1 (omega arith),
          shr1_small (shift_while_even 32 fn sn).0 (omega arith),
          shr1_small (shift_while_even 32 fn sn).1 (omega arith),
        )
        refl
  | inr e ↦
      rw
        (
          e,
          sar1_small fn h,
          sar1_small sn k,
          shr1_small fn (omega arith),
          shr1_small sn (omega arith),
        )
        refl
]

move_bound :
    (fn sn : ℕ)
    → fn < 2 ^ 31
    → sn < 2 ^ 31
    → ((Verifiers.move fn sn).0 < 2 ^ 31) × ((Verifiers.move fn sn).1 < 2 ^ 31)
unfolding Verifiers.move
move_bound fn sn h k = elim (Bool-cases (Verifiers.joins_left fn sn && fn % 2 == 0)) [
  | inl e ↦
      let (f, g) = shift_bound 32 fn sn h k in
      rw
        (
          e,
          sar1_small (shift_while_even 32 fn sn).0 (omega arith),
          sar1_small (shift_while_even 32 fn sn).1 (omega arith),
        )
        (omega arith, omega arith)
  | inr e ↦ rw (e, sar1_small fn h, sar1_small sn k) (omega arith, omega arith)
]

pub parse_digits : (b : ℕ) → b < 256 → parse_pair (hex_digit (b / 16)) (hex_digit (b % 16)) ≡ some b
unfolding parse_pair hex_digit digit after_digit is_space
parse_digits b h = ground arith

parse-hex_body : (b : Bytes) → All IsByte b → parse_pairs (hex_body b) ≡ ok b
unfolding parse_pairs hex_body cons_byte
parse-hex_body [] h = refl
parse-hex_body (b ∷ bs) (hb, hbs) = rw (parse_digits b hb, parse-hex_body bs hbs) refl

pub even-hex_body : (b : Bytes) → length (hex_body b) % 2 ≡ 0
unfolding hex_body
even-hex_body [] = refl
even-hex_body (b ∷ bs) = omega (arith, even-hex_body bs)

hex_to_bytes-to_hex : (b : Bytes) → All IsByte b → hex_to_bytes (to_hex b) ≡ ok b
unfolding hex_to_bytes to_hex strip_prefix
hex_to_bytes-to_hex b h = rw (even-hex_body b, parse-hex_body b h) refl

bytes_equal_lem : (a b : Bytes) → bytes_equal a b ≡ (a =t= b)
unfolding bytes_equal ◌=t=◌ differs
bytes_equal_lem [] [] = refl
bytes_equal_lem [] (y ∷ ys) = ground arith
bytes_equal_lem (x ∷ xs) [] = ground arith
bytes_equal_lem (x ∷ xs) (y ∷ ys) = ground (arith, bytes_equal_lem xs ys)

some_inj : {x y : Climb} → some x ≡ some y → x ≡ y
some_inj e = cc

-- Two hashes are written alike only when they are alike.
same_test : (a b : Bytes) → All IsByte a → All IsByte b → (to_hex a =t= to_hex b) ≡ (a =t= b)
same_test a b ha hb = elim (Bool-cases (a =t= b)) [
  | inl e ↦ rw (e, (=t=_iff a b).0 e) (=t=-refl (to_hex b))
  | inr e ↦ elim (Bool-cases (to_hex a =t= to_hex b)) [
    | inl f ↦
        let same : a ≡ b = to_hex_inj a b ha hb ((=t=_iff (to_hex a) (to_hex b)).0 f) in
        absurd (cc ((=t=_iff a b).1 same, e))
    | inr f ↦ rw (e, f) refl
  ]
]

and_if : (b c : Bool) → (b && c) ≡ Sdk.caught (if b then ok c else ok false)
and_if true c = refl
and_if false c = refl

module _ ⦃sha : Sha256⦄ where
  node_hash_lem : (l r : Bytes) → node_hash l r ≡ hash_children l r
  unfolding node_hash hash_children
  node_hash_lem l r = refl

  climb_lem :
      (s : Climb) (p : Bytes)
      → s.fn < 2 ^ 31
      → s.sn < 2 ^ 31
      → s.sn ≢ 0
      → Sdk.climb s p ≡ Verifiers.climb s p
  unfolding Sdk.climb Verifiers.climb hash_children node_hash
  climb_lem s p h k live = rw (move_lem s.fn s.sn h k live) refl

  bound_fn :
      (s : Climb) (p : Bytes)
      → (Verifiers.move s.fn s.sn).0 < 2 ^ 31
      → (Verifiers.climb s p).fn < 2 ^ 31
  unfolding Verifiers.climb
  bound_fn s p h = h

  bound_sn :
      (s : Climb) (p : Bytes)
      → (Verifiers.move s.fn s.sn).1 < 2 ^ 31
      → (Verifiers.climb s p).sn < 2 ^ 31
  unfolding Verifiers.climb
  bound_sn s p h = h

  climb-IsByte : (s : Climb) (p : Bytes) → All IsByte (Verifiers.climb s p).r
  unfolding Verifiers.climb
  climb-IsByte s p = elim (Bool-cases (Verifiers.joins_left s.fn s.sn)) [
    | inl e ↦ rw (e) (hash_children-IsByte p s.r)
    | inr e ↦ rw (e) (hash_children-IsByte s.r p)
  ]

  climb_all-IsByte :
      (nodes : List Bytes) (s t : Climb)
      → All IsByte s.r
      → climb_all nodes s ≡ some t
      → All IsByte t.r
  unfolding climb_all
  climb_all-IsByte [] s t h e = subst (λ (c : Climb). All IsByte c.r) (some_inj e) h
  climb_all-IsByte (p ∷ rest) s t h e = elim (Bool-cases (s.sn == 0)) [
    | inl z ↦ absurd (cc (rw (z) at e))
    | inr z ↦ climb_all-IsByte rest (Verifiers.climb s p) t (climb-IsByte s p) (rw (z) at e)
  ]

  inclusion_loop-to_hex :
      (nodes : List Bytes) (s : Climb)
      → All (All IsByte) nodes
      → s.fn < 2 ^ 31
      → s.sn < 2 ^ 31
      → Sdk.inclusion_loop (map to_hex nodes) s ≡ ok (climb_all nodes s)
  unfolding Sdk.inclusion_loop climb_all
  inclusion_loop-to_hex [] s h f g = refl
  inclusion_loop-to_hex (p ∷ rest) s (hp, hrest) f g =
      rw (hex_to_bytes-to_hex p hp) (elim (Bool-cases (s.sn == 0)) [
        | inl e ↦ rw (e) refl
        | inr e ↦
            let (f', g') = move_bound s.fn s.sn f g in
            let live : s.sn ≢ 0 = ground arith in
            rw
              (
                e,
                climb_lem s p f g live,
                inclusion_loop-to_hex rest (Verifiers.climb s p) hrest (bound_fn s p f')
                    (bound_sn s p g'),
              )
              refl
      ])

  verdict_lem :
      (root : Bytes) (end : Option Climb)
      → All IsByte root
      → ((t : Climb) → end ≡ some t → All IsByte t.r)
      → Verifiers.inclusion_verdict (to_hex root) end
        ≡ Sdk.caught (inclusion_end (hex (to_hex root)) end)
  unfolding Verifiers.inclusion_verdict inclusion_end to_bytes
  verdict_lem root none hr h = refl
  verdict_lem root (some s) hr h =
      rw
        (
          lc-to_hex root hr,
          hex_to_bytes-to_hex root hr,
          bytes_equal_lem s.r root,
          same_test s.r root (h s refl) hr,
        )
        (and_if (s.sn == 0) (s.r =t= root))

  -- A proof whose path is written in hexadecimal.
  abbrev written : ℕ → ℕ → List Bytes → InclusionProof
  written index size nodes = record {
    leaf_index = index;
    tree_size = size;
    audit_path = map to_hex nodes;
  }

  -- For hashes in the form that toHex writes, and trees of at most 2^31 leaves, verifyInclusion of
  -- the SDK and verifyInclusion of the service give the same answer on every inclusion proof.
  pub inclusion_agrees :
      (leaf root : Bytes) (nodes : List Bytes) (index size : ℕ)
      → All IsByte leaf
      → All IsByte root
      → All (All IsByte) nodes
      → size ≤ 2 ^ 31
      → Verifiers.verify_inclusion (to_hex leaf) (written index size nodes) (to_hex root)
        ≡ ok (
            Sdk.verify_inclusion (hex (to_hex leaf)) (written index size nodes) (hex (to_hex root)))
  unfolding Verifiers.verify_inclusion Sdk.verify_inclusion to_bytes
  inclusion_agrees leaf root nodes index size hl hr hn small = elim (Bool-cases (leb size index)) [
    | inl e ↦ ground arith
    | inr e ↦
        let start : Climb = record { fn = index; sn = size - 1; r = leaf } in
        let sized : (size == 0) ≡ false = ground arith in
        let low : index < size = ground arith in
        rw
          (
            e,
            sized,
            from_hex-to_hex leaf hl,
            hex_to_bytes-to_hex leaf hl,
            inclusion_loop_lem nodes start hn,
            inclusion_loop-to_hex nodes start hn (omega arith) (omega arith),
          )
          (ap ok (
            verdict_lem root (climb_all nodes start) hr
              (λ t f. climb_all-IsByte nodes start t hl f)))
  ]
