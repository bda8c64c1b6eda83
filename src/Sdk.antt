-- ===== src/Sdk.antt =====
-- The offline verifier of sdk/aurum/typescript/src/verifier.ts. A size is a natural number here, so
-- the checks for integers and for signs are met. `catch` gives `false`.
pub mod Agreement
use hara_registry.Prelude.{
  ℕ, zero, suc, ◌+◌, ◌-◌, ◌*◌, ◌/◌, ◌%◌, ◌^◌, Bool, true, false, not, ◌&&◌, ◌||◌, Option, none,
  some, List, [], ◌∷◌, ◌++◌, length, ltb, leb, ◌==◌, if◌then◌else◌, shr1, bit_and,
}
use hara_registry.Errors.{Result, ok, err, stuck, error, ◌>>=◌}
use hara_registry.ParseInt.{parse_pair}
use hara_registry.Sha256.{Bytes, Text, Sha256}
use hara_registry.TransparencyLog.{InclusionProof, max_rounds}
use hara_registry.Verifiers.{Climb, Twin}

cons_byte : Option ℕ → Result Bytes → Result Bytes
cons_byte none rest = err error
cons_byte (some b) rest = do bs ← rest; ok (b ∷ bs)

parse_pairs : Text → Result Bytes
unfolding cons_byte
parse_pairs [] = ok []
parse_pairs (c ∷ []) = ok []
parse_pairs (c ∷ d ∷ rest) = cons_byte (parse_pair c d) (parse_pairs rest)

strip_prefix : Text → Text
strip_prefix [] = []
strip_prefix (c ∷ []) = c ∷ []
strip_prefix (c ∷ d ∷ rest) = if c == b'0' && (d == b'x' || d == b'X') then rest else c ∷ d ∷ rest

unfoldable pub hex_to_bytes : Text → Result Bytes
unfolding strip_prefix parse_pairs
hex_to_bytes hex =
    let h = strip_prefix hex in if length h % 2 == 0 then parse_pairs h else err error

pub data HashInput : Type 0 where
  hex : Text → HashInput
  raw : Bytes → HashInput

unfoldable pub to_bytes : HashInput → Result Bytes
to_bytes (hex text) = hex_to_bytes text
to_bytes (raw bytes) = ok bytes

-- `diff |= a[i] ^ b[i]` over both arrays; `true` when a byte differs.
differs : Bytes → Bytes → Bool
differs [] bs = false
differs (a ∷ as') [] = true
differs (a ∷ as') (b ∷ bs) = not (a == b) || differs as' bs

unfoldable pub bytes_equal : Bytes → Bytes → Bool
unfolding differs
bytes_equal a b = if length a == length b then not (differs a b) else false

-- `do { fn >>>= 1; sn >>>= 1; } while ((fn & 1) === 0 && fn !== 0);`
pub do_shift : ℕ → ℕ → ℕ → ℕ × ℕ
do_shift zero fn sn = (fn, sn)
do_shift (suc fuel) fn sn =
    let again = do_shift fuel (shr1 fn) (shr1 sn) in
    if shr1 fn % 2 == 0 && not (shr1 fn == 0) then again else (shr1 fn, shr1 sn)

-- `(fn & 1) === 1 || fn === sn`
abbrev pub on_left : ℕ → ℕ → Bool
on_left fn sn = fn % 2 == 1 || fn == sn

-- What one round does to `fn` and `sn`.
pub move : ℕ → ℕ → ℕ × ℕ
move fn sn =
    let (fn', sn') = if on_left fn sn && fn % 2 == 0 then do_shift max_rounds fn sn else (fn, sn) in
    (shr1 fn', shr1 sn')

-- `while ((fn & 1) === 1) { fn >>>= 1; sn >>>= 1; }`
shift_odd : ℕ → ℕ → ℕ → ℕ × ℕ
shift_odd zero fn sn = (fn, sn)
shift_odd (suc fuel) fn sn =
    let again = shift_odd fuel (shr1 fn) (shr1 sn) in if fn % 2 == 1 then again else (fn, sn)

abbrev pub caught : Result Bool → Bool
caught (ok b) = b
caught (err e) = false
caught stuck = false

-- `n > 0 && (n & (n - 1)) === 0`, on the 32-bit patterns.
is_power_of_two : ℕ → Bool
is_power_of_two n = ltb 0 n && bit_and (n % 2 ^ 32) ((n - 1) % 2 ^ 32) == 0

all_bytes : List HashInput → Result (List Bytes)
all_bytes [] = ok []
all_bytes (p ∷ ps) = do b ← to_bytes p; bs ← all_bytes ps; ok (b ∷ bs)

module _ ⦃sha : Sha256⦄ where
  -- RFC 6962 hashes of inputs that are bytes already, each over one buffer.
  unfoldable pub leaf_hash : Bytes → Bytes
  leaf_hash data' = sha.digest (0x00 ∷ data')

  unfoldable pub node_hash : Bytes → Bytes → Bytes
  node_hash l r = sha.digest (0x01 ∷ l ++ r)

  pub climb : Climb → Bytes → Climb
  climb s p =
      let (fn', sn') = move s.fn s.sn in
      record {
        fn = fn';
        sn = sn';
        r = if on_left s.fn s.sn then node_hash p s.r else node_hash s.r p;
      }

  -- The loop over the audit path; `none` is the early `return false`.
  pub inclusion_loop : List Text → Climb → Result (Option Climb)
  inclusion_loop [] s = ok (some s)
  inclusion_loop (p ∷ rest) s = do
    pb ← hex_to_bytes p
    let round = inclusion_loop rest (climb s pb)
    if s.sn == 0 then ok none else round

  pub inclusion_end : HashInput → Option Climb → Result Bool
  inclusion_end root none = ok false
  inclusion_end root (some s) =
      let compared = (do b ← to_bytes root; ok (bytes_equal s.r b)) in
      if s.sn == 0 then compared else ok false

  unfoldable pub verify_inclusion : HashInput → InclusionProof → HashInput → Bool
  unfolding inclusion_end
  verify_inclusion leaf_hash_input proof root =
      let checked = (do
        r ← to_bytes leaf_hash_input
        let start : Climb = record { fn = proof.leaf_index; sn = proof.tree_size - 1; r = r }
        end ← inclusion_loop proof.audit_path start
        inclusion_end root end) in
      if proof.tree_size == 0 || leb proof.tree_size proof.leaf_index then false else caught checked

  pub twin_climb : Twin → Bytes → Twin
  twin_climb s c =
      let (fn', sn') = move s.fn s.sn in
      record {
        fn = fn';
        sn = sn';
        fr = if on_left s.fn s.sn then node_hash c s.fr else s.fr;
        sr = if on_left s.fn s.sn then node_hash c s.sr else node_hash s.sr c;
      }

  consistency_loop : List Bytes → Twin → Option Twin
  consistency_loop [] s = some s
  consistency_loop (c ∷ rest) s =
      let round = consistency_loop rest (twin_climb s c) in if s.sn == 0 then none else round

  consistency_end : Bytes → Bytes → Option Twin → Bool
  consistency_end first second none = false
  consistency_end first second (some s) =
      s.sn == 0 && bytes_equal s.fr first && bytes_equal s.sr second

  -- From the list `nodes` on.
  nodes_verified : ℕ → Bytes → ℕ → Bytes → List Bytes → Bool
  unfolding shift_odd consistency_loop consistency_end
  nodes_verified first_size first second_size second [] = false
  nodes_verified first_size first second_size second (seed ∷ rest) =
      let (fn, sn) = shift_odd max_rounds (first_size - 1) (second_size - 1) in
      let start : Twin = record { fn = fn; sn = sn; fr = seed; sr = seed } in
      consistency_end first second (consistency_loop rest start)

  unfoldable pub verify_consistency : ℕ → HashInput → ℕ → HashInput → List HashInput → Bool
  unfolding nodes_verified is_power_of_two all_bytes
  verify_consistency first_size first_root second_size second_root path =
      let checked = (do
        first ← to_bytes first_root
        second ← to_bytes second_root
        if first_size == second_size
            then ok (length path == 0 && bytes_equal first second)
            else if first_size == 0
            then ok false
            else (do
              decoded ← all_bytes path
              let nodes = if is_power_of_two first_size then first ∷ decoded else decoded
              ok (nodes_verified first_size first second_size second nodes))) in
      if ltb second_size first_size then false else caught checked
