-- ===== src/Verifiers.antt =====
-- verifyInclusion and verifyConsistency of services/registry-ledger/src/transparency-log.ts. They
-- take proofs and roots alone.
pub mod Moves
pub mod Inclusion
pub mod Acceptance
pub mod Soundness
pub mod Powers
pub mod Consistency
pub mod Extension
pub mod Seed
pub mod ConsistencyAcceptance
pub mod Truncation
use hara_registry.Prelude.{
  ℕ, zero, suc, ◌+◌, ◌-◌, ◌%◌, Bool, true, false, ◌&&◌, ◌||◌, not, Option, none, some, List, [],
  ◌∷◌, length, ltb, leb, ◌==◌, ◌=t=◌, if◌then◌else◌, sar1, ◌^◌, bit_and,
}
use hara_registry.Errors.{Result, ok, err, ◌>>=◌}
use hara_registry.Sha256.{Bytes, Text, Sha256, hash_children}
use hara_registry.Hex.{to_hex, from_hex, lc, decode_all}
use hara_registry.TransparencyLog.{InclusionProof, max_rounds}

-- `(fn & 1) === 1 || fn === sn`: the node of the path stands on the left.
abbrev pub joins_left : ℕ → ℕ → Bool
joins_left fn sn = fn % 2 == 1 || fn == sn

-- `while (fn !== 0 && (fn & 1) === 0) { fn >>= 1; sn >>= 1; }`
unfoldable pub shift_while_even : ℕ → ℕ → ℕ → ℕ × ℕ
shift_while_even zero fn sn = (fn, sn)
shift_while_even (suc fuel) fn sn =
    let again = shift_while_even fuel (sar1 fn) (sar1 sn) in
    if not (fn == 0) && fn % 2 == 0 then again else (fn, sn)

-- What one round of either verifier does to `fn` and `sn`.
unfoldable pub move : ℕ → ℕ → ℕ × ℕ
move fn sn =
    let (fn', sn') =
      if joins_left fn sn && fn % 2 == 0 then shift_while_even max_rounds fn sn else (fn, sn) in
    (sar1 fn', sar1 sn')

pub record Climb : Type 0 where
  pub fn : ℕ
  pub sn : ℕ
  pub r : Bytes

module _ ⦃sha : Sha256⦄ where
  unfoldable pub climb : Climb → Bytes → Climb
  climb s p =
      let (fn', sn') = move s.fn s.sn in
      record {
        fn = fn';
        sn = sn';
        r = if joins_left s.fn s.sn then hash_children p s.r else hash_children s.r p;
      }

  -- The loop over the audit path; `none` is the early `return false`.
  pub inclusion_loop : List Text → Climb → Result (Option Climb)
  inclusion_loop [] s = ok (some s)
  inclusion_loop (p_hex ∷ rest) s =
      let round = (do p ← from_hex p_hex; inclusion_loop rest (climb s p)) in
      if s.sn == 0 then ok none else round

  unfoldable pub inclusion_verdict : Text → Option Climb → Bool
  inclusion_verdict root_hex none = false
  inclusion_verdict root_hex (some s) = s.sn == 0 && to_hex s.r =t= lc root_hex

  unfoldable pub verify_inclusion : Text → InclusionProof → Text → Result Bool
  unfolding inclusion_verdict
  verify_inclusion leaf_hash_hex proof root_hex =
      if leb proof.tree_size proof.leaf_index then ok false else do
        r ← from_hex leaf_hash_hex
        let start : Climb = record { fn = proof.leaf_index; sn = proof.tree_size - 1; r = r }
        end ← inclusion_loop proof.audit_path start
        ok (inclusion_verdict root_hex end)

-- Both running hashes of verifyConsistency.
pub record Twin : Type 0 where
  pub fn : ℕ
  pub sn : ℕ
  pub fr : Bytes
  pub sr : Bytes

-- `while ((fn & 1) === 1) { fn >>= 1; sn >>= 1; }`
pub shift_while_odd : ℕ → ℕ → ℕ → ℕ × ℕ
shift_while_odd zero fn sn = (fn, sn)
shift_while_odd (suc fuel) fn sn =
    let again = shift_while_odd fuel (sar1 fn) (sar1 sn) in if fn % 2 == 1 then again else (fn, sn)

module _ ⦃sha : Sha256⦄ where
  pub twin_climb : Twin → Bytes → Twin
  twin_climb s c =
      let (fn', sn') = move s.fn s.sn in
      record {
        fn = fn';
        sn = sn';
        fr = if joins_left s.fn s.sn then hash_children c s.fr else s.fr;
        sr = if joins_left s.fn s.sn then hash_children c s.sr else hash_children s.sr c;
      }

  pub consistency_loop : List Bytes → Twin → Option Twin
  consistency_loop [] s = some s
  consistency_loop (c ∷ rest) s =
      let round = consistency_loop rest (twin_climb s c) in if s.sn == 0 then none else round

  -- The code reads `fn` at the end, and not `sn`.
  consistency_verdict : Text → Text → Option Twin → Bool
  consistency_verdict first_root_hex second_root_hex none = false
  consistency_verdict first_root_hex second_root_hex (some s) =
      s.fn == 0 && to_hex s.fr =t= lc first_root_hex && to_hex s.sr =t= lc second_root_hex

  -- The part of the function from the list `nodes` on.
  pub verify_nodes : ℕ → Text → ℕ → Text → List Bytes → Bool
  unfolding consistency_verdict
  verify_nodes first first_root_hex second second_root_hex [] = false
  verify_nodes first first_root_hex second second_root_hex (seed ∷ rest) =
      let (fn, sn) = shift_while_odd max_rounds (first - 1) (second - 1) in
      let start : Twin = record { fn = fn; sn = sn; fr = seed; sr = seed } in
      consistency_verdict first_root_hex second_root_hex (consistency_loop rest start)

-- `(first & (first - 1)) === 0`, on the 32-bit patterns.
pub is_pow2 : ℕ → Bool
is_pow2 first = bit_and (first % 2 ^ 32) ((first - 1) % 2 ^ 32) == 0

module _ ⦃sha : Sha256⦄ where
  unfoldable pub verify_consistency : ℕ → Text → ℕ → Text → List Text → Result Bool
  verify_consistency first first_root_hex second second_root_hex path =
      let proper = (do
        decoded ← decode_all path
        nodes ←
            (if is_pow2 first
              then (do r ← from_hex first_root_hex; ok (r ∷ decoded))
              else ok decoded)
        ok (verify_nodes first first_root_hex second second_root_hex nodes)) in
      if first == 0
      then ok true
      else if first == second
      then ok (length path == 0 && lc first_root_hex =t= lc second_root_hex)
      else if ltb second first
      then ok false
      else proper
