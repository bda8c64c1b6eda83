-- ===== src/Verifiers/Truncation.antt =====
-- verifyConsistency reads `fn` at the end, where RFC 9162, section 2.1.4.2, reads `sn`.
use hara_registry.Prelude.{
  ℕ, ◌-◌, ◌/◌, ◌%◌, ◌^◌, ◌≤◌, ◌<◌, ◌≡◌, arith, true, [], All, =t=-refl, pow2_pos,
}
use native.Mathlib.Nat.{div-add-mod'}
use hara_registry.Errors.{ok}
use hara_registry.Sha256.{Bytes, IsByte, Sha256}
use hara_registry.Hex.{to_hex, decode_all}
use hara_registry.Hex.RoundTrip.{from_hex-to_hex, lc-to_hex}
use hara_registry.Verifiers.{
  verify_nodes, verify_consistency, consistency_verdict, consistency_loop,
}
use hara_registry.Verifiers.Moves.{pow2_exponent}
use hara_registry.Verifiers.Powers.{is_pow2-power}
use hara_registry.Verifiers.Consistency.{shift_odd_lem}

module _ ⦃sha : Sha256⦄ where
  -- Where the first size is a power of two, verifyConsistency accepts the empty proof for every
  -- greater second size, up to 2^31, if both roots are the same bytes, written by toHex.
  pub empty_proof_accepted :
      (k second : ℕ) (root : Bytes)
      → 2 ^ k < second
      → second ≤ 2 ^ 31
      → All IsByte root
      → verify_consistency (2 ^ k) (to_hex root) second (to_hex root) [] ≡ ok true
  unfolding verify_consistency decode_all verify_nodes consistency_loop consistency_verdict
  empty_proof_accepted k second root lt small bytes =
      let short : k < 31 = pow2_exponent k 31 (omega arith) in
      let shift =
        shift_odd_lem 32 k 0 ((second - 1) / 2 ^ k) ((second - 1) % 2 ^ k) (2 ^ k - 1) (second - 1)
          (omega (arith, pow2_pos k)) (omega (arith, div-add-mod' (second - 1) (2 ^ k)))
          (omega (arith, pow2_pos k)) (omega arith) (omega arith) (omega arith) (omega arith) in
      ground (
        arith,
        pow2_pos k,
        is_pow2-power k (omega arith),
        from_hex-to_hex root bytes,
        shift,
        lc-to_hex root bytes,
        =t=-refl (to_hex root),
      )
