-- ===== src/AnchorService/Unkeyed.antt =====
-- The anchor service without a post-quantum key, which publishes heads without an anchor.
use hara_registry.Prelude.{ℕ, ◌≡◌, refl, none, [], ◌∷◌, length, All}
use hara_registry.Errors.{ok}
use hara_registry.Sha256.{Bytes, Text, IsByte}
use hara_registry.Hex.{to_hex, hex_body}
use hara_registry.Sdk.Agreement.{parse_digits, even-hex_body}
use hara_registry.AnchorService.{
  Surroundings, anchor_sth, publish, signature_hash, pq_from_hex, pq_pairs, or_zero, clean,
}

pq_pairs-hex_body : (b : Bytes) → All IsByte b → pq_pairs (hex_body b) ≡ b
unfolding pq_pairs hex_body or_zero
pq_pairs-hex_body [] h = refl
pq_pairs-hex_body (b ∷ bs) (hb, hbs) = rw (parse_digits b hb, pq_pairs-hex_body bs hbs) refl

pq_from_hex-to_hex : (b : Bytes) → All IsByte b → pq_from_hex (to_hex b) ≡ ok b
unfolding pq_from_hex to_hex clean
pq_from_hex-to_hex b h = rw (even-hex_body b, pq_pairs-hex_body b h) refl

-- A service without a key answers for every root of 32 bytes.
pub unkeyed_answers :
    (env : Surroundings) (call : ℕ) (log_id : Text) (root : Bytes) (size : ℕ)
    → env.pq_secret_key ≡ none
    → All IsByte root
    → length root ≡ 32
    → anchor_sth env call log_id (to_hex root) size
      ≡ ok (record {
        log_id = log_id;
        tree_size = size;
        root_hash = to_hex root;
        timestamp = env.now_iso call;
        anchor = none;
      })
unfolding anchor_sth publish signature_hash
unkeyed_answers env call log_id root size unkeyed bytes long =
    rw (pq_from_hex-to_hex root bytes, long, unkeyed) refl
