-- ===== src/Tests/GatewayRuns.antt =====
-- The gateway of Gapura.
use hara_registry.Prelude.{
  ◌≡◌, refl, sym, ap, ◌∙◌, codes, true, none, some, [], ◌∷◌, ◌=t=◌, inl, inr, Bool-cases, =t=_iff,
}
use mathlib.Core.Path.{subst}
use hara_registry.ParseInt.{parse_pair}
use hara_registry.Errors.{ok}
use hara_registry.Sha256.{Bytes, Text}
use hara_registry.Hex.{to_hex, lc}
use hara_registry.Assoc.{lookup}
use hara_registry.AnchorService.{pq_from_hex}
use hara_registry.Gateway.{done, confirmed, AnchorRecord, Gateway, get_anchor_by_digest}
use hara_registry.Gateway.Service.{Surroundings, CreateRequest, to_dto, create_anchor}
use hara_registry.Gateway.Http.{Post, posts}
use hara_registry.Gateway.Anchored.{IsOnChain, AllOnChain, anchored_once}

abbrev root : Bytes
root =
    0 ∷ 0 ∷ 0 ∷ 0 ∷ 0 ∷ 0 ∷ 0 ∷ 0 ∷ 0 ∷ 0 ∷ 0 ∷ 0 ∷ 0 ∷ 0 ∷ 0 ∷ 0 ∷ 0 ∷ 0 ∷ 0 ∷ 0 ∷ 0 ∷ 0 ∷ 0 ∷ 0
    ∷ 0 ∷ 0 ∷ 0 ∷ 0 ∷ 0 ∷ 0 ∷ 0 ∷ 0 ∷ []

abbrev digest_one : Text
digest_one = codes "0x0000000000000000000000000000000000000000000000000000000000000000"

abbrev gapura : Surroundings
gapura = record {
  get_block_number = λ n. some 9;
  write_contract = λ n args. some (codes "0xaa");
  wait_for_receipt = λ n hash. some (record { success = true; block_number = 9; logs = [] });
  new_anchor_id = λ n. codes "gap_anc_1";
  now_ms = λ n. n;
  now_iso = λ n. codes "2026-01-01";
  utf8 = λ t. t;
  keccak256 = λ bytes. root;
  ml_dsa65_sign = λ key bytes. root;
  decimal = λ t. some t;
  pq_algorithm = codes "ML-DSA-65";
  chain_id = 131216;
  pq_anchor_registry = codes "0x1111111111111111111111111111111111111111";
  has_account = true;
  pq_keypair = none;
}

abbrev anchored_record : AnchorRecord
anchored_record = record {
  anchor_id = codes "gap_anc_0";
  on_chain_id = none;
  digest = digest_one;
  hash_alg = codes "sha256";
  object_did = codes "did:hara:object:1";
  purpose = codes "passport";
  actor_did = none;
  tenant = codes "dev";
  tx_hash = some (codes "0xaa");
  block_number = some 9;
  log_index = none;
  pq_key_hash = [];
  pq_verified = true;
  status = confirmed;
  failure_reason = none;
  anchored_at = codes "2026-01-01";
}

abbrev with_record : Gateway
with_record = record {
  by_digest = (digest_one, anchored_record) ∷ [];
  by_id = [];
  idem = [];
  sent =
      record {
        args = record {
          merkle_root = to_hex root;
          sha3_root = to_hex root;
          block_from = 8;
          block_to = 8;
          event_count = 1;
          anchor_chain = to_hex root;
          pq_signature_hash = to_hex root;
        };
        tx_hash = codes "0xaa";
      }
      ∷ [];
  uses = 1;
}

digest_bytes : pq_from_hex digest_one ≡ ok root
unfolding pq_from_hex parse_pair
digest_bytes = refl

record-IsOnChain : IsOnChain gapura with_record.sent anchored_record
record-IsOnChain = (
  _,
  inl refl,
  refl,
  (root, digest_bytes, refl, refl, refl),
  (0, record { success = true; block_number = 9; logs = [] }, refl, refl, refl),
)

with_record-AllOnChain : AllOnChain gapura with_record
unfolding lookup
with_record-AllOnChain d rec e = elim (Bool-cases (digest_one =t= d)) [
  | inl same ↦
      let is : anchored_record ≡ rec = cc (rw same at e) in
      (
        ap (λ r. r.digest) (sym is) ∙ (=t=_iff digest_one d).0 same,
        subst (IsOnChain gapura with_record.sent) is record-IsOnChain,
      )
  | inr other ↦ let no : none ≡ some rec = rw other at e in cc
]

abbrev again : CreateRequest
again = record {
  digest = digest_one;
  hash_alg = codes "keccak256";
  object_did = codes "did:hara:object:2";
  purpose = codes "other";
  actor_did = none;
  tenant = codes "dev";
}

abbrev post_one : Post
post_one = record {
  tenant = codes "dev";
  key = some (codes "k");
  body = record {
    digest = some digest_one;
    object_did = some (codes "did:hara:object:1");
    purpose = some (codes "passport");
    actor_did = none;
    hash_alg = none;
    metadata = [];
  };
}

record_there : get_anchor_by_digest digest_one with_record ≡ some anchored_record
unfolding get_anchor_by_digest lookup lc ◌=t=◌
record_there = refl

anchored_once_example :
    AllOnChain gapura
      (posts gapura (λ body. []) (λ bytes. bytes) (post_one ∷ post_one ∷ []) with_record)
    × (create_anchor gapura again
          (posts gapura (λ body. []) (λ bytes. bytes) (post_one ∷ post_one ∷ []) with_record)
        ≡ (
          done (record { anchor = to_dto gapura anchored_record; already_anchored = true }),
          posts gapura (λ body. []) (λ bytes. bytes) (post_one ∷ post_one ∷ []) with_record,
        ))
anchored_once_example =
    anchored_once gapura (λ body. []) (λ bytes. bytes) (post_one ∷ post_one ∷ []) with_record again
      anchored_record with_record-AllOnChain record_there
