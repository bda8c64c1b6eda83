-- ===== src/Gateway/Reads.antt =====
-- verify, getAnchor and getStatus of services/gapura-gateway/src/services/anchor-service.ts. The time of an
-- answer to verify, and the answer's texts that are fixed, are left out.
use hara_registry.Prelude.{
  ℕ, suc, ◌+◌, ◌-◌, Bool, true, false, Option, none, some, List, [], ◌∷◌, ltb, if◌then◌else◌,
}
use hara_registry.Sha256.{Text}
use hara_registry.Hex.{lc}
use hara_registry.Gateway.{
  Attempt, done, refused, anchor_not_found, AnchorStatus, pending, confirmed, failed, AnchorRecord,
  Gateway, get_anchor_by_digest, get_anchor_by_id,
}
use hara_registry.Gateway.Service.{Surroundings, Anchor, to_dto}

pub record Found : Type 0 where
  pub anchor_id : Text
  pub object_did : Text
  pub purpose : Text
  pub tenant : Text
  pub actor_did : Option Text
  pub anchored_at : Text
  pub chain_id : ℕ
  pub tx_hash : Option Text
  pub on_chain_id : Option Text
  pub ecdsa_on_chain : Bool
  pub pq_verified : Bool
  pub pq_key_hash : Text
  pub status : AnchorStatus

pub record VerifyResult : Type 0 where
  pub digest : Text
  pub anchored : Bool
  pub anchors : List Found

pub record StatusReply : Type 0 where
  pub anchor_id : Text
  pub status : AnchorStatus
  pub confirmations : ℕ
  pub block_number : Option ℕ
  pub failure_reason : Option Text

is_confirmed : AnchorStatus → Bool
is_confirmed pending = false
is_confirmed confirmed = true
is_confirmed failed = false

module _ (env : Surroundings) where
  unfoldable pub found_of : AnchorRecord → Found
  unfolding is_confirmed
  found_of rec = record {
    anchor_id = rec.anchor_id;
    object_did = rec.object_did;
    purpose = rec.purpose;
    tenant = rec.tenant;
    actor_did = rec.actor_did;
    anchored_at = rec.anchored_at;
    chain_id = env.chain_id;
    tx_hash = rec.tx_hash;
    on_chain_id = rec.on_chain_id;
    ecdsa_on_chain = is_confirmed rec.status;
    pq_verified = rec.pq_verified;
    pq_key_hash = rec.pq_key_hash;
    status = rec.status;
  }

  unfoldable pub verify : Text → Gateway → VerifyResult
  unfolding found_of
  verify digest s = elim (get_anchor_by_digest (lc digest) s) [
    | none ↦ record { digest = digest; anchored = false; anchors = [] }
    | some rec ↦ record { digest = rec.digest; anchored = true; anchors = found_of rec ∷ [] }
  ]

  unfoldable pub get_anchor : Text → Gateway → Attempt Anchor
  get_anchor anchor_id s = elim (get_anchor_by_id anchor_id s) [
    | none ↦ refused anchor_not_found
    | some rec ↦ done (to_dto env rec)
  ]

  -- A head that cannot be read counts as one confirmation, and block 0 as none.
  confirmations : Option ℕ → Bool → Option ℕ → ℕ
  confirmations (some (suc b)) true (some head) =
      if ltb 1 (head + 1 - suc b) then head + 1 - suc b else 1
  confirmations (some (suc b)) true none = 1
  confirmations _ _ _ = 0

  unfoldable pub get_status : Text → Gateway → Attempt StatusReply
  unfolding confirmations is_confirmed
  get_status anchor_id s = elim (get_anchor_by_id anchor_id s) [
    | none ↦ refused anchor_not_found
    | some rec ↦ done (record {
      anchor_id = rec.anchor_id;
      status = rec.status;
      confirmations =
          confirmations rec.block_number (is_confirmed rec.status) (env.get_block_number s.uses);
      block_number = rec.block_number;
      failure_reason = rec.failure_reason;
    })
  ]
