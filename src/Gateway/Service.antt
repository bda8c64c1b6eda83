-- ===== src/Gateway/Service.antt =====
-- services/gapura-gateway/src/services/anchor-service.ts, with sign of pq.ts and isGapuraScopedRegistry of
-- config.ts. The chain, the clock, random ids, keccak256 and ML-DSA-65 are parameters, and each use of them
-- in a call has the number of the call.
use hara_registry.Prelude.{
  ℕ, codes, ◌+◌, ◌-◌, Bool, true, false, not, ◌&&◌, Option, none, some, List, [], ◌∷◌, ◌++◌, length,
  ◌==◌, ◌=t=◌, if◌then◌else◌,
}
use hara_registry.Sha256.{Bytes, Text}
use hara_registry.Hex.{to_hex, lc}
use hara_registry.AnchorService.{
  AnchorArgs, is_hex_of, zero_address, shared_platform_pq_anchor_registry, pq_from_hex,
}
use hara_registry.AnchorWorker.Message.{canonical_message}
use hara_registry.Gateway.{
  Attempt, done, refused, ◌>>=◌, thrown, invalid_digest, anchor_failed, chain_unavailable,
  internal_error, AnchorStatus, confirmed, AnchorRecord, Gateway, get_anchor_by_digest, put_anchor,
}

pub record EventLog : Type 0 where
  pub address : Text
  pub topics : List Text
  pub log_index : ℕ

pub record Receipt : Type 0 where
  pub success : Bool
  pub block_number : ℕ
  pub logs : List EventLog

pub record PqKeypair : Type 0 where
  pub public_key : Bytes
  pub secret_key : Bytes

-- `none` is a call that throws.
pub record Surroundings : Type 0 where
  pub get_block_number : ℕ → Option ℕ
  pub write_contract : ℕ → AnchorArgs → Option Text
  pub wait_for_receipt : ℕ → Text → Option Receipt
  pub new_anchor_id : ℕ → Text
  pub now_ms : ℕ → ℕ
  pub now_iso : ℕ → Text
  pub utf8 : Text → Bytes
  pub keccak256 : Bytes → Bytes
  pub ml_dsa65_sign : Bytes → Bytes → Bytes
  -- `BigInt(text).toString()`
  pub decimal : Text → Option Text
  pub pq_algorithm : Text
  pub chain_id : ℕ
  pub pq_anchor_registry : Text
  -- ANCHOR_ECDSA_KEY is a private key.
  pub has_account : Bool
  -- The keys that PQ_MLDSA_SEED gives, unless it is a placeholder.
  pub pq_keypair : Option PqKeypair

pub record TxRef : Type 0 where
  pub chain_id : ℕ
  pub contract : Text
  pub tx_hash : Option Text
  pub on_chain_id : Option Text
  pub block_number : Option ℕ
  pub log_index : Option ℕ

pub record Anchor : Type 0 where
  pub anchor_id : Text
  pub on_chain_id : Option Text
  pub digest : Text
  pub object_did : Text
  pub purpose : Text
  pub status : AnchorStatus
  pub tx_ref : TxRef
  pub pq_key_hash : Text
  pub anchored_at : Text

pub record CreateRequest : Type 0 where
  pub digest : Text
  pub hash_alg : Text
  pub object_did : Text
  pub purpose : Text
  pub actor_did : Option Text
  pub tenant : Text

pub record Created : Type 0 where
  pub anchor : Anchor
  pub already_anchored : Bool

-- What a receipt tells.
pub record Mined : Type 0 where
  pub block_number : ℕ
  pub event : Option (Text × ℕ)

unfoldable pub is_gapura_scoped_registry : Text → Bool
is_gapura_scoped_registry v =
    is_hex_of 40 v
    && not (lc v =t= lc zero_address)
    && not (lc v =t= lc shared_platform_pq_anchor_registry)

second_topic : List Text → Text
second_topic (t ∷ u ∷ ts) = u
second_topic _ = codes "0x0"

has_topic : List Text → Bool
has_topic ((c ∷ cs) ∷ ts) = true
has_topic _ = false

abbrev pub reached {ℓ} : {A : Type ℓ} → Option A → Attempt A
reached none = refused chain_unavailable
reached (some x) = done x

module _ (env : Surroundings) where
  anchor_chain_tag : Text → Text → Text
  anchor_chain_tag purpose tenant =
      to_hex (env.keccak256 (env.utf8 (purpose ++ (codes "|" ++ tenant))))

  pq_sign : Bytes → Bytes → Attempt Bytes
  pq_sign secret_key message =
      let sig = env.ml_dsa65_sign secret_key message in
      if not (length secret_key == 4032)
      then refused internal_error
      else if not (length sig == 3309)
      then refused internal_error
      else done sig

  unfoldable pub writes_enabled : Bool
  writes_enabled =
      env.has_account
      && (elim env.pq_keypair [ none ↦ false | some pair ↦ true ])
      && is_gapura_scoped_registry env.pq_anchor_registry

  unfoldable pub pq_key_hash_hex : Option PqKeypair → Text
  pq_key_hash_hex none = codes "0x0000000000000000000000000000000000000000000000000000000000000000"
  pq_key_hash_hex (some pair) = to_hex (env.keccak256 pair.public_key)

  unfoldable pub to_dto : AnchorRecord → Anchor
  to_dto r = record {
    anchor_id = r.anchor_id;
    on_chain_id = r.on_chain_id;
    digest = r.digest;
    object_did = r.object_did;
    purpose = r.purpose;
    status = r.status;
    tx_ref = record {
      chain_id = env.chain_id;
      contract = env.pq_anchor_registry;
      tx_hash = r.tx_hash;
      on_chain_id = r.on_chain_id;
      block_number = r.block_number;
      log_index = r.log_index;
    };
    pq_key_hash = r.pq_key_hash;
    anchored_at = r.anchored_at;
  }

  -- The first event of the registry: its id and its place.
  first_event : List EventLog → Attempt (Option (Text × ℕ))
  unfolding second_topic has_topic
  first_event [] = done none
  first_event (ev ∷ evs) =
      let later = first_event evs in
      if lc ev.address =t= lc env.pq_anchor_registry && has_topic ev.topics
      then (do id ← reached (env.decimal (second_topic ev.topics)); done (some (id, ev.log_index)))
      else later

  -- From the safe head to the arguments of recordAnchor.
  unfoldable pub prepare : ℕ → PqKeypair → CreateRequest → Text → Attempt AnchorArgs
  unfolding anchor_chain_tag pq_sign
  prepare call pair req digest = do
    latest ← reached (env.get_block_number call)
    let safe_head = latest - 1
    digest_bytes ← thrown (pq_from_hex digest)
    if not (length digest_bytes == 32) then refused invalid_digest else (do
      anchor_chain ← thrown (pq_from_hex (anchor_chain_tag req.purpose req.tenant))
      msg ← thrown (
          canonical_message env.utf8 (record {
            algorithm = env.pq_algorithm;
            merkle_root = digest_bytes;
            block_from = safe_head;
            block_to = safe_head;
            event_count = 1;
            anchor_chain = anchor_chain;
          }))
      sig ← pq_sign pair.secret_key msg
      done (record {
        merkle_root = to_hex digest_bytes;
        sha3_root = to_hex digest_bytes;
        block_from = safe_head;
        block_to = safe_head;
        event_count = 1;
        anchor_chain = to_hex anchor_chain;
        pq_signature_hash = to_hex (env.keccak256 sig);
      }))

  unfoldable pub confirm : ℕ → Text → Attempt Mined
  unfolding first_event
  confirm call tx_hash = do
    receipt ← reached (env.wait_for_receipt call tx_hash)
    if not receipt.success then refused anchor_failed else (do
      event ← first_event receipt.logs
      done (record { block_number = receipt.block_number; event = event }))

  unfoldable pub record_of : ℕ → PqKeypair → CreateRequest → Text → Text → Mined → AnchorRecord
  record_of call pair req digest tx_hash mined = record {
    anchor_id = env.new_anchor_id call;
    on_chain_id = elim mined.event [ none ↦ none | some (id, index) ↦ some id ];
    digest = digest;
    hash_alg = req.hash_alg;
    object_did = req.object_did;
    purpose = req.purpose;
    actor_did = req.actor_did;
    tenant = req.tenant;
    tx_hash = some tx_hash;
    block_number = some mined.block_number;
    log_index = elim mined.event [ none ↦ none | some (id, index) ↦ some index ];
    pq_key_hash = pq_key_hash_hex (some pair);
    pq_verified = true;
    status = confirmed;
    failure_reason = none;
    anchored_at = env.now_iso call;
  }

  module _ (call : ℕ) (pair : PqKeypair) (req : CreateRequest) (digest : Text) where
    unfoldable pub persist : Text → Attempt Mined → Gateway → Attempt Created × Gateway
    persist tx_hash (refused code) s = (refused code, s)
    persist tx_hash (done mined) s =
        let rec = record_of call pair req digest tx_hash mined in
        (done (record { anchor = to_dto rec; already_anchored = false }), put_anchor rec s)

    unfoldable pub await_receipt : AnchorArgs → Option Text → Gateway → Attempt Created × Gateway
    unfolding persist
    await_receipt args none s = (refused anchor_failed, s)
    await_receipt args (some tx_hash) s =
        persist tx_hash (confirm call tx_hash)
          (record s { sent = record { args = args; tx_hash = tx_hash } ∷ s.sent })

    unfoldable pub submit : Attempt AnchorArgs → Gateway → Attempt Created × Gateway
    unfolding await_receipt
    submit (refused code) s = (refused code, s)
    submit (done args) s = await_receipt args (env.write_contract call args) s

  unfoldable pub create_new :
      CreateRequest → Text → Option PqKeypair → Gateway → Attempt Created × Gateway
  unfolding submit
  create_new req digest none s = (refused anchor_failed, s)
  create_new req digest (some pair) s =
      if not writes_enabled
      then (refused anchor_failed, s)
      else submit s.uses pair req digest (prepare s.uses pair req digest)
          (record s { uses = s.uses + 1 })

  unfoldable pub create_from :
      CreateRequest → Text → Option AnchorRecord → Gateway → Attempt Created × Gateway
  create_from req digest (some existing) s =
      (done (record { anchor = to_dto existing; already_anchored = true }), s)
  create_from req digest none s = create_new req digest env.pq_keypair s

  unfoldable pub create_anchor : CreateRequest → Gateway → Attempt Created × Gateway
  create_anchor req s =
      let digest = lc req.digest in create_from req digest (get_anchor_by_digest digest s) s
