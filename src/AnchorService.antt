-- ===== src/AnchorService.antt =====
-- services/registry-ledger/src/services/anchor.ts, with canonicalSTH of services/pq.ts and
-- isLedgerScopedRegistry of config.ts. The chain client, the clock, keccak256 and the post-quantum
-- signature are parameters; each use of them in a call has the number of the call.
pub mod Heads
pub mod Unkeyed
use hara_registry.Prelude.{
  ℕ, codes, zero, suc, ◌+◌, ◌-◌, ◌*◌, ◌/◌, ◌%◌, ◌^◌, Bool, true, false, not, ◌&&◌, ◌||◌, Option,
  none, some, List, [], ◌∷◌, ◌++◌, length, ltb, leb, ◌==◌, ◌=t=◌, if◌then◌else◌,
}
use hara_registry.Errors.{
  Result, ok, err, problem, error, range_error, invalid_hash, chain_unavailable, ◌>>=◌,
}
use hara_registry.ParseInt.{parse_pair}
use hara_registry.Sha256.{Bytes, Text}
use hara_registry.Hex.{to_hex, lc}
use hara_registry.Types.{Sth, Anchor}

pub record EventLog : Type 0 where
  pub address : Text
  pub topics : List Text

pub record Receipt : Type 0 where
  pub success : Bool
  pub logs : List EventLog

pub record AnchorArgs : Type 0 where
  pub merkle_root : Text
  pub sha3_root : Text
  pub block_from : ℕ
  pub block_to : ℕ
  pub event_count : ℕ
  pub anchor_chain : Text
  pub pq_signature_hash : Text

-- What the service gets from its libraries and its configuration; `none` is a call that throws.
pub record Surroundings : Type 0 where
  pub now_iso : ℕ → Text
  pub now_ms : ℕ → ℕ
  pub utf8 : Text → Bytes
  pub keccak256 : Bytes → Text
  pub pq_sign : Bytes → Bytes → Bytes
  -- `BigInt(text).toString()`
  pub decimal : Text → Option Text
  pub block_number : ℕ → Option ℕ
  pub record_anchor : ℕ → AnchorArgs → Option Text
  pub receipt_of : ℕ → Text → Option Receipt
  pub pq_algorithm : Text
  pub chain_id : ℕ
  pub pq_anchor_registry : Text
  -- ANCHOR_ECDSA_KEY is a private key.
  pub has_account : Bool
  -- The secret key that PQ_MLDSA_SEED gives, unless it is a placeholder.
  pub pq_secret_key : Option Bytes

is_hex_digit : ℕ → Bool
is_hex_digit c =
    (leb b'0' c && leb c b'9') || (leb b'a' c && leb c b'f') || (leb b'A' c && leb c b'F')

all_hex : Text → Bool
unfolding is_hex_digit
all_hex [] = true
all_hex (c ∷ cs) = is_hex_digit c && all_hex cs

-- `/^0x[0-9a-fA-F]{n}$/.test(text)`
unfoldable pub is_hex_of : ℕ → Text → Bool
unfolding all_hex
is_hex_of n [] = false
is_hex_of n (c ∷ []) = false
is_hex_of n (c ∷ d ∷ rest) = c == b'0' && d == b'x' && length rest == n && all_hex rest

abbrev pub zero_address : Text
zero_address = codes "0x0000000000000000000000000000000000000000"

abbrev pub shared_platform_pq_anchor_registry : Text
shared_platform_pq_anchor_registry = codes "0x8A791620dd6260079BF849Dc5567aDC3F2FdC318"

unfoldable pub is_ledger_scoped_registry : Text → Bool
is_ledger_scoped_registry v =
    is_hex_of 40 v
    && not (lc v =t= lc zero_address)
    && not (lc v =t= lc shared_platform_pq_anchor_registry)

-- fromHex of pq.ts: what is no number is the byte 0.
or_zero : Option ℕ → ℕ
or_zero none = 0
or_zero (some b) = b

unfoldable pub pq_pairs : Text → Bytes
unfolding or_zero
pq_pairs [] = []
pq_pairs (c ∷ []) = []
pq_pairs (c ∷ d ∷ rest) = or_zero (parse_pair c d) ∷ pq_pairs rest

unfoldable pub clean : Text → Text
clean [] = []
clean (c ∷ []) = c ∷ []
clean (c ∷ d ∷ rest) = if c == b'0' && d == b'x' then rest else c ∷ d ∷ rest

unfoldable pub pq_from_hex : Text → Result Bytes
unfolding pq_pairs clean
pq_from_hex hex = let h = clean hex in if length h % 2 == 0 then ok (pq_pairs h) else err error

-- The `n` bytes of a number, the highest first.
unfoldable pub big_endian : ℕ → ℕ → Bytes
big_endian zero v = []
big_endian (suc n) v = big_endian n (v / 256) ++ (v % 256 ∷ [])

-- `writeUInt16BE` and `writeBigUInt64BE` throw on a number that does not fit.
unfoldable pub write_uint : ℕ → ℕ → Result Bytes
write_uint n v = if ltb v (256 ^ n) then ok (big_endian n v) else err range_error

module _ (env : Surroundings) where
  unfoldable pub canonical_sth : Text → Text → ℕ → Bytes → ℕ → Result Bytes
  unfolding write_uint
  canonical_sth algorithm log_id size root_hash timestamp_ms = do
    algo_len ← write_uint 2 (length (env.utf8 algorithm))
    log_len ← write_uint 2 (length (env.utf8 log_id))
    if not (length root_hash == 32) then err error else (do
      size_bytes ← write_uint 8 size
      time_bytes ← write_uint 8 timestamp_ms
      ok (
          algo_len
          ++ env.utf8 algorithm
          ++ log_len
          ++ env.utf8 log_id
          ++ size_bytes
          ++ root_hash
          ++ time_bytes))

  unfoldable pub writes_enabled : Option Bytes → Bool
  writes_enabled none = false
  writes_enabled (some key) = env.has_account && is_ledger_scoped_registry env.pq_anchor_registry

  -- The hash of the head's signature, where there is a key.
  signature_hash : Option Bytes → ℕ → Text → ℕ → Bytes → Result (Option Text)
  signature_hash none call log_id size root = ok none
  signature_hash (some key) call log_id size root = do
    msg ← canonical_sth env.pq_algorithm log_id size root (env.now_ms call)
    ok (some (env.keccak256 (env.pq_sign key msg)))

  -- A call of the chain that throws is a 503.
  abbrev reached {ℓ} : {A : Type ℓ} → Option A → Result A
  reached none = err (problem chain_unavailable)
  reached (some x) = ok x

  -- `evLog.topics[1] ?? "0x0"`
  second_topic : List Text → Text
  second_topic [] = codes "0x0"
  second_topic (t ∷ []) = codes "0x0"
  second_topic (t ∷ u ∷ ts) = u

  has_topic : List Text → Bool
  has_topic [] = false
  has_topic ([] ∷ ts) = false
  has_topic ((c ∷ cs) ∷ ts) = true

  -- The id in the first event of the registry; a topic that is no number throws.
  on_chain_id : List EventLog → Result (Option Text)
  unfolding second_topic has_topic
  on_chain_id [] = ok none
  on_chain_id (ev ∷ evs) =
      let later = on_chain_id evs in
      if lc ev.address =t= lc env.pq_anchor_registry && has_topic ev.topics
      then (do id ← reached (env.decimal (second_topic ev.topics)); ok (some id))
      else later

  -- From the safe head on: the transaction and its receipt.
  submit : ℕ → Text → ℕ → Bytes → Text → Result Anchor
  unfolding on_chain_id
  submit call log_id size root pq_signature_hash = do
    latest ← reached (env.block_number call)
    let safe_head = latest - 1
    tx_hash ← reached (
        env.record_anchor call (record {
          merkle_root = to_hex root;
          sha3_root = to_hex root;
          block_from = safe_head;
          block_to = safe_head;
          event_count = size;
          anchor_chain = env.keccak256 (env.utf8 log_id);
          pq_signature_hash = pq_signature_hash;
        }))
    receipt ← reached (env.receipt_of call tx_hash)
    if not receipt.success then err (problem chain_unavailable) else (do
      id ← on_chain_id receipt.logs
      ok (record {
        chain_id = env.chain_id;
        tx_hash = some tx_hash;
        on_chain_id = id;
        contract = some env.pq_anchor_registry;
      }))

  abbrev with_anchor : Sth → Anchor → Sth
  with_anchor sth anchor = record sth { anchor = some anchor }

  publish : Sth → ℕ → Bytes → Option Text → Bool → Result Sth
  unfolding submit
  publish sth call root (some pq_signature_hash) true = do
    anchor ← submit call sth.log_id sth.tree_size root pq_signature_hash
    ok (with_anchor sth anchor)
  publish sth call root none enabled = ok sth
  publish sth call root (some h) false = ok sth

  unfoldable pub anchor_sth : ℕ → Text → Text → ℕ → Result Sth
  unfolding publish signature_hash
  anchor_sth call log_id root_hex size = do
    root ← pq_from_hex root_hex
    if not (length root == 32) then err (problem invalid_hash) else (do
      signed ← signature_hash env.pq_secret_key call log_id size root
      publish
          (record {
            log_id = log_id;
            tree_size = size;
            root_hash = root_hex;
            timestamp = env.now_iso call;
            anchor = none;
          })
          call root signed (writes_enabled env.pq_secret_key))
