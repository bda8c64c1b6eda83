-- ===== src/Tests/LedgerRuns.antt =====
-- The ledger and the routes on a store with one attestation and two leaves.
use hara_registry.Prelude.{
  ℕ, ◌++◌, ◌≤◌, codes, ◌≡◌, refl, sym, ap, arith, true, none, some, List, [], ◌∷◌, length, ◌%◌, All,
  ◌≢◌, ◌=t=◌, shl1,
}
use hara_registry.Errors.{ok, ok_inj}
use hara_registry.Sha256.{Bytes, Text, IsByte, hash_leaf, hash_children}
use hara_registry.Hex.{to_hex, from_hex, lc, decode_all}
use hara_registry.Assoc.{lookup, insert}
use hara_registry.TransparencyLog.{
  TransparencyLog, ConsistencyProof, consistency_proof, root_at_hex, leaf_hash_hex, append,
  current_root_hex, mth, largest_power_of_two_smaller_than, k_loop, tree_size, inclusion_proof,
  path,
}
use hara_registry.TransparencyLog.Operations.{max_size}
use hara_registry.Verifiers.{verify_inclusion, verify_consistency}
use hara_registry.Store.{
  MemoryStore, AttestationRecord, active, get_leaves, get_attestation_by_id, append_leaf,
  append_status, set_attestation_status, update,
}
use hara_registry.Types.{Sth, Attestation}
use hara_registry.Ledger.{
  World, Ledger, Anchors, get_log, after, read, append_and_anchor, append_both, write, anchor,
  status_leaf, status_text, observe,
}
use hara_registry.Ledger.Invariant.{IsConsistent}
use hara_registry.Ledger.Hoare.{Extends}
use hara_registry.Ledger.Attestations.{get_attestation, revoke, set_status, change_status}
use hara_registry.Ledger.Service.{Call, status_change, perform, perform_all}
use hara_registry.Ledger.History.{history_kept, old_head_consistent}
use hara_registry.Ledger.Answers.{attestation_verifies}
use hara_registry.Exec.{◌>>=◌, lift, pure}
use hara_registry.AnchorService
use hara_registry.AnchorService.{Surroundings, Receipt, EventLog}
use hara_registry.AnchorService.Heads.{anchor_sth_lem, anchors_of}
use hara_registry.AnchorService.Unkeyed.{unkeyed_answers}
use hara_registry.Auth.{Identity, Payload, require_tenant, is_tenant_did, tenant_did_from}
use hara_registry.Routes.Tenancy.{require_tenant_lem}
use hara_registry.Sdk
use hara_registry.Sdk.{hex}
use hara_registry.Sdk.Agreement.{inclusion_agrees}
use hara_registry.Tests.Toy.{toy, toy_digest}

-- The low byte of each code unit.
unfoldable pub low_bytes : Text → Bytes
low_bytes [] = []
low_bytes (c ∷ cs) = (c % 256) ∷ low_bytes cs

pub low_bytes-IsByte : (t : Text) → All IsByte (low_bytes t)
unfolding low_bytes
low_bytes-IsByte [] = tt
low_bytes-IsByte (c ∷ cs) = (omega arith, low_bytes-IsByte cs)

abbrev pub world : World
world = record {
  now_iso = λ n. n ∷ [];
  now_ms = λ n. n;
  random_hex = λ n. n ∷ [];
  utf8 = low_bytes;
  date_ms = λ t. some (length t);
  utf8-IsByte = low_bytes-IsByte;
}

abbrev plain_head : Text → Text → ℕ → Sth
plain_head id root size = record {
  log_id = id;
  tree_size = size;
  root_hash = root;
  timestamp = [];
  anchor = none;
}

abbrev pub plain : Anchors
plain = record {
  anchor_sth = λ call id root size. ok (plain_head id root size);
  same_head = λ call id root size sth e. (
    ap (λ (t : Sth). t.log_id) (sym (ok_inj e)),
    ap (λ (t : Sth). t.root_hash) (sym (ok_inj e)),
    ap (λ (t : Sth). t.tree_size) (sym (ok_inj e)),
  );
}

abbrev log_name : Text
log_name = codes "tenant:t"

abbrev pub record_one : AttestationRecord
record_one = record {
  registry_id = codes "reg:att:1";
  subject = codes "did:hara:s";
  issuer = codes "did:hara:tenant:t";
  record_type = codes "other";
  content_hash = codes "0x01";
  hash_alg = codes "sha256";
  status = active;
  tenant = codes "did:hara:tenant:t";
  log_id = log_name;
  leaf_index = 1;
  leaf_hash = to_hex (hash_leaf (6 ∷ []));
  passport = none;
  links = none;
  issued_at = none;
  anchored_at = [];
}

abbrev pub store_one : MemoryStore
store_one = record {
  atts = record_one ∷ [];
  att_by_id = (codes "reg:att:1", 0) ∷ [];
  att_by_content = [];
  status_by_registry = [];
  evs = [];
  ev_by_id = [];
  ev_by_content = [];
  checkpoints_by_id = [];
  checkpoints_by_log = [];
  leaves_by_log = (log_name, to_hex (5 ∷ []) ∷ to_hex (6 ∷ []) ∷ []) ∷ [];
}

abbrev ledger_one : Ledger
ledger_one = record { store = store_one; logs = []; effects = 0 }

abbrev two_leaves : TransparencyLog
two_leaves = record { log_id = log_name; leaves = (5 ∷ []) ∷ (6 ∷ []) ∷ [] }

stored_leaves : decode_all (get_leaves store_one log_name) ≡ ok two_leaves.leaves
unfolding get_leaves lookup decode_all ◌=t=◌ from_hex to_hex
stored_leaves = refl

no_logs :
    (id : Text) (tl : TransparencyLog)
    → lookup id [] ≡ some tl
    → decode_all (get_leaves store_one id) ≡ ok tl.leaves
unfolding lookup
no_logs id tl e = absurd (cc e)

consistent_one : IsConsistent ledger_one.store ledger_one.logs
consistent_one = record {
  logs_fit = no_logs;
  atts_fit = (
    record {
      leaves = two_leaves.leaves;
      decoded = stored_leaves;
      in_range = omega arith;
      hashed = refl;
    },
    tt,
  );
}

abbrev calls : List Call
calls = status_change (codes "reg:att:1") revoke (codes "r") none (codes "did:hara:tenant:t") ∷ []

abbrev third_leaf : Bytes
third_leaf = codes "status\nreg:att:1\nrevoked\n" ++ (0 ∷ codes "\ndid:hara:tenant:t\n")

abbrev three_leaves : TransparencyLog
three_leaves = record { log_id = log_name; leaves = (5 ∷ []) ∷ (6 ∷ []) ∷ third_leaf ∷ [] }

opened_one : (get_log log_name ledger_one).0 ≡ ok two_leaves
unfolding get_log lookup get_leaves decode_all ◌=t=◌ from_hex to_hex ◌>>=◌ read lift pure
opened_one = refl

reopened_one : (get_log log_name (perform_all world plain calls ledger_one)).0 ≡ ok three_leaves
unfolding get_log lookup get_leaves decode_all ◌=t=◌ from_hex to_hex perform_all perform ◌>>=◌ read
    get_attestation_by_id set_status pure change_status observe append_and_anchor append_both lift
    write leaf_hash_hex append current_root_hex mth largest_power_of_two_smaller_than k_loop shl1
    tree_size anchor append_leaf insert status_leaf low_bytes status_text inclusion_proof path
    append_status set_attestation_status update hash_leaf hash_children
reopened_one = refl

history_kept_example :
    IsConsistent
      (perform_all world plain calls ledger_one).store
      (perform_all world plain calls ledger_one).logs
    × Extends store_one (perform_all world plain calls ledger_one).store
history_kept_example = history_kept world plain calls ledger_one consistent_one

old_head_consistent_example :
    (proof : ConsistencyProof) × (old_root : Text) × (new_root : Text) × (consistency_proof
        three_leaves 2 3
      ≡ ok proof)
    × (root_at_hex two_leaves 2 ≡ ok old_root)
    × (root_at_hex three_leaves 3 ≡ ok new_root)
    × (verify_consistency 2 old_root 3 new_root proof.consistency_path ≡ ok true)
old_head_consistent_example =
    old_head_consistent world plain calls ledger_one log_name two_leaves three_leaves 2
      consistent_one opened_one reopened_one (omega arith) (omega arith)

found_one : get_attestation_by_id store_one (codes "reg:att:1") ≡ some record_one
unfolding get_attestation_by_id lookup ◌=t=◌
found_one = refl

small_one : length (get_leaves store_one log_name) ≤ max_size
unfolding get_leaves lookup ◌=t=◌
small_one = omega arith

inclusion_agrees_example :
    verify_inclusion
      (to_hex (1 ∷ []))
      (record { leaf_index = 1; tree_size = 2; audit_path = to_hex (2 ∷ []) ∷ [] })
      (to_hex (3 ∷ []))
    ≡ ok (
        Sdk.verify_inclusion
          (hex (to_hex (1 ∷ [])))
          (record { leaf_index = 1; tree_size = 2; audit_path = to_hex (2 ∷ []) ∷ [] })
          (hex (to_hex (3 ∷ []))))
inclusion_agrees_example =
    inclusion_agrees (1 ∷ []) (3 ∷ []) ((2 ∷ []) ∷ []) 1 2 (omega arith, tt) (omega arith, tt)
      ((omega arith, tt), tt) (omega arith)

abbrev chain : Surroundings
chain = record {
  now_iso = λ n. n ∷ [];
  now_ms = λ n. n;
  utf8 = low_bytes;
  keccak256 = λ b. to_hex b;
  pq_sign = λ key msg. key;
  decimal = λ t. some t;
  block_number = λ n. some 7;
  record_anchor = λ n args. some (codes "0xaa");
  receipt_of = λ n hash. some (record { success = true; logs = [] });
  pq_algorithm = codes "ML-DSA-65";
  chain_id = 131216;
  pq_anchor_registry = codes "0x1111111111111111111111111111111111111111";
  has_account = true;
  pq_secret_key = some (9 ∷ []);
}

-- The service that only reads, since it has no key.
abbrev unkeyed : Surroundings
unkeyed = record chain { pq_secret_key = none }

attestation_verifies_example :
    (dto : Attestation) × ((get_attestation (anchors_of unkeyed) (codes "reg:att:1") ledger_one).0
      ≡ ok dto)
    × (verify_inclusion dto.log.leaf_hash dto.inclusion_proof dto.sth.root_hash ≡ ok true)
attestation_verifies_example =
    attestation_verifies (anchors_of unkeyed) ledger_one (codes "reg:att:1") record_one
      consistent_one found_one small_one
      (λ call root size bytes long fits.
        (_, unkeyed_answers unkeyed call log_name root size refl bytes long))

abbrev a_root : Text
a_root = to_hex (hash_leaf (5 ∷ []))

abbrev a_head : Sth
a_head = record {
  log_id = log_name;
  tree_size = 1;
  root_hash = a_root;
  timestamp = 3 ∷ [];
  anchor = some (record {
    chain_id = 131216;
    tx_hash = some (codes "0xaa");
    on_chain_id = none;
    contract = some (codes "0x1111111111111111111111111111111111111111");
  });
}

anchored_one : AnchorService.anchor_sth chain 3 log_name a_root 1 ≡ ok a_head
unfolding AnchorService.anchor_sth AnchorService.pq_from_hex to_hex hash_leaf toy_digest
    AnchorService.canonical_sth low_bytes AnchorService.writes_enabled
    AnchorService.is_ledger_scoped_registry AnchorService.is_hex_of ◌=t=◌ lc
anchored_one = refl

anchor_sth_lem_example :
    (a_head.log_id ≡ log_name)
    × (a_head.root_hash ≡ a_root)
    × (a_head.tree_size ≡ 1)
    × (a_head.anchor ≢ none
        → AnchorService.is_ledger_scoped_registry chain.pq_anchor_registry ≡ true)
anchor_sth_lem_example = anchor_sth_lem chain 3 log_name a_root 1 a_head anchored_one

abbrev payload : Payload
payload = record { tenant = some (codes "t"); did = some (codes "did:hara:tenant:t"); sub = none }

abbrev who : Identity
who = record { tenant_did = codes "did:hara:tenant:t"; sub = codes "did:hara:tenant:t" }

passed : require_tenant true (λ token. some payload) (some (codes "Bearer x")) ≡ ok who
unfolding require_tenant after tenant_did_from is_tenant_did
passed = refl

require_tenant_lem_example : is_tenant_did who.tenant_did ≡ true
require_tenant_lem_example =
    require_tenant_lem true (λ token. some payload) (some (codes "Bearer x")) who passed
