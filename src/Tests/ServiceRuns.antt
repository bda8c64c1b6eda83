-- ===== src/Tests/ServiceRuns.antt =====
-- The RPC cache, the client of the ledger, and the guards of the ledger.
use hara_registry.Prelude.{
  ◌≡◌, ◌≢◌, refl, sym, ap, All, List, none, some, [], ◌∷◌, get_elem?, codes, true, false, ◌=t=◌,
}
use hara_registry.Errors.{ok}
use hara_registry.Assoc.{lookup}
use hara_registry.RpcCache
use hara_registry.RpcCache.{JsonRpcReq, Cache, warmup_requests, value, absent}
use hara_registry.Client
use hara_registry.Client.{InternalRequest, Client}
use hara_registry.Store.{EvidenceRecord, AttestationRecord, revoked, get_evidence_by_id}
use hara_registry.Ledger.{Ledger}
use hara_registry.Ledger.Attestations.{supersede}
use hara_registry.Ledger.Service.{perform_all, status_change, evidence_deletion}
use hara_registry.Ledger.EvidenceStore.{delete_evidence, until_ms}
use hara_registry.Ledger.Retained.{IsLocked, locked_evidence_stays}
use hara_registry.Ledger.Revoked.{revoked_stays}
use hara_registry.Tests.LedgerRuns.{world, plain, store_one, record_one}
use hara_registry.Sha256.{Text}
use hara_registry.Auth.{Identity}
use hara_registry.Routes.{Request, attest, change, named, missing, from, serve_all}
use hara_registry.Routes.Isolation.{IsOwn, issued_by, others_keep_attestations}
use hara_registry.Tests.Toy.{toy}

abbrev node : RpcCache.Outside
node = record {
  fetch = λ n req. some (record {
    ok = true;
    is_json = true;
    body = some (record {
      jsonrpc = codes "2.0";
      id = req.id;
      result = value (codes "0x2008");
      error = absent;
    });
    message = [];
  });
  now = λ n. n;
  get_fails = λ n. false;
  set_fails = λ n. false;
  digest_key = λ method params. method;
}

abbrev empty_cache : Cache
empty_cache = record { entries = []; asked = []; uses = 0 }

abbrev chain_id : JsonRpcReq
chain_id = record { id = codes "5"; method = codes "eth_chainId"; params = [] }

abbrev server : Client.Outside
server = record {
  fetch = λ n sent. some (record {
    status = 503;
    ok = false;
    status_text = codes "Service Unavailable";
    content_type = none;
    retry_after = some (codes "1");
    text = none;
  });
  auth = none;
  url = λ path query. some path;
  encode_uri_component = λ t. t;
  parse_json = λ t. some t;
  parse_problem = λ t. none;
  number_ms = λ t. some 1000;
  date_ms = λ t. none;
  now_ms = λ n. n;
  random_uuid = λ n. n ∷ [];
  decimal = λ n. n ∷ [];
  base_url = [];
  max_retries = 2;
  retry_base_ms = 250;
}

abbrev bundle_request : InternalRequest
bundle_request = record {
  method = codes "GET";
  path = codes "/verify";
  query = [];
  body = none;
  auth = false;
  idempotency_key = none;
}

abbrev fresh : Client
fresh = record { sent = []; responses = []; slept = []; uses = 0 }

abbrev held : EvidenceRecord
held = record {
  evidence_id = codes "ev:1";
  content_hash = codes "0x01";
  hash_alg = codes "sha256";
  until = codes "2030-01-01";
  basis = codes "law";
  legal_hold = true;
  tenant = codes "did:hara:tenant:t";
  log_id = codes "tenant:t";
  leaf_index = 0;
  links = none;
  anchored_at = [];
  deleted = false;
}

abbrev with_evidence : Ledger
with_evidence = record {
  store = record store_one { evs = held ∷ []; ev_by_id = (codes "ev:1", 0) ∷ [] };
  logs = [];
  effects = 0;
}

held_there : get_evidence_by_id with_evidence.store (codes "ev:1") ≡ some held
unfolding get_evidence_by_id lookup ◌=t=◌
held_there = refl

held-IsLocked : IsLocked (codes "ev:1") held world plain 0
unfolding until_ms
held-IsLocked = refl

locked_evidence_stays_example :
    ((x : Unit {0})
      → (delete_evidence world plain (codes "ev:1") (codes "did:hara:tenant:t") with_evidence).0
        ≢ ok x)
    × (get_evidence_by_id
          (delete_evidence world plain
            (codes "ev:1")
            (codes "did:hara:tenant:t")
            with_evidence).1.store
          (codes "ev:1")
        ≡ some held)
locked_evidence_stays_example =
    locked_evidence_stays (codes "ev:1") held world plain (codes "did:hara:tenant:t") with_evidence
      held_there held-IsLocked

abbrev revoked_one : AttestationRecord
revoked_one = record record_one { status = revoked }

abbrev with_revoked : Ledger
with_revoked = record {
  store = record store_one { atts = revoked_one ∷ [] };
  logs = [];
  effects = 0;
}

revoked_there : get_elem? with_revoked.store.atts 0 ≡ some revoked_one
revoked_there = refl

revoked_stays_example :
    get_elem?
      (perform_all world plain
        (status_change (codes "reg:att:1") supersede (codes "again") none record_one.tenant
          ∷ evidence_deletion (codes "ev:1") record_one.tenant
          ∷ [])
        with_revoked).store.atts
      0
    ≡ some revoked_one
revoked_stays_example =
    revoked_stays 0 revoked_one refl world plain
      (status_change (codes "reg:att:1") supersede (codes "again") none record_one.tenant
        ∷ evidence_deletion (codes "ev:1") record_one.tenant
        ∷ [])
      with_revoked revoked_there

abbrev stranger : Identity
stranger = record { tenant_did = codes "did:hara:tenant:u"; sub = [] }

abbrev strange_requests : List Request
strange_requests =
    attest stranger (record {
      content_hash =
          some (codes "0x0000000000000000000000000000000000000000000000000000000000000000");
      subject = some (codes "did:hara:s");
      issuer = some (codes "did:hara:tenant:t");
      record_type = some (codes "other");
      hash_alg = missing;
      issued_at = none;
      links = none;
    })
    ∷ change stranger (codes "reg:att:1") (named supersede) (some (codes "no")) (some (codes "x"))
    ∷ []

stranger_differs : stranger.tenant_did ≢ codes "did:hara:tenant:t"
unfolding ◌=t=◌
stranger_differs e =
    let same : true ≡ false = ap (λ (t : Text). t =t= codes "did:hara:tenant:t") (sym e) in
    absurd (cc same)

strangers : All (λ r. (from r).tenant_did ≢ codes "did:hara:tenant:t") strange_requests
unfolding from
strangers = (stranger_differs, (stranger_differs, tt))

others_keep_attestations_example :
    All IsOwn (serve_all world plain strange_requests with_revoked).store.atts
    × (issued_by
          (codes "did:hara:tenant:t")
          (serve_all world plain strange_requests with_revoked).store.atts
        ≡ issued_by (codes "did:hara:tenant:t") with_revoked.store.atts)
others_keep_attestations_example =
    others_keep_attestations world plain (codes "did:hara:tenant:t") strange_requests with_revoked
      (refl, tt) strangers
