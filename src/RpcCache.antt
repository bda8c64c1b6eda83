-- ===== src/RpcCache.antt =====
-- services/rpc-cache/src/index.ts: the cache of JSON-RPC calls. Redis, `fetch`, the clock and the digest
-- that makes a key are parameters. An entry holds what `JSON.parse` reads back of the text that
-- `JSON.stringify` wrote.
pub mod Backed
use hara_registry.Prelude.{
  ℕ, codes, ◌+◌, Bool, true, false, not, ◌&&◌, ◌||◌, Option, none, some, List, [], ◌∷◌, ◌++◌, map,
  ltb, ◌=t=◌, ◌==◌, if◌then◌else◌,
}
use hara_registry.Errors.{error}
use hara_registry.Sha256.{Text}
use hara_registry.Assoc.{Assoc, lookup, insert}
use hara_registry.Exec.{Exec, pure, throw, run, gets, ◌>>=◌, ◌>>◌, value_of, change}

-- A member of a JSON object: not there, `null`, or a value.
pub data Field : Type 0 where
  absent null : Field
  value : Text → Field

pub data Param : Type 0 where
  text : Text → Param
  other : Text → Param

pub record JsonRpcReq : Type 0 where
  pub id : Text
  pub method : Text
  pub params : List Param

pub record JsonRpcRes : Type 0 where
  pub jsonrpc : Text
  pub id : Text
  pub result : Field
  pub error : Field

-- `none` for a body that is no JSON.
pub record HttpReply : Type 0 where
  pub ok : Bool
  pub is_json : Bool
  pub body : Option JsonRpcRes
  pub message : Text

pub record Entry : Type 0 where
  pub jsonrpc : Text
  pub result : Text
  pub stored : ℕ
  pub ttl : ℕ

-- A call of the node and its answer, with the number of the use that it was.
pub record Exchange : Type 0 where
  pub number : ℕ
  pub request : JsonRpcReq
  pub response : JsonRpcRes

pub record Outside : Type 0 where
  pub fetch : ℕ → JsonRpcReq → Option HttpReply
  -- Redis' clock, in seconds.
  pub now : ℕ → ℕ
  pub get_fails : ℕ → Bool
  pub set_fails : ℕ → Bool
  pub digest_key : Text → List Param → Text

pub record Cache : Type 0 where
  pub entries : Assoc Entry
  -- What the node has answered so far.
  pub asked : List Exchange
  pub uses : ℕ

abbrev pub day : ℕ
day = 86400

cache_ttl : Assoc ℕ
cache_ttl =
    (codes "eth_chainId", day)
    ∷ (codes "net_version", day)
    ∷ (codes "web3_clientVersion", day)
    ∷ (codes "eth_blockNumber", 1)
    ∷ (codes "eth_gasPrice", 5)
    ∷ (codes "eth_getBlockByNumber", 5)
    ∷ (codes "eth_getBlockByHash", 3600)
    ∷ (codes "eth_getTransactionByHash", 60)
    ∷ (codes "eth_getTransactionReceipt", 3600)
    ∷ (codes "eth_getLogs", 3)
    ∷ (codes "eth_call", 2)
    ∷ (codes "eth_getCode", 3600)
    ∷ (codes "eth_getBalance", 2)
    ∷ (codes "eth_getTransactionCount", 1)
    ∷ []

never_cache : List Text
never_cache =
    codes "eth_sendRawTransaction"
    ∷ codes "eth_sendTransaction"
    ∷ codes "eth_subscribe"
    ∷ codes "eth_unsubscribe"
    ∷ codes "debug_traceCall"
    ∷ codes "debug_traceTransaction"
    ∷ codes "debug_traceBlock"
    ∷ codes "txpool_content"
    ∷ codes "txpool_inspect"
    ∷ []

includes : Text → List Text → Bool
includes t [] = false
includes t (u ∷ us) = t =t= u || includes t us

unfoldable pub is_never : Text → Bool
unfolding includes never_cache
is_never method = includes method never_cache

-- `typeof tag === "string" && tag.startsWith("0x")`
has_number : List Param → Bool
has_number (text (c ∷ d ∷ rest) ∷ params) = c == b'0' && d == b'x'
has_number _ = false

-- `none` is null, and 0, which the caller takes for the same, is in no table.
unfoldable pub ttl_for : JsonRpcReq → Option ℕ
unfolding is_never has_number cache_ttl
ttl_for req =
    if is_never req.method
    then none
    else if req.method =t= codes "eth_getBlockByNumber" && has_number req.params
    then some 3600
    else lookup req.method cache_ttl

module _ (out : Outside) where
  unfoldable pub cache_key : JsonRpcReq → Text
  cache_key req = codes "rpc:" ++ out.digest_key req.method req.params

  unfoldable pub use_of : {A : Type 0} → (ℕ → A) → Exec Cache A
  use_of f = run (λ s. (f s.uses, record s { uses = s.uses + 1 }))

  -- A reply that is no JSON, or no success, is answered with an error of the cache's own.
  unfoldable pub upstream_answer : JsonRpcReq → HttpReply → Option JsonRpcRes
  upstream_answer req reply =
      if not reply.ok || not reply.is_json
      then some (record {
        jsonrpc = codes "2.0";
        id = req.id;
        result = absent;
        error = value reply.message;
      })
      else reply.body

  unfoldable pub proxy_upstream : JsonRpcReq → Exec Cache JsonRpcRes
  proxy_upstream req = do
    number ← gets (λ s. s.uses)
    answer ← use_of (λ n. out.fetch n req)
    reply ← value_of answer
    res ← value_of (upstream_answer req reply)
    change (λ s. record s {
      asked = s.asked ++ (record { number = number; request = req; response = res } ∷ []);
    })
    pure res

  -- An entry that is there and has not run out.
  unfoldable pub alive : ℕ → Option Entry → Option Entry
  alive now none = none
  alive now (some e) = if ltb now (e.stored + e.ttl) then some e else none

  -- `redis.get`: a failure is taken for a miss.
  unfoldable pub redis_get : Text → Exec Cache (Option Entry)
  unfolding alive
  redis_get key = do
    fails ← use_of out.get_fails
    now ← use_of out.now
    found ← gets (λ s. lookup key s.entries)
    pure (if fails then none else alive now found)

  unfoldable pub redis_setex : Text → ℕ → Text → Text → Exec Cache (Unit {0})
  redis_setex key ttl jsonrpc result = do
    fails ← use_of out.set_fails
    now ← use_of out.now
    if fails
        then pure tt
        else change (λ s. record s {
          entries =
              insert key (record { jsonrpc = jsonrpc; result = result; stored = now; ttl = ttl })
                s.entries;
        })

  -- What is kept of an answer: a result that is not null, without an error.
  unfoldable pub keep : JsonRpcReq → ℕ → JsonRpcRes → Field → Field → Exec Cache (Unit {0})
  unfolding cache_key
  keep req ttl fresh (value result) absent = redis_setex (cache_key req) ttl fresh.jsonrpc result
  keep req ttl fresh _ _ = pure tt

  unfoldable pub hit_or_miss : JsonRpcReq → ℕ → Option Entry → Exec Cache JsonRpcRes
  hit_or_miss req ttl (some cached) = pure (record {
    jsonrpc = cached.jsonrpc;
    id = req.id;
    result = value cached.result;
    error = absent;
  })
  hit_or_miss req ttl none = do
    fresh ← proxy_upstream req
    keep req ttl fresh fresh.result fresh.error
    pure fresh

  unfoldable pub by_ttl : JsonRpcReq → Option ℕ → Exec Cache JsonRpcRes
  unfolding cache_key
  by_ttl req none = proxy_upstream req
  by_ttl req (some ttl) = do cached ← redis_get (cache_key req); hit_or_miss req ttl cached

  unfoldable pub handle_one : JsonRpcReq → Exec Cache JsonRpcRes
  handle_one req = by_ttl req (ttl_for req)

  -- Requests one after the other, those that throw included.
  unfoldable pub handle_all : List JsonRpcReq → Cache → Cache
  handle_all [] s = s
  handle_all (req ∷ reqs) s = handle_all reqs (handle_one req s).1

-- The requests of `warmup`, which it hands to handleOne one after the other.
unfoldable pub warmup_requests : List JsonRpcReq
warmup_requests =
    map (λ method. record { id = codes "0"; method = method; params = [] })
      (codes "eth_chainId"
        ∷ codes "net_version"
        ∷ codes "web3_clientVersion"
        ∷ codes "eth_blockNumber"
        ∷ codes "eth_gasPrice"
        ∷ [])

unfoldable pub warmup : Outside → Cache → Cache
warmup out s = handle_all out warmup_requests s
