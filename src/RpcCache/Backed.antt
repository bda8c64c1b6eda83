-- ===== src/RpcCache/Backed.antt =====
-- What the cache answers is what the node answered.
use hara_registry.Prelude.{ℕ, ◌+◌, ◌<◌, ◌≡◌, Option, none, some, List, Has, ◌⊎◌}
use hara_registry.Sha256.{Text}
use hara_registry.Assoc.{lookup}
use hara_registry.RpcCache.{
  absent, value, JsonRpcReq, JsonRpcRes, Entry, Exchange, Outside, Cache, ttl_for, cache_key,
}

module _ (out : Outside) where
  -- The answer that an entry was made of: a result without an error, to a request of the same key whose
  -- method is cached for the time that the entry has. The entry was stored at the reading of the clock that
  -- followed the call and the writing's own test.
  abbrev pub IsBacked : List Exchange → Text → Entry → Type 0
  IsBacked asked key e =
      (x : Exchange) × Has x asked
      × (cache_key out x.request ≡ key)
      × (ttl_for x.request ≡ some e.ttl)
      × (x.response.result ≡ value e.result)
      × (x.response.error ≡ absent)
      × (e.jsonrpc ≡ x.response.jsonrpc)
      × (e.stored ≡ out.now (x.number + 2))

  abbrev pub AllBacked : Cache → Type 0
  AllBacked s = (key : Text) (e : Entry) → lookup key s.entries ≡ some e → IsBacked s.asked key e

  -- What an answer is that is given from the use `n` on: the node's, asked at that use or at the second
  -- after it, or the result of an exchange before, for a request of the same key, under the new request's
  -- id. The clock's reading at the use after `n` is then below the one at which that result was stored plus
  -- the time of its method.
  abbrev pub IsServed : ℕ → JsonRpcReq → JsonRpcRes → Cache → Type 0
  IsServed n req res s =
      ((m : ℕ) × Has (record { number = m; request = req; response = res }) s.asked
        × ((m ≡ n) ⊎ (m ≡ n + 2)))
      ⊎ ((x : Exchange) × (ttl : ℕ) × (result : Text) × Has x s.asked
          × (cache_key out x.request ≡ cache_key out req)
          × (ttl_for x.request ≡ some ttl)
          × (x.response.result ≡ value result)
          × (x.response.error ≡ absent)
          × (out.now (n + 1) < out.now (x.number + 2) + ttl)
          × (res ≡ record {
            jsonrpc = x.response.jsonrpc;
            id = req.id;
            result = value result;
            error = absent;
          }))

  -- The number of the next use.
  abbrev Next : ℕ → (Cache → Type 0) → Cache → Type 0
  Next n X s = X s × (s.uses ≡ n)

  -- What an exchange leaves that was the use `n`.
  abbrev Asked : ℕ → JsonRpcReq → JsonRpcRes → Cache → Type 0
  Asked n req res s =
      AllBacked s × Has (record { number = n; request = req; response = res }) s.asked

  module _ (req : JsonRpcReq) (ttl : ℕ) (cached : ttl_for req ≡ some ttl) where
    abbrev IsAlive : ℕ → Option Entry → Cache → Type 0
    IsAlive n none s = AllBacked s
    IsAlive n (some e) s =
        AllBacked s × IsBacked s.asked (cache_key out req) e × (out.now (n + 1) < e.stored + e.ttl)
