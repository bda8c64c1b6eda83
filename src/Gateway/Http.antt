-- ===== src/Gateway/Http.antt =====
-- services/gapura-gateway/src/auth.ts, and POST /v1/anchors of routes/anchors.ts. The check of a token, and the
-- text that JSON.stringify makes of a body, are parameters.
use hara_registry.Prelude.{
  ℕ, codes, ◌+◌, Bool, true, false, not, ◌||◌, Option, none, some, List, [], ◌∷◌, ◌=t=◌,
  if◌then◌else◌,
}
use hara_registry.Sha256.{Bytes, Text}
use hara_registry.Ledger.{after}
use hara_registry.Auth.{is_blank, trim}
use hara_registry.AnchorService.{is_hex_of}
use hara_registry.Gateway.{
  Attempt, done, refused, ◌>>=◌, invalid_digest, invalid_did, invalid_request, unauthenticated,
  forbidden_scope, idempotency_conflict, IdempotencyEntry, Gateway, get_idempotency,
  put_idempotency,
}
use hara_registry.Gateway.Service.{Surroundings, Anchor, CreateRequest, Created, create_anchor}
use hara_registry.Gateway.Reads.{get_anchor}

-- `payload.scope ?? payload.scp`
pub data ScopeClaim : Type 0 where
  no_scopes : ScopeClaim
  spaced : Text → ScopeClaim
  listed : List Text → ScopeClaim

pub record Payload : Type 0 where
  pub scope : ScopeClaim
  pub tenant : Option Text
  pub azp : Option Text
  pub client_id : Option Text
  pub sub : Option Text

pub record Identity : Type 0 where
  pub tenant : Text
  pub sub : Text
  pub scopes : List Text

-- `split(/\s+/).filter(Boolean)`, on the word read so far.
push : Text → List Text → List Text
push [] ws = ws
push (c ∷ cs) ws = (c ∷ cs) ∷ ws

words : Text → Text × List Text
unfolding push
words [] = ([], [])
words (c ∷ cs) = let (w, ws) = words cs in if is_blank c then ([], push w ws) else (c ∷ w, ws)

unfoldable pub scopes_from : ScopeClaim → List Text
unfolding push words
scopes_from no_scopes = []
scopes_from (spaced raw) = let (w, ws) = words raw in push w ws
scopes_from (listed raw) = raw

or_else : Option Text → Text → Text
or_else none t = t
or_else (some u) t = u

unfoldable pub tenant_from : Payload → Text
unfolding or_else
tenant_from p = or_else p.tenant (or_else p.azp (or_else p.client_id (codes "unknown")))

unfoldable pub includes : Text → List Text → Bool
includes t [] = false
includes t (u ∷ us) = t =t= u || includes t us

all_scopes : List Text
all_scopes =
    codes "anchor:write"
    ∷ codes "anchor:read"
    ∷ codes "identity:read"
    ∷ codes "identity:write"
    ∷ codes "metering:read"
    ∷ []

granted : Text → Option Payload → Attempt Identity
unfolding or_else
granted required none = refused unauthenticated
granted required (some payload) =
    let scopes = scopes_from payload.scope in
    if not (includes required scopes)
    then refused forbidden_scope
    else done (record {
      tenant = tenant_from payload;
      sub = or_else payload.sub (codes "unknown");
      scopes = scopes;
    })

bearer : Text → (Text → Option Payload) → Option Text → Attempt Identity
unfolding granted
bearer required jwt_verify none = refused unauthenticated
bearer required jwt_verify (some token) = granted required (jwt_verify (trim token))

-- The preHandler of a route.
unfoldable pub require_scope :
    Text → Bool → (Text → Option Payload) → Option Text → Attempt Identity
unfolding bearer all_scopes
require_scope required false jwt_verify header =
    done (record { tenant = codes "dev"; sub = codes "dev-subject"; scopes = all_scopes })
require_scope required true jwt_verify none = refused unauthenticated
require_scope required true jwt_verify (some header) =
    bearer required jwt_verify (after (codes "Bearer ") header)

-- The body of POST /v1/anchors; `none` is a field that is missing or no text.
pub record AnchorBody : Type 0 where
  pub digest : Option Text
  pub object_did : Option Text
  pub purpose : Option Text
  pub actor_did : Option Text
  pub hash_alg : Option Text
  -- The rest of it.
  pub metadata : Text

digest_of : Option Text → Attempt Text
digest_of none = refused invalid_digest
digest_of (some t) = if is_hex_of 64 t then done t else refused invalid_digest

is_did : Text → Bool
is_did t = elim (after (codes "did:hara:") t) [ none ↦ false | some rest ↦ true ]

did_of : Option Text → Attempt Text
unfolding is_did
did_of none = refused invalid_did
did_of (some t) = if is_did t then done t else refused invalid_did

purpose_of : Option Text → Attempt Text
purpose_of none = refused invalid_request
purpose_of (some []) = refused invalid_request
purpose_of (some (c ∷ cs)) = done (c ∷ cs)

actor_of : Option Text → Attempt (Option Text)
unfolding is_did
actor_of none = done none
actor_of (some t) = if is_did t then done (some t) else refused invalid_did

unfoldable pub check_body : Text → AnchorBody → Attempt CreateRequest
unfolding digest_of did_of purpose_of actor_of
check_body tenant body = do
  digest ← digest_of body.digest
  object_did ← did_of body.object_did
  purpose ← purpose_of body.purpose
  actor_did ← actor_of body.actor_did
  done (record {
    digest = digest;
    hash_alg = elim body.hash_alg [ none ↦ codes "sha256" | some alg ↦ alg ];
    object_did = object_did;
    purpose = purpose;
    actor_did = actor_did;
    tenant = tenant;
  })

pub record Post : Type 0 where
  pub tenant : Text
  pub key : Option Text
  pub body : AnchorBody

module _ (env : Surroundings) (stringify : AnchorBody → Bytes) (sha256_hex : Bytes → Text) where
  unfoldable pub body_hash : AnchorBody → Text
  body_hash body = sha256_hex (stringify body)

  unfoldable pub reply : Created → ℕ × Anchor
  reply c = (if c.already_anchored then 200 else 201, c.anchor)

  unfoldable pub plain : Attempt Created × Gateway → Attempt (ℕ × Anchor) × Gateway
  unfolding reply
  plain (refused code, s) = (refused code, s)
  plain (done c, s) = (done (reply c), s)

  unfoldable pub remember : Text → Text → Attempt Created × Gateway → Attempt (ℕ × Anchor) × Gateway
  unfolding reply
  remember key req_hash (refused code, s) = (refused code, s)
  remember key req_hash (done c, s) = (
    done (reply c),
    put_idempotency key
        (record {
          body_hash = req_hash;
          anchor_id = c.anchor.anchor_id;
          stored_at = env.now_ms s.uses;
        })
        (record s { uses = s.uses + 1 }),
  )

  unfoldable pub replay : Attempt Anchor → Gateway → Attempt (ℕ × Anchor) × Gateway
  replay (refused code) s = (refused code, s)
  replay (done anchor) s = (done (200, anchor), s)

  unfoldable pub by_entry :
      Text
      → Text
      → CreateRequest
      → Option IdempotencyEntry × Gateway
      → Attempt (ℕ × Anchor) × Gateway
  unfolding remember replay
  by_entry key req_hash req (some cached, s) =
      if not (cached.body_hash =t= req_hash)
      then (refused idempotency_conflict, s)
      else replay (get_anchor env cached.anchor_id s) s
  by_entry key req_hash req (none, s) = remember key req_hash (create_anchor env req s)

  unfoldable pub by_key :
      Option Text → Text → CreateRequest → Gateway → Attempt (ℕ × Anchor) × Gateway
  unfolding plain by_entry
  by_key (some (c ∷ cs)) req_hash req s =
      by_entry (c ∷ cs) req_hash req
        (get_idempotency (env.now_ms s.uses) (c ∷ cs) (record s { uses = s.uses + 1 }))
  by_key _ req_hash req s = plain (create_anchor env req s)

  unfoldable pub by_body :
      Option Text → Text → Attempt CreateRequest → Gateway → Attempt (ℕ × Anchor) × Gateway
  unfolding by_key
  by_body key req_hash (refused code) s = (refused code, s)
  by_body key req_hash (done req) s = by_key key req_hash req s

  -- POST /v1/anchors of a tenant, with the header Idempotency-Key.
  unfoldable pub post_anchor : Post → Gateway → Attempt (ℕ × Anchor) × Gateway
  unfolding by_body body_hash
  post_anchor p s = by_body p.key (body_hash p.body) (check_body p.tenant p.body) s

  -- Requests one after the other, those with a problem included.
  unfoldable pub posts : List Post → Gateway → Gateway
  posts [] s = s
  posts (p ∷ rest) s = posts rest (post_anchor p s).1
