-- ===== src/Gateway.antt =====
-- services/gapura-gateway/src: the gateway of Gapura. Here are its problem codes (errors.ts), its records
-- (store/index.ts) and the MemoryStore of store/memory.ts without the bindings. Service is
-- services/anchor-service.ts, Http is auth.ts and routes/anchors.ts, and Anchored follows a list of requests.
pub mod Service
pub mod Reads
pub mod Http
pub mod Anchored
use hara_registry.Prelude.{
  ℕ, ◌+◌, ◌-◌, ◌≡◌, refl, Bool, true, false, not, Option, none, some, List, [], ◌∷◌, ltb, ◌=t=◌,
  if◌then◌else◌,
}
use hara_registry.Errors.{Result, ok, err, stuck}
use hara_registry.Sha256.{Text}
use hara_registry.Hex.{lc}
use hara_registry.Assoc.{Assoc, lookup, insert}
use hara_registry.AnchorService.{AnchorArgs}

pub data ProblemCode : Type 0 where
  invalid_digest invalid_did invalid_period invalid_request unauthenticated : ProblemCode
  forbidden_scope did_not_found anchor_not_found idempotency_conflict did_deactivated : ProblemCode
  unanchorable rate_limited anchor_failed chain_unavailable internal_error : ProblemCode

-- `CODE_META[code].status`
unfoldable pub status_of : ProblemCode → ℕ
status_of invalid_digest = 400
status_of invalid_did = 400
status_of invalid_period = 400
status_of invalid_request = 400
status_of unauthenticated = 401
status_of forbidden_scope = 403
status_of did_not_found = 404
status_of anchor_not_found = 404
status_of idempotency_conflict = 409
status_of did_deactivated = 410
status_of unanchorable = 422
status_of rate_limited = 429
status_of anchor_failed = 502
status_of chain_unavailable = 503
status_of internal_error = 500

-- An answer or a problem, thrown or sent.
pub data Attempt {ℓ} (A : Type ℓ) : Type ℓ where
  done : A → Attempt A
  refused : ProblemCode → Attempt A

module _ {A B : Type 0} where
  infixl 5 ◌>>=◌
  unfoldable pub ◌>>=◌ : Attempt A → (A → Attempt B) → Attempt B
  ◌>>=◌ (done x) next = next x
  ◌>>=◌ (refused code) next = refused code

  -- A block that answers: its first step answers, and so does the rest with that answer.
  pub >>=_parts :
      (first : Attempt A) (next : A → Attempt B) {end : B}
      → (first >>= next) ≡ done end
      → (answer : A) × (first ≡ done answer) × (next answer ≡ done end)
  unfolding ◌>>=◌
  >>=_parts (refused code) next e = cc
  >>=_parts (done answer) next e = (answer, refl, e)

-- What is thrown and no ProblemError is answered with internal_error.
abbrev pub thrown {ℓ} : {A : Type ℓ} → Result A → Attempt A
thrown (ok x) = done x
thrown (err e) = refused internal_error
thrown stuck = refused internal_error

pub thrown-done : {A : Type 0} (r : Result A) {x : A} → thrown r ≡ done x → r ≡ ok x
thrown-done (ok x) e = cc
thrown-done (err t) e = cc
thrown-done stuck e = cc

pub done_inj : {A : Type 0} {x y : A} → done x ≡ done y → x ≡ y
done_inj e = cc

pub unless_parts :
    {A : Type 0} {x : A} {rest : Attempt A} (b : Bool) (code : ProblemCode)
    → (if not b then refused code else rest) ≡ done x
    → (b ≡ true) × (rest ≡ done x)
unless_parts true code e = (refl, e)
unless_parts false code e = cc

pub data AnchorStatus : Type 0 where
  pending confirmed failed : AnchorStatus

pub record AnchorRecord : Type 0 where
  pub anchor_id : Text
  pub on_chain_id : Option Text
  pub digest : Text
  pub hash_alg : Text
  pub object_did : Text
  pub purpose : Text
  pub actor_did : Option Text
  pub tenant : Text
  pub tx_hash : Option Text
  pub block_number : Option ℕ
  pub log_index : Option ℕ
  pub pq_key_hash : Text
  pub pq_verified : Bool
  pub status : AnchorStatus
  pub failure_reason : Option Text
  pub anchored_at : Text

pub record IdempotencyEntry : Type 0 where
  pub body_hash : Text
  pub anchor_id : Text
  pub stored_at : ℕ

-- A transaction that the node has taken.
pub record Sent : Type 0 where
  pub args : AnchorArgs
  pub tx_hash : Text

-- The store, with what the chain was sent, and the number of the calls that used the surroundings.
pub record Gateway : Type 0 where
  pub by_digest : Assoc AnchorRecord
  pub by_id : Assoc AnchorRecord
  pub idem : Assoc IdempotencyEntry
  pub sent : List Sent
  pub uses : ℕ

unfoldable pub get_anchor_by_digest : Text → Gateway → Option AnchorRecord
get_anchor_by_digest digest s = lookup (lc digest) s.by_digest

unfoldable pub get_anchor_by_id : Text → Gateway → Option AnchorRecord
get_anchor_by_id anchor_id s = lookup anchor_id s.by_id

unfoldable pub put_anchor : AnchorRecord → Gateway → Gateway
put_anchor rec s = record s {
  by_digest = insert (lc rec.digest) rec s.by_digest;
  by_id = insert rec.anchor_id rec s.by_id;
}

-- `Map.delete`
unfoldable pub remove {ℓ} : {V : Type ℓ} → Text → Assoc V → Assoc V
remove k [] = []
remove k ((j, v) ∷ m) = let rest = remove k m in if j =t= k then rest else (j, v) ∷ rest

abbrev pub idempotency_ttl_ms : ℕ
idempotency_ttl_ms = 86400000

expire : ℕ → Text → Option IdempotencyEntry → Gateway → Option IdempotencyEntry × Gateway
unfolding remove
expire now key none s = (none, s)
expire now key (some e) s =
    if ltb idempotency_ttl_ms (now - e.stored_at)
    then (none, record s { idem = remove key s.idem })
    else (some e, s)

-- An entry that is too old is dropped when it is read.
unfoldable pub get_idempotency : ℕ → Text → Gateway → Option IdempotencyEntry × Gateway
unfolding expire
get_idempotency now key s = expire now key (lookup key s.idem) s

unfoldable pub put_idempotency : Text → IdempotencyEntry → Gateway → Gateway
put_idempotency key entry s = record s { idem = insert key entry s.idem }
