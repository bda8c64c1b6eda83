-- ===== src/Auth.antt =====
-- services/registry-ledger/src/auth.ts. The check of a token is a parameter: `none` is a token that
-- `jwtVerify` refuses.
use hara_registry.Prelude.{
  ℕ, codes, Bool, true, false, not, Option, none, some, List, [], ◌∷◌, ◌==◌, ◌||◌, ◌&&◌, leb, ◌=t=◌,
  if◌then◌else◌,
}
use hara_registry.Errors.{Result, ok, err, problem, unauthenticated, forbidden_tenant}
use hara_registry.Sha256.{Text}
use hara_registry.Ledger.{after}

-- The claims of a payload that are read; `none` is one that is missing or no string.
pub record Payload : Type 0 where
  pub tenant : Option Text
  pub did : Option Text
  pub sub : Option Text

-- What a request is given: the tenant's DID and the subject.
pub record Identity : Type 0 where
  pub tenant_did : Text
  pub sub : Text

abbrev is_some {ℓ} : {A : Type ℓ} → Option A → Bool
is_some none = false
is_some (some x) = true

-- `/^did:hara:tenant:/.test(text)`
unfoldable pub is_tenant_did : Text → Bool
is_tenant_did text = is_some (after (codes "did:hara:tenant:") text)

unfoldable pub first_tenant : List (Option Text) → Option Text
first_tenant [] = none
first_tenant (none ∷ cs) = first_tenant cs
first_tenant (some c ∷ cs) =
    let later = first_tenant cs in if is_tenant_did c then some c else later

unfoldable pub tenant_did_from : Payload → Option Text
unfolding first_tenant
tenant_did_from payload = first_tenant (payload.tenant ∷ payload.did ∷ payload.sub ∷ [])

-- White space and line ends in ASCII, which `trim` takes off both ends.
pub is_blank : ℕ → Bool
is_blank c = c == 32 || (leb 9 c && leb c 13)

skip_blanks : Text → Text
unfolding is_blank
skip_blanks [] = []
skip_blanks (c ∷ cs) = let rest = skip_blanks cs in if is_blank c then rest else c ∷ cs

reversed : Text → Text → Text
reversed [] done = done
reversed (c ∷ cs) done = reversed cs (c ∷ done)

pub trim : Text → Text
unfolding skip_blanks reversed
trim text = reversed (skip_blanks (reversed (skip_blanks text) [])) []

or_text : Option Text → Text → Text
or_text none d = d
or_text (some t) d = t

unfoldable pub identify : Payload → Option Text → Result Identity
unfolding or_text
identify payload none = err (problem unauthenticated)
identify payload (some did) = ok (record { tenant_did = did; sub = or_text payload.sub did })

unfoldable pub verified : Option Payload → Result Identity
unfolding identify
verified none = err (problem unauthenticated)
verified (some payload) = identify payload (tenant_did_from payload)

unfoldable pub bearer : (Text → Option Payload) → Option Text → Result Identity
unfolding trim verified
bearer jwt_verify none = err (problem unauthenticated)
bearer jwt_verify (some token) = verified (jwt_verify (trim token))

-- The preHandler of the routes that write: who the request is from, or the problem that is sent.
unfoldable pub require_tenant : Bool → (Text → Option Payload) → Option Text → Result Identity
unfolding bearer
require_tenant enabled jwt_verify none =
    if not enabled
    then ok (record { tenant_did = codes "did:hara:tenant:dev"; sub = codes "did:hara:tenant:dev" })
    else err (problem unauthenticated)
require_tenant enabled jwt_verify (some header) =
    if not enabled
    then ok (record { tenant_did = codes "did:hara:tenant:dev"; sub = codes "did:hara:tenant:dev" })
    else bearer jwt_verify (after (codes "Bearer ") header)

unfoldable pub enforce_tenant : Identity → Text → Result (Unit {0})
enforce_tenant req resource_tenant_did =
    if not (req.tenant_did =t= resource_tenant_did) then err (problem forbidden_tenant) else ok tt
