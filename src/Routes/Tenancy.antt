-- ===== src/Routes/Tenancy.antt =====
-- Who a request may write for.
use hara_registry.Prelude.{
  codes, ◌≡◌, refl, sym, ap, ◌∙◌, Bool, true, false, Option, none, some, List, [], ◌∷◌, Bool-cases,
  inl, inr,
}
use hara_registry.Errors.{ok, ok_inj}
use hara_registry.Sha256.{Text}
use hara_registry.Ledger.{after}
use hara_registry.Auth.{
  Identity, Payload, is_tenant_did, tenant_did_from, identify, verified, bearer, first_tenant,
  require_tenant,
}

some_inj : {x y : Text} → some x ≡ some y → x ≡ y
some_inj e = cc

first_tenant_lem :
    (claims : List (Option Text)) (t : Text) → first_tenant claims ≡ some t → is_tenant_did t ≡ true
unfolding first_tenant
first_tenant_lem [] t e = absurd (cc e)
first_tenant_lem (none ∷ cs) t e = first_tenant_lem cs t e
first_tenant_lem (some c ∷ cs) t e = elim (Bool-cases (is_tenant_did c)) [
  | inl good ↦ ap is_tenant_did (sym (some_inj (rw (good) at e))) ∙ good
  | inr bad ↦ first_tenant_lem cs t (rw (bad) at e)
]

identify_lem :
    (payload : Payload) (did : Option Text) (id : Identity)
    → tenant_did_from payload ≡ did
    → identify payload did ≡ ok id
    → is_tenant_did id.tenant_did ≡ true
unfolding identify tenant_did_from
identify_lem payload none id same e = absurd (cc e)
identify_lem payload (some did) id same e =
    ap (λ (i : Identity). is_tenant_did i.tenant_did) (sym (ok_inj e))
    ∙ first_tenant_lem (payload.tenant ∷ payload.did ∷ payload.sub ∷ []) did same

verified_lem :
    (payload : Option Payload) (id : Identity)
    → verified payload ≡ ok id
    → is_tenant_did id.tenant_did ≡ true
unfolding verified
verified_lem none id e = absurd (cc e)
verified_lem (some payload) id e = identify_lem payload _ id refl e

bearer_lem :
    (jwt_verify : Text → Option Payload) (token : Option Text) (id : Identity)
    → bearer jwt_verify token ≡ ok id
    → is_tenant_did id.tenant_did ≡ true
unfolding bearer
bearer_lem jwt_verify none id e = absurd (cc e)
bearer_lem jwt_verify (some token) id e = verified_lem _ id e

dev_lem :
    (id : Identity)
    → ok (record { tenant_did = codes "did:hara:tenant:dev"; sub = codes "did:hara:tenant:dev" })
      ≡ ok id
    → is_tenant_did id.tenant_did ≡ true
unfolding is_tenant_did after
dev_lem id e = ap (λ (i : Identity). is_tenant_did i.tenant_did) (sym (ok_inj e))

-- A request that passes requireTenant carries a tenant's DID, whatever the token says and also
-- where the check is switched off.
pub require_tenant_lem :
    (enabled : Bool) (jwt_verify : Text → Option Payload) (header : Option Text) (id : Identity)
    → require_tenant enabled jwt_verify header ≡ ok id
    → is_tenant_did id.tenant_did ≡ true
unfolding require_tenant
require_tenant_lem true jwt_verify none id e = absurd (cc e)
require_tenant_lem true jwt_verify (some header) id e = bearer_lem jwt_verify _ id e
require_tenant_lem false jwt_verify none id e = dev_lem id e
require_tenant_lem false jwt_verify (some header) id e = dev_lem id e
