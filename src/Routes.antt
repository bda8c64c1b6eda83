-- ===== src/Routes.antt =====
-- The write routes of services/registry-ledger/src/routes: what each checks of a request before it
-- calls the service. A field of a body is an `Option` where the code answers alike whether it is missing or
-- of another type, and a `Field` where it does not.
pub mod Tenancy
pub mod Isolation
pub mod Reads
use hara_registry.Prelude.{
  ℕ, codes, Bool, true, false, not, ◌&&◌, ◌||◌, Option, none, some, List, [], ◌∷◌, ◌==◌, ◌=t=◌, leb,
  ltb, length, if◌then◌else◌,
}
use hara_registry.Errors.{
  ProblemCode, Result, ok, err, Exception, problem, invalid_hash, invalid_did, invalid_request,
}
use hara_registry.Sha256.{Text, Sha256}
use hara_registry.Store.{Links}
use hara_registry.Types.{
  AttestationRequest, Attestation, StatusRecord, Checkpoint, Evidence, EvidenceRequest,
}
use hara_registry.Exec.{Exec, pure, throw, lift, ◌>>=◌, ◌>>◌}
use hara_registry.Ledger.{World, Ledger, Anchors, after}
use hara_registry.Ledger.Attestations.{Action, revoke, supersede, anchor_attestation, set_status}
use hara_registry.Ledger.EvidenceStore.{register_evidence, update_retention, delete_evidence}
use hara_registry.Ledger.Checkpoints.{submit_checkpoint}
use hara_registry.AnchorService.{is_hex_of}
use hara_registry.Auth.{Identity, enforce_tenant}

-- `HASH_RE` and `DID_RE`, on a field that may be missing.
is_hash : Option Text → Bool
is_hash none = false
is_hash (some t) = is_hex_of 64 t

found_after : Option Text → Bool
found_after none = false
found_after (some t) = true

is_did : Option Text → Bool
unfolding found_after
is_did none = false
is_did (some t) = found_after (after (codes "did:hara:") t)

is_record_type : Option Text → Bool
is_record_type none = false
is_record_type (some t) =
    t =t= codes "surveyor-report"
    || t =t= codes "assay"
    || t =t= codes "gate-decision"
    || t =t= codes "custody-event"
    || t =t= codes "other"

-- A field of a body: not there, of the type that is wanted, or of another one, null included.
pub data Field (A : Type 0) : Type 0 where
  missing : Field A
  given : A → Field A
  mistyped : Field A

abbrev given_value : {A : Type 0} → Field A → Option A
given_value missing = none
given_value (given x) = some x
given_value mistyped = none

is_sha256 : Field Text → Bool
is_sha256 missing = true
is_sha256 (given t) = t =t= codes "sha256"
is_sha256 mistyped = false

is_filled : Option Text → Bool
is_filled none = false
is_filled (some []) = false
is_filled (some (c ∷ cs)) = true

is_digit : ℕ → Bool
is_digit c = leb b'0' c && leb c b'9'

-- `DATE_RE`: four digits, two and two, with dashes between.
is_date : Text → Bool
unfolding is_digit
is_date (a ∷ b ∷ c ∷ d ∷ e ∷ f ∷ g ∷ h ∷ i ∷ j ∷ []) =
    is_digit a
    && is_digit b
    && is_digit c
    && is_digit d
    && e == b'-'
    && is_digit f
    && is_digit g
    && h == b'-'
    && is_digit i
    && is_digit j
is_date _ = false

abbrev pub or_empty_text : Option Text → Text
or_empty_text none = []
or_empty_text (some t) = t

pub record AttestationBody : Type 0 where
  pub content_hash : Option Text
  pub subject : Option Text
  pub issuer : Option Text
  pub record_type : Option Text
  pub hash_alg : Field Text
  pub issued_at : Option Text
  pub links : Option Links

abbrev pub request_of : AttestationBody → AttestationRequest
request_of body = record {
  subject = or_empty_text body.subject;
  issuer = or_empty_text body.issuer;
  record_type = or_empty_text body.record_type;
  content_hash = or_empty_text body.content_hash;
  hash_alg = given_value body.hash_alg;
  issued_at = body.issued_at;
  links = body.links;
}

-- The checks of POST /v1/attestations, in the order of the code.
unfoldable pub attestation_problem : AttestationBody → Option ProblemCode
unfolding is_hash is_did is_record_type is_sha256
attestation_problem body =
    if not (is_hash body.content_hash)
    then some invalid_hash
    else if not (is_did body.subject)
    then some invalid_did
    else if not (is_did body.issuer)
    then some invalid_did
    else if not (is_record_type body.record_type)
    then some invalid_request
    else if not (is_sha256 body.hash_alg)
    then some invalid_request
    else none

abbrev pub refuse : {A : Type 0} → Option ProblemCode → Exec Ledger A → Exec Ledger A
refuse none next = next
refuse (some code) next = throw (problem code)

-- A status code and a body.
abbrev pub reply_created : {A : Type 0} → A × Bool → ℕ × A
reply_created (x, known) = (if known then 200 else 201, x)

pub data RevokeAction : Type 0 where
  named : Action → RevokeAction
  unnamed : RevokeAction

revoke_problem : RevokeAction → Option Text → Option Text → Option ProblemCode
unfolding is_filled
revoke_problem unnamed reason by = some invalid_request
revoke_problem (named revoke) reason by =
    if not (is_filled reason) then some invalid_request else none
revoke_problem (named supersede) reason by =
    if not (is_filled reason)
    then some invalid_request
    else if not (is_filled by)
    then some invalid_request
    else none

evidence_problem : Option Text → Option Text → Option Text → Option ProblemCode
unfolding is_hash is_filled is_date
evidence_problem content_hash none basis =
    if not (is_hash content_hash) then some invalid_hash else some invalid_request
evidence_problem content_hash (some until) basis =
    if not (is_hash content_hash)
    then some invalid_hash
    else if not (is_date until)
    then some invalid_request
    else if not (is_filled basis)
    then some invalid_request
    else none

patch_problem : Field Bool → Field Text → Option ProblemCode
unfolding is_date
patch_problem mistyped until = some invalid_request
patch_problem missing missing = some invalid_request
patch_problem missing mistyped = some invalid_request
patch_problem missing (given until) = if not (is_date until) then some invalid_request else none
patch_problem (given hold) missing = none
patch_problem (given hold) mistyped = some invalid_request
patch_problem (given hold) (given until) =
    if not (is_date until) then some invalid_request else none

checkpoint_problem : Option Text → Option Text → Option ℕ → Option ProblemCode
unfolding is_filled is_hash
checkpoint_problem log_id root_hash none =
    if not (is_filled log_id)
    then some invalid_request
    else if not (is_hash root_hash)
    then some invalid_hash
    else some invalid_request
checkpoint_problem log_id root_hash (some size) =
    if not (is_filled log_id)
    then some invalid_request
    else if not (is_hash root_hash)
    then some invalid_hash
    else if ltb size 1
    then some invalid_request
    else none

module _ ⦃sha : Sha256⦄ (w : World) (a : Anchors) (req : Identity) where
  unfoldable pub post_attestation : AttestationBody → Exec Ledger (ℕ × Attestation)
  post_attestation body = refuse (attestation_problem body) (do
    lift (enforce_tenant req (or_empty_text body.issuer))
    answer ← anchor_attestation w a (request_of body) req.tenant_did
    pure (reply_created answer))

  action_of : RevokeAction → Action
  action_of (named action) = action
  action_of unnamed = revoke

  unfoldable pub post_revoke :
      Text → RevokeAction → Option Text → Option Text → Exec Ledger (ℕ × StatusRecord)
  unfolding revoke_problem action_of
  post_revoke registry_id action reason superseded_by =
      refuse (revoke_problem action reason superseded_by) (do
        rec ←
            set_status w a registry_id (action_of action) (or_empty_text reason) superseded_by
              req.tenant_did
        pure (200, rec))

  unfoldable pub post_evidence :
      Option Text → Option Text → Option Text → EvidenceRequest → Exec Ledger (ℕ × Evidence)
  unfolding evidence_problem
  post_evidence content_hash until basis body =
      refuse (evidence_problem content_hash until basis)
        (do answer ← register_evidence w a body req.tenant_did; pure (reply_created answer))

  unfoldable pub patch_evidence : Text → Field Bool → Field Text → Exec Ledger Evidence
  unfolding patch_problem
  patch_evidence evidence_id hold extend_until = refuse (patch_problem hold extend_until) (
      update_retention w a evidence_id (given_value hold) (given_value extend_until) req.tenant_did)

  unfoldable pub remove_evidence : Text → Exec Ledger ℕ
  remove_evidence evidence_id = do delete_evidence w a evidence_id req.tenant_did; pure 204

  or_one : Option ℕ → ℕ
  or_one none = 1
  or_one (some n) = n

  unfoldable pub post_checkpoint :
      Option Text → Option Text → Option ℕ → Exec Ledger (ℕ × Checkpoint)
  unfolding checkpoint_problem or_one
  post_checkpoint log_id root_hash size = refuse (checkpoint_problem log_id root_hash size) (do
    checkpoint ←
        submit_checkpoint w a (or_empty_text log_id) (or_one size) (or_empty_text root_hash)
    pure (201, checkpoint))

-- A request of one of these routes, with who it is from.
pub data Request : Type 0 where
  attest : Identity → AttestationBody → Request
  change : Identity → Text → RevokeAction → Option Text → Option Text → Request
  register : Identity → Option Text → Option Text → Option Text → EvidenceRequest → Request
  retain : Identity → Text → Field Bool → Field Text → Request
  delete : Identity → Text → Request
  check : Identity → Option Text → Option Text → Option ℕ → Request

unfoldable pub from : Request → Identity
from (attest req body) = req
from (change req id action reason by) = req
from (register req hash until basis body) = req
from (retain req id hold until) = req
from (delete req id) = req
from (check req id root size) = req

module _ ⦃sha : Sha256⦄ (w : World) (a : Anchors) where
  -- The state that a request leaves, whether it is answered or throws.
  unfoldable pub serve : Request → Ledger → Ledger
  serve (attest req body) s = (post_attestation w a req body s).1
  serve (change req id action reason by) s = (post_revoke w a req id action reason by s).1
  serve (register req hash until basis body) s = (post_evidence w a req hash until basis body s).1
  serve (retain req id hold until) s = (patch_evidence w a req id hold until s).1
  serve (delete req id) s = (remove_evidence w a req id s).1
  serve (check req id root size) s = (post_checkpoint w a req id root size s).1

  unfoldable pub serve_all : List Request → Ledger → Ledger
  serve_all [] s = s
  serve_all (r ∷ rs) s = serve_all rs (serve r s)
