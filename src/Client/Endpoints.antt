-- ===== src/Client/Endpoints.antt =====
-- The methods of RegistryLedger in sdk/aurum/typescript/src/client.ts: the request that each makes.
use hara_registry.Prelude.{ℕ, codes, true, false, Option, none, some, [], ◌∷◌, ◌++◌}
use hara_registry.Sha256.{Text}
use hara_registry.Assoc.{Assoc}
use hara_registry.Exec.{Exec, pure, ◌>>=◌}
use hara_registry.Client.{InternalRequest, Outside, Client, Answer, use_of, request}

-- A read without a query.
abbrev plain : Text → InternalRequest
plain path = record {
  method = codes "GET";
  path = path;
  query = [];
  body = none;
  auth = false;
  idempotency_key = none;
}

-- A write of a body, under the tenant's token.
abbrev write : Text → Text → Text → InternalRequest
write method path body = record {
  method = method;
  path = path;
  query = [];
  body = some body;
  auth = true;
  idempotency_key = none;
}

-- The key that the caller gives, or a new one.
key_for : Outside → Option Text → Exec Client Text
key_for out none = use_of out out.random_uuid
key_for out (some key) = pure key

-- `tree_size` is left out where it is undefined.
size_query : Outside → Option ℕ → Assoc Text
size_query out none = []
size_query out (some size) = (codes "tree_size", out.decimal size) ∷ []

module _ (out : Outside) where
  attestation_path : Text → Text → Text
  attestation_path registry_id tail =
      codes "/attestations/" ++ (out.encode_uri_component registry_id ++ tail)

  evidence_path : Text → Text
  evidence_path evidence_id = codes "/evidence/" ++ out.encode_uri_component evidence_id

  unfoldable pub anchor : Text → Option Text → Exec Client Answer
  unfolding key_for
  anchor body key = do
    idempotency_key ← key_for out key
    request out (record (write (codes "POST") (codes "/attestations") body) {
      idempotency_key = some idempotency_key;
    })

  unfoldable pub get_attestation : Text → Exec Client Answer
  unfolding attestation_path
  get_attestation registry_id = request out (plain (attestation_path registry_id []))

  unfoldable pub get_proof : Text → Option ℕ → Exec Client Answer
  unfolding attestation_path size_query
  get_proof registry_id tree_size = request out (record {
    method = codes "GET";
    path = attestation_path registry_id (codes "/proof");
    query = size_query out tree_size;
    body = none;
    auth = false;
    idempotency_key = none;
  })

  unfoldable pub get_status : Text → Exec Client Answer
  unfolding attestation_path
  get_status registry_id = request out (plain (attestation_path registry_id (codes "/status")))

  -- The body of the revocation is the caller's.
  unfoldable pub set_status : Text → Text → Exec Client Answer
  unfolding attestation_path
  set_status registry_id body =
      request out (write (codes "POST") (attestation_path registry_id (codes "/revoke")) body)

  unfoldable pub submit_checkpoint : Text → Exec Client Answer
  submit_checkpoint body = request out (write (codes "POST") (codes "/anchors") body)

  unfoldable pub get_consistency : Text → ℕ → ℕ → Exec Client Answer
  get_consistency log_id from to = request out (record {
    method = codes "GET";
    path = codes "/anchors/consistency";
    query =
        (codes "log_id", log_id)
        ∷ (codes "from", out.decimal from)
        ∷ (codes "to", out.decimal to)
        ∷ [];
    body = none;
    auth = false;
    idempotency_key = none;
  })

  unfoldable pub register_evidence : Text → Exec Client Answer
  register_evidence body = request out (write (codes "POST") (codes "/evidence") body)

  unfoldable pub get_evidence : Text → Exec Client Answer
  unfolding evidence_path
  get_evidence evidence_id = request out (plain (evidence_path evidence_id))

  unfoldable pub update_retention : Text → Text → Exec Client Answer
  unfolding evidence_path
  update_retention evidence_id body =
      request out (write (codes "PATCH") (evidence_path evidence_id) body)

  unfoldable pub delete_evidence : Text → Exec Client Answer
  unfolding evidence_path
  delete_evidence evidence_id = request out (record {
    method = codes "DELETE";
    path = evidence_path evidence_id;
    query = [];
    body = none;
    auth = true;
    idempotency_key = none;
  })

  unfoldable pub verify_bundle : Text → Exec Client Answer
  verify_bundle subject = request out (record {
    method = codes "GET";
    path = codes "/verify";
    query = (codes "subject", subject) ∷ [];
    body = none;
    auth = false;
    idempotency_key = none;
  })
