-- ===== src/Errors.antt =====
-- services/registry-ledger/src/errors.ts: the problem codes and their HTTP statuses. A function
-- that may throw returns a `Result`.
use hara_registry.Prelude.{ℕ, ◌≡◌, refl}

pub data ProblemCode : Type 0 where
  invalid_hash invalid_did invalid_request unauthenticated forbidden_tenant not_found : ProblemCode
  retention_locked status_conflict proof_unavailable rate_limited : ProblemCode
  chain_unavailable internal_error : ProblemCode

-- `CODE_META[code].status`
unfoldable pub status : ProblemCode → ℕ
status invalid_hash = 400
status invalid_did = 400
status invalid_request = 400
status unauthenticated = 401
status forbidden_tenant = 403
status not_found = 404
status status_conflict = 409
status retention_locked = 409
status proof_unavailable = 422
status rate_limited = 429
status chain_unavailable = 503
status internal_error = 500

-- What is thrown: a `ProblemError`, a `RangeError`, or a plain `Error`.
pub data Exception : Type 0 where
  problem : ProblemCode → Exception
  range_error : Exception
  error : Exception

-- The error handler: the HTTP status and the code that a thrown value is answered with.
pub error_reply : Exception → ℕ × ProblemCode
unfolding status
error_reply (problem code) = (status code, code)
error_reply range_error = (status internal_error, internal_error)
error_reply error = (status internal_error, internal_error)

-- `stuck` is no value of the program: a loop of the model ran out of fuel.
pub data Result {ℓ} (A : Type ℓ) : Type ℓ where
  ok : A → Result A
  err : Exception → Result A
  stuck : Result A

module _ {ℓ κ} {A : Type ℓ} {B : Type κ} where
  infixl 5 ◌>>=◌
  abbrev pub ◌>>=◌ : Result A → (A → Result B) → Result B
  ◌>>=◌ stuck next = stuck
  ◌>>=◌ (err thrown) next = err thrown
  ◌>>=◌ (ok answer) next = next answer

  -- A block that answers: its first step answers, and so does the rest with that answer.
  pub >>=_parts :
      (first : Result A) (next : A → Result B) {end : B}
      → (first >>= next) ≡ ok end
      → (answer : A) × (first ≡ ok answer) × (next answer ≡ ok end)
  >>=_parts stuck next e = cc
  >>=_parts (err thrown) next e = cc
  >>=_parts (ok answer) next e = (answer, refl, e)

infixl 5 ◌>>◌
abbrev pub ◌>>◌ {ℓ} : {A : Type ℓ} → Result (Unit {0}) → Result A → Result A
◌>>◌ first second = first >>= (λ done. second)

pub ok_inj {ℓ} : {A : Type ℓ} {x y : A} → ok x ≡ ok y → x ≡ y
ok_inj e = cc
