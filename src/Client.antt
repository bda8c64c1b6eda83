-- ===== src/Client.antt =====
-- sdk/aurum/typescript/src/client.ts: the typed client of the ledger. `fetch`, the token provider,
-- `encodeURIComponent`, JSON, numbers and dates in texts and the clock are parameters. The bodies are
-- texts, as `JSON.stringify` writes them.
pub mod Retries
pub mod Endpoints
use hara_registry.Prelude.{
  ℕ, codes, zero, suc, ◌+◌, ◌-◌, ◌*◌, ◌^◌, Bool, true, false, not, ◌&&◌, ◌||◌, Option, none, some,
  List, [], ◌∷◌, ◌++◌, ltb, ◌==◌, if◌then◌else◌,
}
use hara_registry.Errors.{Result, ok, err, stuck, error}
use hara_registry.Sha256.{Text}
use hara_registry.Assoc.{Assoc}
use hara_registry.Exec.{Exec, pure, throw, lift, run, ◌>>=◌, ◌>>◌, value_of, change}
use hara_registry.Ledger.{after}

pub record Problem : Type 0 where
  pub status : ℕ
  pub title : Option Text
  pub detail : Option Text

-- The body of a problem, as JSON gives it.
pub record ParsedProblem : Type 0 where
  pub status : Option ℕ
  pub title : Option Text
  pub detail : Option Text

pub record Response : Type 0 where
  pub status : ℕ
  pub ok : Bool
  pub status_text : Text
  pub content_type : Option Text
  pub retry_after : Option Text
  -- `none` is a body that cannot be read.
  pub text : Option Text

pub record InternalRequest : Type 0 where
  pub method : Text
  pub path : Text
  -- The parameters that are not undefined.
  pub query : Assoc Text
  pub body : Option Text
  pub auth : Bool
  pub idempotency_key : Option Text

pub record Sent : Type 0 where
  pub url : Text
  pub method : Text
  pub headers : Assoc Text
  pub body : Option Text

-- What the client asks of others; `none` is a call that throws.
pub record Outside : Type 0 where
  pub fetch : ℕ → Sent → Option Response
  -- The headers of the token provider, if the client has one.
  pub auth : Option (ℕ → Option (Assoc Text))
  pub url : Text → Assoc Text → Option Text
  pub encode_uri_component : Text → Text
  pub parse_json : Text → Option Text
  pub parse_problem : Text → Option ParsedProblem
  -- `Number` of a text in milliseconds, and `Date.parse`: `none` is not finite.
  pub number_ms : Text → Option ℕ
  pub date_ms : Text → Option ℕ
  pub now_ms : ℕ → ℕ
  pub random_uuid : ℕ → Text
  pub decimal : ℕ → Text
  pub base_url : Text
  pub max_retries : ℕ
  pub retry_base_ms : ℕ

pub record Client : Type 0 where
  pub sent : List Sent
  pub responses : List Response
  pub slept : List ℕ
  pub uses : ℕ

-- `undefined`, a JSON value, or a ProblemError that is thrown.
pub data Answer : Type 0 where
  undefined : Answer
  json : Text → Answer
  problem_error : Problem → Answer

unfoldable pub contains : Text → Text → Bool
contains part [] = false
contains part (c ∷ cs) =
    let rest = contains part cs in elim (after part (c ∷ cs)) [ none ↦ rest | some tail ↦ true ]

abbrev or_blank : Option Text → Text
or_blank none = []
or_blank (some t) = t

abbrev or_else : {A : Type 0} → Option A → A → A
or_else none d = d
or_else (some x) d = x

-- `detail || undefined`
blank_out : Option Text → Option Text
blank_out none = none
blank_out (some []) = none
blank_out (some (c ∷ cs)) = some (c ∷ cs)

unfoldable pub is_retried : Response → Bool
is_retried res = res.status == 429 || res.status == 503

header : Text → Option Text → Assoc Text
header name none = []
header name (some text) = (name, text) ∷ []

module _ (out : Outside) where
  unfoldable pub use_of : {A : Type 0} → (ℕ → A) → Exec Client A
  use_of f = run (λ s. (f s.uses, record s { uses = s.uses + 1 }))

  parsed_problem : ℕ → Option Text → Problem
  parsed_problem status none = record { status = status; title = none; detail = none }
  parsed_problem status (some text) = elim (out.parse_problem text) [
    | none ↦ record { status = status; title = none; detail = none }
    | some p ↦ record { status = or_else p.status status; title = p.title; detail = p.detail }
  ]

  unfoldable pub to_problem_error : Response → Problem
  unfolding blank_out parsed_problem
  to_problem_error res =
      if contains (codes "json") (or_blank res.content_type)
      then parsed_problem res.status res.text
      else record { status = res.status; title = some res.status_text; detail = blank_out res.text }

  -- The delay for a `Retry-After`; one that is empty counts as none.
  unfoldable pub retry_delay_ms : ℕ → Option Text → ℕ → ℕ
  retry_delay_ms now none attempt = out.retry_base_ms * 2 ^ attempt
  retry_delay_ms now (some []) attempt = out.retry_base_ms * 2 ^ attempt
  retry_delay_ms now (some (c ∷ cs)) attempt =
      let retry_after = c ∷ cs in
      elim (out.number_ms retry_after) [
        | some ms ↦ ms
        | none ↦ elim (out.date_ms retry_after) [
          | some date ↦ date - now
          | none ↦ out.retry_base_ms * 2 ^ attempt
        ]
      ]

  -- The headers of the token, where the request wants one.
  unfoldable pub auth_headers : Bool → Option (ℕ → Option (Assoc Text)) → Exec Client (Assoc Text)
  auth_headers false provider = pure []
  auth_headers true none = throw error
  auth_headers true (some provider) = do given ← use_of provider; value_of given

  unfoldable pub body_of : Option Text → Exec Client Answer
  body_of none = throw error
  body_of (some []) = pure undefined
  body_of (some (c ∷ cs)) = do parsed ← value_of (out.parse_json (c ∷ cs)); pure (json parsed)

  -- What is made of the last response.
  unfoldable pub conclude : Response → Exec Client Answer
  conclude res =
      if not res.ok
      then pure (problem_error (to_problem_error res))
      else if res.status == 204
      then pure undefined
      else body_of res.text

  -- One `fetch`.
  unfoldable pub send : InternalRequest → Text → Exec Client Response
  unfolding header blank_out
  send req url = do
    token ← auth_headers req.auth out.auth
    let sent : Sent = record {
      url = url;
      method = req.method;
      headers =
          ((codes "Accept", codes "application/json") ∷ token)
          ++ (header (codes "Idempotency-Key") (blank_out req.idempotency_key) ++ elim req.body [
            | none ↦ []
            | some body ↦ (codes "Content-Type", codes "application/json") ∷ []
          ]);
      body = req.body;
    }
    answer ← use_of (λ n. out.fetch n sent)
    change (λ s. record s { sent = s.sent ++ (sent ∷ []) })
    res ← value_of answer
    change (λ s. record s { responses = s.responses ++ (res ∷ []) })
    pure res

  -- The `for (;;)`, with rounds to spare in `fuel`.
  unfoldable pub attempts : ℕ → InternalRequest → Text → ℕ → Exec Client Answer
  attempts zero req url attempt = lift stuck
  attempts (suc fuel) req url attempt =
      let again = attempts fuel req url (attempt + 1) in
      do
        res ← send req url
        now ← use_of out.now_ms
        if is_retried res && ltb attempt out.max_retries
            then (do
              change (λ s. record s {
                slept = s.slept ++ (retry_delay_ms now res.retry_after attempt ∷ []);
              })
              again)
            else conclude res

  unfoldable pub request : InternalRequest → Exec Client Answer
  request req = do
    url ← value_of (out.url (out.base_url ++ req.path) req.query)
    attempts (out.max_retries + 1) req url 0
