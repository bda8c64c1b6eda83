-- ===== src/Client/Retries.antt =====
-- The retries of the client's requests.
use hara_registry.Prelude.{ℕ, ◌≤◌, ◌≡◌, List, [], ◌∷◌, ◌++◌, length, All, true, false}
use hara_registry.Assoc.{Assoc}
use hara_registry.Exec.Progress.{Progress}
use hara_registry.Client.{
  Response, Outside, Client, Answer, undefined, json, problem_error, is_retried, to_problem_error,
}

-- What an answer says of the response that it was made of.
abbrev pub Concludes : Outside → Response → Answer → Type 0
Concludes out res undefined = res.ok ≡ true
Concludes out res (json text) = res.ok ≡ true
Concludes out res (problem_error p) = (res.ok ≡ false) × (p ≡ to_problem_error out res)

abbrev pub IsRetried : Response → Type 0
IsRetried res = is_retried res ≡ true

module _ (out : Outside) where
  -- At most `n` requests went out, and the responses are `heard`.
  abbrev Heard : ℕ → List Response → Client → Type 0
  Heard n heard s = (length s.sent ≤ n) × (s.responses ≡ heard)

  -- The responses of the attempts: all but the last are of the kind that is tried again.
  abbrev pub Tried : ℕ → List Response → Answer → Client → Type 0
  Tried most heard answer s =
      (length s.sent ≤ most)
      × ((earlier : List Response) × (last : Response) × (s.responses
            ≡ heard ++ (earlier ++ (last ∷ [])))
          × All IsRetried earlier
          × Concludes out last answer)

  abbrev nothing : Client → ℕ
  nothing s = 0
