-- ===== src/Ajax/Tests.antt =====
-- Requests at concrete inputs.
use padlock_cloud.Prelude.{ℕ, ◌≡◌, refl, inl, inr, String, false, Option, none, [], ◌∷◌, arith}
use padlock_cloud.Json.{Json}
use padlock_cloud.Promise.{fulfilled}
use padlock_cloud.Ajax.{Xhr, request}
use padlock_cloud.Ajax.Laws.{request_settles}

-- A server whose responses are never JSON.
abbrev no_json : String → Option Json
no_json text = none

abbrev at_state : ℕ → ℕ → Xhr
at_state state status = record { ready_state = state; status = status; response_text = "Not Found" }

request_settles_example :
    (request no_json
      (λ c. false)
      (at_state 0 0)
      (at_state 1 0 ∷ at_state 4 200 ∷ [])
      "GET"
      "/account/"
      none
      none).1
    ≡ fulfilled (at_state 4 200)
request_settles_example =
    request_settles no_json (λ c. false) (at_state 0 0) (at_state 1 0 ∷ at_state 4 200 ∷ []) "GET"
      "/account/" none none refl (inl refl, (inr (omega arith, omega arith), tt))
