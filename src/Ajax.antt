-- ===== src/Ajax.antt =====
-- `AjaxError` and `request` of the dashboard's first bundled module
-- (assets/static/elements/cloud-dashboard/cloud-dashboard.js).
-- `XMLHttpRequest` and `JSON.parse` are the browser's: which calls throw, what the request object
-- reports at each `readystatechange` and what a text parses to (`none`: it throws) are arguments.
pub mod Laws
mod Tests
use padlock_cloud.Prelude.{
  ℕ, zero, suc, ◌/◌, String, Bool, true, false, not, Option, none, some, List, [], ◌∷◌, ◌++◌, map,
  ltb, ◌==◌, if◌then◌else◌,
}
use padlock_cloud.Json.{Json, string, member}
use padlock_cloud.Promise.{Promise, pending, fulfilled, rejected, settle}

-- What the code reads of the request object.
pub record Xhr : Type 0 where
  pub ready_state : ℕ
  pub status : ℕ
  pub response_text : String

-- `code` and `message` are `undefined` (`none`) where the parsed error has no such property.
pub record AjaxError : Type 0 where
  pub request : Xhr
  pub code : Option Json
  pub message : Option Json

-- The digit `n.toString()[0]`, on fuel.
leading : ℕ → ℕ → ℕ
leading zero n = n
leading (suc fuel) n = let rest = leading fuel (n / 10) in if ltb n 10 then n else rest

unfoldable pub first_digit : ℕ → ℕ
unfolding leading
first_digit n = leading n n

-- The `switch` on the first digit of the status.
unfoldable pub unknown_error : Xhr → ℕ → AjaxError
unknown_error xhr digit =
    if digit == 0
    then error "failed_connection" "Failed Connection"
    else if digit == 3
    then error "unexpected_redirect" "Unexpected Redirect"
    else if digit == 4
    then error "client_error" "Unknown Client Error"
    else error "server_error" "Server Error"
  where
    error : String → String → AjaxError
    error code message = record {
      request = xhr;
      code = some (string code);
      message = some (string message);
    }

-- `err.error` and `err.message` inside the `try`: either read may throw.
parsed_error : Xhr → Option (Option Json) → Option (Option Json) → AjaxError
unfolding unknown_error first_digit
parsed_error xhr (some code) (some message) = record {
  request = xhr;
  code = code;
  message = message;
}
parsed_error xhr _ _ = unknown_error xhr (first_digit xhr.status)

-- The constructor's `try` and `catch`.
error_of_parsed : Xhr → Option Json → AjaxError
unfolding parsed_error member
error_of_parsed xhr none = unknown_error xhr (first_digit xhr.status)
error_of_parsed xhr (some err) = parsed_error xhr (member err "error") (member err "message")

unfoldable pub ajax_error : (String → Option Json) → Xhr → AjaxError
unfolding error_of_parsed
ajax_error parse xhr = error_of_parsed xhr (parse xhr.response_text)

-- The calls that `request` makes on the request object.
pub data Call : Type 0 where
  open_request : (method url : String) → Call
  set_request_header : (name value : String) → Call
  send : Option String → Call

abbrev header_calls : Option (List (String × String)) → List Call
header_calls none = []
header_calls (some headers) = map (λ h. set_request_header h.0 h.1) headers

-- The `try` block: the calls are made in order, and the first that throws ends it.
attempt : (Call → Bool) → List Call → List Call × Bool
attempt throws [] = ([], false)
attempt throws (c ∷ calls) =
    let (made, thrown) = attempt throws calls in
    if throws c then (c ∷ [], true) else (c ∷ made, thrown)

module _ (parse : String → Option Json) where
  abbrev pub Response : Type 0
  Response = Promise AjaxError Xhr

  -- `onreadystatechange`
  unfoldable pub on_ready_state_change : Xhr → Response
  unfolding ajax_error first_digit
  on_ready_state_change xhr =
      if xhr.ready_state == 4
      then if not (first_digit xhr.status == 2)
        then rejected (ajax_error parse xhr)
        else fulfilled xhr
      else pending

  unfoldable pub notified : List Xhr → Response
  unfolding on_ready_state_change
  notified [] = pending
  notified (xhr ∷ later) = settle (on_ready_state_change xhr) (notified later)

  -- The calls made and the promise, after the request object `fresh` has reported `later`.
  unfoldable pub request :
      (Call → Bool)
      → Xhr
      → List Xhr
      → String
      → String
      → Option String
      → Option (List (String × String))
      → List Call × Response
  unfolding attempt notified ajax_error
  request throws fresh later method url body headers =
      let (made, thrown) =
        attempt throws (open_request method url ∷ (header_calls headers ++ send body ∷ [])) in
      (
        made,
        settle (if thrown then rejected (ajax_error parse fresh) else pending) (notified later),
      )
