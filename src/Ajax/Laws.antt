-- ===== src/Ajax/Laws.antt =====
-- How a request settles, and what an error says.
use padlock_cloud.Prelude.{
  ℕ, suc, ◌-◌, ◌/◌, ◌≤◌, ◌<◌, ◌≡◌, refl, ◌⊎◌, inl, inr, String, Bool, true, false, ◌&&◌, ◌||◌,
  Option, none, some, List, [], ◌∷◌, ◌++◌, arith, ltb, leb, ◌==◌, if◌then◌else◌, All, Bool-cases,
}
use padlock_cloud.Json.{Json, null, string}
use padlock_cloud.Promise.{Promise, pending, fulfilled, rejected, settle}
use padlock_cloud.Ajax.{
  Xhr, AjaxError, leading, first_digit, unknown_error, ajax_error, Call, open_request, send,
  header_calls, attempt, on_ready_state_change, notified, request,
}

-- A status that the browser reports: none yet, or three digits.
abbrev pub IsStatus : ℕ → Type 0
IsStatus s = (s ≡ 0) ⊎ (100 ≤ s) × (s < 1000)

leading_lem :
    (fuel n f : ℕ) → fuel ≡ suc (suc (suc f)) → 100 ≤ n → n < 1000 → leading fuel n ≡ n / 100
unfolding leading
leading_lem fuel n f e h k = rw e (ground arith)

first_digit_lem : (n : ℕ) → 100 ≤ n → n < 1000 → first_digit n ≡ n / 100
unfolding first_digit
first_digit_lem n h k = leading_lem n n (n - 3) (omega arith) h k

first_digit_zero : first_digit 0 ≡ 0
unfolding first_digit
first_digit_zero = refl

-- The class of a failed request, by the range of its status.
abbrev pub class_of : ℕ → String × String
class_of s =
    if s == 0
    then ("failed_connection", "Failed Connection")
    else if leb 300 s && ltb s 400
    then ("unexpected_redirect", "Unexpected Redirect")
    else if leb 400 s && ltb s 500
    then ("client_error", "Unknown Client Error")
    else ("server_error", "Server Error")

unknown_error_lem :
    (xhr : Xhr)
    → IsStatus xhr.status
    → ((unknown_error xhr (first_digit xhr.status)).code ≡ some (string (class_of xhr.status).0))
      × ((unknown_error xhr (first_digit xhr.status)).message
          ≡ some (string (class_of xhr.status).1))
unfolding unknown_error
unknown_error_lem xhr (inl z) = rw (z, first_digit_zero) (refl, refl)
unknown_error_lem xhr (inr (h, k)) =
    rw (first_digit_lem xhr.status h k) (ground arith, ground arith)

-- If the response is no JSON text, or is the text of `null`, the error's code and message are given
-- by the status alone: none, 3xx, 4xx, or any other.
pub ajax_error_unparsed :
    (parse : String → Option Json) (xhr : Xhr)
    → IsStatus xhr.status
    → (parse xhr.response_text ≡ none) ⊎ (parse xhr.response_text ≡ some null)
    → ((ajax_error parse xhr).code ≡ some (string (class_of xhr.status).0))
      × ((ajax_error parse xhr).message ≡ some (string (class_of xhr.status).1))
unfolding ajax_error
ajax_error_unparsed parse xhr s (inl e) = rw e (unknown_error_lem xhr s)
ajax_error_unparsed parse xhr s (inr e) = rw e (unknown_error_lem xhr s)

-- Whether a call in a sequence throws.
abbrev pub any_throws : (Call → Bool) → List Call → Bool
any_throws throws [] = false
any_throws throws (c ∷ calls) = throws c || any_throws throws calls

attempt_lem :
    (throws : Call → Bool) (calls : List Call) → (attempt throws calls).1 ≡ any_throws throws calls
unfolding attempt
attempt_lem throws [] = refl
attempt_lem throws (c ∷ calls) = ground (arith, attempt_lem throws calls)

-- The calls that `request` means to make, in order.
abbrev pub planned : String → String → Option String → Option (List (String × String)) → List Call
planned method url body headers = open_request method url ∷ (header_calls headers ++ send body ∷ [])

module _ (parse : String → Option Json) where
  -- The first notification in which the request is done.
  abbrev pub first_done : List Xhr → Option Xhr
  first_done [] = none
  first_done (xhr ∷ later) =
      let rest = first_done later in if xhr.ready_state == 4 then some xhr else rest

  -- How a request that is done settles.
  abbrev pub outcome : Option Xhr → Promise AjaxError Xhr
  outcome none = pending
  outcome (some xhr) =
      if leb 200 xhr.status && ltb xhr.status 300
      then fulfilled xhr
      else rejected (ajax_error parse xhr)

  done_lem :
      (xhr : Xhr)
      → IsStatus xhr.status
      → xhr.ready_state ≡ 4
      → on_ready_state_change parse xhr ≡ outcome (some xhr)
  unfolding on_ready_state_change
  done_lem xhr (inl z) d = rw (d, z, first_digit_zero) refl
  done_lem xhr (inr (h, k)) d = rw (d, first_digit_lem xhr.status h k) (ground arith)

  not_done_lem :
      (xhr : Xhr) → (xhr.ready_state == 4) ≡ false → on_ready_state_change parse xhr ≡ pending
  unfolding on_ready_state_change
  not_done_lem xhr d = rw d refl

  settle-outcome :
      (xhr : Xhr) (p : Promise AjaxError Xhr) → settle (outcome (some xhr)) p ≡ outcome (some xhr)
  settle-outcome xhr p = ground arith

  notified_lem :
      (later : List Xhr)
      → All (λ xhr. IsStatus xhr.status) later
      → notified parse later ≡ outcome (first_done later)
  unfolding notified
  notified_lem [] h = refl
  notified_lem (xhr ∷ later) (h, hs) = elim (Bool-cases (xhr.ready_state == 4)) [
    | inl d ↦ rw (done_lem xhr h (ground arith)) (rw d (settle-outcome xhr (notified parse later)))
    | inr d ↦ rw (not_done_lem xhr d) (rw d (notified_lem later hs))
  ]

  -- If no call throws and each reported status is 0 or has three digits, the promise settles by the
  -- first notification in state 4: with the request if its status is 2xx, else with an error; until
  -- there is one it stays pending.
  pub request_settles :
      (throws : Call → Bool) (fresh : Xhr) (later : List Xhr) (method url : String)
      (body : Option String) (headers : Option (List (String × String)))
      → any_throws throws (planned method url body headers) ≡ false
      → All (λ xhr. IsStatus xhr.status) later
      → (request parse throws fresh later method url body headers).1 ≡ outcome (first_done later)
  unfolding request
  request_settles throws fresh later method url body headers t h =
      rw (attempt_lem throws (planned method url body headers), t) (notified_lem later h)

  -- If a call throws, the promise is rejected with the error of the fresh request, whatever is
  -- notified later.
  pub request_throws :
      (throws : Call → Bool) (fresh : Xhr) (later : List Xhr) (method url : String)
      (body : Option String) (headers : Option (List (String × String)))
      → any_throws throws (planned method url body headers) ≡ true
      → (request parse throws fresh later method url body headers).1
        ≡ rejected (ajax_error parse fresh)
  unfolding request
  request_throws throws fresh later method url body headers t =
      rw (attempt_lem throws (planned method url body headers), t) refl
