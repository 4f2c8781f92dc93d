-- ===== src/Server/Handlers/Asking.antt =====
-- `RequestAuthToken.Handle` (padlockcloud/handler.go): asking for a token. What an error leaves of the
-- response that the handler has begun is not modelled.
pub mod Guards
use padlock_cloud.Prelude.{
  ℕ, Bool, true, false, not, ◌&&◌, ◌||◌, Option, none, some, is_some, List, [], ◌∷◌, ◌++◌, Text,
  codes, text_eq, if◌then◌else◌,
}
use padlock_cloud.Errors.{
  Error, Result, ok, err, failure, response, bad_request, err_not_found, err_unregistered_storable,
  err_storage_closed, other, account_not_found, rate_limit_exceeded,
}
use padlock_cloud.Auth.{Time, Device, AuthToken, Account, AuthRequest, is_empty}
use padlock_cloud.Auth.Devices.{device_from_request}
use padlock_cloud.Auth.Requests.{request_key, new_auth_request}
use padlock_cloud.Whitelist.{Whitelist, is_whitelisted}
use padlock_cloud.Server.{
  Request, ServerConfig, ip_from_request, accounts, requests, data_stores, Store, Step, ◌>>=◌, next,
  pure, lift, reads,
}
use padlock_cloud.Server.Handlers.{Write, content_type, body, status, send, or_error}

-- What the handler takes from elsewhere.
pub record Outside (S : Type 0) : Type 0 where
  -- `url.Parse`, and the path of what it gives
  pub path_of : Text → Option Text
  pub has_endpoint : (path : Text) → Bool
  pub base_url : Request → Text
  -- `json.Marshal` of the id, the token, the email and, where there is one, the link
  pub marshal : (id token email : Text) → Option Text → Result Text
  -- the templates
  pub login_page : (email : Text) → Result Text
  pub activation_email : (link : Text) → AuthToken → (code : Text) → Result Text
  -- `emailRateLimiter.RateLimit`, whose store is a part of the state
  pub limited : (ip email : Text) → S → Bool × S
  -- the random source
  pub new_token : Result Text
  pub new_id : Result Text
  pub new_activation : Result Text

abbrev pub Auth : Type 0
Auth = Option (AuthToken × Account)

-- `r.PostFormValue("type")`, or "api"
unfoldable pub token_type : Request → Text
token_type r = if is_empty (r.form (codes "type")) then codes "api" else r.form (codes "type")

unfoldable pub preauthenticated : Request → Auth → Bool
preauthenticated r none = false
preauthenticated r (some (t, a)) =
    text_eq t.type (codes "api") && text_eq t.email (r.form (codes "email"))

abbrev pub allowed : Option Whitelist → Text → Bool
allowed none email = true
allowed (some w) email = is_whitelisted email w

abbrev pub either_there : Text → Result Account → Result Text → Result (Unit {0})
either_there email (ok a) d = ok tt
either_there email (err (failure err_not_found)) (ok d) = ok tt
either_there email (err (failure err_not_found)) (err (failure err_not_found)) =
    err (response (account_not_found email))
either_there email (err (failure err_not_found)) (err (failure err_unregistered_storable)) =
    err (failure err_unregistered_storable)
either_there email (err (failure err_not_found)) (err (failure err_storage_closed)) =
    err (failure err_storage_closed)
either_there email (err (failure err_not_found)) (err (failure (other msg))) =
    err (failure (other msg))
either_there email (err (failure err_not_found)) (err (response e)) = err (response e)
either_there email (err (failure err_unregistered_storable)) d =
    err (failure err_unregistered_storable)
either_there email (err (failure err_storage_closed)) d = err (failure err_storage_closed)
either_there email (err (failure (other msg))) d = err (failure (other msg))
either_there email (err (response e)) d = err (response e)

abbrev pub mapped : {A B : Type 0} → (A → B) → Result A → Result B
mapped f (ok a) = ok (f a)
mapped f (err e) = err e

module _ {S : Type 0} (st : Store S) (outside : Outside S) (whitelist : Option Whitelist)
    (config : ServerConfig) where
  abbrev pub known_path : Option Text → Bool
  known_path none = false
  known_path (some path) = outside.has_endpoint path

  -- The guards on the request's form.
  unfoldable pub check_form : Request → Result (Unit {0})
  unfolding token_type
  check_form r =
      let email = r.form (codes "email") in
      let redirect = r.form (codes "redirect") in
      if is_empty email
      then err (response (bad_request (codes "no email provided")))
      else (if not (allowed whitelist email)
          then err (response (bad_request (codes "invalid email address")))
          else (if not (text_eq (token_type r) (codes "api"))
                && not (text_eq (token_type r) (codes "web"))
              then err (response (bad_request (codes "unsupported auth token type")))
              else (if not (is_empty redirect) && not (known_path (outside.path_of redirect))
                  then err (response (bad_request (codes "invalid redirect path")))
                  else ok tt)))

  -- What a handler that does not create accounts asks first: an account, or else data for it.
  unfoldable pub check_exists : Text → S → Result (Unit {0})
  check_exists email s = either_there email (st.load accounts email s) (st.load data_stores email s)

  -- The body of the response and the subject of the email.
  unfoldable pub compose : Request → Bool → AuthRequest → Result (List Write × Text)
  unfolding token_type
  compose r preauth ar =
      let link = outside.base_url r ++ (codes "/a/?t=" ++ ar.token) in
      let t = ar.auth_token in
      if text_eq (token_type r) (codes "api") || preauth
      then mapped
          (λ text. (
            content_type (codes "application/json") ∷ status 202 ∷ body text ∷ [],
            if text_eq (r.form (codes "actType")) (codes "code")
                then codes "Your Padlock Login Code: " ++ ar.code
                else codes "Connect to Padlock Cloud",
          ))
          (outside.marshal t.id t.token t.email
            (if preauth || config.test then some link else none))
      else mapped
          (λ text. (
            content_type (codes "text/html") ∷ status 202 ∷ body text ∷ [],
            codes "Your Padlock Login Link",
          ))
          (outside.login_page (r.form (codes "email")))

  abbrev pub ask_limiter : Request → Step S (Unit {0})
  ask_limiter r s =
      let (limited, s) = outside.limited (ip_from_request r) (r.form (codes "email")) s in
      (if limited then err (response rate_limit_exceeded) else ok tt, s)

  -- The email, for a client that is not authenticated.
  unfoldable pub send_email : Request → AuthRequest → Text → Step S (List Write)
  send_email r ar subject = do
    u ← ask_limiter r
    message ← lift (
        outside.activation_email (outside.base_url r ++ (codes "/a/?t=" ++ ar.token)) ar.auth_token
          ar.code)
    pure (send (r.form (codes "email")) subject message ∷ [])

  abbrev pub new_request : Time → Request → Result AuthRequest
  new_request now r =
      new_auth_request outside.new_token outside.new_id outside.new_activation now
        (r.form (codes "email")) (token_type r) (r.form (codes "actType"))
        (device_from_request r.header)

  -- `RequestAuthToken.Handle`
  unfoldable pub request_auth_token : Time → Request → Auth → Step S (List Write)
  unfolding preauthenticated check_form check_exists compose send_email
  request_auth_token now r auth = do
    u ← lift (check_form r)
    u ← reads (λ s.
        if text_eq r.method (codes "POST") then ok tt else check_exists (r.form (codes "email")) s)
    made ← lift (new_request now r)
    let ar = record made { redirect = r.form (codes "redirect") }
    u ← st.save requests (request_key ar) ar
    parts ← lift (compose r (preauthenticated r auth) ar)
    sent ← (if preauthenticated r auth then pure [] else send_email r ar parts.1)
    pure (sent ++ parts.0)
