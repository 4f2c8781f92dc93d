-- ===== src/Server/Endpoints.antt =====
-- An endpoint and what `Server.WrapEndpoint` wraps around it (padlockcloud/middleware.go). Each wrap is
-- a function from a handler to a handler. The CSRF protection of gorilla, the version and the address of
-- a mail about old versions are arguments. `LockAccount` orders requests, and `HandlePanic` catches what
-- no handler of the model does: both leave a handler as it is.
pub mod Rights
pub mod Wraps
pub mod Guards
use padlock_cloud.Prelude.{
  ℕ, Bool, true, false, not, ◌&&◌, ◌||◌, Option, none, some, List, [], ◌∷◌, ◌++◌, Text, codes,
  text_eq, ◌==◌, if◌then◌else◌,
}
use padlock_cloud.Errors.{
  Error, ErrorResponse, Result, ok, err, failure, response, other, invalid_auth_token,
  invalid_csrf_token, method_not_allowed, unsupported_api_version, jsonify_error_response, message,
  to_response,
}
use padlock_cloud.Errors as Errors
use padlock_cloud.Auth.{Time, AuthToken, Account, is_empty}
use padlock_cloud.Server.{Request, ServerConfig, Store, Step}
use padlock_cloud.Server.Authenticate.{authenticate}
use padlock_cloud.Server.Handlers.{Write, content_type, body, status, redirect}

-- A request's token with its account, or nil.
abbrev pub Auth : Type 0
Auth = Option (AuthToken × Account)

abbrev pub Handler : Type 0 → Type 0
Handler S = Request → Auth → Step S (List Write)

pub record Endpoint (S : Type 0) : Type 0 where
  pub handlers : Text → Option (Handler S)
  pub version : ℕ
  pub auth_type : Text

-- What the middleware takes from elsewhere.
pub record Parts (S : Type 0) : Type 0 where
  pub status_text : ℕ → Text
  pub contains : (s part : Text) → Bool
  pub has_prefix : (s prefix : Text) → Bool
  -- The error page, where its template works.
  pub error_page : (message : Text) → Option Text
  -- `versionFromRequest`
  pub version_from_request : Request → ℕ
  -- `SendDeprecatedVersionEmail`
  pub send_deprecated : Request → S → S
  -- The reason for which `csrf.Protect` refuses a request.
  pub csrf_failure : Request → Option Text

abbrev pub is_web : Auth → Bool
is_web none = false
is_web (some (t, a)) = text_eq t.type (codes "web")

-- Whether a token has the type that an endpoint asks for.
unfoldable pub right_type : Text → AuthToken → Bool
right_type type t =
    is_empty type
    || (text_eq type (codes "universal")
        || (text_eq t.type type || text_eq t.type (codes "skeleton")))

module _ {S : Type 0} where
  abbrev pub call : Option (Handler S) → Error → Handler S
  call none e r auth s = (err e, s)
  call (some h) e r auth s = h r auth s

  -- `CheckMethod`
  abbrev pub if_some : Option (Handler S) → Handler S → Handler S
  if_some none h r auth s = (err (response (method_not_allowed r.method)), s)
  if_some (some _) h r auth s = h r auth s

  unfoldable pub check_method : (Text → Option (Handler S)) → Handler S → Handler S
  check_method allowed h r auth s = if_some (allowed r.method) h r auth s

  -- `Endpoint.Handle`
  unfoldable pub endpoint_handle : Endpoint S → Handler S
  endpoint_handle endpoint r auth s =
      call (endpoint.handlers r.method) (failure (other (codes "Unexpected method: " ++ r.method)))
        r auth s

module _ {S : Type 0} (parts : Parts S) where
  abbrev page : Text → Option Text → List Write
  page msg none = content_type (codes "text/html") ∷ body msg ∷ []
  page msg (some html) = content_type (codes "text/html") ∷ body html ∷ []

  -- The body of `Server.HandleError`'s response.
  unfoldable pub error_body : Request → ErrorResponse → List Write
  unfolding message jsonify_error_response
  error_body r e =
      let accept = r.header (codes "Accept") in
      let msg = message parts.status_text e in
      if text_eq accept (codes "application/json")
        || parts.has_prefix accept (codes "application/vnd.padlock")
      then content_type (codes "application/json")
        ∷ body (jsonify_error_response parts.status_text e)
        ∷ []
      else (if parts.contains accept (codes "text/html")
          then page msg (parts.error_page msg)
          else body msg ∷ [])

  -- `Server.HandleError`
  unfoldable pub handle_error : Request → Error → List Write
  unfolding error_body
  handle_error r e = status (Errors.status (to_response e)) ∷ error_body r (to_response e)

  abbrev pub answered : Request → Result (List Write) × S → Result (List Write) × S
  answered r (ok ws, s) = (ok ws, s)
  answered r (err e, s) = (ok (handle_error r e), s)

  -- The middleware `HandleError`
  unfoldable pub wrap_error : Handler S → Handler S
  unfolding handle_error
  wrap_error h r auth s = answered r (h r auth s)

  abbrev pub protected : Option Text → Handler S → Handler S
  protected none h r auth s = h r auth s
  protected (some reason) h r auth s =
      (ok (handle_error r (response (invalid_csrf_token reason))), s)

  -- `CSRF`
  unfoldable pub wrap_csrf : Handler S → Handler S
  unfolding handle_error
  wrap_csrf h r auth s =
      if is_web auth then protected (parts.csrf_failure r) h r auth s else h r auth s

  -- `CheckEndpointVersion`
  unfoldable pub check_version : ℕ → Handler S → Handler S
  check_version version h r auth s =
      if parts.contains (r.header (codes "Authorization")) (codes "ApiKey")
        || (not (version == 0) && not (parts.version_from_request r == version))
      then (
        err (response (unsupported_api_version (parts.version_from_request r) version)),
        parts.send_deprecated r s,
      )
      else h r auth s

  abbrev pub let_in :
      Text → Handler S → Request → Result (AuthToken × Account) × S → Result (List Write) × S
  let_in type h r (ok (t, acc), s) =
      if right_type type t
      then h r (some (t, acc)) s
      else (err (response (invalid_auth_token t.email t.token)), s)
  let_in type h r (err e, s) =
      if is_empty type
      then h r none s
      else (if text_eq type (codes "web")
          then (ok (redirect (codes "/login/") ∷ []), s)
          else (err e, s))

  module _ (st : Store S) (decode : Text → Option Text) (config : ServerConfig) (now : Time) where
    -- The middleware `Authenticate`
    unfoldable pub wrap_authenticate : Text → Handler S → Handler S
    unfolding right_type
    wrap_authenticate type h r auth s = let_in type h r (authenticate st decode config now r s)

    -- `WrapEndpoint`
    unfoldable pub wrap_endpoint : Endpoint S → Handler S
    unfolding wrap_error check_method wrap_authenticate check_version wrap_csrf endpoint_handle
    wrap_endpoint endpoint =
        let h = endpoint_handle endpoint in
        let h = if is_empty endpoint.auth_type then h else wrap_csrf h in
        wrap_error (
          check_method endpoint.handlers
            (wrap_authenticate endpoint.auth_type (check_version endpoint.version h)))
