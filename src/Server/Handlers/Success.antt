-- ===== src/Server/Handlers/Success.antt =====
-- `Success` and `Handle` of `ActivateAuthToken` (padlockcloud/handler.go). The encoding of emails, the
-- random source and the link to which `url` adds the parameters of a pairing are arguments.
pub mod Once
use padlock_cloud.Prelude.{
  Bool, true, false, not, ◌&&◌, ◌||◌, Option, none, some, List, [], ◌∷◌, ◌++◌, Text, codes, text_eq,
  if◌then◌else◌,
}
use padlock_cloud.Errors.{Error, Result, ok, err}
use padlock_cloud.Auth.{Time, Device, AuthToken, AuthRequest, is_empty}
use padlock_cloud.Auth.Strings.{to_string}
use padlock_cloud.Auth.Requests.{new_auth_request}
use padlock_cloud.Server.{Request, Store, Step, ◌>>=◌, next, pure, lift}
use padlock_cloud.Server.Handlers.{
  Write, set_cookie, redirect, redirect_if_html, wants_html, get_auth_request, activate,
}

pub record Outside : Type 0 where
  pub encode : Text → Text
  pub contains : (s part : Text) → Bool
  -- A URL that parses, with the action and the id of the token added.
  pub paired : (url id : Text) → Option Text
  pub new_token : Result Text
  pub new_id : Result Text
  pub new_activation : Result Text

abbrev pub or_same : Text → Option Text → Text
or_same url none = url
or_same url (some u) = u

module _ {S : Type 0} (st : Store S) (outside : Outside) where
  -- The login that goes with an api token: its cookie, and where to go.
  unfoldable pub log_in : Time → AuthToken → (url : Text) → Step S (List Write × Text)
  unfolding to_string
  log_in now at url = do
    login ← lift (
        new_auth_request outside.new_token outside.new_id outside.new_activation now at.email
          (codes "web") [] at.device)
    u ← activate st login
    pure (
      set_cookie (to_string outside.encode login.auth_token) ∷ [],
      or_same url (outside.paired url at.id),
    )

  -- `Success`
  unfoldable pub success : Time → Request → AuthRequest → Step S (List Write)
  unfolding log_in to_string
  success now r ar = do
    let at = ar.auth_token
    let cookie =
        if text_eq at.type (codes "web") then set_cookie (to_string outside.encode at) ∷ [] else []
    let url = if is_empty ar.redirect then codes "/dashboard/" else ar.redirect
    more ←
        (if text_eq at.type (codes "api") && is_empty ar.code
          then log_in now at url
          else pure ([], url))
    pure (cookie ++ (more.0 ++ redirect_if_html outside.contains r more.1))

  -- A request that names no activation is answered, or sent to the dashboard.
  abbrev pub activate_found : Time → Request → Result AuthRequest × S → Result (List Write) × S
  activate_found now r (err e, s) =
      if wants_html r outside.contains
      then (ok (redirect (codes "/dashboard/") ∷ []), s)
      else (err e, s)
  activate_found now r (ok ar, s) = next (λ (u : Unit {0}). success now r ar) (activate st ar s)

  -- `ActivateAuthToken.Handle`
  unfoldable pub activate_handle : Time → Request → Step S (List Write)
  unfolding success
  activate_handle now r s = activate_found now r (get_auth_request st r s)
