-- ===== src/Server/Authenticate.antt =====
-- `Server.Authenticate` and `AuthTokenFromRequest`: who a request comes from.
pub mod Identity
pub mod Soundness
pub mod Saving
use padlock_cloud.Prelude.{
  ℕ, Bool, true, false, not, ◌&&◌, ◌||◌, Option, none, some, [], Text, codes, text_eq,
  if◌then◌else◌,
}
use padlock_cloud.Errors.{
  Error, ErrorResponse, Result, ok, err, failure, response, err_not_found,
  err_unregistered_storable, err_storage_closed, other, invalid_auth_token, expired_auth_token,
}
use padlock_cloud.Auth.{Time, Device, AuthToken, Account, is_empty}
use padlock_cloud.Auth.Devices.{device_from_request, update_from_request}
use padlock_cloud.Auth.Tokens.{expired}
use padlock_cloud.Auth.Strings.{from_string}
use padlock_cloud.Auth.Accounts.{
  find_auth_token, update_auth_token, remove_expired_auth_tokens, expire_unused_auth_tokens,
}
use padlock_cloud.Server.{
  Request, ServerConfig, ip_from_request, accounts, Store, Step, ◌>>=◌, pure, lift, reads,
}

abbrev or_empty : Option Text → Text
or_empty none = []
or_empty (some value) = value

-- `AuthTokenFromRequest`; `decode` is base64's.
unfoldable pub from_request : (decode : Text → Option Text) → Request → Result AuthToken
unfolding from_string
from_request decode r =
    let header = r.header (codes "Authorization") in
    from_string decode (if is_empty header then or_empty (r.cookie (codes "auth")) else header)

-- `Validate`: the token of the account, where it is found; `account` is set by `Authenticate`'s result.
abbrev pub same_secret : AuthToken → Option (ℕ × AuthToken) → Option AuthToken
same_secret t none = none
same_secret t (some (i, at)) = if text_eq at.token t.token then some at else none

unfoldable pub validate : AuthToken → Account → Option AuthToken
unfolding find_auth_token
validate t a = same_secret t (find_auth_token t a)

-- Whether the skeleton key is accepted.
unfoldable pub skeleton_ok : ServerConfig → Request → AuthToken → Bool
unfolding ip_from_request
skeleton_ok config r t = not (
    is_empty config.skeleton_key
    || ((not (is_empty config.skeleton_ip) && not (text_eq config.skeleton_ip (ip_from_request r)))
        || not (text_eq config.skeleton_key t.token)))

abbrev pub or_invalid : AuthToken → Option AuthToken → Result AuthToken
or_invalid t none = err (response (invalid_auth_token t.email t.token))
or_invalid t (some at) = ok at

-- The token that a request's token stands for in its account.
unfoldable pub identify : ServerConfig → Request → AuthToken → Account → Result AuthToken
unfolding skeleton_ok validate
identify config r t a = or_invalid t (
    if text_eq t.type (codes "skeleton")
    then (if skeleton_ok config r t then some t else none)
    else validate t a)

abbrev pub touched_device : (Text → Text) → Option Device → Option Device
touched_device header none = device_from_request header
touched_device header (some d) = some (update_from_request header d)

-- The time of use and the device's data are brought up to date.
unfoldable pub touched : Time → Request → AuthToken → AuthToken
touched now r t = record t { last_used = now; device = touched_device r.header t.device }

abbrev pub not_expired : Time → AuthToken → Result AuthToken
not_expired now t =
    if expired now t then err (response (expired_auth_token t.email t.token)) else ok t

-- The account without the tokens that are too old.
unfoldable pub pruned : Time → Account → Account
unfolding remove_expired_auth_tokens expire_unused_auth_tokens
pruned now a = remove_expired_auth_tokens now (expire_unused_auth_tokens now a)

abbrev pub invalid_if_missing : {A : Type 0} → AuthToken → Result A → Result A
invalid_if_missing t (ok a) = ok a
invalid_if_missing t (err (failure err_not_found)) =
    err (response (invalid_auth_token t.email t.token))
invalid_if_missing t (err (failure err_unregistered_storable)) =
    err (failure err_unregistered_storable)
invalid_if_missing t (err (failure err_storage_closed)) = err (failure err_storage_closed)
invalid_if_missing t (err (failure (other msg))) = err (failure (other msg))
invalid_if_missing t (err (response e)) = err (response e)

abbrev pub any_invalid : Result AuthToken → Result AuthToken
any_invalid (ok t) = ok t
any_invalid (err e) = err (response (invalid_auth_token [] []))

module _ {S : Type 0} (st : Store S) (decode : Text → Option Text) (config : ServerConfig) where
  -- `Authenticate`; `now` is the time of the request. The token's `account` comes with it.
  unfoldable pub authenticate : Time → Request → Step S (AuthToken × Account)
  unfolding from_request identify pruned touched update_auth_token
  authenticate now r = do
    given ← lift (any_invalid (from_request decode r))
    stored ← reads (λ s. invalid_if_missing given (st.load accounts given.email s))
    let acc = pruned now stored
    found ← lift (identify config r given acc)
    found ← lift (not_expired now found)
    let t = touched now r found
    let acc = update_auth_token t acc
    u ← st.save accounts acc.email acc
    pure (t, acc)
