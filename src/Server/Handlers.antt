-- ===== src/Server/Handlers.antt =====
-- The handlers of the server (padlockcloud/handler.go): activating a token, reading, writing and
-- deleting data, logging out and revoking. `RequestAuthToken` (Asking) and the rest of
-- `ActivateAuthToken` (Success) are in children. The account of the token that a request is
-- authenticated by comes beside it.
pub mod Activation
pub mod Asking
pub mod Success
pub mod Secrets
pub mod Ending
pub mod Leaving
pub mod Staying
pub mod Data
use padlock_cloud.Prelude.{
  ℕ, suc, ◌+◌, ◌-◌, ◌*◌, Bool, true, false, not, ◌&&◌, ◌||◌, Option, none, some, List, [], ◌∷◌,
  ◌++◌, Text, codes, text_eq, length, if◌then◌else◌,
}
use padlock_cloud.Errors.{
  Error, Result, ok, err, failure, response, bad_request, err_not_found, err_unregistered_storable,
  err_storage_closed, other,
}
use padlock_cloud.Auth.{Time, Device, AuthToken, Account, AuthRequest, is_empty, hour}
use padlock_cloud.Auth.Strings.{given_token, to_string}
use padlock_cloud.Auth.Requests.{request_key, new_auth_request}
use padlock_cloud.Auth.Accounts.{
  add_auth_token, find_auth_token, set_elem, update_auth_token, remove_auth_token, remove_all,
  no_uuid,
}
use padlock_cloud.Server.{
  Request, accounts, requests, data_stores, Store, Step, ◌>>=◌, pure, lift, reads,
}

-- What a handler does to the response, and the email it sends.
pub data Write : Type 0 where
  set_cookie : (value : Text) → Write
  delete_cookie : Write
  content_type : Text → Write
  body : Text → Write
  status : ℕ → Write
  redirect : (url : Text) → Write
  send : (email subject message : Text) → Write

-- A read whose `ErrNotFound` is no error.
abbrev pub or_default : {A : Type 0} → A → Result A → Result A
or_default a (ok b) = ok b
or_default a (err (failure err_not_found)) = ok a
or_default a (err (failure err_unregistered_storable)) = err (failure err_unregistered_storable)
or_default a (err (failure err_storage_closed)) = err (failure err_storage_closed)
or_default a (err (failure (other msg))) = err (failure (other msg))
or_default a (err (response e)) = err (response e)

-- A read whose `ErrNotFound` is another error.
abbrev pub or_error : {A : Type 0} → Error → Result A → Result A
or_error e (ok a) = ok a
or_error e (err (failure err_not_found)) = err e
or_error e (err (failure err_unregistered_storable)) = err (failure err_unregistered_storable)
or_error e (err (failure err_storage_closed)) = err (failure err_storage_closed)
or_error e (err (failure (other msg))) = err (failure (other msg))
or_error e (err (response f)) = err (response f)

-- `&Account{Email: email}`
abbrev pub new_account : Text → Account
new_account email = record { email = email; created = 0; auth_tokens = [] }

-- A token that stands for every one with its type and its device's UUID.
abbrev pub same_device : AuthToken → Option Device → AuthToken
same_device at none = record (given_token [] [] at.type) { device = none }
same_device at (some d) = record (given_token [] [] at.type) {
  device = some (record {
    platform = [];
    uuid = d.uuid;
    manufacturer = [];
    model = [];
    os_version = [];
    host_name = [];
    app_version = [];
  });
}

-- The tokens of the same device are revoked, with fuel for all of them.
unfoldable pub revoke_device : AuthToken → Account → Account
unfolding remove_all
revoke_device at a =
    if no_uuid at.device
    then a
    else remove_all (suc (length a.auth_tokens)) (same_device at at.device) a

abbrev pub wants_html : Request → (Text → Text → Bool) → Bool
wants_html r contains = contains (r.header (codes "Accept")) (codes "text/html")

-- `contains` is `strings.Contains`.
abbrev pub redirect_if_html : (Text → Text → Bool) → Request → Text → List Write
redirect_if_html contains r url = if wants_html r contains then redirect url ∷ [] else []

-- The token that `Revoke` is about.
abbrev pub asked_token : Request → AuthToken
asked_token r = record (given_token [] (r.form (codes "token")) []) { id = r.form (codes "id") }

abbrev pub found_or_bad : Option (ℕ × AuthToken) → Result (ℕ × AuthToken)
found_or_bad none = err (response (bad_request (codes "No such token")))
found_or_bad (some it) = ok it

-- The token to revoke, with its index.
unfoldable pub to_revoke : Request → Account → Result (ℕ × AuthToken)
unfolding find_auth_token
to_revoke r acc =
    if is_empty (r.form (codes "token")) && is_empty (r.form (codes "id"))
    then err (response (bad_request (codes "No token or id provided")))
    else found_or_bad (find_auth_token (asked_token r) acc)

-- `time.Minute`
abbrev pub minute : ℕ
minute = 60000000000

-- The token found is a pointer into the account: what is set of it is set there, before
-- `UpdateAuthToken` looks for it again.
unfoldable pub expire_token : Time → ℕ × AuthToken → Account → Account
unfolding set_elem update_auth_token
expire_token now (i, t) acc =
    let t = record t { expires = now - minute } in
    update_auth_token t (record acc { auth_tokens = set_elem i t acc.auth_tokens })

module _ {S : Type 0} (st : Store S) where
  -- `GetAuthRequest`
  unfoldable pub get_auth_request : Request → Step S AuthRequest
  unfolding request_key
  get_auth_request r =
      let token = r.query (codes "t") in
      let email = r.form (codes "email") in
      let code = r.form (codes "code") in
      let asked : AuthRequest = record {
        code = code;
        token = token;
        auth_token = given_token email [] [];
        created = 0;
        redirect = [];
      } in
      if is_empty token && (is_empty email || is_empty code)
      then lift (err (response (bad_request (codes "no activation token or code provided"))))
      else reads (λ s.
        or_error (response (bad_request (codes "invalid activation token")))
          (st.load requests (request_key asked) s))

  -- `Activate`
  unfoldable pub activate : AuthRequest → Step S (Unit {0})
  unfolding revoke_device add_auth_token request_key
  activate ar = do
    let at = ar.auth_token
    acc ← reads (λ s. or_default (new_account at.email) (st.load accounts at.email s))
    let acc = add_auth_token at (revoke_device at acc)
    u ← st.save accounts acc.email acc
    st.erase requests (request_key ar)

  -- `ReadStore.Handle`
  unfoldable pub read_store : Account → Step S (List Write)
  read_store acc = do
    content ← reads (λ s. or_default [] (st.load data_stores acc.email s))
    pure (body content ∷ [])

  -- `WriteStore.Handle`
  unfoldable pub write_store : Request → Account → Step S (List Write)
  write_store r acc = do
    content ← lift r.body
    u ← st.save data_stores acc.email content
    pure (status 204 ∷ [])

  -- `DeleteStore.Handle`
  unfoldable pub delete_store : Account → Step S (List Write)
  delete_store acc = do
    u ← st.erase data_stores acc.email
    pure (redirect (codes "/dashboard/?action=reset") ∷ [])

  -- `Server.DeleteAccount`, the whole of `DeleteAccount.Handle`
  unfoldable pub delete_account : Text → Step S (Unit {0})
  delete_account email = do u ← st.erase data_stores email; st.erase accounts email

  module _ (contains : Text → Text → Bool) where
    -- `Logout.Handle`
    unfoldable pub logout : Request → AuthToken → Account → Step S (List Write)
    unfolding remove_auth_token
    logout r auth acc = do
      let acc = (remove_auth_token auth acc).1
      u ← st.save accounts acc.email acc
      pure (delete_cookie ∷ redirect_if_html contains r (codes "/login/"))

    -- `Revoke.Handle`
    unfoldable pub revoke : Time → Request → Account → Step S (List Write)
    unfolding to_revoke expire_token
    revoke now r acc = do
      found ← lift (to_revoke r acc)
      let acc = expire_token now found acc
      u ← st.save accounts acc.email acc
      pure
          (redirect_if_html contains r (codes "/dashboard/?action=revoked&token-id=" ++ found.1.id))
