-- ===== src/Server/Handlers/Success/Once.antt =====
-- An activation link works once.
use padlock_cloud.Prelude.{◌≡◌, refl, sym, ap, ◌∙◌, false, Text, codes}
use padlock_cloud.Errors.{ok, err, failure, response, bad_request, err_not_found}
use padlock_cloud.Auth.{AuthRequest, is_empty}
use padlock_cloud.Auth.Requests.{request_key}
use padlock_cloud.Auth.Accounts.{add_auth_token}
use padlock_cloud.Server.{
  Request, accounts, requests, Store, Keeps, next-ok, chain, lift-ok, lifted,
}
use padlock_cloud.Server.Handlers.{
  or_default, new_account, revoke_device, activate, get_auth_request,
}

module _ {S : Type 0} (st : Store S) (keeps : Keeps st) where
  -- What `Activate` leaves of its request.
  activate-erased :
      (ar : AuthRequest) (s s' : S)
      → activate st ar s ≡ (ok tt, s')
      → st.load requests (request_key ar) s' ≡ err (failure err_not_found)
  unfolding activate
  activate-erased ar s s' h =
      let email = ar.auth_token.email in
      elim (lift-ok _ (or_default (new_account email) (st.load accounts email s)) s tt s' h) [
        | lifted acc q k ↦
            let acc' = add_auth_token ar.auth_token (revoke_device ar.auth_token acc) in
            elim (next-ok _ (st.save accounts acc'.email acc' s) tt s' k) [
              | chain u s'' e l ↦ keeps.load-erase requests (request_key ar) s'' s' l
            ]
      ]

  -- After `Activate` has succeeded for a request for activation with a token, `GetAuthRequest` refuses
  -- every later request with that token as "invalid activation token", whatever email and code it names,
  -- as long as the storage is as `Activate` has left it.
  pub get_auth_request-activate :
      (ar : AuthRequest) (r : Request) (s s' : S)
      → is_empty ar.token ≡ false
      → r.query (codes "t") ≡ ar.token
      → activate st ar s ≡ (ok tt, s')
      → get_auth_request st r s'
        ≡ (err (response (bad_request (codes "invalid activation token"))), s')
  unfolding get_auth_request request_key
  get_auth_request-activate ar r s s' n q h =
      let e : st.load requests ar.token s' ≡ err (failure err_not_found) =
        ap (λ (k : Text). st.load requests k s') (sym (key ar n)) ∙ activate-erased ar s s' h in
      rw (q, n, e) refl
    where
      key : (ar : AuthRequest) → is_empty ar.token ≡ false → request_key ar ≡ ar.token
      key ar n = rw n refl
