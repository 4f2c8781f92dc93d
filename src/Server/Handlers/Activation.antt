-- ===== src/Server/Handlers/Activation.antt =====
-- What activating a token does.
use padlock_cloud.Prelude.{
  ◌≡◌, ◌≢◌, refl, sym, subst, ap, ◌∙◌, inl, inr, false, not, Bool-cases, Option, none, some, List,
  [], ◌∷◌, ◌++◌, Text, length, arith, if◌then◌else◌,
}
use mathlib.Core.List.{Permᴰ}
use mathlib.Core.List
use padlock_cloud.Errors.{
  Error, Result, ok, err, failure, response, err_not_found, err_unregistered_storable,
  err_storage_closed, other,
}
use padlock_cloud.Auth.{Device, AuthToken, Account, AuthRequest}
use padlock_cloud.Auth.Requests.{request_key}
use padlock_cloud.Auth.Accounts.{fits, blank, add_auth_token, filter, no_uuid}
use padlock_cloud.Auth.Accounts.Revoking.{remove_all-Rest}
use padlock_cloud.Server.{accounts, requests, Store, Keeps, next-ok, chain, lift-ok, lifted}
use padlock_cloud.Server.Handlers.{or_default, new_account, same_device, revoke_device, activate}

-- The tokens of an account that stay when a token is activated: all of them where it has no device with
-- a UUID, and else those of another type or of another device.
unfoldable pub staying : AuthToken → List AuthToken → List AuthToken
unfolding filter
staying at ts =
    if no_uuid at.device then ts else filter (λ t. not (fits (same_device at at.device) t)) ts

revoke_device-staying :
    (at : AuthToken) (a : Account)
    → Permᴰ (revoke_device at a).auth_tokens (staying at a.auth_tokens)
      × ((revoke_device at a).email ≡ a.email)
unfolding revoke_device staying
revoke_device-staying at a = elim (Bool-cases (no_uuid at.device)) [
  | inl e ↦ rw e (List.Permᴰ.refl a.auth_tokens, refl)
  | inr e ↦
      let (n, p, q, c) =
        remove_all-Rest (length a.auth_tokens) (same_device at at.device) a
          (names_device at.device e) (omega arith) in
      rw e (p, q)
]
  where
    names_device : (d : Option Device) → no_uuid d ≡ false → blank (same_device at d) ≡ false
    names_device none e = absurd (cc (e))
    names_device (some d) e = e

-- The account that a read gives, or a new one.
abbrev pub account_in : Text → Result Account → Account
account_in email (ok a) = a
account_in email (err e) = new_account email

or_default-account_in :
    (email : Text) (r : Result Account) (a : Account)
    → or_default (new_account email) r ≡ ok a
    → ((b : Account) → r ≡ ok b → b.email ≡ email)
    → (a ≡ account_in email r) × (a.email ≡ email)
or_default-account_in email (ok b) a h keyed =
    let p : b ≡ a = cc (h) in (sym p, ap (λ (x : Account). x.email) (sym p) ∙ keyed b refl)
or_default-account_in email (err e) a h keyed =
    let p : new_account email ≡ a = default_ok e h in (sym p, ap (λ (x : Account). x.email) (sym p))
  where
    default_ok : (e : Error) → or_default (new_account email) (err e) ≡ ok a → new_account email ≡ a
    default_ok (failure err_not_found) h = cc (h)
    default_ok (failure err_unregistered_storable) h = cc (h)
    default_ok (failure err_storage_closed) h = cc (h)
    default_ok (failure (other m)) h = cc (h)
    default_ok (response f) h = cc (h)

accounts-ne-requests : requests ≢ accounts
accounts-ne-requests e = cc (e)

module _ {S : Type 0} (st : Store S) (keeps : Keeps st) where
  -- After `Activate` has succeeded, the account of the request's email has exactly the tokens it had,
  -- less those of the same type that the device of the new token had, and the new token behind them,
  -- where an account that was not there had none. The activation request is gone from the storage.
  pub activate-staying :
      (ar : AuthRequest) (s s' : S)
      → ((a : Account)
          → st.load accounts ar.auth_token.email s ≡ ok a
          → a.email ≡ ar.auth_token.email)
      → activate st ar s ≡ (ok tt, s')
      → (a : Account) × (ts : List AuthToken) × (st.load accounts ar.auth_token.email s' ≡ ok a)
        × (a.auth_tokens ≡ ts ++ (ar.auth_token ∷ []))
        × Permᴰ ts (
            staying ar.auth_token
              (account_in ar.auth_token.email (st.load accounts ar.auth_token.email s)).auth_tokens)
        × (st.load requests (request_key ar) s' ≡ err (failure err_not_found))
  unfolding activate add_auth_token
  activate-staying ar s s' keyed h =
      let email = ar.auth_token.email in
      elim (lift-ok _ (or_default (new_account email) (st.load accounts email s)) s tt s' h) [
        | lifted acc q k ↦
            let acc' = add_auth_token ar.auth_token (revoke_device ar.auth_token acc) in
            elim (next-ok _ (st.save accounts acc'.email acc' s) tt s' k) [
              | chain u s'' e l ↦
                  let (p, m) = or_default-account_in email (st.load accounts email s) acc q keyed in
                  let (d, n) = revoke_device-staying ar.auth_token acc in
                  let e' =
                    subst (λ (x : Text). st.save accounts x acc' s ≡ (ok tt, s'')) (n ∙ m) e in
                  (
                    keeps.kept accounts acc',
                    (revoke_device ar.auth_token acc).auth_tokens,
                    keeps.load-erase_other requests accounts (request_key ar) email s'' s' l
                          (inl accounts-ne-requests)
                        ∙ keeps.load-save accounts email acc' s s'' e',
                    keeps.kept-tokens acc',
                    subst
                        (λ (x : Account).
                          Permᴰ (revoke_device ar.auth_token acc).auth_tokens
                            (staying ar.auth_token x.auth_tokens))
                        p d,
                    keeps.load-erase requests (request_key ar) s'' s' l,
                  )
            ]
      ]
