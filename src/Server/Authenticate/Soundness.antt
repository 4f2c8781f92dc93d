-- ===== src/Server/Authenticate/Soundness.antt =====
-- Whom `Server.Authenticate` lets in.
use padlock_cloud.Prelude.{◌≡◌, refl, sym, subst, ap, ◌∙◌, ◌⊎◌, false, Option, Text}
use padlock_cloud.Errors.{ok}
use padlock_cloud.Auth.{Time, AuthToken, Account}
use padlock_cloud.Auth.Tokens.{expired}
use padlock_cloud.Auth.Accounts.{update_auth_token}
use padlock_cloud.Server.{
  Request, ServerConfig, accounts, Store, next-ok, lift-ok, chain, lifted, pure-ok, next, pure,
}
use padlock_cloud.Server.Authenticate.{
  from_request, identify, touched, not_expired, pruned, invalid_if_missing, any_invalid,
  authenticate,
}
use padlock_cloud.Server.Authenticate.Identity.{
  IsKept, IsSkeleton, identify-ok, not_expired-ok, any_invalid-ok, invalid_if_missing-ok,
}

module _ {S : Type 0} (st : Store S) (decode : Text → Option Text) (config : ServerConfig) where
  -- What a request that is let in shows.
  pub record IsAuthentic (now : Time) (r : Request) (s : S) (t : AuthToken) (acc : Account) (s' : S)
      : Type 0 where
    pub given : AuthToken
    pub from : from_request decode r ≡ ok given
    pub stored : Account
    pub loaded : st.load accounts given.email s ≡ ok stored
    pub found : AuthToken
    pub who : IsKept now given found stored ⊎ IsSkeleton config r given found
    pub alive : expired now found ≡ false
    pub token : t ≡ touched now r found
    pub account : acc ≡ update_auth_token t (pruned now stored)
    pub saved : st.save accounts acc.email acc s ≡ (ok tt, s')

  finished :
      (now : Time) (r : Request) (s : S) (t : AuthToken) (acc : Account) (s' : S)
      (given : AuthToken) (stored : Account) (found : AuthToken) (t' : AuthToken) (acc' : Account)
      → t' ≡ touched now r found
      → acc' ≡ update_auth_token t' (pruned now stored)
      → from_request decode r ≡ ok given
      → st.load accounts given.email s ≡ ok stored
      → IsKept now given found stored ⊎ IsSkeleton config r given found
      → expired now found ≡ false
      → next {B = AuthToken × Account}
          (λ (u : Unit {0}). pure (t', acc'))
          (st.save accounts acc'.email acc' s)
        ≡ (ok (t, acc), s')
      → IsAuthentic now r s t acc s'
  finished now r s t acc s' given stored found t' acc' p q from loaded who alive h =
      elim (next-ok {B = AuthToken × Account} (λ (u : Unit {0}). pure (t', acc'))
        (st.save accounts acc'.email acc' s) (t, acc) s' h) [
          | chain u s'' e k ↦
              let (v, w) = pure-ok (t', acc') (t, acc) s'' s' k in
              let a : t' ≡ t = ap (λ (x : AuthToken × Account). x.0) v in
              let b : acc' ≡ acc = ap (λ (x : AuthToken × Account). x.1) v in
              record {
                given = given;
                from = from;
                stored = stored;
                loaded = loaded;
                found = found;
                who = who;
                alive = alive;
                token = sym a ∙ p;
                account = sym b ∙ q ∙ ap (λ x. update_auth_token x (pruned now stored)) a;
                saved =
                    subst (λ (x : Account). st.save accounts x.email x s ≡ (ok tt, s')) b
                      (subst (λ (x : S). st.save accounts acc'.email acc' s ≡ (ok tt, x)) w e);
              }
        ]

  -- A request that `Authenticate` lets in gives a token, in its header or its cookie, whose email has
  -- an account in the storage, and it is let in either with a token of that account with the same
  -- secret, used in the last 30 days, or with the given token itself, if it is the skeleton key that
  -- is configured, from the address that is configured if one is. The token it is let in with has not
  -- expired. `Authenticate` gives that token with this request's time as its last use and with its
  -- device data. The account that it gives is the stored one, pruned of old tokens and then passed with
  -- that token to `UpdateAuthToken`, which may or may not find a token to replace; it has been saved.
  pub authenticate-IsAuthentic :
      (now : Time) (r : Request) (s : S) (t : AuthToken) (acc : Account) (s' : S)
      → authenticate st decode config now r s ≡ (ok (t, acc), s')
      → IsAuthentic now r s t acc s'
  unfolding authenticate
  authenticate-IsAuthentic now r s t acc s' h =
      elim (lift-ok _ (any_invalid (from_request decode r)) s (t, acc) s' h) [
        | lifted given e₁ h₁ ↦
            elim (lift-ok _ (invalid_if_missing given (st.load accounts given.email s)) s (t, acc)
              s' h₁) [
                | lifted stored e₂ h₂ ↦
                    elim (lift-ok _ (identify config r given (pruned now stored)) s (t, acc) s'
                      h₂) [
                        | lifted found e₃ h₃ ↦
                            elim (lift-ok _ (not_expired now found) s (t, acc) s' h₃) [
                              | lifted found' e₄ h₄ ↦
                                  let (p, alive) = not_expired-ok now found found' e₄ in
                                  finished now r s t acc s' given stored found
                                    (touched now r found')
                                    (update_auth_token (touched now r found') (pruned now stored))
                                    (ap (λ x. touched now r x) (sym p)) refl
                                    (any_invalid-ok (from_request decode r) given e₁)
                                    (invalid_if_missing-ok given (st.load accounts given.email s)
                                      stored e₂)
                                    (identify-ok now config r given found stored e₃) alive h₄
                            ]
                      ]
              ]
      ]
