-- ===== src/Server/Handlers/Staying.antt =====
-- A token that `Logout` does not find: it stays in the account.
use padlock_cloud.Prelude.{
  ◌≡◌, refl, sym, ap, ◌∙◌, ◌⊎◌, inl, inr, Bool, false, Option, none, some, List, [], All, Text,
  codes, text_eq, text_eq-neq, subst,
}
use mathlib.Core.List.{Memᴰ}
use padlock_cloud.Errors.{ok}
use padlock_cloud.Auth.{Time, Device, AuthToken, Account, is_empty}
use padlock_cloud.Auth.Devices.{device_from_request}
use padlock_cloud.Auth.Strings.{given_token}
use padlock_cloud.Auth.Accounts.{find_auth_token, update_auth_token, remove_auth_token}
use padlock_cloud.Auth.Accounts.Laws.{find_from-none}
use padlock_cloud.Server.{Request, ServerConfig, accounts, Store, Keeps}
use padlock_cloud.Server.Authenticate.{from_request, touched, touched_device, pruned, authenticate}
use padlock_cloud.Server.Authenticate.Identity.{IsKept}
use padlock_cloud.Server.Authenticate.Saving.{blank-touched, All-miss}
use padlock_cloud.Server.Authenticate.Soundness.{IsAuthentic, authenticate-IsAuthentic}
use padlock_cloud.Server.Handlers.{logout, Write}
use padlock_cloud.Server.Handlers.Ending.{logout-saved}
use padlock_cloud.Server.Handlers.Leaving.{All-pruned, All-Memᴰ}

-- A token of the secret is stored without a device.
abbrev pub Bare : Text → AuthToken → Type 0
Bare token u = (text_eq u.token token ≡ false) ⊎ (u.device ≡ none)

Bare-device : (token : Text) (t : AuthToken) → t.token ≡ token → Bare token t → t.device ≡ none
Bare-device token t e (inl n) = absurd (text_eq-neq t.token token n e)
Bare-device token t e (inr n) = n

-- With the device of a request, such a token is not found in the account.
find_auth_token-Bare :
    (now : Time) (r : Request) (token : Text) (a : Account) (found : AuthToken) (d : Device)
    → is_empty token ≡ false
    → found.token ≡ token
    → found.device ≡ none
    → device_from_request r.header ≡ some d
    → is_empty d.uuid ≡ false
    → All (λ u. Bare token u) a.auth_tokens
    → find_auth_token (touched now r found) a ≡ none
unfolding find_auth_token
find_auth_token-Bare now r token a found d n p e q k all =
    let b = blank-touched now r found (rw p n) in
    let m =
      All-miss now r token found d a.auth_tokens n p (ap (λ x. touched_device r.header x) e ∙ q) k
        all in
    rw (b, find_from-none 0 (touched now r found) a.auth_tokens m) refl

update_auth_token-missed :
    (t : AuthToken) (a : Account) → find_auth_token t a ≡ none → update_auth_token t a ≡ a
unfolding update_auth_token
update_auth_token-missed t a e = rw e refl

remove_auth_token-missed :
    (t : AuthToken) (a : Account) → find_auth_token t a ≡ none → (remove_auth_token t a).1 ≡ a
unfolding remove_auth_token
remove_auth_token-missed t a e = rw e refl

module _ {S : Type 0} (st : Store S) (keeps : Keeps st) (contains : Text → Text → Bool)
    (decode : Text → Option Text) (config : ServerConfig) where
  -- After a request with a web or api token, with a secret that is not empty, which names a device with
  -- a UUID, has been let in and its `Logout` has succeeded, the account in the storage has the tokens that it had before, but for those
  -- that were too old, and still one with the request's secret, where every token of the account with
  -- this secret was stored without a device.
  pub logout-stays :
      (now : Time) (r : Request) (email token : Text) (stored acc : Account) (auth : AuthToken)
      (d : Device) (ws : List Write) (s s' s'' : S)
      → All (λ u. Bare token u) stored.auth_tokens
      → device_from_request r.header ≡ some d
      → is_empty d.uuid ≡ false
      → is_empty token ≡ false
      → st.load accounts email s ≡ ok stored
      → from_request decode r ≡ ok (given_token email token [])
      → authenticate st decode config now r s ≡ (ok (auth, acc), s')
      → logout st contains r auth acc s' ≡ (ok ws, s'')
      → (left : Account) × (found : AuthToken) × (st.load accounts stored.email s'' ≡ ok left)
        × (left.auth_tokens ≡ (pruned now stored).auth_tokens)
        × Memᴰ found left.auth_tokens
        × (found.token ≡ token)
  unfolding text_eq pruned
  logout-stays now r email token stored acc auth d ws s s' s'' bare dev uuid n l f a h =
      shown (authenticate-IsAuthentic st decode config now r s auth acc s' a)
    where
      shown :
          IsAuthentic st decode config now r s auth acc s'
          → (left : Account) × (found : AuthToken) × (st.load accounts stored.email s'' ≡ ok left)
            × (left.auth_tokens ≡ (pruned now stored).auth_tokens)
            × Memᴰ found left.auth_tokens
            × (found.token ≡ token)
      shown w =
          let p : given_token email token [] ≡ w.given = cc (w.from, f) in
          let q : stored ≡ w.stored = cc (w.loaded, l, ap (λ (x : AuthToken). x.email) p) in
          elim w.who [
            | inr skeleton ↦ absurd (
                text_eq-neq [] (codes "skeleton") refl
                  (ap (λ (x : AuthToken). x.type) p ∙ skeleton.type))
            | inl kept ↦
                let kept = subst (λ (x : Account). IsKept now w.given w.found x) (sym q) kept in
                let c : w.found.token ≡ token =
                  kept.secret ∙ ap (λ (x : AuthToken). x.token) (sym p) in
                let e =
                  Bare-device token w.found c
                    (All-Memᴰ (λ u. Bare token u) w.found stored.auth_tokens kept.kept bare) in
                let b = pruned now stored in
                let missed : find_auth_token auth b ≡ none =
                  ap (λ (x : AuthToken). find_auth_token x b) w.token
                  ∙ find_auth_token-Bare now r token b w.found d n c e dev uuid
                      (All-pruned (λ u. Bare token u) now stored bare) in
                let same : acc ≡ b =
                  w.account
                  ∙ ap (λ (x : Account). update_auth_token auth (pruned now x)) (sym q)
                  ∙ update_auth_token-missed auth b missed in
                let removed : (remove_auth_token auth acc).1 ≡ b =
                  ap (λ (x : Account). (remove_auth_token auth x).1) same
                  ∙ remove_auth_token-missed auth b missed in
                let saved =
                  subst (λ (x : Account). st.save accounts x.email x s' ≡ (ok tt, s'')) removed
                    (logout-saved st keeps contains r auth acc ws s' s'' h) in
                let tokens = keeps.kept-tokens b in
                (
                  keeps.kept accounts b,
                  w.found,
                  keeps.load-save accounts b.email b s' s'' saved,
                  tokens,
                  subst (λ (ts : List AuthToken). Memᴰ w.found ts) (sym tokens) kept.left,
                  c,
                )
          ]
