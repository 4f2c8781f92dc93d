-- ===== src/Server/Handlers/Ending.antt =====
-- A token that is revoked, or that `Logout` has removed, lets nobody in any more.
use padlock_cloud.Prelude.{
  ℕ, ◌-◌, ◌<◌, ◌≤◌, ◌≡◌, ◌≢◌, refl, sym, subst, ap, ◌∙◌, inl, inr, Bool, true, false, ◌&&◌,
  Bool-cases, Option, none, some, List, ◌∷◌, ◌++◌, All-append, Text, codes, text_eq,
}
use mathlib.Core.List.{Memᴰ}
use padlock_cloud.Errors.{Result, err, ok}
use padlock_cloud.Auth.{Time, AuthToken, Account, is_empty}
use padlock_cloud.Auth.Tokens.{expired}
use padlock_cloud.Auth.Accounts.{remove_auth_token, remove_at, swap_remove, find_auth_token}
use padlock_cloud.Auth.Accounts.Laws.{Found, find_auth_token-Found}
use padlock_cloud.Auth.Accounts.Removing.{swap_remove-rest, Memᴰ-Permᴰ}
use padlock_cloud.Server.{
  Request, ServerConfig, accounts, Store, Keeps, next-ok, chain, lift-ok, lifted, pure-ok,
}
use padlock_cloud.Server.Authenticate.{from_request, authenticate}
use padlock_cloud.Server.Authenticate.Soundness.{IsAuthentic, authenticate-IsAuthentic}
use padlock_cloud.Server.Handlers.{
  logout, to_revoke, Write, expire_token, found_or_bad, asked_token, minute, revoke,
}
use padlock_cloud.Server.Handlers.Secrets.{
  Distinct, Others, Distinct-Others, Memᴰ-expires, same_secret-Others, Others-Memᴰ, expired_earlier,
  expire_token-Found, expiring,
}

to_revoke-found :
    (r : Request) (acc : Account) (x : ℕ × AuthToken)
    → to_revoke r acc ≡ ok x
    → find_auth_token (asked_token r) acc ≡ some x
unfolding to_revoke
to_revoke-found r acc x h =
    elim (Bool-cases (is_empty (r.form (codes "token")) && is_empty (r.form (codes "id")))) [
      | inl e ↦ absurd (cc (h, e))
      | inr e ↦ found (find_auth_token (asked_token r) acc) (sym (rw e refl) ∙ h)
    ]
  where
    found : (o : Option (ℕ × AuthToken)) → found_or_bad o ≡ ok x → o ≡ some x
    found none h = absurd (cc (h))
    found (some y) h = cc (h)

abbrev revoked : Time → AuthToken → Account → (pre post : List AuthToken) → Account
revoked now t acc pre post = record acc { auth_tokens = pre ++ (expiring (now - minute) t ∷ post) }

-- A result that is an error.
abbrev pub Refused : {A : Type 0} → Result A → Type 0
Refused (ok a) = ⊥
Refused (err e) = Unit

refused : {A S : Type 0} (r : Result A × S) → ((a : A) (s : S) → r ≢ (ok a, s)) → Refused r.0
refused (ok a, s) h = h a s refl
refused (err e, s) h = tt

-- A request is not let in where every token of the account with its secret has expired.
shut_out :
    {S : Type 0} (st : Store S) (decode : Text → Option Text) (config : ServerConfig) (now : Time)
    (r : Request) (given : AuthToken) (stored : Account) (s : S)
    → from_request decode r ≡ ok given
    → st.load accounts given.email s ≡ ok stored
    → given.type ≢ codes "skeleton"
    → ((v : AuthToken) → Memᴰ v stored.auth_tokens → v.token ≡ given.token → expired now v ≡ true)
    → Refused (authenticate st decode config now r s).0
shut_out {S} st decode config now r given stored s g l k dead =
    refused (authenticate st decode config now r s) (λ x s' auth.
      refuted x.0 x.1 s' (authenticate-IsAuthentic st decode config now r s x.0 x.1 s' auth))
  where
    refuted :
        (t : AuthToken) (a : Account) (s' : S) → IsAuthentic st decode config now r s t a s' → ⊥
    refuted t a s' w = elim w.who [
      | inl kept ↦
          let p : given ≡ w.given = cc (w.from, g) in
          let q : stored ≡ w.stored = cc (w.loaded, l, p) in
          cc (
            w.alive,
            dead w.found (subst (λ (x : Account). Memᴰ w.found x.auth_tokens) (sym q) kept.kept)
                (kept.secret ∙ ap (λ (x : AuthToken). x.token) (sym p)),
          )
      | inr skeleton ↦
          let p : given ≡ w.given = cc (w.from, g) in
          k (ap (λ (x : AuthToken). x.type) p ∙ skeleton.type)
    ]

module _ {S : Type 0} (st : Store S) (keeps : Keeps st) (contains : Text → Text → Bool) where
  -- What a `Revoke` that succeeds has found and saved.
  revoke-saved :
      (now : Time) (r : Request) (acc : Account) (i : ℕ) (t : AuthToken) (ws : List Write)
      (s s' : S)
      → find_auth_token (asked_token r) acc ≡ some (i, t)
      → revoke st contains now r acc s ≡ (ok ws, s')
      → st.save accounts (expire_token now (i, t) acc).email (expire_token now (i, t) acc) s
        ≡ (ok tt, s')
  unfolding revoke
  revoke-saved now r acc i t ws s s' f h = elim (lift-ok _ (to_revoke r acc) s ws s' h) [
    | lifted x e k ↦
        let p : some x ≡ some (i, t) = sym (to_revoke-found r acc x e) ∙ f in
        let p : x ≡ (i, t) = cc (p) in
        elim (next-ok _ (st.save accounts (expire_token now x acc).email (expire_token now x acc) s)
          ws s' k) [
            | chain u s'' q l ↦
                subst
                  (λ (y : ℕ × AuthToken).
                    st.save accounts (expire_token now y acc).email (expire_token now y acc) s
                    ≡ (ok tt, s'))
                  p (q ∙ ap (λ (x : S). (ok tt, x)) (pure-ok _ ws s'' s' l).1)
          ]
  ]

  -- After `Revoke` has succeeded for a token of an account, no request at that time or later with the
  -- token's secret and the account's email is let in, but with a skeleton key, where the tokens of the
  -- account have secrets that are not empty and differ from each other.
  pub authenticate-revoke :
      (decode : Text → Option Text) (config : ServerConfig) (now now' : Time) (r r' : Request)
      (acc : Account) (i : ℕ) (t given : AuthToken) (ws : List Write) (s s' : S)
      → Distinct acc.auth_tokens
      → is_empty t.token ≡ false
      → minute < now
      → now ≤ now'
      → find_auth_token (asked_token r) acc ≡ some (i, t)
      → revoke st contains now r acc s ≡ (ok ws, s')
      → from_request decode r' ≡ ok given
      → given.email ≡ acc.email
      → given.token ≡ t.token
      → given.type ≢ codes "skeleton"
      → Refused (authenticate st decode config now' r' s').0
  authenticate-revoke decode config now now' r r' acc i t given ws s s' d n m l f h g e q k =
      let found = find_auth_token-Found (asked_token r) acc i t f in
      let (o, o') =
        Distinct-Others found.pre t found.post
          (subst (λ (ts : List AuthToken). Distinct ts) found.whole d) in
      let b = expire_token-Found now (asked_token r) acc i t found n o in
      let saved =
        subst (λ (x : Account). st.save accounts x.email x s ≡ (ok tt, s')) b
          (revoke-saved now r acc i t ws s s' f h) in
      let loaded =
        keeps.load-save accounts acc.email (revoked now t acc found.pre found.post) s s' saved in
      shut_out st decode config now' r' given
        (keeps.kept accounts (revoked now t acc found.pre found.post)) s' g
        (ap (λ (x : Text). st.load accounts x s') e ∙ loaded) k
        (λ v mem same.
          expired_earlier now now' v
            (Memᴰ-expires (now - minute) v t found.pre found.post o o' (same ∙ q) (
              subst (λ (ts : List AuthToken). Memᴰ v ts)
                (keeps.kept-tokens (revoked now t acc found.pre found.post)) mem))
            m l)

  -- What a `Logout` that succeeds has saved.
  pub logout-saved :
      (r : Request) (auth : AuthToken) (acc : Account) (ws : List Write) (s s' : S)
      → logout st contains r auth acc s ≡ (ok ws, s')
      → st.save accounts (remove_auth_token auth acc).1.email (remove_auth_token auth acc).1 s
        ≡ (ok tt, s')
  unfolding logout
  logout-saved r auth acc ws s s' h =
      elim (next-ok _
        (st.save accounts (remove_auth_token auth acc).1.email (remove_auth_token auth acc).1 s) ws
        s' h) [ chain u s'' q l ↦ q ∙ ap (λ (x : S). (ok tt, x)) (pure-ok _ ws s'' s' l).1 ]

  -- After `Logout` has succeeded where it finds the token, and where no other token of the account has
  -- the found one's secret.
  pub logout-Refused :
      (decode : Text → Option Text) (config : ServerConfig) (now : Time) (r r' : Request)
      (acc : Account) (i : ℕ) (auth t given : AuthToken) (ws : List Write) (s s' : S)
      (found : Found auth acc.auth_tokens i t)
      → Others t.token found.pre
      → Others t.token found.post
      → find_auth_token auth acc ≡ some (i, t)
      → logout st contains r auth acc s ≡ (ok ws, s')
      → from_request decode r' ≡ ok given
      → given.email ≡ acc.email
      → given.token ≡ t.token
      → given.type ≢ codes "skeleton"
      → Refused (authenticate st decode config now r' s').0
  unfolding remove_auth_token
  logout-Refused decode config now r r' acc i auth t given ws s s' found o o' f h g e q k =
      let left : Account = record acc { auth_tokens = swap_remove i t acc.auth_tokens } in
      let saved =
        subst
          (λ (x : Option (ℕ × AuthToken)).
            st.save accounts (remove_at x acc).1.email (remove_at x acc).1 s ≡ (ok tt, s'))
          f (logout-saved r auth acc ws s s' h) in
      let loaded = keeps.load-save accounts acc.email left s s' saved in
      shut_out st decode config now r' given (keeps.kept accounts left) s' g
        (ap (λ (x : Text). st.load accounts x s') e ∙ loaded) k
        (λ v mem same. absurd (
          same_secret-Others v t
            (Others-Memᴰ t.token v (found.pre ++ found.post)
              (All-append (λ (u : AuthToken). text_eq u.token t.token ≡ false) found.pre found.post
                o o')
              (Memᴰ-Permᴰ (swap_remove-rest auth acc.auth_tokens i t found)
                (subst (λ (ts : List AuthToken). Memᴰ v ts) (keeps.kept-tokens left) mem)))
            (same ∙ q)))
