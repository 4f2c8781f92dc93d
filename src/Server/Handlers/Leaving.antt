-- ===== src/Server/Handlers/Leaving.antt =====
-- A request that is let in and logs out: its token lets nobody in any more, where it is written back.
use padlock_cloud.Prelude.{
  ◌≡◌, ◌≢◌, refl, sym, ap, ◌∙◌, ◌⊎◌, inl, inr, Bool, true, false, Bool-cases, Option, some, List,
  [], ◌∷◌, ◌++◌, All, length, Text, codes, text_eq, text_eq-neq, subst, arith, ℕ,
}
use mathlib.Core.List.{Memᴰ}
use padlock_cloud.Errors.{ok}
use padlock_cloud.Auth.{Time, Device, AuthToken, Account, is_empty}
use padlock_cloud.Auth.Devices.{device_from_request}
use padlock_cloud.Auth.Strings.{given_token}
use padlock_cloud.Auth.Accounts.{
  blank, find_from, set_elem, no_uuid, find_auth_token, update_auth_token, filter, used_lately,
  not_expired_long, remove_expired_auth_tokens, expire_unused_auth_tokens,
}
use padlock_cloud.Auth.Accounts.Laws.{find_from-first, fits_self}
use padlock_cloud.Auth.Accounts.Removing.{set_elem-append}
use padlock_cloud.Server.{Request, ServerConfig, accounts, Store, Keeps}
use padlock_cloud.Server.Authenticate.{from_request, touched, pruned, authenticate}
use padlock_cloud.Server.Authenticate.Identity.{IsKept}
use padlock_cloud.Server.Authenticate.Saving.{same_device, fits-touched, blank-touched}
use padlock_cloud.Server.Authenticate.Soundness.{IsAuthentic, authenticate-IsAuthentic}
use padlock_cloud.Server.Handlers.{logout, Write}
use padlock_cloud.Server.Handlers.Secrets.{Others-fits, Distinct, Others, Apart, Distinct-Others}
use padlock_cloud.Server.Handlers.Ending.{Refused, logout-Refused}

All-filter :
    (P : AuthToken → Type 0) (p : AuthToken → Bool) (ts : List AuthToken)
    → All P ts
    → All P (filter p ts)
unfolding filter
All-filter P p [] h = tt
All-filter P p (t ∷ ts) (h, hs) = elim (Bool-cases (p t)) [
  | inl e ↦ rw e (h, All-filter P p ts hs)
  | inr e ↦ rw e (All-filter P p ts hs)
]

Distinct-filter :
    (p : AuthToken → Bool) (ts : List AuthToken) → Distinct ts → Distinct (filter p ts)
unfolding filter
Distinct-filter p [] h = tt
Distinct-filter p (t ∷ ts) (h, hs) = elim (Bool-cases (p t)) [
  | inl e ↦ rw e (All-filter (Apart t) p ts h, Distinct-filter p ts hs)
  | inr e ↦ rw e (Distinct-filter p ts hs)
]

Distinct-pruned :
    (now : Time) (a : Account) → Distinct a.auth_tokens → Distinct (pruned now a).auth_tokens
unfolding pruned remove_expired_auth_tokens expire_unused_auth_tokens
Distinct-pruned now a h =
    Distinct-filter (λ t. not_expired_long now t) (filter (λ t. used_lately now t) a.auth_tokens)
      (Distinct-filter (λ t. used_lately now t) a.auth_tokens h)

pub All-pruned :
    (P : AuthToken → Type 0) (now : Time) (a : Account)
    → All P a.auth_tokens
    → All P (pruned now a).auth_tokens
unfolding pruned remove_expired_auth_tokens expire_unused_auth_tokens
All-pruned P now a h =
    All-filter P (λ t. not_expired_long now t) (filter (λ t. used_lately now t) a.auth_tokens)
      (All-filter P (λ t. used_lately now t) a.auth_tokens h)

-- A token of a list stands between two parts of it.
Memᴰ-parts :
    (t : AuthToken) (ts : List AuthToken)
    → Memᴰ t ts
    → (pre : List AuthToken) × (post : List AuthToken) × (ts ≡ pre ++ (t ∷ post))
Memᴰ-parts t [] m = elim m [ ]
Memᴰ-parts t (u ∷ us) (Memᴰ.head e) = ([], us, ap (λ (x : AuthToken). x ∷ us) (sym e))
Memᴰ-parts t (u ∷ us) (Memᴰ.tail m) =
    let (pre, post, e) = Memᴰ-parts t us m in (u ∷ pre, post, ap (λ (l : List AuthToken). u ∷ l) e)

pub All-Memᴰ :
    (P : AuthToken → Type 0) (t : AuthToken) (ts : List AuthToken) → Memᴰ t ts → All P ts → P t
All-Memᴰ P t [] m h = elim m [ ]
All-Memᴰ P t (u ∷ us) (Memᴰ.head e) (h, hs) = subst P (sym e) h
All-Memᴰ P t (u ∷ us) (Memᴰ.tail m) (h, hs) = All-Memᴰ P t us m hs

-- A token that is found by what a use makes of it is overwritten by that.
update_auth_token-touched :
    (now : Time) (r : Request) (a : Account) (found : AuthToken) (pre post : List AuthToken)
    → a.auth_tokens ≡ pre ++ (found ∷ post)
    → Others found.token pre
    → is_empty found.token ≡ false
    → ((e : Device) × (found.device ≡ some e)) ⊎ (no_uuid (device_from_request r.header) ≡ true)
    → update_auth_token (touched now r found) a
      ≡ record a { auth_tokens = pre ++ (touched now r found ∷ post) }
unfolding update_auth_token find_auth_token
update_auth_token-touched now r a found pre post w o n d =
    let t = touched now r found in
    let b = blank-touched now r found n in
    let first : find_from 0 t a.auth_tokens ≡ some (length pre, found) = rw w (
      find_from-first 0 t pre found post
        (Others-fits t pre (unfold touched in n) (unfold touched in o))
        (fits-touched now r found (same_device r.header found.device d))
      ∙ ap (λ (k : ℕ). some (k, found)) (omega arith)) in
    rw (b, first)
      (ap (λ (l : List AuthToken). record a { auth_tokens = l })
        (ap (λ (l : List AuthToken). set_elem (length pre) t l) w
          ∙ set_elem-append pre t found post))

-- `RemoveAuthToken` finds a token that stands in an account.
find_auth_token-itself :
    (a : Account) (t : AuthToken) (pre post : List AuthToken)
    → a.auth_tokens ≡ pre ++ (t ∷ post)
    → Others t.token pre
    → is_empty t.token ≡ false
    → find_auth_token t a ≡ some (length pre, t)
unfolding find_auth_token blank
find_auth_token-itself a t pre post w o n =
    rw (n, w)
      (find_from-first 0 t pre t post (Others-fits t pre n o) (fits_self t)
        ∙ ap (λ (k : ℕ). some (k, t)) (omega arith))

module _ {S : Type 0} (st : Store S) (keeps : Keeps st) (contains : Text → Text → Bool)
    (decode : Text → Option Text) (config : ServerConfig) where
  left_alone :
      (now now' : Time) (r r' : Request) (acc a : Account) (auth found given : AuthToken)
      (ws : List Write) (s' s'' : S) (pre post : List AuthToken)
      → auth ≡ touched now r found
      → acc ≡ update_auth_token auth a
      → a.auth_tokens ≡ pre ++ (found ∷ post)
      → Others found.token pre
      → Others found.token post
      → is_empty found.token ≡ false
      → ((e : Device) × (found.device ≡ some e)) ⊎ (no_uuid (device_from_request r.header) ≡ true)
      → logout st contains r auth acc s' ≡ (ok ws, s'')
      → from_request decode r' ≡ ok given
      → given.email ≡ acc.email
      → given.token ≡ found.token
      → given.type ≢ codes "skeleton"
      → Refused (authenticate st decode config now' r' s'').0
  unfolding touched
  left_alone now now' r r' acc a auth found given ws s' s'' pre post p q w o o' n d h g e k ty =
      let t = touched now r found in
      let same : auth.token ≡ found.token = ap (λ (x : AuthToken). x.token) p in
      let whole : acc.auth_tokens ≡ pre ++ (auth ∷ post) =
        ap (λ (x : Account). x.auth_tokens)
          (q
            ∙ ap (λ (x : AuthToken). update_auth_token x a) p
            ∙ update_auth_token-touched now r a found pre post w o n d)
        ∙ ap (λ (x : AuthToken). pre ++ (x ∷ post)) (sym p) in
      let o : Others auth.token pre = subst (λ (x : Text). Others x pre) (sym same) o in
      let o' : Others auth.token post = subst (λ (x : Text). Others x post) (sym same) o' in
      let n : is_empty auth.token ≡ false = rw same n in
      logout-Refused st keeps contains decode config now' r r' acc (length pre) auth auth given ws
        s' s''
        (record {
          pre = pre;
          post = post;
          whole = whole;
          place = refl;
          that_fits = fits_self auth;
          none_before = Others-fits auth pre n o;
        })
        o o' (find_auth_token-itself acc auth pre post whole o n) h g e (k ∙ sym same) ty

  -- After a request with a web or api token, with a secret that is not empty, has been let in and its
  -- `Logout` has succeeded, no request with the token's secret and the account's email is let in at any
  -- time from the storage as that has left it, but with a skeleton key. This is so where the tokens of the account have secrets that differ from each other, and where the tokens
  -- with this secret are stored with a device or the request that logs out names no device with a UUID.
  pub authenticate-logout :
      (now now' : Time) (r r' : Request) (email token : Text) (stored acc : Account)
      (auth given : AuthToken) (ws : List Write) (s s' s'' : S)
      → Distinct stored.auth_tokens
      → All
          (λ u. (text_eq u.token token ≡ false) ⊎ ((e : Device) × (u.device ≡ some e)))
          stored.auth_tokens
        ⊎ (no_uuid (device_from_request r.header) ≡ true)
      → is_empty token ≡ false
      → st.load accounts email s ≡ ok stored
      → from_request decode r ≡ ok (given_token email token [])
      → authenticate st decode config now r s ≡ (ok (auth, acc), s')
      → logout st contains r auth acc s' ≡ (ok ws, s'')
      → from_request decode r' ≡ ok given
      → given.email ≡ acc.email
      → given.token ≡ token
      → given.type ≢ codes "skeleton"
      → Refused (authenticate st decode config now' r' s'').0
  unfolding text_eq
  authenticate-logout now now' r r' email token stored acc auth given ws s s' s'' d dev n l f a h g
        e k ty =
      shown (authenticate-IsAuthentic st decode config now r s auth acc s' a)
    where
      with_device :
          (found : AuthToken)
          → Memᴰ found stored.auth_tokens
          → found.token ≡ token
          → ((e : Device) × (found.device ≡ some e))
            ⊎ (no_uuid (device_from_request r.header) ≡ true)
      with_device found m q = elim dev [
        | inr u ↦ inr u
        | inl all ↦
            elim (All-Memᴰ
              (λ u. (text_eq u.token token ≡ false) ⊎ ((e : Device) × (u.device ≡ some e))) found
              stored.auth_tokens m all) [
                | inl c ↦ absurd (text_eq-neq found.token token c q)
                | inr c ↦ inl c
              ]
      ]

      shown :
          IsAuthentic st decode config now r s auth acc s'
          → Refused (authenticate st decode config now' r' s'').0
      shown w =
          let p : given_token email token [] ≡ w.given = cc (w.from, f) in
          let q : stored ≡ w.stored = cc (w.loaded, l, ap (λ (x : AuthToken). x.email) p) in
          elim w.who [
            | inr skeleton ↦ absurd (
                text_eq-neq [] (codes "skeleton") refl
                  (ap (λ (x : AuthToken). x.type) p ∙ skeleton.type))
            | inl kept ↦
                let kept = subst (λ (x : Account). IsKept now w.given w.found x) (sym q) kept in
                let c : w.found.token ≡ token =
                  kept.secret ∙ ap (λ (x : AuthToken). x.token) (sym p) in
                let (pre, post, v) = Memᴰ-parts w.found (pruned now stored).auth_tokens kept.left in
                let (o, o') =
                  Distinct-Others pre w.found post (
                    subst (λ (ts : List AuthToken). Distinct ts) v
                      (Distinct-pruned now stored d)) in
                left_alone now now' r r' acc (pruned now stored) auth w.found given ws s' s'' pre
                  post w.token
                  (w.account ∙ ap (λ (x : Account). update_auth_token auth (pruned now x)) (sym q))
                  v o o' (rw c n) (with_device w.found kept.kept c) h g e (k ∙ sym c) ty
          ]
