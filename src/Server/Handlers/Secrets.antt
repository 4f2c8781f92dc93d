-- ===== src/Server/Handlers/Secrets.antt =====
-- Tokens known by their secrets: finding, expiring and losing one of an account's.
use padlock_cloud.Prelude.{
  ℕ, ◌-◌, ◌<◌, ◌≤◌, ◌≡◌, refl, sym, ap, ap₂, ◌∙◌, true, false, List, [], ◌∷◌, ◌++◌, All, Text,
  text_eq, text_eq_refl, lt→ltb, arith,
}
use mathlib.Core.List.{Memᴰ}
use padlock_cloud.Auth.{Time, AuthToken, Account, is_empty}
use padlock_cloud.Auth.Tokens.{expired}
use padlock_cloud.Auth.Accounts.{fits, blank, find_auth_token, set_elem, update_auth_token}
use padlock_cloud.Auth.Accounts.Laws.{Found, find_from-first, fits_self, fits-secret}
use padlock_cloud.Auth.Accounts.Removing.{set_elem-append}
use padlock_cloud.Server.Handlers.{expire_token, minute}

-- No two tokens of an account have the same secret.
abbrev pub Distinct : List AuthToken → Type 0
Distinct [] = Unit
Distinct (t ∷ ts) =
    All (λ u. (text_eq u.token t.token ≡ false) × (text_eq t.token u.token ≡ false)) ts
    × Distinct ts

-- The other tokens have other secrets.
abbrev pub Others : Text → List AuthToken → Type 0
Others secret ts = All (λ u. text_eq u.token secret ≡ false) ts

abbrev pub Apart : AuthToken → AuthToken → Type 0
Apart t u = (text_eq u.token t.token ≡ false) × (text_eq t.token u.token ≡ false)

Apart-Others : (t : AuthToken) (ts : List AuthToken) → All (λ u. Apart t u) ts → Others t.token ts
Apart-Others t [] h = tt
Apart-Others t (u ∷ us) ((h, _), hs) = (h, Apart-Others t us hs)

-- A property of all the tokens holds of the one in the middle.
All-middle :
    (P : AuthToken → Type 0) (pre : List AuthToken) (t : AuthToken) (post : List AuthToken)
    → All P (pre ++ (t ∷ post))
    → P t
All-middle P [] t post (h, hs) = h
All-middle P (u ∷ us) t post (h, hs) = All-middle P us t post hs

pub Distinct-Others :
    (pre : List AuthToken) (t : AuthToken) (post : List AuthToken)
    → Distinct (pre ++ (t ∷ post))
    → Others t.token pre × Others t.token post
Distinct-Others [] t post (h, hs) = (tt, Apart-Others t post h)
Distinct-Others (u ∷ us) t post (h, hs) =
    let (p, q) = Distinct-Others us t post hs in
    ((((All-middle (λ v. Apart u v) us t post h).1), p), q)

pub Others-fits :
    (t : AuthToken) (ts : List AuthToken)
    → is_empty t.token ≡ false
    → Others t.token ts
    → All (λ u. fits t u ≡ false) ts
Others-fits t [] n h = tt
Others-fits t (u ∷ us) n (h, hs) = (fits-secret t u n h, Others-fits t us n hs)

-- A token of an account with the time it expires at.
abbrev pub expiring : ℕ → AuthToken → AuthToken
expiring time t = record t { expires = time }

blank-secret : (t : AuthToken) → is_empty t.token ≡ false → blank t ≡ false
unfolding blank
blank-secret t n = rw n refl

update_self :
    (acc : Account) (pre : List AuthToken) (t : AuthToken) (post : List AuthToken)
    → is_empty t.token ≡ false
    → Others t.token pre
    → update_auth_token t (record acc { auth_tokens = pre ++ (t ∷ post) })
      ≡ record acc { auth_tokens = pre ++ (t ∷ post) }
unfolding update_auth_token find_auth_token
update_self acc pre t post n h =
    rw (blank-secret t n, find_from-first 0 t pre t post (Others-fits t pre n h) (fits_self t))
      (ap (λ (l : List AuthToken). record acc { auth_tokens = l })
        (ap (λ (k : ℕ). set_elem k t (pre ++ (t ∷ post))) (omega arith)
          ∙ set_elem-append pre t t post))

pub expire_token-Found :
    (now : Time) (at : AuthToken) (acc : Account) (i : ℕ) (t : AuthToken)
    (f : Found at acc.auth_tokens i t)
    → is_empty t.token ≡ false
    → Others t.token f.pre
    → expire_token now (i, t) acc
      ≡ record acc { auth_tokens = f.pre ++ (expiring (now - minute) t ∷ f.post) }
unfolding expire_token
expire_token-Found now at acc i t f n h =
    ap
      (λ (l : List AuthToken).
        update_auth_token (expiring (now - minute) t) (record acc { auth_tokens = l }))
      (ap₂ (λ (k : ℕ) (l : List AuthToken). set_elem k (expiring (now - minute) t) l) f.place
          f.whole
        ∙ set_elem-append f.pre (expiring (now - minute) t) t f.post)
    ∙ update_self acc f.pre (expiring (now - minute) t) f.post n h

pub same_secret-Others : (u t : AuthToken) → text_eq u.token t.token ≡ false → u.token ≡ t.token → ⊥
same_secret-Others u t h e = cc (h, ap (λ (x : Text). text_eq x t.token) e, text_eq_refl t.token)

pub Others-Memᴰ :
    (secret : Text) (v : AuthToken) (ts : List AuthToken)
    → Others secret ts
    → Memᴰ v ts
    → text_eq v.token secret ≡ false
Others-Memᴰ secret v [] h m = elim m [ ]
Others-Memᴰ secret v (u ∷ us) (h, hs) (Memᴰ.head e) = rw e h
Others-Memᴰ secret v (u ∷ us) (h, hs) (Memᴰ.tail m) = Others-Memᴰ secret v us hs m

-- A token of the list with the secret expires when it was told to.
pub Memᴰ-expires :
    (time : ℕ) (v t : AuthToken) (pre post : List AuthToken)
    → Others t.token pre
    → Others t.token post
    → v.token ≡ t.token
    → Memᴰ v (pre ++ (expiring time t ∷ post))
    → v.expires ≡ time
Memᴰ-expires time v t [] post h g e (Memᴰ.head p) = ap (λ (x : AuthToken). x.expires) p
Memᴰ-expires time v t [] post h g e (Memᴰ.tail m) =
    absurd (same_secret-Others v t (Others-Memᴰ t.token v post g m) e)
Memᴰ-expires time v t (u ∷ us) post (h, hs) g e (Memᴰ.head p) =
    absurd (same_secret-Others u t h (sym (ap (λ (x : AuthToken). x.token) p) ∙ e))
Memᴰ-expires time v t (u ∷ us) post (h, hs) g e (Memᴰ.tail m) =
    Memᴰ-expires time v t us post hs g e m

-- A token that expired before now does not let anyone in.
pub expired_earlier :
    (now now' : Time) (v : AuthToken)
    → v.expires ≡ now - minute
    → minute < now
    → now ≤ now'
    → expired now' v ≡ true
unfolding expired
expired_earlier now now' v e h l =
    rw e (ground (arith, lt→ltb (now - minute) now' (omega arith), h))
