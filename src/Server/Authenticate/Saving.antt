-- ===== src/Server/Authenticate/Saving.antt =====
-- What `Server.Authenticate` writes back of a token it has found.
use padlock_cloud.Prelude.{
  ℕ, ◌≡◌, refl, sym, ap, ◌∙◌, ◌⊎◌, inl, inr, Bool, true, false, ◌&&◌, ◌||◌, Bool-cases, Option,
  none, some, List, [], ◌∷◌, ◌++◌, All, length, Text, text_eq, text_eq_path, text_eq_refl, arith,
}
use padlock_cloud.Auth.{Time, Device, AuthToken, Account, is_empty}
use padlock_cloud.Auth.Devices.{device_from_request, update_from_request}
use padlock_cloud.Auth.Strings.{given_token}
use padlock_cloud.Auth.Accounts.{
  fits, blank, no_uuid, same_uuid, find_from, find_auth_token, set_elem, update_auth_token,
}
use padlock_cloud.Auth.Accounts.Laws.{
  find_auth_token-Found, find_from-first, fits-secret, find_from-none,
}
use padlock_cloud.Auth.Accounts.Removing.{set_elem-append}
use padlock_cloud.Server.{Request}
use padlock_cloud.Server.Authenticate.{validate, same_secret, touched, touched_device}

-- What `Validate` has found.
validate-found :
    (g : AuthToken) (a : Account) (found : AuthToken)
    → validate g a ≡ some found
    → (i : ℕ) × (find_auth_token g a ≡ some (i, found)) × (found.token ≡ g.token)
unfolding validate
validate-found g a found h = by_search (find_auth_token g a) h refl
  where
    by_search :
        (o : Option (ℕ × AuthToken))
        → same_secret g o ≡ some found
        → find_auth_token g a ≡ o
        → (i : ℕ) × (find_auth_token g a ≡ some (i, found)) × (found.token ≡ g.token)
    by_search none h e = absurd (cc (h))
    by_search (some (i, t)) h e = elim (Bool-cases (text_eq t.token g.token)) [
      | inl q ↦
          let p : some t ≡ some found = sym (rw q refl) ∙ h in
          let p : t ≡ found = cc (p) in
          (
            i,
            e ∙ ap (λ (x : AuthToken). some (i, x)) p,
            ap (λ (x : AuthToken). x.token) (sym p) ∙ text_eq_path t.token g.token q,
          )
      | inr q ↦ absurd (cc (h, q))
    ]

fits_given :
    (email token : Text) (x : AuthToken)
    → fits (given_token email token []) x ≡ false
    → text_eq x.token token ≡ false
unfolding fits
fits_given email token x h = ground (arith, h)

-- Whether the device that a use leaves has the UUID of the one before, or none.
abbrev pub SameUuid : (Text → Text) → Option Device → Type 0
SameUuid header d =
    (no_uuid (touched_device header d) || same_uuid d (touched_device header d)) ≡ true

or_true : (b : Bool) → (b || true) ≡ true
or_true true = refl
or_true false = refl

pub same_device :
    (header : Text → Text) (d : Option Device)
    → ((e : Device) × (d ≡ some e)) ⊎ (no_uuid (device_from_request header) ≡ true)
    → SameUuid header d
unfolding update_from_request
same_device header none (inl (e, p)) = absurd (cc (p))
same_device header none (inr h) = rw h refl
same_device header (some d) h = rw (text_eq_refl d.uuid) (or_true (is_empty d.uuid))

pub fits-touched :
    (now : Time) (r : Request) (found : AuthToken)
    → SameUuid r.header found.device
    → fits (touched now r found) found ≡ true
unfolding fits touched
fits-touched now r found h =
    rw
      (
        text_eq_refl found.type,
        text_eq_refl found.token,
        text_eq_refl found.id,
        or_true (is_empty found.type),
        or_true (is_empty found.token),
        or_true (is_empty found.id),
      )
      h

-- A token with a secret is no blank one.
pub blank-touched :
    (now : Time) (r : Request) (found : AuthToken)
    → is_empty found.token ≡ false
    → blank (touched now r found) ≡ false
unfolding blank touched
blank-touched now r found h = rw h refl

misses :
    (now : Time) (r : Request) (email token : Text) (found : AuthToken) (pre : List AuthToken)
    → is_empty token ≡ false
    → found.token ≡ token
    → All (λ u. fits (given_token email token []) u ≡ false) pre
    → All (λ u. fits (touched now r found) u ≡ false) pre
unfolding touched
misses now r email token found [] n e h = tt
misses now r email token found (u ∷ us) n e (h, hs) = (
  fits-secret (touched now r found) u (rw e n) (rw e (fits_given email token u h)),
  misses now r email token found us n e hs,
)

-- A web or api token that `Validate` has found in an account is written back in its place, with the
-- time of this use and the device's data from the request, and no other token of the account is
-- changed, where the token is stored with a device or the request names no device with a UUID.
pub update_auth_token-validate :
    (now : Time) (r : Request) (email token : Text) (a : Account) (found : AuthToken)
    → is_empty token ≡ false
    → validate (given_token email token []) a ≡ some found
    → ((e : Device) × (found.device ≡ some e)) ⊎ (no_uuid (device_from_request r.header) ≡ true)
    → (pre : List AuthToken) × (post : List AuthToken) × (a.auth_tokens ≡ pre ++ (found ∷ post))
      × (update_auth_token (touched now r found) a
          ≡ record a { auth_tokens = pre ++ (touched now r found ∷ post) })
unfolding update_auth_token find_auth_token
update_auth_token-validate now r email token a found n h d =
    let (i, e, p) = validate-found (given_token email token []) a found h in
    let f = find_auth_token-Found (given_token email token []) a i found e in
    let t = touched now r found in
    let b = blank-touched now r found (rw p n) in
    let first : find_from 0 t a.auth_tokens ≡ some (length f.pre, found) = rw f.whole (
      find_from-first 0 t f.pre found f.post
        (misses now r email token found f.pre n p f.none_before)
        (fits-touched now r found (same_device r.header found.device d))
      ∙ ap (λ (k : ℕ). some (k, found)) (omega arith)) in
    (
      f.pre,
      f.post,
      f.whole,
      rw (b, first)
          (ap (λ (l : List AuthToken). record a { auth_tokens = l })
            (ap (λ (l : List AuthToken). set_elem (length f.pre) t l) f.whole
              ∙ set_elem-append f.pre t found f.post)),
    )

and_false : (b : Bool) → (b && false) ≡ false
and_false true = refl
and_false false = refl

-- A UUID rules out a token that is stored with no device.
fits-uuid :
    (at u : AuthToken) (d : Device)
    → at.device ≡ some d
    → is_empty d.uuid ≡ false
    → u.device ≡ none
    → fits at u ≡ false
unfolding fits
fits-uuid at u d q k h =
    rw
      (
        q,
        h,
        k,
        and_false (is_empty at.id || text_eq u.id at.id),
        and_false (is_empty at.token || text_eq u.token at.token),
        and_false (is_empty at.type || text_eq u.type at.type),
      )
      refl

-- No token with a device's secret and UUID.
pub All-miss :
    (now : Time) (r : Request) (token : Text) (found : AuthToken) (d : Device) (ts : List AuthToken)
    → is_empty token ≡ false
    → found.token ≡ token
    → touched_device r.header found.device ≡ some d
    → is_empty d.uuid ≡ false
    → All (λ u. (text_eq u.token token ≡ false) ⊎ (u.device ≡ none)) ts
    → All (λ u. fits (touched now r found) u ≡ false) ts
unfolding touched
All-miss now r token found d [] n e q k h = tt
All-miss now r token found d (u ∷ us) n e q k (inl h, hs) = (
  fits-secret (touched now r found) u (rw e n) (rw e h),
  All-miss now r token found d us n e q k hs,
)
All-miss now r token found d (u ∷ us) n e q k (inr h, hs) =
    (fits-uuid (touched now r found) u d q k h, All-miss now r token found d us n e q k hs)

-- A web or api token that is stored without a device is not written back where the request names a
-- device with a UUID and every token of the account with the same secret is stored without one: the
-- account stays as it is, the time of the token's last use included.
pub update_auth_token-forgets :
    (now : Time) (r : Request) (email token : Text) (a : Account) (found : AuthToken) (d : Device)
    → is_empty token ≡ false
    → validate (given_token email token []) a ≡ some found
    → found.device ≡ none
    → device_from_request r.header ≡ some d
    → is_empty d.uuid ≡ false
    → All (λ u. (text_eq u.token token ≡ false) ⊎ (u.device ≡ none)) a.auth_tokens
    → update_auth_token (touched now r found) a ≡ a
unfolding update_auth_token find_auth_token
update_auth_token-forgets now r email token a found d n h e q k all =
    let (i, e', p) = validate-found (given_token email token []) a found h in
    let b = blank-touched now r found (rw p n) in
    let m =
      All-miss now r token found d a.auth_tokens n p (ap (λ x. touched_device r.header x) e ∙ q) k
        all in
    rw (b, find_from-none 0 (touched now r found) a.auth_tokens m) refl
