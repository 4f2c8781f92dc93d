-- ===== src/Auth/Accounts.antt =====
-- The tokens of an account: how one is found, replaced, removed, and dropped when it is old.
pub mod Laws
pub mod Removing
pub mod Revoking
use padlock_cloud.Prelude.{
  ℕ, zero, suc, ◌+◌, ◌*◌, Bool, true, false, not, ◌&&◌, ◌||◌, Option, none, some, List, [], ◌∷◌,
  ◌++◌, Text, codes, text_eq, ltb, ◌==◌, if◌then◌else◌,
}
use padlock_cloud.Auth.{Time, Device, AuthToken, Account, is_empty, hour}
use padlock_cloud.Auth.Tokens.{expired}

-- `AddAuthToken`
unfoldable pub add_auth_token : AuthToken → Account → Account
add_auth_token token a = record a { auth_tokens = a.auth_tokens ++ (token ∷ []) }

-- `at.Device == nil || at.Device.UUID == ""`
abbrev pub no_uuid : Option Device → Bool
no_uuid none = true
no_uuid (some d) = is_empty d.uuid

-- `t.Device != nil && t.Device.UUID == at.Device.UUID`
abbrev pub same_uuid : Option Device → Option Device → Bool
same_uuid (some d) (some e) = text_eq d.uuid e.uuid
same_uuid _ _ = false

-- The test of `findAuthToken` on one token of the account.
unfoldable pub fits : AuthToken → AuthToken → Bool
fits at t =
    (is_empty at.type || text_eq t.type at.type)
    && ((is_empty at.token || text_eq t.token at.token)
        && ((is_empty at.id || text_eq t.id at.id)
            && (no_uuid at.device || same_uuid t.device at.device)))

-- A token that names nothing to look for.
unfoldable pub blank : AuthToken → Bool
blank at = is_empty at.token && (is_empty at.id && no_uuid at.device)

-- The loop of `findAuthToken`, with the index of the first token.
unfoldable pub find_from : ℕ → AuthToken → List AuthToken → Option (ℕ × AuthToken)
unfolding fits
find_from i at [] = none
find_from i at (t ∷ ts) =
    let rest = find_from (suc i) at ts in if fits at t then some (i, t) else rest

-- `findAuthToken`; `none` is `-1, nil`.
unfoldable pub find_auth_token : AuthToken → Account → Option (ℕ × AuthToken)
unfolding blank find_from
find_auth_token at a = if blank at then none else find_from 0 at a.auth_tokens

-- `s[i] = x`
unfoldable pub set_elem : ℕ → AuthToken → List AuthToken → List AuthToken
set_elem i x [] = []
set_elem zero x (y ∷ ys) = x ∷ ys
set_elem (suc i) x (y ∷ ys) = y ∷ set_elem i x ys

abbrev pub update_at : Option (ℕ × AuthToken) → AuthToken → Account → Account
update_at none t a = a
update_at (some (i, _)) t a = record a { auth_tokens = set_elem i t a.auth_tokens }

-- `UpdateAuthToken`: the token found is overwritten in its place.
unfoldable pub update_auth_token : AuthToken → Account → Account
unfolding find_auth_token set_elem
update_auth_token t a = update_at (find_auth_token t a) t a

-- `s[len(s)-1]` where there is one.
unfoldable pub last : AuthToken → List AuthToken → AuthToken
last x [] = x
last x (y ∷ ys) = last y ys

-- `s[:len(s)-1]`
unfoldable pub drop_last : List AuthToken → List AuthToken
drop_last [] = []
drop_last (x ∷ []) = []
drop_last (x ∷ y ∷ ys) = x ∷ drop_last (y ∷ ys)

-- The last token takes the place of the one at the index, and the slice loses its end.
unfoldable pub swap_remove : ℕ → AuthToken → List AuthToken → List AuthToken
unfolding set_elem last drop_last
swap_remove i t s = drop_last (set_elem i (last t s) s)

abbrev pub remove_at : Option (ℕ × AuthToken) → Account → Bool × Account
remove_at none a = (false, a)
remove_at (some (i, t)) a = (true, record a { auth_tokens = swap_remove i t a.auth_tokens })

-- `RemoveAuthToken`
unfoldable pub remove_auth_token : AuthToken → Account → Bool × Account
unfolding find_auth_token swap_remove
remove_auth_token t a = remove_at (find_auth_token t a) a

-- `for acc.RemoveAuthToken(t) { }`, on fuel.
unfoldable pub remove_all : ℕ → AuthToken → Account → Account
unfolding remove_auth_token
remove_all zero t a = a
remove_all (suc fuel) t a =
    let (found, a') = remove_auth_token t a in
    let rest = remove_all fuel t a' in if found then rest else a'

unfoldable pub filter : (AuthToken → Bool) → List AuthToken → List AuthToken
filter p [] = []
filter p (t ∷ ts) = let rest = filter p ts in if p t then t ∷ rest else rest

-- How long an expired token is kept. `t.After(now.Add(-d))` is `now < t + d`.
unfoldable pub kept_after : AuthToken → ℕ
unfolding hour
kept_after t = if text_eq t.type (codes "api") then 7 * 24 * hour else 0

-- The test of `RemoveExpiredAuthTokens`
unfoldable pub not_expired_long : Time → AuthToken → Bool
unfolding kept_after
not_expired_long now t = (t.expires == 0) || ltb now (t.expires + kept_after t)

unfoldable pub remove_expired_auth_tokens : Time → Account → Account
unfolding filter not_expired_long
remove_expired_auth_tokens now a = record a {
  auth_tokens = filter (λ t. not_expired_long now t) a.auth_tokens;
}

-- The test of `ExpireUnusedAuthTokens`
unfoldable pub used_lately : Time → AuthToken → Bool
unfolding hour
used_lately now t = ltb now (t.last_used + 30 * 24 * hour)

unfoldable pub expire_unused_auth_tokens : Time → Account → Account
unfolding filter used_lately
expire_unused_auth_tokens now a = record a {
  auth_tokens = filter (λ t. used_lately now t) a.auth_tokens;
}

unfoldable pub auth_tokens_by_type : Text → Account → List AuthToken
unfolding filter
auth_tokens_by_type typ a = filter (λ t. text_eq t.type typ) a.auth_tokens

unfoldable pub devices : Time → Account → List AuthToken
unfolding filter auth_tokens_by_type expired
devices now a = filter (λ t. not (expired now t)) (auth_tokens_by_type (codes "api") a)
