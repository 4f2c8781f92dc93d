-- ===== src/Server/Tests/LoggedOut.antt =====
-- A request that logs out, at concrete accounts.
use padlock_cloud.Prelude.{
  ◌≡◌, refl, Bool, false, inl, inr, if◌then◌else◌, none, some, [], ◌∷◌, Text, codes, text_eq,
  text_eq-neq,
}
use padlock_cloud.Dict.{lookup, insert, code_eq}
use padlock_cloud.Auth.{AuthToken, Account, hour}
use padlock_cloud.Auth.Devices.{device_from_request, update_from_request, first_set, updated}
use padlock_cloud.Auth.Tokens.{expired}
use padlock_cloud.Auth.Strings.{
  given_token, from_string, match_auth_string, strip, two_groups, split_last, one_line,
}
use padlock_cloud.Auth.Accounts.{
  fits, blank, find_from, find_auth_token, update_auth_token, set_elem, filter, used_lately,
  not_expired_long, kept_after, expire_unused_auth_tokens, remove_expired_auth_tokens, swap_remove,
  last, drop_last, remove_auth_token,
}
use padlock_cloud.Server.{Request, accounts}
use mathlib.Core.List.{Memᴰ}
use padlock_cloud.Errors.{ok}
use padlock_cloud.Server.Authenticate.{
  from_request, validate, identify, touched, pruned, authenticate,
}
use padlock_cloud.Server.Handlers.{delete_cookie, logout}
use padlock_cloud.Server.Handlers.Ending.{Refused}
use padlock_cloud.Server.Handlers.Staying.{logout-stays}
use padlock_cloud.Server.Handlers.Leaving.{authenticate-logout}
use padlock_cloud.Server.Tests.Tables.{
  Tables as State, tables, tables-Keeps, load_table, save_table,
}
use padlock_cloud.Server.Tests.{
  phone, stored, alice, bob, start, with_x, config, decode, request, header_uuid,
}

abbrev used_x : AuthToken
used_x = record (stored (codes "x") (some phone)) { last_used = 10 }

abbrev let_in : Account
let_in = record alice { auth_tokens = used_x ∷ stored (codes "y") none ∷ [] }

abbrev after_use : State
after_use = record start { of_accounts = (codes "a", let_in) ∷ (codes "b", bob) ∷ [] }

abbrev logged_out : State
logged_out = record start {
  of_accounts =
      (codes "a", record alice { auth_tokens = stored (codes "y") none ∷ [] })
      ∷ (codes "b", bob)
      ∷ [];
}

abbrev not_html : Text → Text → Bool
not_html s t = false

authenticate-logout_example : Refused (authenticate tables decode config 20 with_x logged_out).0
unfolding logout authenticate from_request from_string match_auth_string strip two_groups split_last
    one_line text_eq load_table save_table lookup insert pruned remove_expired_auth_tokens
    expire_unused_auth_tokens filter used_lately not_expired_long kept_after hour identify validate
    find_auth_token blank find_from fits expired touched device_from_request update_from_request
    updated first_set update_auth_token set_elem remove_auth_token swap_remove last drop_last
authenticate-logout_example =
    authenticate-logout tables tables-Keeps not_html decode config 10 20 with_x with_x (codes "a")
      (codes "x") alice let_in used_x (given_token (codes "a") (codes "x") []) (delete_cookie ∷ [])
      start after_use logged_out (((refl, refl), tt), (tt, tt)) (inr refl) refl refl refl refl refl
      refl refl refl (text_eq-neq [] (codes "skeleton") refl)

-- The other token, which is stored without a device, with a device in the request.
abbrev header_y : Text → Text
header_y n = if text_eq n (codes "Authorization") then codes "AuthToken a:y" else header_uuid n

abbrev with_y : Request
with_y = request header_y (λ n. [])

logout-stays_example :
    (left : Account) × (found : AuthToken) × (load_table accounts (codes "a") start ≡ ok left)
    × (left.auth_tokens ≡ (pruned 10 alice).auth_tokens)
    × Memᴰ found left.auth_tokens
    × (found.token ≡ codes "y")
unfolding logout authenticate from_request from_string match_auth_string strip two_groups split_last
    one_line text_eq load_table save_table lookup insert pruned remove_expired_auth_tokens
    expire_unused_auth_tokens filter used_lately not_expired_long kept_after hour identify validate
    find_auth_token blank find_from fits expired touched device_from_request update_from_request
    updated first_set update_auth_token set_elem remove_auth_token swap_remove last drop_last
logout-stays_example =
    logout-stays tables tables-Keeps not_html decode config 10 with_y (codes "a") (codes "y") alice
      alice (record (stored (codes "y") none) { last_used = 10; device = some phone }) phone
      (delete_cookie ∷ []) start start start (inl refl, (inr refl, tt)) refl refl refl refl refl
      refl refl
