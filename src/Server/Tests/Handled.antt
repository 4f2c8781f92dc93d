-- ===== src/Server/Tests/Handled.antt =====
-- The handlers at concrete requests and accounts.
use padlock_cloud.Prelude.{
  ◌≡◌, ◌≢◌, refl, sym, ap, Bool, true, false, none, some, List, [], ◌∷◌, ◌++◌, Text, codes, text_eq,
  text_eq_iff, if◌then◌else◌, arith,
}
use mathlib.Core.List.{Permᴰ}
use padlock_cloud.Dict.{lookup, insert, erase, code_eq}
use padlock_cloud.Errors.{
  ok, err, failure, response, err_not_found, invalid_auth_token, bad_request,
}
use padlock_cloud.Auth.{AuthToken, Account, AuthRequest}
use padlock_cloud.Auth.Strings.{
  given_token, from_string, match_auth_string, strip, two_groups, split_last, one_line,
}
use padlock_cloud.Auth.Requests.{request_key}
use padlock_cloud.Auth.Accounts.{
  fits, blank, find_from, find_auth_token, update_auth_token, set_elem, swap_remove, last,
  drop_last, remove_auth_token, remove_all, add_auth_token,
}
use padlock_cloud.Server.{Request, accounts, requests}
use padlock_cloud.Server.Authenticate.{from_request, authenticate}
use padlock_cloud.Server.Handlers.{
  get_auth_request, body, status, activate, revoke_device, read_store, write_store, delete_account,
  revoke, to_revoke, expire_token,
}
use padlock_cloud.Server.Handlers.Success.Once.{get_auth_request-activate}
use padlock_cloud.Server.Handlers.Data.{read_store-write_store, authenticate-delete_account}
use padlock_cloud.Server.Handlers.Activation.{staying, activate-staying}
use padlock_cloud.Server.Handlers.Ending.{Refused, authenticate-revoke}
use padlock_cloud.Server.Tests.Tables.{
  Tables as State, tables, tables-Keeps, load_table, save_table, erase_table,
}
use padlock_cloud.Server.Tests.{
  phone, stored, alice, bob, start, request, header_x, with_x, config, decode,
}

abbrev written : State
written = record start { of_data = (codes "a", codes "data") ∷ [] }

a-ne-b : codes "a" ≢ codes "b"
unfolding text_eq
a-ne-b e =
    let p : text_eq (codes "a") (codes "b") ≡ true = (text_eq_iff (codes "a") (codes "b")).1 e in
    cc (p)

read_store-write_store_example :
    (read_store tables alice written ≡ (ok (body (codes "data") ∷ []), written))
    × ((read_store tables bob written).0 ≡ (read_store tables bob start).0)
unfolding write_store save_table insert
read_store-write_store_example =
    read_store-write_store tables tables-Keeps with_x alice bob (codes "data") (status 204 ∷ [])
      start written refl refl a-ne-b

abbrev without_alice : State
without_alice = record start { of_accounts = (codes "b", bob) ∷ [] }

authenticate-delete_account_example :
    (authenticate tables decode config 10 with_x without_alice
      ≡ (err (response (invalid_auth_token (codes "a") (codes "x"))), without_alice))
    × (read_store tables alice without_alice ≡ (ok (body [] ∷ []), without_alice))
unfolding delete_account erase_table erase text_eq from_request from_string match_auth_string strip
    two_groups split_last one_line
authenticate-delete_account_example =
    authenticate-delete_account tables tables-Keeps decode config 10 with_x
      (given_token (codes "a") (codes "x") []) alice start without_alice refl refl refl

abbrev asked : AuthRequest
asked = record {
  code = [];
  token = codes "t";
  auth_token = stored (codes "z") (some phone);
  created = 5;
  redirect = [];
}

abbrev activated : State
activated = record start {
  of_accounts =
      (
        codes "a",
        record alice {
          auth_tokens = stored (codes "y") none ∷ stored (codes "z") (some phone) ∷ [];
        },
      )
      ∷ (codes "b", bob)
      ∷ [];
}

activate-staying_example :
    (a : Account) × (ts : List AuthToken) × (load_table accounts (codes "a") activated ≡ ok a)
    × (a.auth_tokens ≡ ts ++ (stored (codes "z") (some phone) ∷ []))
    × Permᴰ ts (staying (stored (codes "z") (some phone)) alice.auth_tokens)
    × (load_table requests (request_key asked) activated ≡ err (failure err_not_found))
unfolding activate save_table erase_table load_table lookup insert erase text_eq revoke_device
    remove_all remove_auth_token find_auth_token blank find_from fits swap_remove set_elem last
    drop_last add_auth_token request_key
activate-staying_example =
    activate-staying tables tables-Keeps asked
      (record start { of_requests = (codes "t", asked) ∷ [] }) activated
      (λ a e.
        let p : ok alice ≡ ok a = e in
        let q : alice ≡ a = cc (p) in ap (λ (x : Account). x.email) (sym q))
      refl

abbrev form_y : Text → Text
form_y n = if text_eq n (codes "token") then codes "y" else []

abbrev header_y : Text → Text
header_y n = if text_eq n (codes "Authorization") then codes "AuthToken a:y" else []

abbrev revoked_y : AuthToken
revoked_y = record (stored (codes "y") none) { expires = 40000000000 }

abbrev without_y : State
without_y = record start {
  of_accounts =
      (codes "a", record alice { auth_tokens = stored (codes "x") (some phone) ∷ revoked_y ∷ [] })
      ∷ (codes "b", bob)
      ∷ [];
}

abbrev not_html : Text → Text → Bool
not_html s t = false

authenticate-revoke_example :
    Refused
      (authenticate tables decode config 200000000000 (request header_y (λ n. [])) without_y).0
unfolding revoke to_revoke find_auth_token blank find_from fits text_eq expire_token set_elem
    update_auth_token save_table insert from_request from_string match_auth_string strip two_groups
    split_last one_line
authenticate-revoke_example =
    authenticate-revoke tables tables-Keeps not_html decode config 100000000000 200000000000
      (request header_x form_y) (request header_y (λ n. [])) alice 1 (stored (codes "y") none)
      (given_token (codes "a") (codes "y") []) [] start without_y (((refl, refl), tt), (tt, tt))
      refl (omega arith) (omega arith) refl refl refl refl refl (λ e. cc (e))

abbrev link : Request
link = record (request (λ n. []) (λ n. [])) { query = λ n. codes "t" }

get_auth_request-activate_example :
    get_auth_request tables link activated
    ≡ (err (response (bad_request (codes "invalid activation token"))), activated)
unfolding activate save_table erase_table load_table lookup insert erase text_eq revoke_device
    remove_all remove_auth_token find_auth_token blank find_from fits swap_remove set_elem last
    drop_last add_auth_token request_key
get_auth_request-activate_example =
    get_auth_request-activate tables tables-Keeps asked link
      (record start { of_requests = (codes "t", asked) ∷ [] }) activated refl refl refl
