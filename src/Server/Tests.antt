-- ===== src/Server/Tests.antt =====
-- The server at concrete requests and accounts, over a storage of three tables.
mod Tables
mod Threads
mod Asked
mod Guarded
mod Handled
mod LoggedOut
use padlock_cloud.Prelude.{
  ℕ, ◌<◌, ◌≤◌, ◌≡◌, ◌≢◌, refl, sym, ap, ◌∙◌, inl, inr, ◌⊎◌, Bool, true, false, Option, none, some,
  List, [], ◌∷◌, ◌++◌, Text, codes, text_eq, text_eq_iff, is_some, if◌then◌else◌, arith,
}
use mathlib.Core.List.{Memᴰ, Permᴰ}
use padlock_cloud.Dict.{lookup, insert, erase, code_eq}
use padlock_cloud.Errors.{
  Error, Result, ok, err, failure, response, err_not_found, invalid_auth_token, bad_request,
}
use padlock_cloud.Auth.{Device, AuthToken, Account, AuthRequest, is_empty, hour}
use padlock_cloud.Auth.Devices.{device_from_request, update_from_request, first_set, updated}
use padlock_cloud.Auth.Tokens.{expired}
use padlock_cloud.Auth.Strings.{
  given_token, from_string, match_auth_string, strip, two_groups, split_last, one_line,
}
use padlock_cloud.Auth.Requests.{request_key}
use padlock_cloud.Auth.Accounts.{
  fits, blank, find_from, find_auth_token, update_auth_token, set_elem, filter, used_lately,
  not_expired_long, kept_after, expire_unused_auth_tokens, remove_expired_auth_tokens, swap_remove,
  last, drop_last, remove_auth_token, remove_all, add_auth_token, no_uuid,
}
use padlock_cloud.Server.{Request, ServerConfig, accounts, requests, data_stores}
use padlock_cloud.Server.Authenticate.{
  from_request, validate, skeleton_ok, identify, touched, pruned, authenticate,
}
use padlock_cloud.Server.Authenticate.Soundness.{IsAuthentic, authenticate-IsAuthentic}
use padlock_cloud.Server.Authenticate.Saving.{update_auth_token-validate, update_auth_token-forgets}
use padlock_cloud.Server.Handlers.{
  get_auth_request, Write, body, status, redirect, delete_cookie, activate, revoke_device,
  read_store, write_store, delete_store, delete_account, logout, revoke, to_revoke, expire_token,
  asked_token,
}
use padlock_cloud.Server.Handlers.Success.Once.{get_auth_request-activate}
use padlock_cloud.Server.Handlers.Data.{
  read_store-write_store, read_store-delete_store, authenticate-delete_account,
}
use padlock_cloud.Server.Handlers.Activation.{staying, account_in, activate-staying}
use padlock_cloud.Server.Handlers.Ending.{Refused, authenticate-revoke}
use padlock_cloud.Server.Tests.Tables.{
  Tables as State, tables, tables-Keeps, load_table, save_table, erase_table, set_table,
}

abbrev phone : Device
phone = record {
  platform = codes "i";
  uuid = codes "u";
  manufacturer = [];
  model = [];
  os_version = [];
  host_name = [];
  app_version = [];
}

abbrev stored : Text → Option Device → AuthToken
stored secret device = record (given_token (codes "a") secret (codes "api")) {
  device = device;
  last_used = 5;
}

abbrev alice : Account
alice = record {
  email = codes "a";
  created = 1;
  auth_tokens = stored (codes "x") (some phone) ∷ stored (codes "y") none ∷ [];
}

abbrev bob : Account
bob = record { email = codes "b"; created = 1; auth_tokens = [] }

abbrev start : State
start = record {
  of_accounts = (codes "a", alice) ∷ (codes "b", bob) ∷ [];
  of_requests = [];
  of_data = [];
}

abbrev request : (header form : Text → Text) → Request
request header form = record {
  method = codes "GET";
  path = codes "/";
  remote_addr = [];
  header = header;
  cookie = λ n. none;
  form = form;
  query = λ n. [];
  body = ok (codes "data");
}

abbrev header_x : Text → Text
header_x n = if text_eq n (codes "Authorization") then codes "AuthToken a:x" else []

abbrev with_x : Request
with_x = request header_x (λ n. [])

abbrev config : ServerConfig
config = record { skeleton_key = []; skeleton_ip = []; test = false }

-- base64 that decodes nothing: emails are taken as they are.
abbrev decode : Text → Option Text
decode s = none

abbrev used_x : AuthToken
used_x = record (stored (codes "x") (some phone)) { last_used = 10 }

abbrev alice_used : Account
alice_used = record alice { auth_tokens = used_x ∷ stored (codes "y") none ∷ [] }

authenticate-IsAuthentic_example :
    IsAuthentic tables decode config 10 with_x start used_x alice_used
      (record start { of_accounts = (codes "a", alice_used) ∷ (codes "b", bob) ∷ [] })
unfolding authenticate from_request from_string match_auth_string strip two_groups split_last
    one_line text_eq load_table save_table lookup insert pruned remove_expired_auth_tokens
    expire_unused_auth_tokens filter used_lately not_expired_long kept_after hour identify validate
    find_auth_token blank find_from fits expired touched update_from_request updated first_set
    update_auth_token set_elem
authenticate-IsAuthentic_example =
    authenticate-IsAuthentic tables decode config 10 with_x start used_x alice_used
      (record start { of_accounts = (codes "a", alice_used) ∷ (codes "b", bob) ∷ [] }) refl

abbrev header_uuid : Text → Text
header_uuid n =
    if text_eq n (codes "X-Device-Platform")
    then codes "i"
    else (if text_eq n (codes "X-Device-UUID") then codes "u" else [])

abbrev with_uuid : Request
with_uuid = request header_uuid (λ n. [])

update_auth_token-validate_example :
    (pre : List AuthToken) × (post : List AuthToken) × (alice.auth_tokens
      ≡ pre ++ (stored (codes "x") (some phone) ∷ post))
    × (update_auth_token (touched 10 with_uuid (stored (codes "x") (some phone))) alice
        ≡ record alice {
          auth_tokens = pre ++ (touched 10 with_uuid (stored (codes "x") (some phone)) ∷ post);
        })
unfolding validate find_auth_token blank find_from fits text_eq
update_auth_token-validate_example =
    update_auth_token-validate 10 with_uuid (codes "a") (codes "x") alice
      (stored (codes "x") (some phone)) refl refl (inl (phone, refl))

update_auth_token-forgets_example :
    update_auth_token (touched 10 with_uuid (stored (codes "y") none)) alice ≡ alice
unfolding validate find_auth_token blank find_from fits text_eq device_from_request
    update_from_request updated first_set
update_auth_token-forgets_example =
    update_auth_token-forgets 10 with_uuid (codes "a") (codes "y") alice (stored (codes "y") none)
      phone refl refl refl refl refl (inl refl, (inr refl, tt))
