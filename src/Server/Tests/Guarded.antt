-- ===== src/Server/Tests/Guarded.antt =====
-- Endpoints at concrete requests.
use padlock_cloud.Prelude.{
  ◌≡◌, refl, ◌⊎◌, inl, false, Option, none, some, [], ◌∷◌, Text, codes, text_eq, text_eq-neq,
  if◌then◌else◌,
}
use padlock_cloud.Dict.{lookup, insert, code_eq}
use padlock_cloud.Errors.{ok}
use padlock_cloud.Auth.{AuthToken, Account, hour}
use padlock_cloud.Auth.Devices.{device_from_request, update_from_request, first_set, updated}
use padlock_cloud.Auth.Tokens.{expired}
use padlock_cloud.Auth.Strings.{
  given_token, from_string, match_auth_string, strip, two_groups, split_last, one_line,
}
use padlock_cloud.Auth.Accounts.{
  fits, blank, find_from, find_auth_token, update_auth_token, set_elem, filter, used_lately,
  not_expired_long, kept_after, expire_unused_auth_tokens, remove_expired_auth_tokens,
}
use padlock_cloud.Server.{Request, ServerConfig}
use padlock_cloud.Server.Authenticate.{
  from_request, validate, identify, touched, pruned, authenticate,
}
use padlock_cloud.Server.Handlers.{body}
use padlock_cloud.Server.Endpoints.{Handler, Endpoint, Parts, answered, wrap_endpoint}
use padlock_cloud.Server.Endpoints.Guards.{IsGranted, wrap_endpoint-refused, wrap_endpoint_lem}
use padlock_cloud.Server.Endpoints.Rights.{IsBarred, IsOutdated}
use padlock_cloud.Server.Tests.Tables.{Tables as State, tables, load_table, save_table}

abbrev stored : AuthToken
stored = record (given_token (codes "a") (codes "x") (codes "api")) { last_used = 5 }

abbrev used : AuthToken
used = record stored { last_used = 10 }

abbrev of_token : AuthToken → Account
of_token t = record { email = codes "a"; created = 1; auth_tokens = t ∷ [] }

abbrev start : State
start = record { of_accounts = (codes "a", of_token stored) ∷ []; of_requests = []; of_data = [] }

abbrev after : State
after = record start { of_accounts = (codes "a", of_token used) ∷ [] }

abbrev request : (Text → Text) → Request
request header = record {
  method = codes "GET";
  path = [];
  remote_addr = [];
  header = header;
  cookie = λ n. none;
  form = λ n. [];
  query = λ n. [];
  body = ok [];
}

abbrev header_x : Text → Text
header_x n = if text_eq n (codes "Authorization") then codes "AuthToken a:x" else []

abbrev parts : Parts State
parts = record {
  status_text = λ n. [];
  contains = λ s t. false;
  has_prefix = λ s t. false;
  error_page = λ m. none;
  version_from_request = λ r. 1;
  send_deprecated = λ r s. s;
  csrf_failure = λ r. some [];
}

abbrev says : Text → Handler State
says text r auth s = (ok (body text ∷ []), s)

abbrev endpoint : Text → Text → Endpoint State
endpoint type text = record { handlers = λ m. some (says text); version = 1; auth_type = type }

abbrev config : ServerConfig
config = record { skeleton_key = []; skeleton_ip = []; test = false }

abbrev decode : Text → Option Text
decode s = none

wrap_endpoint-refused_example :
    wrap_endpoint parts tables decode config 10
      (endpoint (codes "web") (codes "a"))
      (request header_x)
      none
      start
    ≡ wrap_endpoint parts tables decode config 10
        (endpoint (codes "web") (codes "b"))
        (request header_x)
        none
        start
unfolding authenticate from_request from_string match_auth_string strip two_groups split_last
    one_line text_eq load_table save_table lookup insert pruned remove_expired_auth_tokens
    expire_unused_auth_tokens filter used_lately not_expired_long kept_after hour identify validate
    find_auth_token blank find_from fits expired touched device_from_request update_from_request
    updated first_set update_auth_token set_elem
wrap_endpoint-refused_example =
    wrap_endpoint-refused parts tables decode config 10 (endpoint (codes "web") (codes "a"))
      (endpoint (codes "web") (codes "b")) (request header_x) none start refl refl refl refl
      (inl (
        text_eq-neq (codes "web") (codes "universal") refl,
        text_eq-neq (codes "api") (codes "web") refl,
        text_eq-neq (codes "api") (codes "skeleton") refl,
      ))

wrap_endpoint_lem_example :
    let a = endpoint (codes "api") (codes "a") in
    let b = endpoint (codes "api") (codes "b") in
    let r = request header_x in
    ((t : AuthToken) × (acc : Account) × (s' : State) × IsGranted parts tables decode config 10 a r
        start t acc s'
      × (wrap_endpoint parts tables decode config 10 a r none start
          ≡ answered parts r (says (codes "a") r (some (t, acc)) s'))
      × (wrap_endpoint parts tables decode config 10 b r none start
          ≡ answered parts r (says (codes "b") r (some (t, acc)) s')))
    ⊎ (IsBarred parts (codes "api") r (authenticate tables decode config 10 r start).0
        ⊎ IsOutdated parts 1 r)
      × (wrap_endpoint parts tables decode config 10 a r none start
          ≡ wrap_endpoint parts tables decode config 10 b r none start)
wrap_endpoint_lem_example =
    wrap_endpoint_lem parts tables decode config 10 (endpoint (codes "api") (codes "a"))
      (endpoint (codes "api") (codes "b")) (says (codes "a")) (says (codes "b")) (request header_x)
      none start refl refl refl refl refl
