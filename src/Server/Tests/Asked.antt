-- ===== src/Server/Tests/Asked.antt =====
-- Asking for a token at a concrete storage.
use padlock_cloud.Prelude.{
  refl, false, none, some, List, [], ◌∷◌, Text, codes, text_eq, if◌then◌else◌,
}
use padlock_cloud.Dict.{lookup, insert, code_eq}
use padlock_cloud.Errors.{ok}
use padlock_cloud.Auth.{AuthRequest}
use padlock_cloud.Auth.Devices.{device_from_request, first_set}
use padlock_cloud.Auth.Tokens.{new_auth_token, auth_max_age}
use padlock_cloud.Auth.Requests.{request_key, new_auth_request}
use padlock_cloud.Whitelist.{init_emails, new_whitelist, is_whitelisted}
use padlock_cloud.Server.{Request, ServerConfig, ip_from_request}
use padlock_cloud.Server.Handlers.{Write, content_type, status, body, send}
use padlock_cloud.Server.Handlers.Asking.{
  Outside, token_type, preauthenticated, check_form, check_exists, compose, send_email,
  request_auth_token,
}
use padlock_cloud.Server.Handlers.Asking.Guards.{IsAsked, request_auth_token-IsAsked}
use padlock_cloud.Server.Tests.Tables.{Tables as State, tables, load_table, save_table}

abbrev start : State
start = record {
  of_accounts = (codes "a", record { email = codes "a"; created = 1; auth_tokens = [] }) ∷ [];
  of_requests = [];
  of_data = [];
}

abbrev form_a : Text → Text
form_a n = if text_eq n (codes "email") then codes "a" else []

abbrev request : Request
request = record {
  method = codes "PUT";
  path = [];
  remote_addr = [];
  header = λ n. [];
  cookie = λ n. none;
  form = form_a;
  query = λ n. [];
  body = ok [];
}

abbrev outside : Outside State
outside = record {
  path_of = λ u. none;
  has_endpoint = λ p. false;
  base_url = λ r. [];
  marshal = λ id token email link. ok token;
  login_page = λ email. ok [];
  activation_email = λ link t code. ok link;
  limited = λ ip email s. (false, s);
  new_token = ok (codes "k");
  new_id = ok (codes "i");
  new_activation = ok (codes "t");
}

abbrev config : ServerConfig
config = record { skeleton_key = []; skeleton_ip = []; test = false }

abbrev answer : List Write
answer =
    send (codes "a") (codes "Connect to Padlock Cloud") (codes "/a/?t=t")
    ∷ content_type (codes "application/json")
    ∷ status 202
    ∷ body (codes "k")
    ∷ []

abbrev asked : AuthRequest
asked = record {
  code = [];
  token = codes "t";
  auth_token = record {
    email = codes "a";
    token = codes "k";
    type = codes "api";
    id = codes "i";
    created = 10;
    last_used = 10;
    expires = 0;
    client_version = [];
    client_platform = [];
    device = none;
  };
  created = 10;
  redirect = [];
}

request_auth_token-IsAsked_example :
    IsAsked tables outside
      (some (new_whitelist (codes "a" ∷ [])))
      config
      10
      request
      none
      start
      answer
unfolding request_auth_token check_form token_type text_eq is_whitelisted new_whitelist init_emails
    lookup insert check_exists load_table save_table new_auth_request new_auth_token auth_max_age
    device_from_request first_set request_key compose preauthenticated send_email ip_from_request
request_auth_token-IsAsked_example =
    request_auth_token-IsAsked tables outside (some (new_whitelist (codes "a" ∷ []))) config 10
      request none start answer (record start { of_requests = (codes "t", asked) ∷ [] }) refl
