-- ===== src/Auth/Requests.antt =====
-- The requests that activate a token (padlockcloud/auth.go).
use padlock_cloud.Prelude.{Option, [], ◌++◌, Text, codes, text_eq, if◌then◌else◌}
use padlock_cloud.Errors.{Result, ok, ◌>>=◌}
use padlock_cloud.Auth.{Time, Device, AuthRequest, is_empty}
use padlock_cloud.Auth.Tokens.{new_auth_token}

-- `AuthRequest.Key`
unfoldable pub request_key : AuthRequest → Text
request_key ar =
    if is_empty ar.token then ar.auth_token.email ++ (codes "-" ++ ar.code) else ar.token

-- `NewAuthRequest`: what the random source gives for the token, its id and the code or token that
-- activates it is an argument.
unfoldable pub new_auth_request :
    (token id activation : Result Text) (now : Time)
    → (email type act_type : Text) → Option Device
    → Result AuthRequest
unfolding new_auth_token
new_auth_request token id activation now email type act_type device =
    new_auth_token token id now email type device >>= (λ auth_token. activation >>= (λ a.
      let by_code = text_eq act_type (codes "code") in
      ok (record {
        code = if by_code then a else [];
        token = if by_code then [] else a;
        auth_token = auth_token;
        created = now;
        redirect = [];
      })))
