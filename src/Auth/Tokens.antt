-- ===== src/Auth/Tokens.antt =====
-- One authentication token: its life, its text and its description.
use padlock_cloud.Prelude.{
  ℕ, ◌+◌, Bool, not, ◌&&◌, Option, none, some, [], ◌++◌, Text, codes, text_eq, ltb, ◌==◌,
  if◌then◌else◌,
}
use padlock_cloud.Errors.{Result, ok, ◌>>=◌}
use padlock_cloud.Auth.{Time, Device, AuthToken, is_empty, hour}
use padlock_cloud.Auth.Devices.{platform_display_name, description}

-- `authMaxAge`
unfoldable pub auth_max_age : Text → ℕ
unfolding hour
auth_max_age auth_type = if text_eq auth_type (codes "web") then hour else 0

-- `Expired`; `now` is `time.Now()`.
unfoldable pub expired : Time → AuthToken → Bool
expired now t = not (t.expires == 0) && ltb t.expires now

abbrev device_description : (Text → Option Text) → Text → Option Device → Text
device_description ios_devices client_platform (some d) = description ios_devices d
device_description ios_devices client_platform none =
    if not (is_empty client_platform)
    then platform_display_name client_platform ++ codes " Device"
    else codes "Mobile Device"

-- `AuthToken.Description`
unfoldable pub token_description : (Text → Option Text) → AuthToken → Text
token_description ios_devices t = device_description ios_devices t.client_platform t.device

-- `NewAuthToken`: the random token and id are arguments, with the errors of the random source.
unfoldable pub new_auth_token :
    (token id : Result Text) (now : Time) → Text → Text → Option Device → Result AuthToken
unfolding auth_max_age
new_auth_token token id now email t device = token >>= (λ auth_t. id >>= (λ id.
    let t = if is_empty t then codes "api" else t in
    let max_age = auth_max_age t in
    ok (record {
      email = email;
      token = auth_t;
      type = t;
      id = id;
      created = now;
      last_used = now;
      expires = if max_age == 0 then 0 else now + max_age;
      client_version = [];
      client_platform = [];
      device = device;
    })))
