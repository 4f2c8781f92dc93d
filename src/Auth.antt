-- ===== src/Auth.antt =====
-- The authentication data of the server (padlockcloud/auth.go, padlockcloud/device.go). A point of time
-- is a number of nanoseconds, where 0 is Go's zero time; a duration is one too. A Go string is its
-- text; a nil pointer is `none`. The slice of an account's tokens holds no nil, as no function of the
-- program puts one there.
pub mod Devices
pub mod Tokens
pub mod Accounts
pub mod Requests
pub mod Strings
mod Tests
use padlock_cloud.Prelude.{ℕ, ◌*◌, Option, none, some, List, Text, Bool, true, false, [], ◌∷◌}

abbrev pub Time : Type 0
Time = ℕ

-- `s == ""`
abbrev pub is_empty : Text → Bool
is_empty [] = true
is_empty (_ ∷ _) = false

-- `time.Hour`
unfoldable pub hour : ℕ
hour = 3600000000000

pub record Device : Type 0 where
  pub platform : Text
  pub uuid : Text
  pub manufacturer : Text
  pub model : Text
  pub os_version : Text
  pub host_name : Text
  pub app_version : Text

-- The field `account` is a part of what `Validate` gives back.
pub record AuthToken : Type 0 where
  pub email : Text
  pub token : Text
  pub type : Text
  pub id : Text
  pub created : Time
  pub last_used : Time
  pub expires : Time
  pub client_version : Text
  pub client_platform : Text
  pub device : Option Device

pub record Account : Type 0 where
  pub email : Text
  pub created : Time
  pub auth_tokens : List AuthToken

pub record AuthRequest : Type 0 where
  pub code : Text
  pub token : Text
  pub auth_token : AuthToken
  pub created : Time
  pub redirect : Text
