-- ===== src/Auth/Strings.antt =====
-- A token as the text of an `Authorization` header, and back (padlockcloud/auth.go).
pub mod RoundTrip
use padlock_cloud.Prelude.{
  ℕ, Bool, true, false, not, ◌&&◌, ◌||◌, Option, none, some, [], ◌∷◌, ◌++◌, Text, codes, ◌==◌,
  text_eq, if◌then◌else◌,
}
use padlock_cloud.Errors.{Result, ok, err, failure, other}
use padlock_cloud.Auth.{AuthToken, is_empty}

-- The text after a prefix.
unfoldable pub strip : Text → Text → Option Text
strip [] s = some s
strip (c ∷ p) [] = none
strip (c ∷ p) (d ∷ s) = let rest = strip p s in if c == d then rest else none

-- The two sides of the last colon that has a text after it.
unfoldable pub split_last : Text → Option (Text × Text)
split_last [] = none
split_last (c ∷ s) = elim (split_last s) [
  | some (a, b) ↦ some (c ∷ a, b)
  | none ↦ if (c == 58) && not (is_empty s) then some ([], s) else none
]

-- A line break is no `.` of a regular expression.
unfoldable pub one_line : Text → Bool
one_line [] = true
one_line (c ∷ s) = not (c == 10) && one_line s

abbrev pub nonempty_first : Option (Text × Text) → Option (Text × Text)
nonempty_first none = none
nonempty_first (some (a, b)) = if is_empty a then none else some (a, b)

-- `(.+):(.+)$`
unfoldable pub two_groups : Text → Option (Text × Text)
unfolding split_last one_line
two_groups s = if one_line s then nonempty_first (split_last s) else none

abbrev pub groups : Bool → Option (Text × Text) → Option (Bool × Text × Text)
groups skeleton none = none
groups skeleton (some (a, b)) = some (skeleton, a, b)

-- `authStringPattern`: whether the first group is `SkeletonKey`, and the two others.
unfoldable pub match_auth_string : Text → Option (Bool × Text × Text)
unfolding strip two_groups
match_auth_string str = elim (strip (codes "AuthToken ") str) [
  | some s ↦ groups false (two_groups s)
  | none ↦ elim (strip (codes "ApiKey ") str) [
    | some s ↦ groups false (two_groups s)
    | none ↦ elim (strip (codes "SkeletonKey ") str) [
      | some s ↦ groups true (two_groups s)
      | none ↦ none
    ]
  ]
]

-- `base64.RawURLEncoding`
module _ (encode : Text → Text) where
  -- `AuthToken.String`
  unfoldable pub to_string : AuthToken → Text
  to_string t = codes "AuthToken " ++ (encode t.email ++ (codes ":" ++ t.token))

abbrev pub given_token : Text → Text → Text → AuthToken
given_token email token type = record {
  email = email;
  token = token;
  type = type;
  id = [];
  created = 0;
  last_used = 0;
  expires = 0;
  client_version = [];
  client_platform = [];
  device = none;
}

abbrev pub decoded : Option Text → Text → Text
decoded none email = email
decoded (some dec) email = dec

module _ (decode : Text → Option Text) where
  abbrev pub from_groups : Option (Bool × Text × Text) → Result AuthToken
  from_groups none = err (failure (other (codes "invalid credentials")))
  from_groups (some (skeleton, email, token)) =
      ok (
        given_token (decoded (decode email) email) token
          (if skeleton then codes "skeleton" else []))

  -- `AuthTokenFromString`
  unfoldable pub from_string : Text → Result AuthToken
  unfolding match_auth_string
  from_string str = from_groups (match_auth_string str)
