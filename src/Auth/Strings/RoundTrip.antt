-- ===== src/Auth/Strings/RoundTrip.antt =====
-- A token's text gives the token's email and secret back.
use padlock_cloud.Prelude.{
  ◌≡◌, refl, Bool, true, false, not, ◌&&◌, Option, none, some, [], ◌∷◌, ◌++◌, Text, ◌==◌, arith,
}
use padlock_cloud.Errors.{ok}
use padlock_cloud.Auth.{AuthToken, is_empty}
use padlock_cloud.Auth.Strings.{
  strip, split_last, one_line, two_groups, match_auth_string, to_string, given_token, from_string,
}

-- A text without colons and line breaks.
unfoldable pub plain : Text → Bool
plain [] = true
plain (c ∷ s) = not (c == 58) && (not (c == 10) && plain s)

split_last-plain : (s : Text) → plain s ≡ true → split_last s ≡ none
unfolding split_last plain
split_last-plain [] h = refl
split_last-plain (c ∷ s) h = rw (split_last-plain s (ground (arith, h))) (ground (arith, h))

split_last-append :
    (a b : Text) → plain b ≡ true → is_empty b ≡ false → split_last (a ++ (58 ∷ b)) ≡ some (a, b)
unfolding split_last
split_last-append [] b h n = rw (split_last-plain b h, n) refl
split_last-append (c ∷ a) b h n = rw (split_last-append a b h n) refl

one_line-append : (a b : Text) → plain a ≡ true → plain b ≡ true → one_line (a ++ (58 ∷ b)) ≡ true
unfolding one_line plain
one_line-append [] b g h = one_line_plain b h
  where
    one_line_plain : (b : Text) → plain b ≡ true → one_line b ≡ true
    one_line_plain [] h = refl
    one_line_plain (c ∷ b) h = ground (arith, h, one_line_plain b)
one_line-append (c ∷ a) b g h = ground (arith, g, one_line-append a b)

two_groups-append :
    (a b : Text)
    → plain a ≡ true
    → is_empty a ≡ false
    → plain b ≡ true
    → is_empty b ≡ false
    → two_groups (a ++ (58 ∷ b)) ≡ some (a, b)
unfolding two_groups
two_groups-append a b p m q n = rw (one_line-append a b p q, split_last-append a b q n, m) refl

-- `base64.RawURLEncoding`, as documented: its texts are of letters, digits, dashes and underscores,
-- decoding takes back an encoding, and no text but the empty one has an empty encoding.
pub record Base64 : Type 0 where
  pub encode : Text → Text
  pub decode : Text → Option Text
  pub encode-plain : (s : Text) → plain (encode s) ≡ true
  pub encode-some : (s : Text) → is_empty s ≡ false → is_empty (encode s) ≡ false
  pub decode-encode : (s : Text) → decode (encode s) ≡ some s

module _ (base64 : Base64) where
  -- The text that `AuthToken.String` makes of a token is read by `AuthTokenFromString` as a token with
  -- the same email and the same secret, with no type and no id, where the email is not empty and the
  -- secret is not empty and has neither a colon nor a line break.
  pub from_string-to_string :
      (t : AuthToken)
      → is_empty t.email ≡ false
      → is_empty t.token ≡ false
      → plain t.token ≡ true
      → from_string base64.decode (to_string base64.encode t) ≡ ok (given_token t.email t.token [])
  unfolding from_string to_string match_auth_string strip
  from_string-to_string t e n p =
      rw
        (
          two_groups-append (base64.encode t.email) t.token (base64.encode-plain t.email)
              (base64.encode-some t.email e) p n,
          base64.decode-encode t.email,
        )
        refl
