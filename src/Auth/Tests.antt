-- ===== src/Auth/Tests.antt =====
-- Tokens at concrete accounts.
use padlock_cloud.Prelude.{
  ℕ, zero, suc, ◌+◌, ap, ap₂, ◌∙◌, ◌==◌, ◌≡◌, refl, true, false, Option, none, some, [], ◌∷◌, Text,
  codes, text_eq, arith, if◌then◌else◌,
}
use mathlib.Core.List.{Permᴰ}
use padlock_cloud.Errors.{ok}
use padlock_cloud.Auth.{Device, AuthToken, Account, is_empty}
use padlock_cloud.Auth.Accounts.{fits, blank, find_auth_token, remove_all, filter}
use padlock_cloud.Auth.Accounts.Revoking.{remove_all-Rest}
use padlock_cloud.Auth.Strings.{given_token, to_string, from_string}
use padlock_cloud.Auth.Strings.RoundTrip.{Base64, plain, from_string-to_string}

abbrev phone : Device
phone = record {
  platform = codes "ios";
  uuid = codes "u";
  manufacturer = [];
  model = [];
  os_version = [];
  host_name = [];
  app_version = [];
}

abbrev stored : Text → Option Device → AuthToken
stored secret device = record (given_token (codes "a@b") secret (codes "api")) { device = device }

abbrev three : Account
three = record {
  email = codes "a@b";
  created = 1;
  auth_tokens =
      stored (codes "x") (some phone)
      ∷ stored (codes "y") none
      ∷ stored (codes "z") (some phone)
      ∷ [];
}

abbrev any_phone : AuthToken
any_phone = record (given_token [] [] (codes "api")) { device = some phone }

remove_all-Rest_example :
    (find_auth_token any_phone (remove_all 4 any_phone three) ≡ none)
    × Permᴰ (remove_all 4 any_phone three).auth_tokens (stored (codes "y") none ∷ [])
    × ((remove_all 4 any_phone three).email ≡ codes "a@b")
    × ((remove_all 4 any_phone three).created ≡ 1)
unfolding filter fits text_eq blank
remove_all-Rest_example = remove_all-Rest 3 any_phone three refl (omega arith)

-- An encoding of each code unit by as many letters as it counts, and another letter behind them.
unary : ℕ → Text → Text
unary zero rest = 66 ∷ rest
unary (suc n) rest = 65 ∷ unary n rest

encode : Text → Text
encode [] = []
encode (c ∷ s) = unary c (encode s)

abbrev cons_some : ℕ → Option Text → Option Text
cons_some c none = none
cons_some c (some s) = some (c ∷ s)

-- The code units behind a number of letters.
decode_from : ℕ → Text → Option Text
decode_from n [] = some []
decode_from n (c ∷ s) =
    let more = decode_from (suc n) s in
    let rest = decode_from 0 s in if c == 65 then more else cons_some n rest

decode_from-unary :
    (n k : ℕ) (s : Text) → decode_from k (unary n s) ≡ cons_some (n + k) (decode_from 0 s)
unfolding decode_from unary
decode_from-unary zero k s = ap (λ (c : ℕ). cons_some c (decode_from 0 s)) (omega arith)
decode_from-unary (suc n) k s =
    decode_from-unary n (suc k) s ∙ ap (λ (c : ℕ). cons_some c (decode_from 0 s)) (omega arith)

decode-encode : (s : Text) → decode_from 0 (encode s) ≡ some s
unfolding encode decode_from
decode-encode [] = refl
decode-encode (c ∷ s) =
    decode_from-unary c 0 (encode s)
    ∙ ap₂ (λ (n : ℕ) (o : Option Text). cons_some n o) (omega arith) (decode-encode s)

plain-unary : (n : ℕ) (s : Text) → plain (unary n s) ≡ plain s
unfolding plain unary
plain-unary zero s = refl
plain-unary (suc n) s = plain-unary n s

encode-plain : (s : Text) → plain (encode s) ≡ true
unfolding encode plain
encode-plain [] = refl
encode-plain (c ∷ s) = plain-unary c (encode s) ∙ encode-plain s

encode-some : (s : Text) → is_empty s ≡ false → is_empty (encode s) ≡ false
unfolding encode unary
encode-some [] h = h
encode-some (zero ∷ s) h = refl
encode-some (suc c ∷ s) h = refl

abbrev unary64 : Base64
unary64 = record {
  encode = encode;
  decode = decode_from 0;
  encode-plain = encode-plain;
  encode-some = encode-some;
  decode-encode = decode-encode;
}

from_string-to_string_example :
    from_string (decode_from 0) (to_string encode (stored (codes "x") none))
    ≡ ok (given_token (codes "a@b") (codes "x") [])
unfolding plain
from_string-to_string_example =
    from_string-to_string unary64 (stored (codes "x") none) refl refl refl
