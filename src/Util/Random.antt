-- ===== src/Util/Random.antt =====
-- The character tables and `randomString` of the utility module.
-- `window.crypto.getRandomValues` on a one-byte array is outside the repository: the bytes that it
-- delivers are an argument, a list in the order of the calls. The loop has no bound of its own, so
-- it recurs on that list, and `none` means that it asks for more bytes than the list holds.
pub mod Laws
pub mod Uniform
use padlock_cloud.Prelude.{
  ℕ, ◌+◌, ◌%◌, Bool, false, Option, none, some, List, [], ◌∷◌, ◌++◌, Text, codes, ltb, ◌==◌, length,
  get_elem?, if◌then◌else◌,
}

pub record Chars : Type 0 where
  pub numbers : Text
  pub lower : Text
  pub upper : Text
  pub other : Text

abbrev pub chars : Chars
chars = record {
  numbers = codes "0123456789";
  lower = codes "abcdefghijklmnopqrstuvwxyz";
  upper = codes "ABCDEFGHIJKLMNOPQRSTUVWXYZ";
  other = codes "/+()%\"=&-!:'*#?;,_.@`~$^[{]}\\|<>";
}

pub record CharSets : Type 0 where
  pub full : Text
  pub alphanum : Text
  pub alpha : Text
  pub num : Text
  pub hexa : Text

abbrev pub char_sets : CharSets
char_sets = record {
  full = chars.numbers ++ (chars.upper ++ (chars.lower ++ chars.other));
  alphanum = chars.numbers ++ (chars.upper ++ chars.lower);
  alpha = chars.lower ++ chars.upper;
  num = chars.numbers;
  hexa = chars.numbers ++ codes "abcdef";
}

-- `rnd[0] > 255 - 256 % charSet.length`; for an empty set the right side is NaN, and the test fails.
unfoldable pub rejects : Text → ℕ → Bool
rejects char_set b = if length char_set == 0 then false else ltb 255 (b + 256 % length char_set)

abbrev pub char_or_undefined : Option ℕ → Text
char_or_undefined none = codes "undefined"
char_or_undefined (some c) = c ∷ []

-- `charSet[rnd[0] % charSet.length]`, as text; for an empty set that is `undefined`.
unfoldable pub pick : Text → ℕ → Text
pick char_set b =
    char_or_undefined
      (if length char_set == 0 then none else get_elem? char_set (b % length char_set))

-- The loop over `str`.
draw : Text → ℕ → Text → List ℕ → Option Text
draw char_set n str [] = if ltb (length str) n then none else some str
draw char_set n str (b ∷ bytes) =
    let next = draw char_set n (if rejects char_set b then str else str ++ pick char_set b) bytes in
    if ltb (length str) n then next else some str

unfoldable pub random_string : ℕ → Text → List ℕ → Option Text
unfolding draw
random_string n char_set bytes = draw char_set n [] bytes
