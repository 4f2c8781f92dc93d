-- ===== src/Util/Language.antt =====
-- `resolveLanguage` of the utility module.
pub mod Laws
use padlock_cloud.Prelude.{
  text_eq, ℕ, zero, suc, ◌+◌, Bool, true, false, ◌&&◌, ◌||◌, Option, none, some, List, [], ◌∷◌,
  ◌++◌, map, Text, codes, leb, ◌==◌, length, if◌then◌else◌,
}

-- An object literal that is used as a dictionary: its own keys in their order, each with whether
-- its value is truthy.
abbrev pub Languages : Type 0
Languages = List (Text × Bool)

-- `toLowerCase`, for the ASCII letters that a BCP 47 language tag is made of.
unfoldable pub lower_case : Text → Text
lower_case [] = []
lower_case (c ∷ s) = (if leb b'A' c && leb c b'Z' then c + 32 else c) ∷ lower_case s

-- `s.split("-")`, with the part read so far.
unfoldable pub split_from : Text → Text → List Text
split_from part [] = part ∷ []
split_from part (c ∷ s) =
    let closed = part ∷ split_from [] s in
    let longer = split_from (part ++ c ∷ []) s in if c == b'-' then closed else longer

-- `parts.join("-")`
unfoldable pub join : List Text → Text
join [] = []
join (p ∷ []) = p
join (p ∷ q ∷ parts) = p ++ (b'-' ∷ join (q ∷ parts))

-- `parts.pop()`
unfoldable pub pop : List Text → List Text
pop [] = []
pop (p ∷ []) = []
pop (p ∷ q ∷ parts) = p ∷ pop (q ∷ parts)

-- What every object inherits under a name with no capital letter.
unfoldable pub inherited : Text → Bool
unfolding text_eq
inherited l = text_eq l (codes "constructor") || text_eq l (codes "__proto__")

-- `supportedLanguages[l]` as a condition: an own key hides an inherited one.
unfoldable pub supported : Languages → Text → Bool
unfolding inherited text_eq
supported [] l = inherited l
supported ((k, truthy) ∷ languages) l = if text_eq k l then truthy else supported languages l

-- The loop over `localeParts`, on the rounds that are left.
unfoldable pub resolve_from : Languages → ℕ → List Text → Option Text
unfolding supported join pop
resolve_from languages zero parts = none
resolve_from languages (suc n) [] = none
resolve_from languages (suc n) parts =
    let rest = resolve_from languages n (pop parts) in
    let l = join parts in if supported languages l then some l else rest

abbrev pub first_key : Languages → Option Text
first_key [] = none
first_key ((k, _) ∷ _) = some k

abbrev pub or_else : Option Text → Option Text → Option Text
or_else none d = d
or_else (some l) _ = some l

-- `none` is `undefined`, the first key of an object that has no key.
unfoldable pub resolve_language : Text → Languages → Option Text
unfolding resolve_from lower_case split_from
resolve_language locale languages =
    let parts = split_from [] (lower_case locale) in
    or_else (resolve_from languages (length parts) parts) (first_key languages)
