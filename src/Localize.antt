-- ===== src/Localize.antt =====
-- `localize` (`$l`) and `localize.loadTranslations`. Texts are lists of code units, and the arguments
-- of a message are texts.
pub mod Laws
mod Tests
use padlock_cloud.Prelude.{
  text_eq, ℕ, zero, suc, ◌+◌, ◌-◌, Bool, true, false, ◌||◌, Option, none, some, List, [], ◌∷◌, ◌++◌,
  map, Text, codes, ◌==◌, if◌then◌else◌, length,
}
use padlock_cloud.Decimal.{decimal}
use padlock_cloud.Util.Language.{resolve_language}

-- The messages of a language with their translations, "" for one that is missing.
abbrev pub Messages : Type 0
Messages = List (Text × Text)

-- The variables `translations` and `language`.
pub record Locale : Type 0 where
  pub translations : List (Text × Messages)
  pub language : Option Text

-- `loadTranslations` for the platform's locale: each language's messages are an object, so truthy.
unfoldable pub load_translations : Text → List (Text × Messages) → Locale
load_translations platform_locale t = record {
  translations = t;
  language = resolve_language platform_locale (map (λ l. (l.0, true)) t);
}

unfoldable pub lookup {ℓ} : {V : Type ℓ} → Text → List (Text × V) → Option V
unfolding text_eq
lookup key [] = none
lookup key ((k, v) ∷ entries) = if text_eq k key then some v else lookup key entries

abbrev pub non_empty_or : Option Text → Text → Text
non_empty_or none msg = msg
non_empty_or (some []) msg = msg
non_empty_or (some (c ∷ s)) msg = c ∷ s

abbrev of_messages : Text → Option Messages → Text
of_messages msg none = msg
of_messages msg (some messages) = non_empty_or (lookup msg messages) msg

abbrev of_language : Locale → Text → Option Text → Text
of_language locale msg none = msg
of_language locale msg (some l) = of_messages msg (lookup l locale.translations)

-- `lang && lang[msg] || msg`
unfoldable pub translate : Locale → Text → Text
unfolding lookup
translate locale msg = of_language locale msg locale.language

-- What is left of a text behind a prefix.
unfoldable pub behind : Text → Text → Option Text
behind [] s = some s
behind (p ∷ pattern') [] = none
behind (p ∷ pattern') (c ∷ s) = if p == c then behind pattern' s else none

-- The text that a match is replaced by: `$$`, `$&`, `` $` `` and `$'` stand for a dollar sign, the
-- match, and what is before and behind it; any other `$` stands for itself, as there is no group.
unfoldable pub expand : Text → Text → Text → Text → Text
expand matched before after [] = []
expand matched before after (c ∷ []) = c ∷ []
expand matched before after (c ∷ d ∷ arg) =
    let dollar = b'$' ∷ expand matched before after arg in
    let match = matched ++ expand matched before after arg in
    let prefix = before ++ expand matched before after arg in
    let suffix = after ++ expand matched before after arg in
    let plain = c ∷ expand matched before after (d ∷ arg) in
    if c == b'$'
    then if d == b'$'
      then dollar
      else if d == b'&'
      then match
      else if d == 0x60
      then prefix
      else if d == 0x27
      then suffix
      else plain
    else plain

-- `text.replace(new RegExp(pattern, "g"), arg)` for a pattern that matches itself alone. `skip` are
-- the code units of a match that are still to be passed over, `before` is what has been read.
unfoldable pub replace_from : Text → Text → ℕ → Text → Text → Text
unfolding behind expand
replace_from pattern' arg skip before [] = []
replace_from pattern' arg (suc skip) before (c ∷ s) =
    replace_from pattern' arg skip (before ++ c ∷ []) s
replace_from pattern' arg zero before (c ∷ s) =
    let matched = replace_from pattern' arg (length pattern' - 1) (before ++ c ∷ []) s in
    let kept = c ∷ replace_from pattern' arg zero (before ++ c ∷ []) s in
    elim (behind pattern' (c ∷ s)) [
      | some after ↦ expand pattern' before after arg ++ matched
      | none ↦ kept
    ]

-- The pattern `\{i\}`.
unfoldable pub placeholder : ℕ → Text
placeholder i = b'{' ∷ (decimal i ++ b'}' ∷ [])

-- The loop over `fmtArgs`, from the i-th on.
unfoldable pub insert_from : ℕ → List Text → Text → Text
unfolding replace_from placeholder
insert_from i [] res = res
insert_from i (arg ∷ args) res =
    insert_from (suc i) args (replace_from (placeholder i) arg zero [] res)

abbrev is_line_break : ℕ → Bool
is_line_break c = c == 0x0a || c == 0x0d || c == 0x2028 || c == 0x2029

abbrev begin_with : ℕ → Option Text → Option Text
begin_with c none = none
begin_with c (some inner) = some (c ∷ inner)

-- The group of `/\*\*(.+?)\*\*/` in a text behind the two asterisks that open it.
unfoldable pub emphasized : Text → Option Text
unfolding behind
emphasized [] = none
emphasized (c ∷ s) =
    let longer = begin_with c (emphasized s) in
    if is_line_break c
    then none
    else elim (behind (codes "**") s) [ some _ ↦ some (c ∷ []) | none ↦ longer ]

abbrev pub group_of : Option Text → Option Text
group_of none = none
group_of (some s) = emphasized s

-- `res.replace(/\*\*(.+?)\*\*/g, "<strong>$1</strong>")`, with `skip` as above.
unfoldable pub strong_from : ℕ → Text → Text
unfolding emphasized behind
strong_from skip [] = []
strong_from (suc skip) (c ∷ s) = strong_from skip s
strong_from zero (c ∷ s) =
    let kept = c ∷ strong_from zero s in
    elim (group_of (behind (codes "**") (c ∷ s))) [
      | some inner ↦
          codes "<strong>" ++ (inner ++ (codes "</strong>" ++ strong_from (length inner + 3) s))
      | none ↦ kept
    ]

unfoldable pub localize : Locale → Text → List Text → Text
unfolding translate insert_from strong_from
localize locale msg fmt_args = strong_from zero (insert_from 0 fmt_args (translate locale msg))
