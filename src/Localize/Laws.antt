-- ===== src/Localize/Laws.antt =====
-- What `localize` does to a message and to the arguments that it inserts.
use padlock_cloud.Prelude.{
  ℕ, zero, ◌≡◌, ◌≢◌, refl, ap, ◌∙◌, [], ◌∷◌, ◌++◌, Text, codes, arith, All, All-append, append-nil,
}
use padlock_cloud.Decimal.{decimal}
use padlock_cloud.Localize.{
  Locale, translate, expand, replace_from, placeholder, strong_from, localize,
}

-- A text in which no place can begin a placeholder or an emphasis, and no `$` is special.
abbrev pub IsPlain : Text → Type 0
IsPlain = All (λ c. (c ≢ b'{') × (c ≢ b'*') × (c ≢ b'$'))

replace_plain :
    (i : ℕ) (arg before s : Text) → IsPlain s → replace_from (placeholder i) arg zero before s ≡ s
unfolding replace_from placeholder
replace_plain i arg before [] h = refl
replace_plain i arg before (c ∷ s) ((brace, star, d), hs) =
    ground (arith, replace_plain i arg (before ++ c ∷ []) s hs)

strong_plain : (s : Text) → IsPlain s → strong_from zero s ≡ s
unfolding strong_from
strong_plain [] h = refl
strong_plain (c ∷ s) ((b, star, d), hs) = ground (arith, strong_plain s hs)

expand_plain :
    (matched before after arg : Text) → IsPlain arg → expand matched before after arg ≡ arg
unfolding expand
expand_plain matched before after [] h = refl
expand_plain matched before after (c ∷ []) h = refl
expand_plain matched before after (c ∷ d ∷ arg) ((b, s, dollar), hs) =
    ground (arith, expand_plain matched before after (d ∷ arg) hs)

placeholder_zero : placeholder 0 ≡ codes "{0}"
unfolding placeholder decimal
placeholder_zero = refl

replace_zero : (arg before s : Text) → IsPlain s → replace_from (codes "{0}") arg zero before s ≡ s
replace_zero arg before s h = rw (← placeholder_zero) (replace_plain 0 arg before s h)

replace_cons :
    (arg before : Text) (c : ℕ) (s : Text)
    → c ≢ b'{'
    → replace_from (codes "{0}") arg zero before (c ∷ s)
      ≡ c ∷ replace_from (codes "{0}") arg zero (before ++ c ∷ []) s
unfolding replace_from
replace_cons arg before c s h = ground arith

-- A whole match: its replacement, and then the text behind it.
replace_here :
    (arg before post : Text)
    → IsPlain arg
    → IsPlain post
    → replace_from (codes "{0}") arg zero before (codes "{0}" ++ post) ≡ arg ++ post
unfolding replace_from
replace_here arg before post ha hp =
    rw
      (
        expand_plain (codes "{0}") before post arg ha,
        replace_zero arg (((before ++ b'{' ∷ []) ++ b'0' ∷ []) ++ b'}' ∷ []) post hp,
      )
      refl

replace_one :
    (arg before pre post : Text)
    → IsPlain arg
    → IsPlain pre
    → IsPlain post
    → replace_from (codes "{0}") arg zero before (pre ++ (codes "{0}" ++ post))
      ≡ pre ++ (arg ++ post)
replace_one arg before [] post ha h hp = replace_here arg before post ha hp
replace_one arg before (c ∷ pre) post ha ((b, s, d), h) hp =
    replace_cons arg before c _ b
    ∙ ap (λ (t : Text). c ∷ t) (replace_one arg (before ++ c ∷ []) pre post ha h hp)

-- A message with one placeholder `{0}`, whose other text and whose argument hold no brace that
-- opens, no asterisk and no dollar sign, becomes the same text with the argument in its place.
pub localize_one :
    (locale : Locale) (msg pre post arg : Text)
    → translate locale msg ≡ pre ++ (codes "{0}" ++ post)
    → IsPlain pre
    → IsPlain arg
    → IsPlain post
    → localize locale msg (arg ∷ []) ≡ pre ++ (arg ++ post)
unfolding localize
localize_one locale msg pre post arg e hpre harg hpost =
    rw (e, placeholder_zero, replace_one arg [] pre post harg hpre hpost)
      (strong_plain _ (All-append _ pre (arg ++ post) hpre (All-append _ arg post harg hpost)))

-- Text that an argument brings in is read as part of the message by the later rounds: in the message
-- "{0}", a first argument "{1}" is replaced by the second argument.
pub localize_rescans :
    (locale : Locale) (msg arg : Text)
    → translate locale msg ≡ codes "{0}"
    → IsPlain arg
    → localize locale msg (codes "{1}" ∷ arg ∷ []) ≡ arg
unfolding localize placeholder decimal
localize_rescans locale msg arg e h =
    rw (e, expand_plain (codes "{1}") [] [] arg h, append-nil) (strong_plain arg h)
