-- ===== src/Util/Tests.antt =====
-- The utility module at concrete inputs.
use padlock_cloud.Prelude.{
  ◌%◌, ◌≡◌, refl, ◌⊎◌, text_eq, true, not, ◌&&◌, none, some, [], ◌∷◌, arith, Text, codes,
}
use padlock_cloud.Util.Random.{rejects, pick, random_string}
use padlock_cloud.Util.Random.Laws.{random_string_lem}
use padlock_cloud.Util.Random.Uniform.{tally, pick_uniform}
use padlock_cloud.Util.Uuid.{uuid}
use padlock_cloud.Util.Uuid.Layout.{Fits, v4_layout, uuid-Fits}
use padlock_cloud.Util.Language.{Languages, split_from, lower_case, resolve_language}
use padlock_cloud.Util.Language.Laws.{IsLongest, NoneSupported, tag_parts, resolve_language_lem}

-- 255 is rejected over three characters; 4 wraps round.
random_string_lem_example :
    random_string 3 (codes "abc") (0 ∷ 255 ∷ 4 ∷ 2 ∷ []) ≡ some (codes "abc")
unfolding rejects pick
random_string_lem_example = random_string_lem 3 (codes "abc") (0 ∷ 255 ∷ 4 ∷ 2 ∷ []) (omega arith)

random_string_more : random_string 2 (codes "abc") (0 ∷ 255 ∷ []) ≡ none
unfolding random_string rejects pick
random_string_more = refl

pick_uniform_example :
    tally 256 (λ b. not (rejects (codes "abc") b) && text_eq (pick (codes "abc") b) (codes "b"))
    ≡ 85
pick_uniform_example = pick_uniform (codes "a") (codes "c") b'b' (omega arith) (refl, tt) (refl, tt)

uuid-Fits_example : Fits v4_layout (uuid (λ k. k % 16))
uuid-Fits_example = uuid-Fits (λ k. k % 16) (λ k. omega arith)

abbrev two_languages : Languages
two_languages = (codes "de", true) ∷ (codes "fr-ca", true) ∷ []

resolve_language_lem_example :
    ((l : Text) × (resolve_language (codes "fr-CA-x") two_languages ≡ some l)
      × IsLongest two_languages (tag_parts (codes "fr-CA-x")) 3 l)
    ⊎ (NoneSupported two_languages (tag_parts (codes "fr-CA-x")) 3
        × (resolve_language (codes "fr-CA-x") two_languages ≡ some (codes "de")))
unfolding split_from lower_case
resolve_language_lem_example = resolve_language_lem (codes "fr-CA-x") two_languages

resolve_language_region : resolve_language (codes "fr-CA-x") two_languages ≡ some (codes "fr-ca")
unfolding resolve_language
resolve_language_region = refl
