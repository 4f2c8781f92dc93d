-- ===== src/Whitelist/Laws.antt =====
-- Whom the whitelist names.
use padlock_cloud.Prelude.{
  ◌≡◌, refl, ap, ◌∙◌, ◌||◌, Bool, true, false, Bool-cases, inl, inr, Option, some, List, [], ◌∷◌,
  Text, text_eq, if◌then◌else◌,
}
use padlock_cloud.Dict.{Dict, lookup, insert, code_eq}
use padlock_cloud.Dict.Laws.{lookup-insert}
use padlock_cloud.Whitelist.{init_emails, new_whitelist, is_whitelisted, or_false}

-- Whether one of the lines is the email.
unfoldable pub is_line : Text → List Text → Bool
is_line email [] = false
is_line email (line ∷ lines) = text_eq email line || is_line email lines

lookup-init_emails :
    (email : Text) (lines : List Text) (d : Dict Text Bool)
    → lookup email (init_emails lines d)
      ≡ (if is_line email lines then some true else lookup email d)
unfolding init_emails is_line
lookup-init_emails email [] d = refl
lookup-init_emails email (line ∷ lines) d =
    lookup-init_emails email lines (insert line true d) ∙ elim (Bool-cases (text_eq email line)) [
      | inl e ↦ rw (lookup-insert email line true d, e) (either (is_line email lines))
      | inr e ↦ rw (lookup-insert email line true d, e) refl
    ]
  where
    either : (b : Bool) → ◌≡◌ {A = Option Bool} (if b then some true else some true) (some true)
    either true = refl
    either false = refl

-- A whitelist that is read from a file names an email exactly when a line of the file is that email as
-- it stands: spaces and capitals count.
pub is_whitelisted-new_whitelist :
    (email : Text) (lines : List Text)
    → is_whitelisted email (new_whitelist lines) ≡ is_line email lines
unfolding is_whitelisted new_whitelist lookup
is_whitelisted-new_whitelist email lines =
    ap (λ (o : Option Bool). or_false o) (lookup-init_emails email lines [])
    ∙ elim (Bool-cases (is_line email lines)) [ inl e ↦ rw e refl | inr e ↦ rw e refl ]
