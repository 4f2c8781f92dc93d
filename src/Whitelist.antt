-- ===== src/Whitelist.antt =====
-- The whitelist of emails (padlockcloud/whitelist.go). The file's lines are an argument.
pub mod Laws
mod Tests
use padlock_cloud.Prelude.{Bool, true, false, Option, none, some, List, [], ◌∷◌, Text}
use padlock_cloud.Dict.{Dict, lookup, insert, code_eq}

pub record Whitelist : Type 0 where
  pub emails : Dict Text Bool

-- The loop of `init` over the lines.
unfoldable pub init_emails : List Text → Dict Text Bool → Dict Text Bool
init_emails [] emails = emails
init_emails (line ∷ lines) emails = init_emails lines (insert line true emails)

unfoldable pub new_whitelist : List Text → Whitelist
unfolding init_emails
new_whitelist lines = record { emails = init_emails lines [] }

abbrev pub or_false : Option Bool → Bool
or_false none = false
or_false (some b) = b

unfoldable pub is_whitelisted : Text → Whitelist → Bool
is_whitelisted email w = or_false (lookup email w.emails)
