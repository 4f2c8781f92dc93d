-- ===== src/Dialogs/Options.antt =====
-- `DialogOptions` (`pl-dialog-options`).
pub mod Laws
use padlock_cloud.Prelude.{
  ℕ, suc, ◌+◌, ◌%◌, Bool, true, false, Option, none, some, List, [], ◌∷◌, ◌++◌, String, Text, codes,
  str_eq, if◌then◌else◌,
}
use padlock_cloud.Dialogs.Resolver.{Resolver, none_shown, new_promise, resolve_if_function, forget}
use padlock_cloud.Dialogs.Alert.{Choice, minus_one, index_of}

pub record DialogOptions : Type 0 where
  pub message : String
  pub open_flag : Bool
  pub options : List String
  pub prevent_dismiss : Bool
  -- The live timers of `choose`.
  pub opening : ℕ
  pub resolver : Resolver Choice

abbrev pub init : DialogOptions
init = record {
  message = "";
  open_flag = false;
  options = "Dismiss" ∷ [];
  prevent_dismiss = false;
  opening = 0;
  resolver = none_shown;
}

abbrev or_else {ℓ} : {A : Type ℓ} → Option A → A → A
or_else none d = d
or_else (some a) d = a

-- `message || ""` and `options || this.options`: an array is truthy, also an empty one.
unfoldable pub choose : Option String → Option (List String) → DialogOptions → DialogOptions
choose message options d = record d {
  message = or_else message "";
  options = or_else options d.options;
  opening = suc d.opening;
  resolver = new_promise d.resolver;
}

-- A timer of `choose` fires.
unfoldable pub open_later : DialogOptions → DialogOptions
open_later d = record d { open_flag = true }

unfoldable pub select_option : String → DialogOptions → DialogOptions
select_option item d = record d {
  open_flag = false;
  resolver = forget (resolve_if_function (index_of item d.options) d.resolver);
}

unfoldable pub button_class : ℕ → Text
button_class i = codes "tap tiles-" ++ (b'0' + ((i + 1) % 8 + 1)) ∷ []

unfoldable pub has_message : String → Bool
has_message message = if str_eq message "" then false else true

unfoldable pub on_dismiss : DialogOptions → DialogOptions
on_dismiss d = record d { resolver = forget (resolve_if_function minus_one d.resolver) }
