-- ===== src/Dialogs/Alert.antt =====
-- `DialogAlert` (`pl-dialog-alert`). The texts of the buttons are already localized; the option that
-- was tapped comes from the template, which repeats over `options`.
pub mod Laws
use padlock_cloud.Prelude.{
  ℕ, suc, ◌+◌, ◌%◌, Bool, true, false, not, ◌&&◌, Option, none, some, List, [], ◌∷◌, ◌++◌, String,
  Text, codes, str_eq, if◌then◌else◌,
}
use padlock_cloud.Dialogs.Resolver.{Resolver, none_shown, new_promise, resolve_if_function, forget}

-- `undefined` after a dismissal, or `options.indexOf(item)`, which is -1 for an item not among them.
pub data Choice : Type 0 where
  undefined : Choice
  index : ℕ → Choice
  minus_one : Choice

pub record Alert : Type 0 where
  pub button_label : String
  pub title : String
  pub message : String
  pub options : List String
  pub prevent_dismiss : Bool
  pub type : String
  pub hide_icon : Bool
  pub open_flag : Bool
  -- The live timers of `show`, whose callback opens the dialog.
  pub opening : ℕ
  pub resolver : Resolver Choice

abbrev pub init : Alert
init = record {
  button_label = "OK";
  title = "";
  message = "";
  options = "OK" ∷ [];
  prevent_dismiss = false;
  type = "info";
  hide_icon = false;
  open_flag = false;
  opening = 0;
  resolver = none_shown;
}

-- The second argument of `show`, with its defaults.
pub record ShowOptions : Type 0 where
  pub title : String
  pub options : List String
  pub type : String
  pub prevent_dismiss : Bool
  pub hide_icon : Bool

abbrev pub default_options : ShowOptions
default_options = record {
  title = "";
  options = "OK" ∷ [];
  type = "info";
  prevent_dismiss = false;
  hide_icon = false;
}

unfoldable pub show : String → ShowOptions → Alert → Alert
show message o d = record d {
  message = message;
  title = o.title;
  type = o.type;
  prevent_dismiss = o.prevent_dismiss;
  options = o.options;
  hide_icon = o.hide_icon;
  opening = suc d.opening;
  resolver = new_promise d.resolver;
}

-- A timer of `show` fires.
unfoldable pub open_later : Alert → Alert
open_later d = record d { open_flag = true }

unfoldable pub icon : Alert → Option String
icon d =
    if str_eq d.type "info"
    then some "info-round"
    else if str_eq d.type "warning"
    then some "error"
    else if str_eq d.type "success"
    then some "success"
    else if str_eq d.type "question"
    then some "question"
    else none

abbrev pub after_first : Choice → Choice
after_first (index n) = index (suc n)
after_first c = c

unfoldable pub index_of : String → List String → Choice
index_of item [] = minus_one
index_of item (o ∷ options) =
    let rest = after_first (index_of item options) in if str_eq o item then index 0 else rest

unfoldable pub select_option : String → Alert → Alert
unfolding index_of
select_option item d = record d {
  open_flag = false;
  resolver = forget (resolve_if_function (index_of item d.options) d.resolver);
}

unfoldable pub dialog_dismiss : Alert → Alert
dialog_dismiss d = record d { resolver = forget (resolve_if_function undefined d.resolver) }

abbrev is_empty : String → Bool
is_empty s = str_eq s ""

unfoldable pub text_class : Alert → String
text_class d = if is_empty d.title then "" else "small"

-- `"tap tiles-" + (Math.floor((index + 1) % 8) + 1)`, a number of one digit.
unfoldable pub button_class : ℕ → Text
button_class i = codes "tap tiles-" ++ (b'0' + ((i + 1) % 8 + 1)) ∷ []

unfoldable pub hide_info : Alert → Bool
hide_info d = is_empty d.title && is_empty d.message
