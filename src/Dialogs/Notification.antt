-- ===== src/Dialogs/Notification.antt =====
-- `Notification` (`pl-notification`) and `NotificationMixin`, which shows one such element for the
-- whole page. The class list is a list of class names without repetition.
pub mod Laws
use padlock_cloud.Prelude.{
  ℕ, suc, Bool, true, false, Option, none, some, List, [], ◌∷◌, ◌++◌, String, str_eq, ◌||◌,
  if◌then◌else◌, ◌==◌,
}
use padlock_cloud.Dialogs.Resolver.{Resolver, none_shown, new_promise, resolve_if_function, forget}

pub record Notification : Type 0 where
  pub message : String
  pub type : String
  pub class_list : List String
  -- The live timers of `show`, which hide the element, by their durations.
  pub hiding : List ℕ
  pub resolver : Resolver Bool

abbrev pub contains : String → List String → Bool
contains c [] = false
contains c (d ∷ classes) = str_eq d c || contains c classes

-- `classList.add` and `classList.remove`
unfoldable pub add_class : String → List String → List String
add_class c classes = if contains c classes then classes else classes ++ c ∷ []

unfoldable pub remove_class : String → List String → List String
remove_class c [] = []
remove_class c (d ∷ classes) =
    let rest = remove_class c classes in if str_eq d c then rest else d ∷ rest

-- The observer of `type`; Polymer calls it when the value has changed.
unfoldable pub type_changed : String → String → Notification → Notification
unfolding add_class remove_class
type_changed new_type old_type n = record n {
  class_list = add_class new_type (remove_class old_type n.class_list);
}

unfoldable pub set_type : String → Notification → Notification
unfolding type_changed
set_type type n =
    if str_eq n.type type then n else type_changed type n.type (record n { type = type })

-- `if (message)`, `if (type)` and `if (duration)`: "", 0 and an argument left out are falsy.
abbrev with_message : Option String → Notification → Notification
with_message none n = n
with_message (some m) n = if str_eq m "" then n else record n { message = m }

abbrev with_type :
    (String → Notification → Notification) → Option String → Notification → Notification
with_type set none n = n
with_type set (some t) n = if str_eq t "" then n else set t n

abbrev with_timer : Option ℕ → Notification → Notification
with_timer none n = n
with_timer (some d) n = if d == 0 then n else record n { hiding = n.hiding ++ d ∷ [] }

unfoldable pub show : Option String → Option String → Option ℕ → Notification → Notification
unfolding set_type
show message type duration n =
    let n₁ = with_type set_type type (with_message message n) in
    let n₂ = with_timer duration (record n₁ { class_list = add_class "showing" n₁.class_list }) in
    record n₂ { resolver = new_promise n₂.resolver }

unfoldable pub hide : Bool → Notification → Notification
unfolding remove_class
hide clicked n = record n {
  class_list = remove_class "showing" n.class_list;
  resolver = forget (resolve_if_function clicked n.resolver);
}

unfoldable pub on_click : Notification → Notification
unfolding hide
on_click n = hide true n

-- `notificationSingleton` and its creation: the element is appended with its defaults, and the
-- observer has run for its type.
unfoldable pub created : Notification
unfolding add_class
created = record {
  message = "";
  type = "info";
  class_list = add_class "info" [];
  hiding = [];
  resolver = none_shown;
}

abbrev singleton : Option Notification → Notification
singleton none = created
singleton (some n) = n

unfoldable pub notify :
    Option String → Option String → Option ℕ → Option Notification → Option Notification
unfolding show created
notify message type duration page = some (show message type duration (singleton page))
