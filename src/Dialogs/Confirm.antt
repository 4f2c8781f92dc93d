-- ===== src/Dialogs/Confirm.antt =====
-- `DialogConfirm` (`pl-dialog-confirm`). Its handlers test `typeof (… === "function")`, which is the
-- text "boolean" whatever the field holds, and so always call the field: a call of `null` or
-- `undefined` throws a TypeError.
pub mod Laws
use padlock_cloud.Prelude.{
  ℕ, Bool, true, false, Option, none, some, List, [], ◌∷◌, String, str_eq, if◌then◌else◌,
}
use padlock_cloud.Dialogs.Resolver.{Resolver, none_shown, new_promise, resolve_if_function, forget}

pub record Confirm : Type 0 where
  pub confirm_label : String
  pub cancel_label : String
  pub message : String
  pub open_flag : Bool
  pub resolver : Resolver Bool
  -- The events dispatched, the last first.
  pub events : List String

abbrev pub default_message : String
default_message = "Are you sure you want to do this?"

abbrev pub init : Confirm
init = record {
  confirm_label = "Confirm";
  cancel_label = "Cancel";
  message = default_message;
  open_flag = false;
  resolver = none_shown;
  events = [];
}

-- `text || default`; `none` is an argument left out.
abbrev pub or_default : Option String → String → String
or_default none d = d
or_default (some s) d = if str_eq s "" then d else s

unfoldable pub confirm : Option String → Option String → Option String → Confirm → Confirm
confirm message confirm_label cancel_label d = record d {
  message = or_default message default_message;
  confirm_label = or_default confirm_label "Confirm";
  cancel_label = or_default cancel_label "Cancel";
  open_flag = true;
  resolver = new_promise d.resolver;
}

-- What a handler leaves, and whether it threw.
pub record Handled : Type 0 where
  pub after : Confirm
  pub threw : Bool

-- `this._resolve(answer); this._resolve = null`
abbrev answer_with : Bool → Option ℕ → Confirm → Handled
answer_with answer none d = record { after = d; threw = true }
answer_with answer (some n) d = record {
  after = record d { resolver = forget (resolve_if_function answer d.resolver) };
  threw = false;
}

unfoldable pub on_confirm : Confirm → Handled
on_confirm d =
    answer_with true d.resolver.resolve
      (record d { events = "dialog-confirm" ∷ d.events; open_flag = false })

unfoldable pub on_cancel : Confirm → Handled
on_cancel d =
    answer_with false d.resolver.resolve
      (record d { events = "dialog-cancel" ∷ d.events; open_flag = false })
