-- ===== src/Dialogs/Prompt.antt =====
-- `DialogPrompt` (`pl-dialog-prompt`). The validation function belongs to the caller: it gives a
-- promise, which the browser settles later, so `_confirm` and the two continuations of its promise
-- are separate steps. A rejection carries the message to show.
pub mod Laws
pub mod Locked
use padlock_cloud.Prelude.{
  ℕ, suc, Bool, true, false, Option, none, some, List, [], ◌∷◌, String, Text, str_eq, if◌then◌else◌,
}
use padlock_cloud.Promise.{Promise, fulfilled}
use padlock_cloud.Dialogs.Resolver.{Resolver, none_shown, new_promise, resolve_if_function, forget}
use padlock_cloud.Widgets.LoadingButton
use padlock_cloud.Widgets.LoadingButton.{LoadingButton}

-- What the promise of `prompt` resolves to: `null`, the text, or what the validation gave.
pub data Answer : Type 0 where
  cancelled : Answer
  typed : Text → Answer
  verified : Bool → Answer

abbrev pub Validation : Type 0
Validation = Text → Promise String Answer

pub record Prompt : Type 0 where
  pub confirm_label : String
  pub cancel_label : String
  pub message : String
  pub open_flag : Bool
  pub placeholder : String
  pub prevent_dismiss : Bool
  pub type : String
  pub validation : Option Validation
  pub validation_message : String
  pub hide_cancel_button : Bool
  -- The inner elements `input` and `confirmButton`.
  pub input_value : Text
  pub confirm_button : LoadingButton
  pub resolver : Resolver Answer
  -- The live timers of `prompt` that focus the input, and how often `rumble` was called.
  pub focusing : ℕ
  pub rumbles : ℕ

abbrev pub init : Prompt
init = record {
  confirm_label = "OK";
  cancel_label = "Cancel";
  message = "";
  open_flag = false;
  placeholder = "";
  prevent_dismiss = true;
  type = "text";
  validation = none;
  validation_message = "";
  hide_cancel_button = false;
  input_value = [];
  confirm_button = LoadingButton.init;
  resolver = none_shown;
  focusing = 0;
  rumbles = 0;
}

-- An argument for a label: left out, `false`, or a text.
pub data Label : Type 0 where
  omitted : Label
  no_label : Label
  label : String → Label

abbrev pub or_default : Label → String → String
or_default omitted d = d
or_default no_label d = d
or_default (label s) d = if str_eq s "" then d else s

abbrev pub is_false : Label → Bool
is_false no_label = true
is_false _ = false

-- The parameter `preventDismiss = true`.
abbrev pub or_true : Option Bool → Bool
or_true none = true
or_true (some b) = b

pub record Question : Type 0 where
  pub message : Label
  pub placeholder : Label
  pub type : Label
  pub confirm_label : Label
  pub cancel_label : Label
  pub prevent_dismiss : Option Bool
  pub validation : Option Validation

unfoldable pub prompt : Question → Prompt → Prompt
prompt q d = record d {
  confirm_button = LoadingButton.stop d.confirm_button;
  message = or_default q.message "";
  type = or_default q.type "text";
  placeholder = or_default q.placeholder "";
  confirm_label = or_default q.confirm_label "OK";
  cancel_label = or_default q.cancel_label "Cancel";
  hide_cancel_button = is_false q.cancel_label;
  prevent_dismiss = or_true q.prevent_dismiss;
  validation = q.validation;
  validation_message = "";
  input_value = [];
  open_flag = true;
  focusing = suc d.focusing;
  resolver = new_promise d.resolver;
}

-- `typeof this.validationFn === "function" ? this.validationFn(val) : Promise.resolve(val)`
abbrev pub validate : Option Validation → Text → Promise String Answer
validate none val = fulfilled (typed val)
validate (some f) val = f val

-- `_confirm` up to its promise, which is returned beside the new state.
unfoldable pub on_confirm : Prompt → Prompt × Promise String Answer
on_confirm d = (
  record d { confirm_button = LoadingButton.start d.confirm_button },
  validate d.validation d.input_value,
)

-- The continuation of `then`.
unfoldable pub on_valid : Answer → Prompt → Prompt
on_valid v d = record d {
  validation_message = "";
  confirm_button = LoadingButton.success d.confirm_button;
  resolver = forget (resolve_if_function v d.resolver);
  open_flag = false;
}

-- The continuation of `catch`.
unfoldable pub on_invalid : String → Prompt → Prompt
on_invalid e d = record d {
  rumbles = suc d.rumbles;
  validation_message = e;
  confirm_button = LoadingButton.fail d.confirm_button;
}

unfoldable pub on_dismiss : Prompt → Prompt
on_dismiss d = record d {
  resolver = forget (resolve_if_function cancelled d.resolver);
  open_flag = false;
}

unfoldable pub has_message : Prompt → Bool
has_message d = if str_eq d.message "" then false else true
