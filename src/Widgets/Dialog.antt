-- ===== src/Widgets/Dialog.antt =====
-- `Dialog` (`pl-dialog`). Polymer calls the observer `_openChanged` once when the element is ready,
-- and after that whenever `open` gets another value. The only timer of the element is
-- `_hideTimeout`; what a handler asks of the page is listed as effects.
pub mod Visibility
use padlock_cloud.Prelude.{
  ℕ, Bool, true, false, ◌&&◌, not, Option, none, some, List, [], ◌∷◌, ◌++◌, String, if◌then◌else◌,
}
use padlock_cloud.Browser.Timers.{Timers, remove, set_timeout, clear_timeout}

pub record Dialog : Type 0 where
  -- `animationOptions`, which the animation mixin reads.
  pub duration : ℕ
  pub full_duration : ℕ
  pub open_flag : Bool
  pub is_showing : Bool
  pub prevent_dismiss : Bool
  -- `style.display`, and whether the class list holds "open".
  pub display : String
  pub open_class : Bool
  pub hide_timeout : Option ℕ
  pub timers : Timers (Unit {0})

unfoldable pub init : Dialog
init = record {
  duration = 500;
  full_duration = 700;
  open_flag = false;
  is_showing = false;
  prevent_dismiss = false;
  display = "";
  open_class = false;
  hide_timeout = none;
  timers = record { live = []; fresh = 0 };
}

pub data Effect : Type 0 where
  dispatch : String → Effect
  -- `padlock.Input.activeInput.blur()`
  blur_active_input : Effect
  stop_propagation prevent_default rumble_inner : Effect

-- The observer; `has_active_input` is whether an input of the page has the focus.
unfoldable pub open_changed : Bool → Dialog → Dialog × List Effect
unfolding set_timeout clear_timeout
open_changed has_active_input d =
    let cleared = clear_timeout d.hide_timeout d.timers in
    if d.open_flag
    then (
      record d { timers = cleared; display = ""; is_showing = true; open_class = true },
      (if has_active_input then blur_active_input ∷ [] else []) ++ dispatch "dialog-open" ∷ [],
    )
    else (
      record d {
        timers = set_timeout tt cleared;
        hide_timeout = some cleared.fresh;
        open_class = false;
      },
      dispatch "dialog-close" ∷ [],
    )

abbrev pub same : Bool → Bool → Bool
same true b = b
same false b = not b

-- `this.open = value`
unfoldable pub set_open : Bool → Bool → Dialog → Dialog × List Effect
unfolding open_changed
set_open has_active_input value d =
    if same d.open_flag value
    then (d, [])
    else open_changed has_active_input (record d { open_flag = value })

-- The callback of `_hideTimeout`.
unfoldable pub hide : ℕ → Dialog → Dialog
unfolding remove
hide n d = record d {
  timers = record d.timers { live = remove n d.timers.live };
  display = "none";
  is_showing = false;
}

unfoldable pub dismiss : Bool → Dialog → Dialog × List Effect
unfolding set_open
dismiss has_active_input d =
    let (closed, effects) = set_open has_active_input false d in
    if d.prevent_dismiss then (d, []) else (closed, dispatch "dialog-dismiss" ∷ effects)

-- The listener for `backbutton`.
unfoldable pub on_backbutton : Bool → Dialog → Dialog × List Effect
unfolding dismiss
on_backbutton has_active_input d =
    let (dismissed, effects) = dismiss has_active_input d in
    if d.open_flag then (dismissed, effects ++ prevent_default ∷ stop_propagation ∷ []) else (d, [])

-- `rumble` and `_preventDismiss`.
unfoldable pub rumble : List Effect
rumble = rumble_inner ∷ []

unfoldable pub on_prevent_dismiss : List Effect
on_prevent_dismiss = stop_propagation ∷ []
