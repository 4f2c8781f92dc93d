-- ===== src/Widgets/Toggle.antt =====
-- `Toggle` (`pl-toggle`) and `ToggleButton` (`pl-toggle-button`).
use padlock_cloud.Prelude.{Bool, false, not, List, [], ◌∷◌, String, if◌then◌else◌}

pub record Toggle : Type 0 where
  pub active : Bool
  pub notap : Bool

unfoldable pub init : Toggle
init = record { active = false; notap = false }

-- A method returns the new element and the events that it dispatches.
unfoldable pub toggle : Toggle → Toggle × List String
toggle t = (record t { active = not t.active }, "change" ∷ [])

-- The listener for `click`, added when the element is connected.
unfoldable pub tap : Toggle → Toggle × List String
unfolding toggle
tap t = if t.notap then (t, []) else toggle t

-- The button's `active` is bound to that of its inner toggle.
pub record ToggleButton : Type 0 where
  pub inner : Toggle
  pub label : String
  pub reverse : Bool

unfoldable pub init_button : ToggleButton
unfolding init
init_button = record { inner = init; label = ""; reverse = false }

unfoldable pub toggle_button : ToggleButton → ToggleButton × List String
unfolding toggle
toggle_button b = let (t, events) = toggle b.inner in (record b { inner = t }, events)
