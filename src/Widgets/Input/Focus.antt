-- ===== src/Widgets/Input/Focus.antt =====
-- `activeInput` and the focus.
use padlock_cloud.Prelude.{ℕ, ◌≡◌, Bool, true, Option, some, List, [], ◌∷◌, arith}
use padlock_cloud.Widgets.Input.{Page, on_focused, on_blurred, on_value_changed}

-- The handlers that change the page: an input gains or loses the focus, or its value changes.
pub data Event : Type 0 where
  focused blurred : ℕ → Event
  value_changed : ℕ → Option Bool → Event

abbrev pub step : Event → Page → Page
step (focused i) page = (on_focused i page).0
step (blurred i) page = (on_blurred i page).0
step (value_changed i validity) page = (on_value_changed i validity page).0

abbrev pub run : List Event → Page → Page
run [] page = page
run (e ∷ es) page = run es (step e page)

-- The input that `activeInput` names is focused.
abbrev pub IsTracked : Page → Type 0
IsTracked page = (i : ℕ) → page.active_input ≡ some i → (page.inputs i).focused ≡ true

step-IsTracked : (e : Event) (page : Page) → IsTracked page → IsTracked (step e page)
unfolding on_focused on_blurred on_value_changed
step-IsTracked (focused j) page h i e = ground (arith, h i)
step-IsTracked (blurred j) page h i e = ground (arith, h i)
step-IsTracked (value_changed j v) page h i e = ground (arith, h i)

-- If the active input is focused at first, it is after any events; in particular where the browser
-- reports the loss of the focus after the next input has gained it.
pub run-IsTracked : (es : List Event) (page : Page) → IsTracked page → IsTracked (run es page)
run-IsTracked [] page h = h
run-IsTracked (e ∷ es) page h = run-IsTracked es (step e page) (step-IsTracked e page h)
