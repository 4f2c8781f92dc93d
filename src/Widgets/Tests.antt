-- ===== src/Widgets/Tests.antt =====
-- The elements at concrete inputs.
use padlock_cloud.Prelude.{true, false, none}
use padlock_cloud.Widgets.Input
use padlock_cloud.Widgets.Input.{Page, mask}
use padlock_cloud.Widgets.Dialog
use padlock_cloud.Widgets.Dialog.{set_open, open_changed, dismiss, dispatch}
use padlock_cloud.Widgets.Dialog.Visibility
use padlock_cloud.Widgets.Dialog.Visibility.{Phase, Reach-Phase, dismiss_lem}

abbrev empty_page : Page
empty_page = record { inputs = λ i. Input.init; active_input = none }

Reach-Phase_example : Phase (set_open false true (open_changed false Dialog.init).0).0
Reach-Phase_example =
    Reach-Phase (Visibility.next (Visibility.ready false) (Visibility.opened false true))
