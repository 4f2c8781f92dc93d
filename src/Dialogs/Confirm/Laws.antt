-- ===== src/Dialogs/Confirm/Laws.antt =====
-- How a confirmation is answered.
use padlock_cloud.Prelude.{◌≡◌, refl, true, false, Option, none, ◌∷◌, String, arith}
use padlock_cloud.Dialogs.Confirm.{Confirm, confirm, on_confirm, on_cancel}

-- After `confirm`, either answer settles the new promise with that answer, closes the dialog and
-- does not throw; either handler that runs next throws.
pub confirm_answers :
    (d : Confirm) (m l c : Option String)
    → let yes' = on_confirm (confirm m l c d) in
      let no' = on_cancel (confirm m l c d) in
      (yes'.threw ≡ false)
      × (no'.threw ≡ false)
      × (yes'.after.resolver.calls ≡ (d.resolver.next, true) ∷ d.resolver.calls)
      × (no'.after.resolver.calls ≡ (d.resolver.next, false) ∷ d.resolver.calls)
      × (yes'.after.open_flag ≡ false)
      × (no'.after.open_flag ≡ false)
      × ((on_confirm yes'.after).threw ≡ true)
      × ((on_cancel yes'.after).threw ≡ true)
      × ((on_confirm no'.after).threw ≡ true)
      × ((on_cancel no'.after).threw ≡ true)
unfolding confirm on_confirm on_cancel
confirm_answers d m l c = (refl, refl, refl, refl, refl, refl, refl, refl, refl, refl)

-- A dialog that waits for no answer, such as one that was opened by its property, dispatches its
-- event and closes, and then throws: the test for a function does not guard the call.
pub unguarded_call_throws :
    (d : Confirm)
    → d.resolver.resolve ≡ none
    → ((on_confirm d).threw ≡ true)
      × ((on_cancel d).threw ≡ true)
      × ((on_confirm d).after.events ≡ "dialog-confirm" ∷ d.events)
      × ((on_cancel d).after.events ≡ "dialog-cancel" ∷ d.events)
      × ((on_confirm d).after.resolver.calls ≡ d.resolver.calls)
      × ((on_cancel d).after.resolver.calls ≡ d.resolver.calls)
unfolding on_confirm on_cancel
unguarded_call_throws d h =
    (ground arith, ground arith, ground arith, ground arith, ground arith, ground arith)
