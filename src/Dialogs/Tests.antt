-- ===== src/Dialogs/Tests.antt =====
-- The dialogs at concrete inputs.
use padlock_cloud.Prelude.{
  ◌≤◌, ◌≡◌, ◌≢◌, refl, ◌↔◌, String, true, false, none, some, List, [], ◌∷◌, ◌++◌, map, codes, All,
}
use padlock_cloud.Promise.{fulfilled}
use padlock_cloud.Dialogs.Prompt
use padlock_cloud.Dialogs.Prompt.{
  Question, Validation, omitted, Answer, cancelled, verified, prompt,
}
use padlock_cloud.Dialogs.Prompt.Laws.{enter, confirm, run, IsAllowed, run-IsAllowed}
use padlock_cloud.Dialogs.Generator
use padlock_cloud.Dialogs.Generator.{char_set, regenerate}
use padlock_cloud.Dialogs.Queue
use padlock_cloud.Dialogs.Queue.{line_up_dialog, react_page, clear_dialogs, Status, running}
use padlock_cloud.Dialogs.Queue.Order.{job}
use padlock_cloud.Dialogs.Queue.Sequence
use padlock_cloud.Dialogs.Queue.Sequence.{running_count, Use-InOrder, two_run_after_clear}
use padlock_cloud.Dialogs.Queue.Passwords.{
  password_validation, password_validation_iff, prompt_password_sound,
}

-- A prompt that asks for the password "pw".
abbrev question : Question
question = record {
  message = omitted;
  placeholder = omitted;
  type = omitted;
  confirm_label = omitted;
  cancel_label = omitted;
  prevent_dismiss = none;
  validation = some (password_validation (codes "pw"));
}

run-IsAllowed_example :
    All
      (λ c. IsAllowed (password_validation (codes "pw")) c.1)
      (run (enter (codes "pw") ∷ confirm ∷ []) (prompt question Prompt.init)).resolver.calls
run-IsAllowed_example =
    run-IsAllowed question (password_validation (codes "pw")) Prompt.init
      (enter (codes "pw") ∷ confirm ∷ []) refl tt

-- Two digits.
abbrev digits : Generator.Generator
digits = record Generator.init { size = 2; lower = false; upper = false }

Use-InOrder_example :
    (running_count (react_page (line_up_dialog "pl-dialog-alert" Queue.init)).chain ≤ 1)
    × (rest : List String) × (map
          (λ j. j.dialog)
          (react_page (line_up_dialog "pl-dialog-alert" Queue.init)).chain
        ≡ (react_page (line_up_dialog "pl-dialog-alert" Queue.init)).shown ++ rest)
Use-InOrder_example =
    Use-InOrder (Sequence.reacted (Sequence.lined_up "pl-dialog-alert" Sequence.begun))

two_run_after_clear_example :
    let before = react_page (line_up_dialog "pl-dialog-alert" Queue.init) in
    let after = react_page (line_up_dialog "pl-dialog-prompt" (clear_dialogs before)) in
    (after.chain ≡ job "pl-dialog-prompt" running ∷ [])
    × (after.old_chains ≡ (job "pl-dialog-alert" running ∷ []) ∷ [])
two_run_after_clear_example =
    two_run_after_clear Queue.init "pl-dialog-alert" "pl-dialog-prompt" refl

password_validation_iff_example :
    (password_validation (codes "pw") (codes "pw") ≡ fulfilled (verified true))
    ↔ ((codes "pw" ≡ codes "pw") × (codes "pw" ≢ []) × (verified true ≡ verified true))
password_validation_iff_example = password_validation_iff (codes "pw") (codes "pw") (verified true)

prompt_password_sound_example :
    All
      (λ c. c.1 ≡ cancelled)
      (run (enter (codes "x") ∷ confirm ∷ []) (prompt question Prompt.init)).resolver.calls
prompt_password_sound_example =
    prompt_password_sound (codes "pw") question Prompt.init (enter (codes "x") ∷ confirm ∷ []) refl
      tt ((λ e. cc), ((λ e. cc), tt))
