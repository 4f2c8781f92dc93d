-- ===== src/Dashboard/Deletion.antt =====
-- `_deleteAccount`: the prompt, and what follows its answer and the request.
use padlock_cloud.Prelude.{
  text_eq, Bool, true, false, some, List, [], ◌∷◌, String, codes, if◌then◌else◌,
}
use padlock_cloud.Promise.{fulfilled, rejected}
use padlock_cloud.Widgets.LoadingButton
use padlock_cloud.Dialogs.Prompt.{Answer, verified, Question, Validation, label}
use padlock_cloud.Dashboard.{Effect, request, alert, close_window, Dashboard}
use padlock_cloud.Dashboard.Payments.{form_headers}

unfoldable pub delete_validation : Validation
delete_validation val =
    if text_eq val (codes "DELETE")
    then fulfilled (verified true)
    else rejected "Type 'DELETE' to confirm!"

-- The labels in the language of the messages.
unfoldable pub delete_account : Question
delete_account = record {
  message = label "Are you sure you want to delete your Padlock online account?";
  placeholder = label "Type 'DELETE' To Confirm";
  type = label "text";
  confirm_label = label "Delete Account";
  cancel_label = label "Cancel";
  prevent_dismiss = some false;
  validation = some delete_validation;
}

-- `confirmed === true`
abbrev is_confirmed : Answer → Bool
is_confirmed (verified b) = b
is_confirmed _ = false

-- The continuation of the prompt.
unfoldable pub deletion_answered : Answer → Dashboard → Dashboard × List Effect
deletion_answered answer d =
    if is_confirmed answer
    then (
      record d { delete_account_button = LoadingButton.start d.delete_account_button },
      request "POST" "/deleteaccount/" (("gorilla.csrf.Token", d.csrf_token) ∷ []) form_headers
          ∷ [],
    )
    else (d, [])

-- The continuations of the request, and that of the alert, which closes the window.
unfoldable pub deletion_done : Dashboard → Dashboard × List Effect
deletion_done d = (
  record d { delete_account_button = LoadingButton.success d.delete_account_button },
  alert (record { msg = "Account deleted successfully. Sorry to see you go!"; args = [] }) "success"
      ∷ [],
)

unfoldable pub deletion_acknowledged : List Effect
deletion_acknowledged = close_window ∷ []

unfoldable pub deletion_failed : String → Dashboard → Dashboard × List Effect
deletion_failed message d = (
  record d { delete_account_button = LoadingButton.fail d.delete_account_button },
  alert (record { msg = message; args = [] }) "warning" ∷ [],
)
