-- ===== src/Dashboard/Payments.antt =====
-- The requests of the dashboard on the subscription: `subscribe`, `_refreshAccount`, what follows a
-- purchase, `_updatePaymentMethod`, `_reactivateSubscription` and `_showInvoices`.
-- `URLSearchParams` encodes a form, which stays a list of pairs here; its keys are distinct.
use padlock_cloud.Prelude.{
  Bool, true, Option, none, some, List, [], ◌∷◌, ◌++◌, String, if◌then◌else◌,
}
use padlock_cloud.Json.{Json}
use padlock_cloud.Account.Types.{Account}
use padlock_cloud.Account.Payment
use padlock_cloud.Widgets.LoadingButton
use padlock_cloud.Widgets.LoadingButton.{LoadingButton}
use padlock_cloud.Dashboard.{l, Effect, request, alert, notify_now, Dashboard, of_payment}

abbrev pub form_headers : List (String × String)
form_headers =
    ("Content-Type", "application/x-www-form-urlencoded") ∷ ("Accept", "application/json") ∷ []

-- An argument that is left out is "".
abbrev or_empty : Option String → String
or_empty none = ""
or_empty (some s) = s

unfoldable pub subscribe : (stripe_token coupon source : Option String) → Dashboard → List Effect
subscribe stripe_token coupon source d =
    request "POST" "/subscribe/"
      (("stripeToken", or_empty stripe_token)
        ∷ ("coupon", or_empty coupon)
        ∷ ("source", or_empty source)
        ∷ ("gorilla.csrf.Token", d.csrf_token)
        ∷ [])
      form_headers
    ∷ []

unfoldable pub refresh_account : List Effect
refresh_account = request "GET" "/account/" [] [] ∷ []

-- The response has been parsed.
unfoldable pub account_received : Account → Dashboard → Dashboard
account_received a d = record d { account = a }

-- The continuation of the payment dialog's promise in `_buySubscription`.
unfoldable pub bought : Bool → List Effect
unfolding refresh_account
bought success =
    if success
    then refresh_account
      ++ alert (l "Congratulations, you've successfully upgraded to Padlock Pro!") "success" ∷ []
    else []

unfoldable pub update_payment_method : Dashboard → Dashboard × List Effect
update_payment_method d =
    of_payment d (Payment.show "Dashboard" (record d.payment_dialog { plan = none }))

unfoldable pub payment_updated : Bool → List Effect
unfolding refresh_account
payment_updated success =
    if success
    then refresh_account ++ notify_now (l "Payment method updated successfully!") "info" 2000 ∷ []
    else []

unfoldable pub reactivate_subscription : Dashboard → List Effect
unfolding subscribe
reactivate_subscription d = subscribe none none (some "Dashboard") d

unfoldable pub reactivated : List Effect
unfolding refresh_account
reactivated = refresh_account ++ alert (l "Subscription reactivated successfully!") "success" ∷ []

-- The message of an error is shown as it is.
unfoldable pub reactivation_failed : String → List Effect
reactivation_failed message = alert (record { msg = message; args = [] }) "warning" ∷ []

-- `_showInvoices` with the button that was tapped, and the continuation of its request; a request
-- that fails has none.
unfoldable pub show_invoices : LoadingButton → LoadingButton × List Effect
show_invoices button = (
  LoadingButton.start button,
  request "GET" "/invoices/" [] (("Accept", "application/json") ∷ []) ∷ [],
)

unfoldable pub invoices_received : Json → LoadingButton → Dashboard → LoadingButton × Dashboard
invoices_received parsed button d =
    (LoadingButton.success button, record d { invoices = some parsed; invoices_open = true })
