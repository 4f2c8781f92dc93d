-- ===== src/Dashboard.antt =====
-- `Dashboard` (`pl-cloud-dashboard`) of assets/static/elements/cloud-dashboard/cloud-dashboard.js.
-- What a handler asks of the page, of the dialogs and of the server is listed as effects; what
-- follows when a promise is settled is a function of its own. `$l` keeps its arguments, which
-- Localize.antt turns into a text.
pub mod Texts
pub mod Payments
pub mod Deletion
pub mod Laws
mod Tests
use padlock_cloud.Prelude.{
  ℕ, Bool, true, false, not, Option, none, some, List, [], ◌∷◌, ◌++◌, String, str_eq, if◌then◌else◌,
}
use padlock_cloud.Json.{Json}
use padlock_cloud.Account.Types.{Account, Device, Plan, Offer}
use padlock_cloud.Account.Subscription.{is_sub_active}
use padlock_cloud.Account.Payment
use padlock_cloud.Account.Payment.{PaymentDialog}
use padlock_cloud.Widgets.LoadingButton
use padlock_cloud.Widgets.LoadingButton.{LoadingButton}

-- `$l(msg, ...args)`
pub record Message : Type 0 where
  pub msg : String
  pub args : List String

abbrev pub l : String → Message
l msg = record { msg = msg; args = [] }

pub data Effect : Type 0 where
  -- `animateCascade` over the sections, and the attribute `ready`, after a time.
  present_after : ℕ → Effect
  notify_after : (delay : ℕ) → Message → (type : String) → (duration : ℕ) → Effect
  notify_now : Message → (type : String) → (duration : ℕ) → Effect
  alert : Message → (type : String) → Effect
  choose : Message → List Message → (title : String) → Effect
  track : String → Effect
  payment : Payment.Effect → Effect
  -- A request with its form or none, and the headers as pairs.
  request : (method url : String) (form headers : List (String × String)) → Effect
  open_window : (url target : String) → Effect
  set_location : String → Effect
  set_location_after : ℕ → String → Effect
  close_window : Effect
  -- `notifyPath("account.promo")`
  notify_promo : Effect

-- Each dialog is the property `open` of an element of the template.
pub record Dashboard : Type 0 where
  pub account : Account
  pub action : String
  pub token : Device
  pub csrf_token : String
  pub stripe_pub_key : String
  pub referer : String
  pub show_advanced : Bool
  pub payment_dialog : PaymentDialog
  pub delete_store_open : Bool
  pub revoke_device_open : Bool
  pub cancel_subscription_open : Bool
  pub billing_open : Bool
  pub invoices_open : Bool
  pub invoices : Option Json
  pub revoked_device_id : Option String
  pub revoke_device_message : Option Message
  pub delete_account_button : LoadingButton
  -- `localStorage.getItem("firstOpened")`: a time that was set is a non-empty text.
  pub first_opened : Option ℕ

-- `e && e.target.dataset.source || this.referer`; `none` where there is no event or no source.
abbrev pub source_or_referer : Option String → String → String
source_or_referer none referer = referer
source_or_referer (some s) referer = if str_eq s "" then referer else s

abbrev pub of_payment : Dashboard → PaymentDialog × List Payment.Effect → Dashboard × List Effect
of_payment d (p, effects) = (record d { payment_dialog = p }, as_effects effects)
  where
    as_effects : List Payment.Effect → List Effect
    as_effects [] = []
    as_effects (e ∷ es) = payment e ∷ as_effects es

-- `_buySubscription` up to the promise of the payment dialog.
unfoldable pub buy_subscription : Option String → Dashboard → Dashboard × List Effect
buy_subscription source d = of_payment d (
    Payment.show (source_or_referer source d.referer)
      (record d.payment_dialog { promo = d.account.promo; plan = d.account.plan }))

-- The notification of an action, 500 ms after the page has loaded.
abbrev soon : Message → List Effect
soon m = notify_after 500 m "info" 3000 ∷ []

-- The `switch` on the action.
unfoldable pub on_action : Dashboard → Dashboard × List Effect
unfolding buy_subscription
on_action d =
    let a = d.action in
    if str_eq a "paired"
    then (d, soon (record { msg = "{0} paired successfully!"; args = d.token.description ∷ [] }))
    else if str_eq a "revoked"
    then (
      d,
      soon (record {
        msg = "Access for {0} revoked successfully!";
        args = d.token.description ∷ [];
      }),
    )
    else if str_eq a "reset"
    then (d, soon (l "Successfully reset data!"))
    else if str_eq a "subscribed"
    then (d, soon (l "Subscription added successfully!"))
    else if str_eq a "unsubscribed"
    then (d, soon (l "Subscription canceled successfully!"))
    else if str_eq a "payment-updated"
    then (d, soon (l "Payment method updated successfully!"))
    else if str_eq a "subscribe"
    then if not (is_sub_active (some d.account)) then buy_subscription none d else (d, [])
    else (d, [])

abbrev pub welcome : Effect
welcome =
    choose
      (l
        "This is where you can manage your Padlock online account and see all your paired devices. You won't be able to access any of your actual data here, though, that can only be done from the Padlock app!")
      (l "Got it!" ∷ []) "Welcome To Your Dashboard!"

-- The test of `firstOpened`, and what follows it.
abbrev pub first_visit : ℕ → Option ℕ → Dashboard → Dashboard × List Effect
first_visit now none d = (record d { first_opened = some now }, welcome ∷ [])
first_visit now (some t) d = (d, [])

-- `connectedCallback` at a time.
unfoldable pub connected : ℕ → Dashboard → Dashboard × List Effect
connected now d =
    let (d₁, acted) = on_action d in
    let (d₂, greeted) = first_visit now d₁.first_opened d₁ in
    (d₂, present_after 100 ∷ (acted ++ (greeted ++ track "Dashboard: Finish Loading" ∷ [])))

unfoldable pub reset_data : Dashboard → Dashboard
reset_data d = record d { delete_store_open = true }

unfoldable pub revoke_device : Device → Dashboard → Dashboard
revoke_device item d = record d {
  revoked_device_id = some item.token_id;
  revoke_device_message = some (record {
    msg = "Are you sure you want to revoke access for \"{0}\"?";
    args = item.description ∷ [];
  });
  revoke_device_open = true;
}

unfoldable pub cancel_subscription : Dashboard → Dashboard
cancel_subscription d = record d { cancel_subscription_open = true }

unfoldable pub open_billing_dialog : Dashboard → Dashboard
open_billing_dialog d = record d { billing_open = true }

unfoldable pub show_advanced_options : Dashboard → Dashboard
show_advanced_options d = record d { show_advanced = true }

abbrev no_devices : List Device → Bool
no_devices [] = true
no_devices (_ ∷ _) = false

unfoldable pub has_no_devices : Dashboard → Bool
has_no_devices d = no_devices d.account.devices

unfoldable pub promo_expired : List Effect
promo_expired = notify_promo ∷ []

unfoldable pub download_app : List Effect
download_app = open_window "https://padlock.io/downloads/" "_blank" ∷ []

-- `_back`, and the continuation of its promise.
unfoldable pub back : List Effect
back = track "Dashboard: Back" ∷ set_location "padlock://?ref=dashboard" ∷ []

unfoldable pub back_tracked : List Effect
back_tracked = set_location_after 200 "https://padlock.io/" ∷ []
