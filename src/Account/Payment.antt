-- ===== src/Account/Payment.antt =====
-- `PaymentDialog` (`pl-payment-dialog`), without its prices. Stripe and the server are outside: the
-- results of `createToken` and of `source.subscribe` come in as events, each for a submission that
-- waits for it. What the dialog asks of them and of the tracking module is listed as effects.
pub mod Submission
pub mod Stuck
use padlock_cloud.Prelude.{
  ℕ, Bool, true, false, not, Option, none, some, List, [], ◌∷◌, ◌++◌, String, str_eq, if◌then◌else◌,
  ◌==◌,
}
use padlock_cloud.Dialogs.Resolver.{Resolver, none_shown, new_promise, resolve_if_function, forget}
use padlock_cloud.Widgets.LoadingButton
use padlock_cloud.Widgets.LoadingButton.{LoadingButton}
use padlock_cloud.Account.Types.{Offer, Plan}

-- `edata`, what is tracked of a submission; `none` is a property that is not set.
pub record EventData : Type 0 where
  pub plan : Option String
  pub source : String
  pub success : Bool
  pub token_created : Bool
  pub coupon : String
  pub error_code : Option String
  pub error_type : Option String
  pub error_message : Option String

pub data Effect : Type 0 where
  setup_payment : Effect
  track_open : Option String → String → Effect
  create_token : Effect
  subscribe : (token coupon source : String) → Effect
  track_submit : EventData → Effect
  open_window : String → Effect

-- A submission that waits for Stripe, or for the server.
pub data Waiting : Type 0 where
  for_token : (coupon : String) → Waiting
  for_server : EventData → Waiting

pub record PaymentDialog : Type 0 where
  pub open_flag : Bool
  pub promo : Option Offer
  pub plan : Option Plan
  pub stripe_pub_key : String
  pub csrf_token : String
  pub remaining_trial_days : ℕ
  pub card_error : String
  pub needs_support : Bool
  -- `_source`, where the dialog was opened from.
  pub opened_from : String
  -- Whether `_cardElement` is set. The variable `stripe` of the module is set by the same callback,
  -- and the page has one payment dialog, so this is also whether `stripe` is set.
  pub has_card_element : Bool
  -- `_submittingCard`
  pub submitting_card : Bool
  pub submit_button : LoadingButton
  pub resolver : Resolver Bool
  -- The promises of `createToken` and of `subscribe` that are not settled.
  pub in_flight : List Waiting

abbrev pub init : PaymentDialog
init = record {
  open_flag = false;
  promo = none;
  plan = none;
  stripe_pub_key = "";
  csrf_token = "";
  remaining_trial_days = 0;
  card_error = "";
  needs_support = false;
  opened_from = "";
  has_card_element = false;
  submitting_card = false;
  submit_button = LoadingButton.init;
  resolver = none_shown;
  in_flight = [];
}

abbrev pub plan_id : Option Plan → Option String
plan_id none = none
plan_id (some p) = some p.id

-- `this.promo && this.promo.coupon.id || ""`
abbrev pub coupon_id : Option Offer → String
coupon_id none = ""
coupon_id (some o) = o.coupon.id

unfoldable pub show : String → PaymentDialog → PaymentDialog × List Effect
show source d = (
  record d {
    needs_support = false;
    card_error = "";
    open_flag = true;
    opened_from = source;
    resolver = new_promise d.resolver;
  },
  (if d.has_card_element then [] else setup_payment ∷ [])
      ++ track_open (plan_id d.plan) source ∷ [],
)

-- `_setupPayment`, when Stripe's script has loaded.
unfoldable pub card_created : PaymentDialog → PaymentDialog
card_created d = record d { has_card_element = true }

-- The card element's `change`: its message, or "".
unfoldable pub card_changed : String → PaymentDialog → PaymentDialog
card_changed message d = record d { card_error = message }

-- `this.$.submitButton.start()` and `_submittingCard = true`
abbrev pub started : PaymentDialog → PaymentDialog
started d = record d { submit_button = LoadingButton.start d.submit_button; submitting_card = true }

-- `stripe.createToken(this._cardElement)`: where `stripe` is not set, the call throws, and nothing is
-- asked for. The effect stands for the call on Stripe.
abbrev pub create_card_token : PaymentDialog → PaymentDialog × List Effect
create_card_token d =
    if d.has_card_element
    then (record d { in_flight = for_token (coupon_id d.promo) ∷ d.in_flight }, create_token ∷ [])
    else (d, [])

unfoldable pub submit_card : PaymentDialog → PaymentDialog × List Effect
submit_card d = if d.submitting_card then (d, []) else create_card_token (started d)

abbrev submitted : PaymentDialog → String → EventData
submitted d coupon = record {
  plan = plan_id d.plan;
  source = d.opened_from;
  success = true;
  token_created = true;
  coupon = coupon;
  error_code = none;
  error_type = none;
  error_message = none;
}

-- The continuation of `createToken` with `result.error`; `rest` are the other promises.
unfoldable pub token_failed :
    (code type message coupon : String) → List Waiting → PaymentDialog → PaymentDialog × List Effect
token_failed code type message coupon rest d = (
  record d {
    submit_button = LoadingButton.fail d.submit_button;
    submitting_card = false;
    in_flight = rest;
  },
  track_submit (record (submitted d coupon) {
    error_code = some code;
    error_type = some type;
    error_message = some message;
    success = false;
    token_created = false;
  })
      ∷ [],
)

-- The same with `result.token`.
unfoldable pub token_made :
    (token coupon : String) → List Waiting → PaymentDialog → PaymentDialog × List Effect
token_made token coupon rest d = (
  record d { in_flight = for_server (submitted d coupon) ∷ rest },
  subscribe token coupon d.opened_from ∷ [],
)

-- The continuations of `subscribe`.
unfoldable pub subscribed : EventData → List Waiting → PaymentDialog → PaymentDialog × List Effect
subscribed edata rest d = (
  record d {
    submit_button = LoadingButton.success d.submit_button;
    resolver = forget (resolve_if_function true d.resolver);
    submitting_card = false;
    open_flag = false;
    in_flight = rest;
  },
  track_submit edata ∷ [],
)

unfoldable pub subscribe_failed :
    (code message : String) → EventData → List Waiting → PaymentDialog → PaymentDialog × List Effect
subscribe_failed code message edata rest d = (
  record d {
    submit_button = LoadingButton.fail d.submit_button;
    submitting_card = false;
    card_error = message;
    needs_support = true;
    in_flight = rest;
  },
  track_submit
        (record edata { error_code = some code; error_message = some message; success = false })
      ∷ [],
)

unfoldable pub has_error : PaymentDialog → Bool
has_error d = not (str_eq d.card_error "")

unfoldable pub on_dismiss : PaymentDialog → PaymentDialog
on_dismiss d = record d { resolver = forget (resolve_if_function false d.resolver) }

unfoldable pub open_support : List Effect
open_support = open_window "mailto:support@padlock.io" ∷ []

unfoldable pub trial_expired : PaymentDialog → Bool
trial_expired d = d.remaining_trial_days == 0

abbrev is_some_plan : Option Plan → Bool
is_some_plan none = false
is_some_plan (some _) = true

unfoldable pub has_plan : PaymentDialog → Bool
has_plan d = is_some_plan d.plan

unfoldable pub submit_label : PaymentDialog → String
submit_label d = if is_some_plan d.plan then "Upgrade Now" else "Submit"
