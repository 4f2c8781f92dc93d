-- ===== src/Dashboard/Tests.antt =====
-- The dashboard at concrete pages.
use padlock_cloud.Prelude.{◌≡◌, false, none, some, [], ◌∷◌, codes, All}
use padlock_cloud.Account.Types.{Account}
use padlock_cloud.Account.Payment
use padlock_cloud.Account.Payment.{for_token, submit_card, token_made}
use padlock_cloud.Dialogs.Prompt
use padlock_cloud.Dialogs.Prompt.{prompt}
use padlock_cloud.Dialogs.Prompt.Laws.{enter, confirm, dismiss, run}
use padlock_cloud.Widgets.LoadingButton
use padlock_cloud.Dashboard.{Dashboard}
use padlock_cloud.Dashboard.Deletion.{delete_account, deletion_answered}
use padlock_cloud.Dashboard.Laws.{deletion_needs_delete}

abbrev trial_account : Account
trial_account = record {
  status = "trialing";
  trial_end = none;
  promo = some (record {
    created = 0;
    redeem_within = 0;
    coupon = record { id = "SAVE"; percent_off = 20; amount_off = 0 };
  });
  plan = some (record { id = "yearly"; amount = 3490 });
  devices = [];
}

abbrev page : Dashboard
page = record {
  account = trial_account;
  action = "subscribe";
  token = record { token_id = "t1"; description = "Phone" };
  csrf_token = "csrf";
  stripe_pub_key = "pk";
  referer = "mail";
  show_advanced = false;
  payment_dialog = Payment.init;
  delete_store_open = false;
  revoke_device_open = false;
  cancel_subscription_open = false;
  billing_open = false;
  invoices_open = false;
  invoices = none;
  revoked_device_id = none;
  revoke_device_message = none;
  delete_account_button = LoadingButton.init;
  first_opened = none;
}

deletion_needs_delete_example :
    All
      (λ c. deletion_answered c.1 page ≡ (page, []))
      (run
        (enter (codes "x") ∷ confirm ∷ dismiss ∷ [])
        (prompt delete_account Prompt.init)).resolver.calls
deletion_needs_delete_example =
    deletion_needs_delete page Prompt.init (enter (codes "x") ∷ confirm ∷ dismiss ∷ []) tt
      ((λ e. cc), ((λ e. cc), ((λ e. cc), tt)))
