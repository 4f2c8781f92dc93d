-- ===== src/Dashboard/Texts.antt =====
-- The fixed texts of the dashboard, and the label of a card.
use padlock_cloud.Prelude.{Option, none, some, Text, codes, ◌++◌}
use padlock_cloud.Dashboard.{Message, l}

unfoldable pub reset_data_text : Message
reset_data_text =
    l
      "Want to start from scratch? Here you can reset your online vault data in case you lost your master password or simply want to start over. Your connected devices, billing information and subscription status will remain unaffected."

unfoldable pub confirm_reset_data_text : Message
confirm_reset_data_text =
    l
      "Are you sure you want to reset your online vault data? This action can not be undone! (Data stored locally on your devices will not be affected)"

unfoldable pub cancel_subscription_text : Message
cancel_subscription_text =
    l
      "Are you sure you want to cancel your subscription? Without an active subscription your access will be read-only, which means you won't be able to upload any new data or synchronize changes between devices!"

pub record Card : Type 0 where
  pub brand : Text
  pub last_four : Text

-- `s && …`; `none` is a missing source.
unfoldable pub payment_source_label : Option Card → Option Text
payment_source_label none = none
payment_source_label (some s) = some (s.brand ++ (codes " •••• •••• •••• " ++ s.last_four))
