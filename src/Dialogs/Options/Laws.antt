-- ===== src/Dialogs/Options/Laws.antt =====
-- How the promises of an options dialog and of a promotion dialog are settled.
use padlock_cloud.Prelude.{Bool, true, false, Option, List, String}
use padlock_cloud.Dialogs.Resolver.Once.{
  SettlesOnce, none_shown-SettlesOnce, new_promise-SettlesOnce, settle-SettlesOnce,
}
use padlock_cloud.Dialogs.Alert.{Choice, minus_one, index_of}
use padlock_cloud.Dialogs.Options
use padlock_cloud.Dialogs.Options.{DialogOptions}
use padlock_cloud.Dialogs.Promo
use padlock_cloud.Dialogs.Promo.{PromoDialog}

-- What can happen to a dialog with options.
pub data OptionsReach : DialogOptions → Type 0 where
  initial : OptionsReach Options.init
  chosen :
      {d : DialogOptions} (message : Option String) (options : Option (List String))
      → OptionsReach d
      → OptionsReach (Options.choose message options d)
  opened : {d : DialogOptions} → OptionsReach d → OptionsReach (Options.open_later d)
  selected :
      {d : DialogOptions} (item : String)
      → OptionsReach d
      → OptionsReach (Options.select_option item d)
  dismissed : {d : DialogOptions} → OptionsReach d → OptionsReach (Options.on_dismiss d)

-- In any use of a dialog with options, no promise is settled twice, and the one that is waited for
-- is not yet settled.
pub OptionsReach-SettlesOnce : {d : DialogOptions} → OptionsReach d → SettlesOnce Choice d.resolver
unfolding Options.choose Options.open_later Options.select_option Options.on_dismiss
OptionsReach-SettlesOnce initial = none_shown-SettlesOnce
OptionsReach-SettlesOnce (chosen {d} m o r) =
    new_promise-SettlesOnce d.resolver (OptionsReach-SettlesOnce r)
OptionsReach-SettlesOnce (opened r) = OptionsReach-SettlesOnce r
OptionsReach-SettlesOnce (selected {d} item r) =
    settle-SettlesOnce (index_of item d.options) d.resolver (OptionsReach-SettlesOnce r)
OptionsReach-SettlesOnce (dismissed {d} r) =
    settle-SettlesOnce minus_one d.resolver (OptionsReach-SettlesOnce r)

module _ {Offer : Type 0} where
  -- What can happen to a promotion dialog.
  pub data PromoReach : PromoDialog Offer → Type 0 where
    initial : PromoReach Promo.init
    shown : {d : PromoDialog Offer} → PromoReach d → PromoReach (Promo.show d)
    opened : {d : PromoDialog Offer} → PromoReach d → PromoReach (Promo.open_later d)
    dismissed : {d : PromoDialog Offer} → PromoReach d → PromoReach (Promo.on_dismiss d)
    redeemed : {d : PromoDialog Offer} → PromoReach d → PromoReach (Promo.on_redeem d)

  -- In any use of a promotion dialog, no promise is settled twice, and the one that is waited for is
  -- not yet settled.
  pub PromoReach-SettlesOnce : {d : PromoDialog Offer} → PromoReach d → SettlesOnce Bool d.resolver
  unfolding Promo.show Promo.open_later Promo.on_dismiss Promo.on_redeem
  PromoReach-SettlesOnce initial = none_shown-SettlesOnce
  PromoReach-SettlesOnce (shown {d} r) =
      new_promise-SettlesOnce d.resolver (PromoReach-SettlesOnce r)
  PromoReach-SettlesOnce (opened r) = PromoReach-SettlesOnce r
  PromoReach-SettlesOnce (dismissed {d} r) =
      settle-SettlesOnce false d.resolver (PromoReach-SettlesOnce r)
  PromoReach-SettlesOnce (redeemed {d} r) =
      settle-SettlesOnce true d.resolver (PromoReach-SettlesOnce r)
