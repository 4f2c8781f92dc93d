-- ===== src/Dialogs/Promo.antt =====
-- `PlExportDialog` (`pl-promo-dialog`), the dialog that offers a promotion. `Offer` is the type of the
-- promotion that it shows.
use padlock_cloud.Prelude.{ℕ, suc, Bool, true, false, Option, none}
use padlock_cloud.Dialogs.Resolver.{Resolver, none_shown, new_promise, resolve_if_function, forget}

pub record PromoDialog (Offer : Type 0) : Type 0 where
  pub promo : Option Offer
  -- `this.$.dialog.open`
  pub open_flag : Bool
  pub opening : ℕ
  pub resolver : Resolver Bool

module _ {Offer : Type 0} where
  abbrev pub init : PromoDialog Offer
  init = record { promo = none; open_flag = false; opening = 0; resolver = none_shown }

  unfoldable pub on_dismiss : PromoDialog Offer → PromoDialog Offer
  on_dismiss d = record d {
    open_flag = false;
    resolver = forget (resolve_if_function false d.resolver);
  }

  unfoldable pub on_redeem : PromoDialog Offer → PromoDialog Offer
  on_redeem d = record d {
    open_flag = false;
    resolver = forget (resolve_if_function true d.resolver);
  }

  unfoldable pub show : PromoDialog Offer → PromoDialog Offer
  show d = record d { opening = suc d.opening; resolver = new_promise d.resolver }

  -- A timer of `show` fires.
  unfoldable pub open_later : PromoDialog Offer → PromoDialog Offer
  open_later d = record d { open_flag = true }
