-- ===== src/Account/Subscription.antt =====
-- `SubInfoMixin`. The clock is an argument, in milliseconds; `settings` is a property that the mixin
-- reads and does not declare: `none` where the element has none, and then the read throws.
pub mod Laws
use padlock_cloud.Prelude.{
  ℕ, ◌+◌, ◌-◌, ◌*◌, ◌/◌, Bool, true, false, not, ◌&&◌, ◌||◌, Option, none, some, String, str_eq,
  ◌==◌, if◌then◌else◌,
}
use padlock_cloud.Util.Dates.{MomentLibrary, is_future}
use padlock_cloud.Account.Types.{Account, Offer}

-- `subStatus`, the status of the account's subscription; `""` while there is no account.
unfoldable pub sub_status : Option Account → String
sub_status none = ""
sub_status (some a) = a.status

unfoldable pub is_trialing : Option Account → Bool
unfolding sub_status
is_trialing a = str_eq (sub_status a) "trialing"

unfoldable pub is_trial_expired : Option Account → Bool
unfolding sub_status
is_trial_expired a = str_eq (sub_status a) "trial_expired"

unfoldable pub is_sub_canceled : Option Account → Bool
unfolding sub_status
is_sub_canceled a = str_eq (sub_status a) "canceled"

unfoldable pub is_sub_unpaid : Option Account → Bool
unfolding sub_status
is_sub_unpaid a = str_eq (sub_status a) "unpaid" || str_eq (sub_status a) "past_due"

unfoldable pub is_sub_active : Option Account → Bool
unfolding sub_status
is_sub_active a = str_eq (sub_status a) "active"

-- `none`: the read of `this.settings.syncConnected` throws.
unfoldable pub is_sub_valid : Option Bool → Option Account → Option Bool
unfolding sub_status
is_sub_valid none a = none
is_sub_valid (some sync_connected) a =
    let s = sub_status a in
    some (sync_connected && (str_eq s "" || str_eq s "active" || str_eq s "trialing"))

-- `trialEnd ? parseInt(trialEnd, 10) : now`, in milliseconds.
abbrev pub trial_end_ms : ℕ → Option ℕ → ℕ
trial_end_ms now none = now
trial_end_ms now (some s) = if s == 0 then now else s * 1000

-- `Math.max(0, Math.ceil((trialEnd - now) / 60 / 60 / 24))`: below 0 the truncated difference is 0,
-- and so is the maximum.
unfoldable pub compute_remaining_trial_days : ℕ → Option ℕ → ℕ
compute_remaining_trial_days now trial_end =
    (trial_end_ms now trial_end - now + 86399999) / 86400000

module _ (lib : MomentLibrary ℕ) where
  abbrev pub promo_active : ℕ → Offer → Bool
  promo_active now o = o.redeem_within == 0 || is_future lib now o.created o.redeem_within

  abbrev pub offered : ℕ → Option Offer → Option Offer
  offered now none = none
  offered now (some o) = if promo_active now o then some o else none

  abbrev pub promo_of : Option Account → Option Offer
  promo_of none = none
  promo_of (some a) = a.promo

  -- `_getPromo`
  unfoldable pub get_promo : ℕ → Option Account → Option Offer
  get_promo now a = if is_sub_active a then none else offered now (promo_of a)
