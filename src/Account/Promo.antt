-- ===== src/Account/Promo.antt =====
-- `Promo` (`pl-promo`), which counts down to the end of an offer; the payment dialog counts down in
-- the same way. The interval's callback reads the offer that it was set up with.
pub mod Countdown
use padlock_cloud.Prelude.{
  ℕ, Bool, true, false, not, Option, none, some, List, [], ◌∷◌, String, Text, codes, ◌==◌,
  if◌then◌else◌,
}
use padlock_cloud.Browser.Timers.{Timers, set_timeout, clear_timeout}
use padlock_cloud.Util.Dates.{MomentLibrary, format_date_until, is_future}
use padlock_cloud.Account.Types.{Offer}

pub record Promo : Type 0 where
  pub promo : Option Offer
  -- `_countdown`, the interval set last, and the live intervals, each with its offer.
  pub countdown : Option ℕ
  pub intervals : Timers Offer
  pub redeem_count_down : Text

abbrev pub init : Promo
init = record {
  promo = none;
  countdown = none;
  intervals = record { live = []; fresh = 0 };
  redeem_count_down = [];
}

abbrev pub set_interval : Offer → Promo → Promo
set_interval o p = record p {
  countdown = some p.intervals.fresh;
  intervals = set_timeout o p.intervals;
}

abbrev count_down : Option Offer → Promo → Promo
count_down none p = p
count_down (some o) p = if o.redeem_within == 0 then p else set_interval o p

-- `_setupCountdown`, the observer of `promo.redeemWithin`.
unfoldable pub setup_countdown : Promo → Promo
unfolding clear_timeout set_timeout
setup_countdown p =
    count_down p.promo (record p { intervals = clear_timeout p.countdown p.intervals })

module _ (lib : MomentLibrary ℕ) where
  -- The interval's callback at time `now`, with the events that it dispatches.
  unfoldable pub tick : ℕ → Offer → Promo → Promo × List String
  unfolding format_date_until is_future
  tick now o p = (
    record p {
      redeem_count_down = format_date_until lib (codes "hh:mm:ss") now o.created o.redeem_within;
    },
    if not (is_future lib now o.created o.redeem_within) then "promo-expired" ∷ [] else [],
  )

unfoldable pub on_redeem : List String
on_redeem = "promo-redeem" ∷ []
