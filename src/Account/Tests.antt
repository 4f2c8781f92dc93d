-- ===== src/Account/Tests.antt =====
-- The account's pages at concrete inputs.
use padlock_cloud.Prelude.{
  ℕ, ◌+◌, ◌-◌, ◌*◌, ◌≤◌, ◌<◌, ◌≡◌, refl, ◌↔◌, ◌⊎◌, Bool, true, false, none, some, [], ◌∷◌, arith,
  ltb, ltb→lt, lt→ltb,
}
use padlock_cloud.Util.Dates.{MomentLibrary}
use padlock_cloud.Dialogs.Resolver.Once.{SettlesOnce}
use padlock_cloud.Account.Types.{Account, Offer}
use padlock_cloud.Account.Subscription.{compute_remaining_trial_days}
use padlock_cloud.Account.Subscription.Laws.{remaining_trial_days_lem}
use padlock_cloud.Account.Payment
use padlock_cloud.Account.Payment.{
  PaymentDialog, submit_card, token_failed, Waiting, for_token, Effect,
}
use padlock_cloud.Account.Payment.Stuck.{here, later, submit_card-stuck}
use padlock_cloud.Account.Payment.Submission
use padlock_cloud.Account.Payment.Submission.{
  IsExclusive, Reach-IsExclusive, submit_card_lem, payment-SettlesOnce,
}

-- A trial that ends 90,000 seconds from now, one day and one hour.
remaining_trial_days_lem_example :
    let days = compute_remaining_trial_days 1000000000 (some 1090000) in
    ((days ≡ 0) ↔ (1090000 * 1000 ≤ 1000000000))
    × (1090000 * 1000 ≤ 1000000000 + days * 86400000)
    × ((days ≡ 0) ⊎ (1000000000 + (days - 1) * 86400000 < 1090000 * 1000))
remaining_trial_days_lem_example =
    remaining_trial_days_lem 1000000000 1090000 (λ e. absurd (omega arith))

-- Moments as milliseconds since the epoch, from dates in seconds.
abbrev exact_moments : MomentLibrary ℕ
exact_moments = record {
  Moment = ℕ;
  Duration = ℕ;
  moment = λ s. s * 1000;
  now = λ t. t;
  add_hours = λ m h. m + h * 3600000;
  is_after = λ a b. ltb b a;
  diff = λ a b. a - b;
  format_duration = λ d pattern. pattern;
  from_now = λ now m. [];
  value_of = λ m. m;
  value_of-now = λ t. refl;
  value_of-add_hours = λ m h. refl;
  is_after_iff = λ a b. (λ e. ltb→lt b a e, λ h. lt→ltb b a h);
}

abbrev day_offer : Offer
day_offer = record {
  created = 1000000;
  redeem_within = 24;
  coupon = record { id = "SAVE"; percent_off = 20; amount_off = 0 };
}

abbrev on_trial : Account
on_trial = record {
  status = "trialing";
  trial_end = none;
  promo = some day_offer;
  plan = none;
  devices = [];
}

-- The card is submitted once, after Stripe has loaded.
abbrev loaded : PaymentDialog
loaded = Payment.card_created (Payment.show "Dashboard" Payment.init).0

abbrev loaded-Reach : Submission.Reach loaded
loaded-Reach =
    Submission.next (Submission.next Submission.initial (Submission.shown "Dashboard"))
      Submission.created

Reach-IsExclusive_example :
    IsExclusive
      (Submission.HasThrown (Submission.next loaded-Reach Submission.submitted))
      (submit_card loaded).0
Reach-IsExclusive_example = Reach-IsExclusive (Submission.next loaded-Reach Submission.submitted)

submit_card_lem_example :
    ((loaded.in_flight ≡ [])
      × (loaded.has_card_element ≡ true)
      × ((submit_card loaded).1 ≡ Effect.create_token ∷ [])
      × ((submit_card loaded).0.in_flight ≡ for_token "" ∷ []))
    ⊎ ((((w : Waiting) × (loaded.in_flight ≡ w ∷ [])) ⊎ Submission.HasThrown loaded-Reach)
          × (submit_card loaded ≡ (loaded, []))
        ⊎ (loaded.has_card_element ≡ false)
          × ((submit_card loaded).1 ≡ [])
          × ((submit_card loaded).0.in_flight ≡ [])
          × ((submit_card loaded).0.submitting_card ≡ true))
unfolding Payment.card_created Payment.show
submit_card_lem_example = submit_card_lem loaded-Reach

-- The card is submitted before Stripe has loaded, and again after it has.
submit_card-stuck_example :
    submit_card (Payment.card_created (submit_card Payment.init).0)
    ≡ (Payment.card_created (submit_card Payment.init).0, [])
submit_card-stuck_example =
    submit_card-stuck Payment.init (Payment.card_created (submit_card Payment.init).0) refl refl
      (later here Submission.created)

payment-SettlesOnce_example :
    SettlesOnce Bool (Payment.on_dismiss (Payment.show "Dashboard" Payment.init).0).resolver
payment-SettlesOnce_example = payment-SettlesOnce (
    Submission.next (Submission.next Submission.initial (Submission.shown "Dashboard"))
      Submission.dismissed)
