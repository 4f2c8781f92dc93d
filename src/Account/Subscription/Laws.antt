-- ===== src/Account/Subscription/Laws.antt =====
-- The trial's remaining days, and when a promotion is offered.
use padlock_cloud.Prelude.{
  ℕ, ◌+◌, ◌-◌, ◌*◌, ◌≤◌, ◌<◌, ◌≡◌, ◌≢◌, ◌↔◌, refl, ◌⊎◌, inl, inr, Bool, true, false, Option, none,
  some, arith, eq_iff, Bool-cases, if◌then◌else◌,
}
use padlock_cloud.Util.Dates.{MomentLibrary, is_future}
use padlock_cloud.Account.Types.{Account, Offer}
use padlock_cloud.Account.Subscription.{
  sub_status, is_sub_active, compute_remaining_trial_days, promo_active, offered, promo_of,
  get_promo,
}

-- For a trial that ends at `s` seconds, not 0: the days are 0 exactly if the end has come, and
-- otherwise the end lies after all but the last of them and not after the last.
pub remaining_trial_days_lem :
    (now s : ℕ)
    → s ≢ 0
    → let days = compute_remaining_trial_days now (some s) in
      ((days ≡ 0) ↔ (s * 1000 ≤ now))
      × (s * 1000 ≤ now + days * 86400000)
      × ((days ≡ 0) ⊎ (now + (days - 1) * 86400000 < s * 1000))
unfolding compute_remaining_trial_days
remaining_trial_days_lem now s h = ground arith

-- With no end of the trial no day remains.
pub remaining_trial_days_none : (now : ℕ) → compute_remaining_trial_days now none ≡ 0
unfolding compute_remaining_trial_days
remaining_trial_days_none now = omega arith

module _ (lib : MomentLibrary ℕ) where
  -- The time, in milliseconds, until which an offer can be redeemed.
  abbrev pub expires : Offer → ℕ
  expires o = lib.value_of (lib.moment o.created) + o.redeem_within * 3600000

  promo_active_iff :
      (now : ℕ) (o : Offer)
      → (promo_active lib now o ≡ true) ↔ ((o.redeem_within ≡ 0) ⊎ (now < expires o))
  unfolding is_future
  promo_active_iff now o =
      let after =
        lib.is_after_iff (lib.add_hours (lib.moment o.created) o.redeem_within) (lib.now now) in
      let start = lib.value_of-now now in
      let end' = lib.value_of-add_hours (lib.moment o.created) o.redeem_within in
      (λ e. ground (arith, after, start, end'), λ e. ground (arith, after, start, end'))

  if_some :
      (b : Bool) (p o : Offer)
      → ((if b then some p else none) ≡ some o) ↔ ((some p ≡ some o) × (b ≡ true))
  if_some true p o = (λ e. (e, refl), λ h. h.0)
  if_some false p o = (λ e. cc, λ h. cc (h.1))

  offered_iff :
      (now : ℕ) (found : Option Offer) (o : Offer)
      → (offered lib now found ≡ some o)
        ↔ ((found ≡ some o) × ((o.redeem_within ≡ 0) ⊎ (now < expires o)))
  offered_iff now none o = (λ e. cc, λ h. cc (h.0))
  offered_iff now (some p) o = (
    λ e.
        let (same, a) = (if_some (promo_active lib now p) p o).0 e in
        let same' : p ≡ o = cc in (same, (promo_active_iff now o).0 (rw same' at a)),
    λ h.
        let (same, u) = h in
        let same' : p ≡ o = cc in
        (if_some (promo_active lib now p) p o).1 (same, rw same' ((promo_active_iff now o).1 u)),
  )

  get_promo_cases :
      (now : ℕ) (a : Option Account) (b : Bool)
      → is_sub_active a ≡ b
      → get_promo lib now a ≡ (if b then none else offered lib now (promo_of lib a))
  unfolding get_promo
  get_promo_cases now a b e = rw e refl

  is_sub_active_iff : (a : Option Account) → (is_sub_active a ≡ true) ↔ (sub_status a ≡ "active")
  unfolding is_sub_active
  is_sub_active_iff a = eq_iff (sub_status a) "active"

  -- A promotion is offered exactly if it is the account's, the subscription is not active, and it has
  -- no time limit or its last hour has not run out.
  pub get_promo_iff :
      (now : ℕ) (a : Option Account) (o : Offer)
      → (get_promo lib now a ≡ some o) ↔ (
          (sub_status a ≢ "active")
          × (promo_of lib a ≡ some o)
          × ((o.redeem_within ≡ 0) ⊎ (now < expires o)))
  get_promo_iff now a o = elim (Bool-cases (is_sub_active a)) [
    | inl e ↦
        let none_found = get_promo_cases now a true e in
        (λ h. cc (none_found, h), λ h. absurd (h.0 ((is_sub_active_iff a).0 e)))
    | inr e ↦
        let same = get_promo_cases now a false e in
        let found = offered_iff now (promo_of lib a) o in
        (
          λ h.
              let (f, u) = found.0 (cc (same, h)) in
              (λ active. cc (e, (is_sub_active_iff a).1 active), f, u),
          λ h. cc (same, found.1 (h.1, h.2)),
        )
  ]
