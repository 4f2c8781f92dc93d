-- ===== src/Account/Promo/Countdown.antt =====
-- Which intervals of a countdown are live.
use padlock_cloud.Prelude.{
  ℕ, ◌≡◌, refl, ap, ◌∙◌, inl, inr, Option, none, some, List, [], ◌∷◌, arith, ◌==◌, if◌then◌else◌,
  Bool-cases, Option-cases,
}
use padlock_cloud.Browser.Timers.{Timers, clear_timeout, set_timeout}
use padlock_cloud.Account.Types.{Offer}
use padlock_cloud.Account.Promo.{Promo, init, count_down, setup_countdown}

-- No interval is live, or only the one set last.
pub data OneInterval (p : Promo) : Type 0 where
  stopped : p.intervals.live ≡ [] → OneInterval p
  ticking :
      (n : ℕ) (o : Offer) → p.countdown ≡ some n → p.intervals.live ≡ (n, o) ∷ [] → OneInterval p

clear_all : (p : Promo) → OneInterval p → (clear_timeout p.countdown p.intervals).live ≡ []
unfolding clear_timeout
clear_all p (ticking n o c l) = rw (c, l) (ground arith)
clear_all p (stopped l) = elim (Option-cases p.countdown) [
  | inl c ↦ rw (c, l) refl
  | inr (n, c) ↦ rw (c, l) refl
]

-- The offer changes, and its observer runs.
pub data Reach : Promo → Type 0 where
  initial : Reach init
  changed :
      {p : Promo} (o : Option Offer) → Reach p → Reach (setup_countdown (record p { promo = o }))

-- What is live after the observer: an interval for an offer with a time limit, and nothing else.
abbrev pub live_for : Option Offer → ℕ → List (ℕ × Offer)
live_for none n = []
live_for (some o) n = if o.redeem_within == 0 then [] else (n, o) ∷ []

count_down_lem :
    (found : Option Offer) (p : Promo)
    → p.intervals.live ≡ []
    → ((count_down found p).intervals.live ≡ live_for found p.intervals.fresh)
      × OneInterval (count_down found p)
unfolding set_timeout
count_down_lem none p h = (h, stopped h)
count_down_lem (some o) p h = elim (Bool-cases (o.redeem_within == 0)) [
  | inl z ↦ rw z (h, stopped h)
  | inr z ↦ rw (z, h) (refl, ticking p.intervals.fresh o refl refl)
]

setup_countdown_lem :
    (p : Promo)
    → OneInterval p
    → ((setup_countdown p).intervals.live ≡ live_for p.promo p.intervals.fresh)
      × OneInterval (setup_countdown p)
unfolding setup_countdown
setup_countdown_lem p h =
    let (live, one) =
      count_down_lem p.promo (record p { intervals = clear_timeout p.countdown p.intervals })
        (clear_all p h) in
    (live ∙ ap (live_for p.promo) (fresh_clear p.countdown p.intervals), one)
  where
    fresh_clear : (t : Option ℕ) (ts : Timers Offer) → (clear_timeout t ts).fresh ≡ ts.fresh
    fresh_clear none ts = refl
    fresh_clear (some n) ts = refl

set_promo-OneInterval :
    (p : Promo) (o : Option Offer) → OneInterval p → OneInterval (record p { promo = o })
set_promo-OneInterval p o (stopped l) = stopped l
set_promo-OneInterval p o (ticking n x c l) = ticking n x c l

Reach-OneInterval : {p : Promo} → Reach p → OneInterval p
Reach-OneInterval initial = stopped refl
Reach-OneInterval (changed {p} o r) =
    (setup_countdown_lem (record p { promo = o })
      (set_promo-OneInterval p o (Reach-OneInterval r))).1

-- However often the offer has changed before, after it changes to `o` the live intervals are one new
-- interval for `o` if it has a time limit, and none otherwise.
pub countdown_live :
    {p : Promo} (o : Option Offer)
    → Reach p
    → (setup_countdown (record p { promo = o })).intervals.live ≡ live_for o p.intervals.fresh
countdown_live {p} o r =
    (setup_countdown_lem (record p { promo = o })
      (set_promo-OneInterval p o (Reach-OneInterval r))).0
