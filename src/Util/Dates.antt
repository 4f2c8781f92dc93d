-- ===== src/Util/Dates.antt =====
-- The date functions, `wait` and `applyMixins` of the utility module.
-- moment.js is a library bundled from elsewhere: what the module calls of it is a record, with the
-- documented behaviour of `add` in hours and of `isAfter`. The current time is an argument.
use padlock_cloud.Prelude.{ℕ, ◌+◌, ◌*◌, ◌<◌, ◌≡◌, ◌↔◌, Bool, true, List, [], ◌∷◌, Text}

pub record MomentLibrary (Date : Type 0) : Type 1 where
  pub Moment : Type 0
  pub Duration : Type 0
  pub moment : Date → Moment
  pub now : ℕ → Moment
  pub add_hours : Moment → ℕ → Moment
  pub is_after : Moment → Moment → Bool
  pub diff : Moment → Moment → Duration
  pub format_duration : Duration → Text → Text
  pub from_now : Moment → Moment → Text
  -- Milliseconds since the epoch.
  pub value_of : Moment → ℕ
  pub value_of-now : (t : ℕ) → value_of (now t) ≡ t
  pub value_of-add_hours :
      (m : Moment) (h : ℕ) → value_of (add_hours m h) ≡ value_of m + h * 3600000
  pub is_after_iff : (a b : Moment) → (is_after a b ≡ true) ↔ (value_of b < value_of a)

module _ {Date : Type 0} (lib : MomentLibrary Date) where
  open lib use {moment, now, add_hours, is_after, diff, format_duration, from_now}

  unfoldable pub format_date_from_now : ℕ → Date → Text
  format_date_from_now t date = from_now (now t) (moment date)

  unfoldable pub format_date_until : Text → ℕ → Date → ℕ → Text
  format_date_until pattern t start_date duration =
      format_duration (diff (add_hours (moment start_date) duration) (now t)) pattern

  unfoldable pub is_future : ℕ → Date → ℕ → Bool
  is_future t date duration = is_after (add_hours (moment date) duration) (now t)

-- `mixins.reduce((cls, mixin) => mixin(cls), baseClass)`
unfoldable pub apply_mixins {ℓ} : {Class : Type ℓ} → Class → List (Class → Class) → Class
apply_mixins base [] = base
apply_mixins base (mixin ∷ mixins) = apply_mixins (mixin base) mixins
