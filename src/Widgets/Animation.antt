-- ===== src/Widgets/Animation.antt =====
-- `AnimationMixin`. Options are partial: `none` for a property that an options object lacks. Times are
-- in milliseconds; the sheet's text `animation` is kept as its parts.
pub mod Cascade
use padlock_cloud.Prelude.{
  ℕ, zero, suc, ◌+◌, ◌-◌, ◌*◌, ◌/◌, max, Bool, true, false, Option, none, some, List, [], ◌∷◌, ◌++◌,
  String, length, map,
}

-- The property `clear`: a Boolean, or a number.
pub data Clear : Type 0 where
  flag : Bool → Clear
  after : ℕ → Clear

pub record Settings : Type 0 where
  pub animation : String
  pub duration : ℕ
  pub easing : String
  pub delay : ℕ
  pub fill : String
  pub initial_delay : ℕ
  pub full_duration : ℕ
  pub clear : Clear
  pub direction : String

abbrev pub defaults : Settings
defaults = record {
  animation = "slideIn";
  duration = 500;
  easing = "ease";
  delay = 0;
  fill = "backwards";
  initial_delay = 0;
  full_duration = 1000;
  clear = flag false;
  direction = "normal";
}

pub record Options : Type 0 where
  pub animation : Option String
  pub duration : Option ℕ
  pub easing : Option String
  pub delay : Option ℕ
  pub fill : Option String
  pub initial_delay : Option ℕ
  pub full_duration : Option ℕ
  pub clear : Option Clear
  pub direction : Option String

abbrev pub get_or {ℓ} : {A : Type ℓ} → Option A → A → A
get_or none d = d
get_or (some a) d = a

-- One source of `Object.assign`.
abbrev pub assign : Settings → Options → Settings
assign s o = record {
  animation = get_or o.animation s.animation;
  duration = get_or o.duration s.duration;
  easing = get_or o.easing s.easing;
  delay = get_or o.delay s.delay;
  fill = get_or o.fill s.fill;
  initial_delay = get_or o.initial_delay s.initial_delay;
  full_duration = get_or o.full_duration s.full_duration;
  clear = get_or o.clear s.clear;
  direction = get_or o.direction s.direction;
}

-- `Object.assign({}, defaults, this.animationOptions, opts)`
unfoldable pub merged : Options → Options → Settings
merged animation_options opts = assign (assign defaults animation_options) opts

-- What `animateElement` does to an element, in order; its promise resolves after `resolve_after`.
pub data Effect : Type 0 where
  clear_pending : Effect
  reset_style : Effect
  force_layout : Effect
  set_style :
      (animation direction : String) (duration : ℕ) (easing : String) (delay : ℕ) (fill : String)
      → Effect
  clear_style_after : ℕ → Effect

pub record Animated : Type 0 where
  pub effects : List Effect
  pub resolve_after : ℕ

-- The timeout that clears the style; the number 0 is falsy.
clear_effects : ℕ → Clear → List Effect
clear_effects time (flag false) = []
clear_effects time (flag true) = clear_style_after (time + 0) ∷ []
clear_effects time (after zero) = []
clear_effects time (after (suc n)) = clear_style_after (time + suc n) ∷ []

unfoldable pub animate_element : Options → Options → Animated
unfolding merged clear_effects
animate_element animation_options opts =
    let s = merged animation_options opts in
    record {
      effects =
          clear_pending
          ∷ reset_style
          ∷ force_layout
          ∷ set_style s.animation s.direction s.duration s.easing s.delay s.fill
          ∷ clear_effects (s.delay + s.duration) s.clear;
      resolve_after = s.delay + s.duration;
    }

-- The time between two elements; for no element it is not used.
unfoldable pub cascade_step : Settings → ℕ → ℕ
cascade_step s n = max 30 ((s.full_duration - s.duration) / n)

-- The loop: `opts` keeps the delay of the last round, which the next one overwrites.
cascade_from : Options → Options → ℕ → ℕ → ℕ → ℕ → List Animated
unfolding animate_element
cascade_from animation_options opts initial_delay dt i zero = []
cascade_from animation_options opts initial_delay dt i (suc left) =
    let delayed = record opts { delay = some (initial_delay + i * dt) } in
    animate_element animation_options delayed
    ∷ cascade_from animation_options delayed initial_delay dt (suc i) left

-- `animateCascade` over `n` elements.
unfoldable pub animate_cascade : Options → Options → ℕ → List Animated
unfolding cascade_from merged cascade_step
animate_cascade animation_options opts n =
    let s = merged animation_options opts in
    cascade_from animation_options opts s.initial_delay (cascade_step s n) 0 n

-- `Promise.all` resolves when the last of the promises does.
unfoldable pub all_after : List Animated → ℕ
all_after [] = 0
all_after (a ∷ as') = max a.resolve_after (all_after as')
