-- ===== src/Widgets/Animation/Cascade.antt =====
-- When the elements of a cascade start and end.
use native.Mathlib.Nat.{div-mul-le_self}
use padlock_cloud.Prelude.{
  ℕ, zero, suc, ◌+◌, ◌-◌, ◌*◌, ◌/◌, ◌≤◌, ◌<◌, ◌≡◌, refl, ap, ◌∙◌, max, some, arith, get_elem?,
  Bool-cases, leb, inl, inr,
}
use padlock_cloud.Widgets.Animation.{
  Settings, Options, Animated, merged, animate_element, cascade_step, cascade_from, animate_cascade,
  all_after,
}

cascade_from-get_elem? :
    (mixin opts : Options) (initial dt i left k : ℕ)
    → k < left
    → (a : Animated) × (get_elem? (cascade_from mixin opts initial dt i left) k ≡ some a)
      × (a.resolve_after ≡ initial + (i + k) * dt + (merged mixin opts).duration)
unfolding cascade_from
cascade_from-get_elem? mixin opts initial dt i zero k h = elim h [ ]
cascade_from-get_elem? mixin opts initial dt i (suc left) zero h = (_, refl, omega arith)
cascade_from-get_elem? mixin opts initial dt i (suc left) (suc k) h =
    let (a, e, r) =
      cascade_from-get_elem? mixin (record opts { delay = some (initial + i * dt) }) initial dt
        (suc i) left k (omega arith) in
    (a, e, r ∙ omega arith)

-- The promise of the k-th of n elements resolves `duration` after a start that is k steps of the
-- cascade after the initial delay.
pub animate_cascade_lem :
    (mixin opts : Options) (n k : ℕ)
    → k < n
    → (a : Animated) × (get_elem? (animate_cascade mixin opts n) k ≡ some a)
      × (a.resolve_after
          ≡ (merged mixin opts).initial_delay
            + k * cascade_step (merged mixin opts) n
            + (merged mixin opts).duration)
unfolding animate_cascade
animate_cascade_lem mixin opts n k h =
    let s = merged mixin opts in
    let (a, e, r) = cascade_from-get_elem? mixin opts s.initial_delay (cascade_step s n) 0 n k h in
    (a, e, r ∙ ap (λ (t : ℕ). s.initial_delay + t * cascade_step s n + s.duration) (omega arith))

cascade_from_ends :
    (mixin opts : Options) (initial dt i left : ℕ)
    → all_after (cascade_from mixin opts initial dt i left)
      ≤ initial + (i + left - 1) * dt + (merged mixin opts).duration
unfolding cascade_from all_after animate_element
cascade_from_ends mixin opts initial dt i zero = omega arith
cascade_from_ends mixin opts initial dt i (suc left) =
    let ih =
      cascade_from_ends mixin (record opts { delay = some (initial + i * dt) }) initial dt (suc i)
        left in
    let e : i + suc left - 1 ≡ i + left = omega arith in
    let e' : suc i + left - 1 ≡ i + left = omega arith in
    let ih' = rw e' at ih in rw e (omega (arith, ih'))

-- The steps of a cascade take at most the time that is left for them, or 30 ms each.
steps_within :
    (s : Settings) (n : ℕ)
    → (n - 1) * cascade_step s n + s.duration ≤ max s.full_duration (s.duration + 30 * (n - 1))
unfolding cascade_step
steps_within s zero = omega arith
steps_within s (suc m) =
    let n = suc m in
    let q = (s.full_duration - s.duration) / n in
    let whole = div-mul-le_self (s.full_duration - s.duration) n in
    elim (Bool-cases (leb q 30)) [
      | inl small ↦ let e : max 30 q ≡ 30 = ground arith in rw e (omega arith)
      | inr large ↦
          let e : max 30 q ≡ q = ground arith in
          let big : 30 < q = ground arith in
          let fits : (n - 1) * q ≤ q * n = grind arith in
          let one : q ≤ q * n = grind arith in rw e (omega (arith, whole, fits, one, big))
    ]

-- Every promise of a cascade over n elements resolves at most the full duration after the initial
-- delay, or, where that is too short, at most 30 ms after the one before it: by the initial delay
-- plus the greater of the full duration and the duration of one element with 30 ms for each other.
pub animate_cascade_ends :
    (mixin opts : Options) (n : ℕ)
    → all_after (animate_cascade mixin opts n)
      ≤ (merged mixin opts).initial_delay
        + max (merged mixin opts).full_duration ((merged mixin opts).duration + 30 * (n - 1))
unfolding animate_cascade
animate_cascade_ends mixin opts n =
    let s = merged mixin opts in
    let ends = cascade_from_ends mixin opts s.initial_delay (cascade_step s n) 0 n in
    let e : 0 + n - 1 ≡ n - 1 = omega arith in
    let ends' = rw e at ends in omega (arith, ends', steps_within s n)
