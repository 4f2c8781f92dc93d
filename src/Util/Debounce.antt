-- ===== src/Util/Debounce.antt =====
-- `debounce` of the utility module. `window.setTimeout` and `clearTimeout` are the browser's: a
-- live timer is the time that it still waits, with the arguments of the call that it will make, and
-- time passes in steps.
pub mod Laws
use padlock_cloud.Prelude.{ℕ, ◌-◌, Option, none, some, List, [], ◌∷◌, ◌++◌, leb, if◌then◌else◌}

-- The variable `timeout` of the closure: `none` if no timer is live.
abbrev pub Timeout {ℓ} : Type ℓ → Type ℓ
Timeout A = Option (ℕ × A)

-- What happens to a debounced function: it is called, or time passes.
pub data Event {ℓ} (A : Type ℓ) : Type ℓ where
  called : A → Event A
  passed : ℕ → Event A

module _ {ℓ} {A : Type ℓ} where
  -- The returned function: the live timer is cleared and a new one set.
  pub debounced : ℕ → A → Timeout A → Timeout A
  debounced delay args timeout = some (delay, args)

  -- The browser's clock: a timer fires once, with its own arguments.
  pub elapse : ℕ → Timeout A → Timeout A × List A
  elapse t none = (none, [])
  elapse t (some (left, args)) =
      if leb left t then (none, args ∷ []) else (some (left - t, args), [])

  pub step : ℕ → Event A → Timeout A → Timeout A × List A
  unfolding debounced elapse
  step delay (called args) timeout = (debounced delay args timeout, [])
  step delay (passed t) timeout = elapse t timeout

  -- The calls of `fn` that a sequence of events leads to.
  pub fired : ℕ → Timeout A → List (Event A) → List A
  unfolding step
  fired delay timeout [] = []
  fired delay timeout (e ∷ es) =
      let (timeout', now) = step delay e timeout in now ++ fired delay timeout' es
