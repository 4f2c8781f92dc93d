-- ===== src/Widgets/LoadingButton/Laws.antt =====
-- What a loading button shows, and which timers can change it.
use padlock_cloud.Prelude.{
  str_eq, eq_iff, ℕ, ◌≡◌, ◌≢◌, refl, ◌⊎◌, true, false, none, some, [], String, arith,
}
use padlock_cloud.Browser.Timers.{callback}
use padlock_cloud.Widgets.LoadingButton.{
  LoadingButton, init, start, stop, success, fail, button_class, fire,
}

-- A method is called, or a live timer fires.
pub data Step (b : LoadingButton) : LoadingButton → Type 0 where
  started : Step b (start b)
  stopped : Step b (stop b)
  succeeded : Step b (success b)
  failed : Step b (fail b)
  fired : (n : ℕ) → callback n b.timers.live ≡ some tt → Step b (fire n b)

pub data Reach : LoadingButton → Type 0 where
  initial : Reach init
  next : {b c : LoadingButton} → Reach b → Step b c → Reach c

-- At most one of the three states is shown, and the class names it.
pub record IsConsistent (b : LoadingButton) : Type 0 where
  pub not_both : (b.loading ≡ false) ⊎ (b.succeeded ≡ false)
  pub loading_alone : b.loading ≡ true → b.failed ≡ false
  pub success_alone : b.succeeded ≡ true → b.failed ≡ false
  pub idle : button_class b ≡ "" → (b.loading ≡ false) × (b.succeeded ≡ false) × (b.failed ≡ false)

init-IsConsistent : IsConsistent init
unfolding init button_class
init-IsConsistent = ground arith

-- A name is not the empty text.
ne_empty : (name : String) → str_eq name "" ≡ false → name ≢ ""
ne_empty name h e = cc ((eq_iff name "").1 e)

module _ (h₁ : ◌≢◌ {A = String} "loading" "") (h₂ : ◌≢◌ {A = String} "success" "")
    (h₃ : ◌≢◌ {A = String} "fail" "") where
  step_lem : {b c : LoadingButton} → Step b c → IsConsistent b → IsConsistent c
  unfolding start stop success fail fire button_class
  step_lem started h = ground arith
  step_lem stopped h = ground arith
  step_lem succeeded h = ground arith
  step_lem failed h = ground arith
  step_lem (fired n e) h = ground arith

Step-IsConsistent : {b c : LoadingButton} → Step b c → IsConsistent b → IsConsistent c
Step-IsConsistent =
    step_lem (ne_empty "loading" refl) (ne_empty "success" refl) (ne_empty "fail" refl)

-- After any calls of the methods and any firings of live timers, at most one of loading, success
-- and fail is on, and the class is empty only if none is.
pub Reach-IsConsistent : {b : LoadingButton} → Reach b → IsConsistent b
Reach-IsConsistent initial = init-IsConsistent
Reach-IsConsistent (next r s) = Step-IsConsistent s (Reach-IsConsistent r)

-- From a button with no live timer, `start` after `success` or after `fail` leaves no live timer, so
-- nothing but a call of a method ends the loading state.
pub start_clears :
    (b : LoadingButton) (n : ℕ)
    → b.timers.live ≡ []
    → ((start (success b)).loading ≡ true)
      × (callback n (start (success b)).timers.live ≡ none)
      × ((start (fail b)).loading ≡ true)
      × (callback n (start (fail b)).timers.live ≡ none)
unfolding start success fail callback
start_clears b n h = rw h (refl, ground arith, refl, ground arith)

-- After `success` and then `fail`, `start` clears only the second timer: the first is still live,
-- and when it fires the button leaves the loading state that `start` put it into.
pub stale_timer_ends_loading :
    (b : LoadingButton)
    → let c = start (fail (success b)) in
      (c.loading ≡ true)
      × (callback b.timers.fresh c.timers.live ≡ some tt)
      × ((fire b.timers.fresh c).loading ≡ false)
unfolding start success fail callback fire
stale_timer_ends_loading b = (refl, ground arith, refl)
