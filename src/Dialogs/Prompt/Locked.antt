-- ===== src/Dialogs/Prompt/Locked.antt =====
-- A prompt into which only texts are entered that its validation refuses.
use padlock_cloud.Prelude.{ℕ, ◌≡◌, refl, Option, none, some, List, [], ◌∷◌, String, Text, All}
use padlock_cloud.Promise.{rejected}
use padlock_cloud.Dialogs.Resolver.{called}
use padlock_cloud.Dialogs.Prompt.{
  Answer, cancelled, Validation, Prompt, Question, validate, prompt, on_confirm, on_invalid,
  on_dismiss,
}
use padlock_cloud.Dialogs.Prompt.Laws.{Action, enter, confirm, dismiss, step, run}

module _ (f : Validation) (Refused : Text → Type 0)
    (refuses : (t : Text) → Refused t → (e : String) × (f t ≡ rejected e)) where
  -- No text but a refused one has been entered, and no promise was answered but with `null`.
  record IsLocked (d : Prompt) : Type 0 where
    kept : d.validation ≡ some f
    entered : Refused d.input_value
    cancelled_only : All (λ c. c.1 ≡ cancelled) d.resolver.calls

  called_cancelled :
      (resolve : Option ℕ) (calls : List (ℕ × Answer))
      → All (λ c. c.1 ≡ cancelled) calls
      → All (λ c. c.1 ≡ cancelled) (called resolve cancelled calls)
  called_cancelled none calls h = h
  called_cancelled (some n) calls h = (refl, h)

  confirm-IsLocked : (d : Prompt) → IsLocked d → IsLocked (step confirm d)
  unfolding on_confirm on_invalid
  confirm-IsLocked d h =
      let (e, bad) = refuses d.input_value h.entered in
      let refused : validate d.validation d.input_value ≡ rejected e = rw h.kept bad in
      rw refused (record { kept = h.kept; entered = h.entered; cancelled_only = h.cancelled_only })

  -- Each text that an action enters is refused.
  abbrev pub EntersRefused : Action → Type 0
  EntersRefused (enter t) = Refused t
  EntersRefused confirm = Unit
  EntersRefused dismiss = Unit

  step-IsLocked : (a : Action) (d : Prompt) → EntersRefused a → IsLocked d → IsLocked (step a d)
  unfolding on_dismiss
  step-IsLocked (enter t) d r h = record {
    kept = h.kept;
    entered = r;
    cancelled_only = h.cancelled_only;
  }
  step-IsLocked confirm d r h = confirm-IsLocked d h
  step-IsLocked dismiss d r h = record {
    kept = h.kept;
    entered = h.entered;
    cancelled_only = called_cancelled d.resolver.resolve d.resolver.calls h.cancelled_only;
  }

  run-IsLocked :
      (as' : List Action) (d : Prompt) → All EntersRefused as' → IsLocked d → IsLocked (run as' d)
  run-IsLocked [] d r h = h
  run-IsLocked (a ∷ as') d (r, rs) h = run-IsLocked as' (step a d) rs (step-IsLocked a d r h)

  -- No promise gets another answer than `null`, if that held of the earlier answers.
  pub run-Refused :
      (q : Question) (d : Prompt) (as' : List Action)
      → q.validation ≡ some f
      → Refused []
      → All (λ c. c.1 ≡ cancelled) d.resolver.calls
      → All EntersRefused as'
      → All (λ c. c.1 ≡ cancelled) (run as' (prompt q d)).resolver.calls
  unfolding prompt
  run-Refused q d as' e r h rs =
      (run-IsLocked as' (prompt q d) rs
        (record { kept = e; entered = r; cancelled_only = h })).cancelled_only
