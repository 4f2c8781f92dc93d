-- ===== src/Dialogs/Prompt/Laws.antt =====
-- How a prompt is answered.
use padlock_cloud.Prelude.{
  ℕ, ◌≡◌, refl, ◌⊎◌, inl, inr, Option, none, some, List, [], ◌∷◌, String, Text, All,
}
use padlock_cloud.Promise.{Promise, pending, fulfilled, rejected}
use padlock_cloud.Dialogs.Resolver.{called}
use padlock_cloud.Dialogs.Prompt.{
  Answer, cancelled, Validation, Prompt, Question, validate, prompt, on_confirm, on_valid,
  on_invalid, on_dismiss,
}

-- What the user does to an open prompt.
pub data Action : Type 0 where
  enter : Text → Action
  confirm dismiss : Action

-- The promise of `_confirm` is settled before the next action, as it is for the validations of the
-- dashboard, which give settled promises.
abbrev pub continue : Promise String Answer → Prompt → Prompt
continue pending d = d
continue (fulfilled v) d = on_valid v d
continue (rejected e) d = on_invalid e d

abbrev pub step : Action → Prompt → Prompt
step (enter t) d = record d { input_value = t }
step confirm d = let (d', p) = on_confirm d in continue p d'
step dismiss d = on_dismiss d

abbrev pub run : List Action → Prompt → Prompt
run [] d = d
run (a ∷ as') d = run as' (step a d)

-- An answer that a validation allows: it accepts some text with it, or the answer is `null`.
abbrev pub IsAllowed : Validation → Answer → Type 0
IsAllowed f v = (v ≡ cancelled) ⊎ ((t : Text) × (f t ≡ fulfilled v))

-- The validation stays, and each answer given so far is allowed.
record IsGuarded (f : Validation) (d : Prompt) : Type 0 where
  kept : d.validation ≡ some f
  allowed : All (λ c. IsAllowed f c.1) d.resolver.calls

module _ (f : Validation) where
  called-IsAllowed :
      (v : Answer) (resolve : Option ℕ) (calls : List (ℕ × Answer))
      → IsAllowed f v
      → All (λ c. IsAllowed f c.1) calls
      → All (λ c. IsAllowed f c.1) (called resolve v calls)
  called-IsAllowed v none calls h hs = hs
  called-IsAllowed v (some n) calls h hs = (h, hs)

  continue-IsGuarded :
      (t : Text) (p : Promise String Answer) (d : Prompt)
      → f t ≡ p
      → IsGuarded f d
      → IsGuarded f (continue p d)
  unfolding on_valid on_invalid
  continue-IsGuarded t pending d e h = h
  continue-IsGuarded t (fulfilled v) d e h = record {
    kept = h.kept;
    allowed = called-IsAllowed v d.resolver.resolve d.resolver.calls (inr (t, e)) h.allowed;
  }
  continue-IsGuarded t (rejected m) d e h = record { kept = h.kept; allowed = h.allowed }

  confirm-IsGuarded : (d : Prompt) → IsGuarded f d → IsGuarded f (step confirm d)
  unfolding on_confirm
  confirm-IsGuarded d h =
      continue-IsGuarded d.input_value (validate d.validation d.input_value) _ (rw h.kept refl)
        (record { kept = h.kept; allowed = h.allowed })

  step-IsGuarded : (a : Action) (d : Prompt) → IsGuarded f d → IsGuarded f (step a d)
  unfolding on_dismiss
  step-IsGuarded (enter t) d h = record { kept = h.kept; allowed = h.allowed }
  step-IsGuarded confirm d h = confirm-IsGuarded d h
  step-IsGuarded dismiss d h = record {
    kept = h.kept;
    allowed = called-IsAllowed cancelled d.resolver.resolve d.resolver.calls (inl refl) h.allowed;
  }

  run-IsGuarded : (as' : List Action) (d : Prompt) → IsGuarded f d → IsGuarded f (run as' d)
  run-IsGuarded [] d h = h
  run-IsGuarded (a ∷ as') d h = run-IsGuarded as' (step a d) (step-IsGuarded a d h)

-- Whatever the user does after `prompt` with a validation, each answer that the promises get is
-- `null` or one with which the validation accepts some text, if that held of the earlier answers.
pub run-IsAllowed :
    (q : Question) (f : Validation) (d : Prompt) (as' : List Action)
    → q.validation ≡ some f
    → All (λ c. IsAllowed f c.1) d.resolver.calls
    → All (λ c. IsAllowed f c.1) (run as' (prompt q d)).resolver.calls
unfolding prompt
run-IsAllowed q f d as' e h =
    (run-IsGuarded f as' (prompt q d) (record { kept = e; allowed = h })).allowed
