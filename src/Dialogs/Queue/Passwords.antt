-- ===== src/Dialogs/Queue/Passwords.antt =====
-- The questions of `DialogMixin` that are built on the queue's dialogs: `confirm`, `promptPassword`
-- and `promptForgotPassword`.
use padlock_cloud.Prelude.{
  text_eq_path, text_eq_refl, text_eq, ◌≡◌, ◌≢◌, ◌↔◌, refl, ap, ◌⊎◌, inl, inr, Bool, true, false,
  some, List, [], ◌∷◌, String, Text, arith, All, ◌==◌, if◌then◌else◌, Bool-cases,
}
use padlock_cloud.Promise.{fulfilled, rejected}
use padlock_cloud.Dialogs.Alert.{Choice, undefined, index, minus_one}
use padlock_cloud.Dialogs.Prompt.{Answer, cancelled, verified, Validation, Prompt, Question, prompt}
use padlock_cloud.Dialogs.Prompt.Locked.{EntersRefused, run-Refused}
use padlock_cloud.Dialogs.Prompt.Laws.{Action, enter, confirm, dismiss, run}

-- `choice === 0`, the answer of `confirm`.
unfoldable pub confirmed : Choice → Bool
confirmed undefined = false
confirmed (index n) = n == 0
confirmed minus_one = false

abbrev is_empty : Text → Bool
is_empty [] = true
is_empty (_ ∷ _) = false

-- The validation that `promptPassword` passes to `prompt`.
unfoldable pub password_validation : Text → Validation
password_validation password pwd =
    if is_empty pwd
    then rejected "Please enter a password!"
    else if text_eq pwd password
    then fulfilled (verified true)
    else rejected "Wrong password. Please try again!"

-- `promptForgotPassword`, given the choices in the two confirmations: what it resolves to, and
-- whether the second one is shown.
unfoldable pub forgot_password : Choice → Choice → Bool × Bool
unfolding confirmed
forgot_password first second = if confirmed first then (confirmed second, true) else (false, false)

accepted_password :
    (password pwd : Text) (v : Answer)
    → password_validation password pwd ≡ fulfilled v
    → (pwd ≡ password) × (password ≢ []) × (v ≡ verified true)
unfolding password_validation
accepted_password password [] v e = cc
accepted_password password (c ∷ pwd) v e =
    let same : text_eq (c ∷ pwd) password ≡ true = ground arith in
    let p = text_eq_path (c ∷ pwd) password same in (p, ground (arith, p), ground arith)

-- The validation of a password prompt accepts a text exactly if it is the password and not empty,
-- and then with `true`.
pub password_validation_iff :
    (password pwd : Text) (v : Answer)
    → (password_validation password pwd ≡ fulfilled v)
      ↔ ((pwd ≡ password) × (password ≢ []) × (v ≡ verified true))
password_validation_iff password pwd v =
    (accepted_password password pwd v, λ (same, ne, t). rw (same, t) (accepts password ne))
  where
    accepts :
        (password : Text)
        → password ≢ []
        → password_validation password password ≡ fulfilled (verified true)
    accepts [] ne = absurd (ne refl)
    accepts (c ∷ s) ne = unfold password_validation in rw (text_eq_refl (c ∷ s)) refl

rejects_other :
    (password pwd : Text)
    → (pwd ≢ password) ⊎ (password ≡ [])
    → (e : String) × (password_validation password pwd ≡ rejected e)
unfolding password_validation
rejects_other password [] h = ("Please enter a password!", refl)
rejects_other password (c ∷ pwd) h = elim (Bool-cases (text_eq (c ∷ pwd) password)) [
  | inl e ↦
      let p = text_eq_path (c ∷ pwd) password e in
      absurd (elim h [ inl ne ↦ ne p | inr none' ↦ ground (arith, p, none') ])
  | inr e ↦ ("Wrong password. Please try again!", rw e refl)
]

-- After `promptPassword`, as long as the password has not been entered, no promise gets another
-- answer than `null`, if that held of the earlier answers.
pub prompt_password_sound :
    (password : Text) (q : Question) (d : Prompt) (as' : List Action)
    → q.validation ≡ some (password_validation password)
    → All (λ c. c.1 ≡ cancelled) d.resolver.calls
    → All (λ a. a ≢ enter password) as'
    → All (λ c. c.1 ≡ cancelled) (run as' (prompt q d)).resolver.calls
prompt_password_sound password q d as' e h ne =
    run-Refused (password_validation password) (λ t. (t ≢ password) ⊎ (password ≡ []))
      (rejects_other password) q d as' e (empty_input password) h (entered as' ne)
  where
    empty_input : (password : Text) → (◌≢◌ {A = Text} [] password) ⊎ (password ≡ [])
    empty_input [] = inr refl
    empty_input (c ∷ s) = inl (λ e. cc)

    entered :
        (as' : List Action)
        → All (λ a. a ≢ enter password) as'
        → All
            (EntersRefused
              (password_validation password)
              (λ t. (t ≢ password) ⊎ (password ≡ []))
              (rejects_other password))
            as'
    entered [] ns = tt
    entered (enter t ∷ as') (n, ns) = (inl (λ e. n (ap enter e)), entered as' ns)
    entered (confirm ∷ as') (n, ns) = (tt, entered as' ns)
    entered (dismiss ∷ as') (n, ns) = (tt, entered as' ns)
