-- ===== src/Dialogs/Queue/Order.antt =====
-- In which order the dialogs of one chain are shown.
use padlock_cloud.Prelude.{◌≡◌, refl, Option, none, some, List, [], ◌∷◌, ◌++◌, String, All}
use padlock_cloud.Dialogs.Queue.{
  Status, waiting, running, fulfilled, rejected, Job, Chain, by_status, react,
}

abbrev pub AllWaiting : Chain → Type 0
AllWaiting = All (λ j. j.status ≡ waiting)

-- What may follow a rejected job.
abbrev pub AfterRejection : Chain → Type 0
AfterRejection [] = Unit
AfterRejection (j ∷ jobs) = elim j.status [
  | rejected ↦ AfterRejection jobs
  | waiting ↦ AllWaiting jobs
  | _ ↦ ⊥
]

abbrev pub Follows : Status → List String → Chain → (List String → Type 0) → Type 0
Follows fulfilled shown jobs tidy = tidy shown
Follows running shown jobs tidy = (shown ≡ []) × AllWaiting jobs
Follows rejected shown jobs tidy = (shown ≡ []) × AfterRejection jobs
Follows waiting shown jobs tidy = ⊥

-- A chain whose dialogs `shown` have been shown: the jobs before the last of them are fulfilled, the
-- last is fulfilled, running or rejected, and the jobs behind it wait or are rejected after it.
abbrev pub IsTidy : Chain → List String → Type 0
IsTidy [] [] = Unit
IsTidy [] (_ ∷ _) = ⊥
IsTidy (j ∷ jobs) [] = AllWaiting (j ∷ jobs)
IsTidy (j ∷ jobs) (d ∷ shown) = (d ≡ j.dialog) × Follows j.status shown jobs (IsTidy jobs)

-- The dialog that a reaction shows, if any.
abbrev pub and_now : List String → Option String → List String
and_now shown none = shown
and_now shown (some d) = shown ++ d ∷ []

react_waiting : (jobs : Chain) → AllWaiting jobs → react waiting jobs ≡ (jobs, none)
unfolding react
react_waiting [] h = refl
react_waiting (j ∷ jobs) (w, ws) = rw (w, react_waiting jobs ws) refl

react_running : (jobs : Chain) → AllWaiting jobs → react running jobs ≡ (jobs, none)
unfolding react
react_running [] h = refl
react_running (j ∷ jobs) (w, ws) = rw (w, react_waiting jobs ws) refl

abbrev pub job : String → Status → Job
job dialog status = record { dialog = dialog; status = status }

react_cons :
    (before : Status) (j : Job) (jobs : Chain)
    → react before (j ∷ jobs) ≡ by_status before j.status j jobs (react j.status jobs)
unfolding react
react_cons before j jobs = refl

and_now_cons :
    (d : String) (shown : List String) (now : Option String)
    → and_now (d ∷ shown) now ≡ d ∷ and_now shown now
and_now_cons d shown none = refl
and_now_cons d shown (some e) = refl

abbrev StaysRejected : Chain → Type 0
StaysRejected jobs =
    AfterRejection jobs → AfterRejection (react rejected jobs).0 × ((react rejected jobs).1 ≡ none)

pub waiting-AfterRejection : (jobs : Chain) → AllWaiting jobs → AfterRejection jobs
waiting-AfterRejection [] h = tt
waiting-AfterRejection (j ∷ jobs) (w, ws) = rw w ws

react_rejected_cons :
    (d : String) (s : Status) (jobs : Chain) → StaysRejected jobs → StaysRejected (job d s ∷ jobs)
react_rejected_cons d waiting jobs ih h =
    rw (react_cons rejected (job d waiting) jobs) (waiting-AfterRejection jobs h, refl)
react_rejected_cons d rejected jobs ih h = rw (react_cons rejected (job d rejected) jobs) (ih h)
react_rejected_cons d running jobs ih h = elim h [ ]
react_rejected_cons d fulfilled jobs ih h = elim h [ ]

-- After a rejection nothing is shown.
react_rejected : (jobs : Chain) → StaysRejected jobs
react_rejected [] h = unfold react in (tt, refl)
react_rejected (j ∷ jobs) h = react_rejected_cons j.dialog j.status jobs (react_rejected jobs) h

abbrev ReactsTidily : Chain → Type 0
ReactsTidily jobs =
    (shown : List String)
    → IsTidy jobs shown
    → IsTidy (react fulfilled jobs).0 (and_now shown (react fulfilled jobs).1)

react-IsTidy_cons :
    (d : String) (s : Status) (jobs : Chain) → ReactsTidily jobs → ReactsTidily (job d s ∷ jobs)
react-IsTidy_cons d s jobs ih [] (w, ws) =
    rw (w, react_cons fulfilled (job d waiting) jobs) (refl, (refl, ws))
react-IsTidy_cons d running jobs ih (e ∷ shown) (p, (n, ws)) =
    rw (react_cons fulfilled (job d running) jobs, react_running jobs ws) (p, (n, ws))
react-IsTidy_cons d fulfilled jobs ih (e ∷ shown) (p, t) =
    rw (react_cons fulfilled (job d fulfilled) jobs, and_now_cons) (p, ih shown t)
react-IsTidy_cons d rejected jobs ih (e ∷ shown) (p, (n, r)) =
    let (r', none_now) = react_rejected jobs r in
    rw (react_cons fulfilled (job d rejected) jobs, none_now) (p, (n, r'))
react-IsTidy_cons d waiting jobs ih (e ∷ shown) (p, t) = elim t [ ]

pub react-IsTidy : (jobs : Chain) → ReactsTidily jobs
react-IsTidy [] [] h = unfold react in tt
react-IsTidy [] (d ∷ shown) h = elim h [ ]
react-IsTidy (j ∷ jobs) shown h =
    react-IsTidy_cons j.dialog j.status jobs (react-IsTidy jobs) shown h
