-- ===== src/Dialogs/Queue/Settled.antt =====
-- What lining up a dialog and settling the one that runs do to a chain.
use padlock_cloud.Prelude.{
  ◌≡◌, refl, Bool, true, false, List, [], ◌∷◌, ◌++◌, String, All-append, if◌then◌else◌,
}
use padlock_cloud.Dialogs.Queue.{
  Status, waiting, running, fulfilled, rejected, Job, Chain, settle_by, settle_running,
}
use padlock_cloud.Dialogs.Queue.Order.{
  AllWaiting, AfterRejection, IsTidy, job, waiting-AfterRejection,
}

abbrev Appends : String → Chain → Type 0
Appends e jobs = AfterRejection jobs → AfterRejection (jobs ++ job e waiting ∷ [])

append_rejected_cons :
    (e d : String) (s : Status) (jobs : Chain) → Appends e jobs → Appends e (job d s ∷ jobs)
append_rejected_cons e d waiting jobs ih h =
    All-append (λ j. j.status ≡ waiting) jobs (job e waiting ∷ []) h (refl, tt)
append_rejected_cons e d rejected jobs ih h = ih h
append_rejected_cons e d running jobs ih h = elim h [ ]
append_rejected_cons e d fulfilled jobs ih h = elim h [ ]

append_rejected : (e : String) (jobs : Chain) → Appends e jobs
append_rejected e [] h = tt
append_rejected e (j ∷ jobs) h =
    append_rejected_cons e j.dialog j.status jobs (append_rejected e jobs) h

abbrev AppendsTidily : String → Chain → Type 0
AppendsTidily e jobs =
    (shown : List String) → IsTidy jobs shown → IsTidy (jobs ++ job e waiting ∷ []) shown

append_tidy_cons :
    (e d : String) (s : Status) (jobs : Chain)
    → AppendsTidily e jobs
    → AppendsTidily e (job d s ∷ jobs)
append_tidy_cons e d s jobs ih [] h =
    All-append (λ j. j.status ≡ waiting) (job d s ∷ jobs) (job e waiting ∷ []) h (refl, tt)
append_tidy_cons e d running jobs ih (x ∷ shown) (p, (n, ws)) =
    (p, (n, All-append (λ j. j.status ≡ waiting) jobs (job e waiting ∷ []) ws (refl, tt)))
append_tidy_cons e d fulfilled jobs ih (x ∷ shown) (p, t) = (p, ih shown t)
append_tidy_cons e d rejected jobs ih (x ∷ shown) (p, (n, r)) = (p, (n, append_rejected e jobs r))
append_tidy_cons e d waiting jobs ih (x ∷ shown) (p, t) = elim t [ ]

pub append_tidy : (e : String) (jobs : Chain) → AppendsTidily e jobs
append_tidy e [] [] h = (refl, tt)
append_tidy e [] (x ∷ shown) h = elim h [ ]
append_tidy e (j ∷ jobs) shown h =
    append_tidy_cons e j.dialog j.status jobs (append_tidy e jobs) shown h

settle_cons :
    (outcome : Status) (j : Job) (jobs : Chain)
    → settle_running outcome (j ∷ jobs)
      ≡ settle_by outcome j.status j jobs (settle_running outcome jobs)
unfolding settle_running
settle_cons outcome j jobs = refl

settle_waiting :
    (outcome : Status) (jobs : Chain) → AllWaiting jobs → settle_running outcome jobs ≡ jobs
settle_waiting outcome [] h = unfold settle_running in refl
settle_waiting outcome (j ∷ jobs) (w, ws) =
    rw (settle_cons outcome j jobs, w, settle_waiting outcome jobs ws) refl

abbrev SettleIdle : Status → Chain → Type 0
SettleIdle outcome jobs = AfterRejection jobs → settle_running outcome jobs ≡ jobs

settle_rejected_cons :
    (outcome : Status) (d : String) (s : Status) (jobs : Chain)
    → SettleIdle outcome jobs
    → SettleIdle outcome (job d s ∷ jobs)
settle_rejected_cons outcome d waiting jobs ih h =
    rw (settle_cons outcome (job d waiting) jobs, settle_waiting outcome jobs h) refl
settle_rejected_cons outcome d rejected jobs ih h =
    rw (settle_cons outcome (job d rejected) jobs, ih h) refl
settle_rejected_cons outcome d running jobs ih h = elim h [ ]
settle_rejected_cons outcome d fulfilled jobs ih h = elim h [ ]

settle_rejected : (outcome : Status) (jobs : Chain) → SettleIdle outcome jobs
settle_rejected outcome [] h = unfold settle_running in refl
settle_rejected outcome (j ∷ jobs) h =
    settle_rejected_cons outcome j.dialog j.status jobs (settle_rejected outcome jobs) h

abbrev pub status_of : Bool → Status
status_of accepted = if accepted then fulfilled else rejected

waiting-IsTidy : (jobs : Chain) → AllWaiting jobs → IsTidy jobs []
waiting-IsTidy [] h = tt
waiting-IsTidy (j ∷ jobs) h = h

settled_job :
    (accepted : Bool) (d : String) (jobs : Chain)
    → AllWaiting jobs
    → IsTidy (job d (status_of accepted) ∷ jobs) (d ∷ [])
settled_job true d jobs h = (refl, waiting-IsTidy jobs h)
settled_job false d jobs h = (refl, (refl, waiting-AfterRejection jobs h))

abbrev SettlesTidily : Bool → Chain → Type 0
SettlesTidily accepted jobs =
    (shown : List String)
    → IsTidy jobs shown
    → IsTidy (settle_running (status_of accepted) jobs) shown

settle_tidy_cons :
    (accepted : Bool) (d : String) (s : Status) (jobs : Chain)
    → SettlesTidily accepted jobs
    → SettlesTidily accepted (job d s ∷ jobs)
settle_tidy_cons accepted d s jobs ih [] h =
    rw (settle_waiting (status_of accepted) (job d s ∷ jobs) h) h
settle_tidy_cons accepted d running jobs ih (x ∷ shown) (p, (n, ws)) =
    rw (settle_cons (status_of accepted) (job d running) jobs, n, p)
      (settled_job accepted d jobs ws)
settle_tidy_cons accepted d fulfilled jobs ih (x ∷ shown) (p, t) =
    rw (settle_cons (status_of accepted) (job d fulfilled) jobs) (p, ih shown t)
settle_tidy_cons accepted d rejected jobs ih (x ∷ shown) (p, (n, r)) =
    rw
      (
        settle_cons (status_of accepted) (job d rejected) jobs,
        settle_rejected (status_of accepted) jobs r,
      )
      (p, (n, r))
settle_tidy_cons accepted d waiting jobs ih (x ∷ shown) (p, t) = elim t [ ]

pub settle_tidy : (accepted : Bool) (jobs : Chain) → SettlesTidily accepted jobs
settle_tidy accepted [] [] h = unfold settle_running in tt
settle_tidy accepted [] (x ∷ shown) h = elim h [ ]
settle_tidy accepted (j ∷ jobs) shown h =
    settle_tidy_cons accepted j.dialog j.status jobs (settle_tidy accepted jobs) shown h
