-- ===== src/Dialogs/Queue/Sequence.antt =====
-- Uses of the page with and without `clearDialogs`.
use padlock_cloud.Prelude.{
  ℕ, ◌+◌, ◌≤◌, ◌≡◌, refl, ap, ap₂, Option-cases, ◌∙◌, Bool, Option, none, some, List, [], ◌∷◌, ◌++◌,
  map, String, arith, Bool-cases, inl, inr,
}
use padlock_cloud.Dialogs.Queue.{
  show_dialog, Status, waiting, running, fulfilled, rejected, Chain, Page, init, contains,
  line_up_dialog, react, settle_running, react_page, clear_dialogs,
}
use padlock_cloud.Dialogs.Queue.Order.{
  AllWaiting, AfterRejection, IsTidy, job, and_now, react-IsTidy,
}
use padlock_cloud.Dialogs.Queue.Settled.{append_tidy, status_of, settle_tidy}

-- A use of the page without `clearDialogs`: dialogs are lined up, the chain reacts, and the promise
-- of the dialog that runs is fulfilled or rejected.
pub data Use : Page → Type 0 where
  begun : Use init
  lined_up : {p : Page} (e : String) → Use p → Use (line_up_dialog e p)
  reacted : {p : Page} → Use p → Use (react_page p)
  settled :
      {p : Page} (accepted : Bool)
      → Use p
      → Use (record p { chain = settle_running (status_of accepted) p.chain })

line_up_lem :
    (e : String) (p : Page)
    → ((line_up_dialog e p).chain ≡ p.chain ++ job e waiting ∷ [])
      × ((line_up_dialog e p).shown ≡ p.shown)
unfolding line_up_dialog
line_up_lem e p = elim (Bool-cases (contains e p.dialog_elements)) [
  | inl c ↦ rw c (refl, refl)
  | inr c ↦ rw c (refl, refl)
]

shown_lem :
    (now : Option String) (p : Page)
    → ((show_dialog now p).chain ≡ p.chain) × ((show_dialog now p).shown ≡ and_now p.shown now)
shown_lem none p = (refl, refl)
shown_lem (some d) p = (refl, refl)

react_page_lem :
    (p : Page)
    → ((react_page p).chain ≡ (react fulfilled p.chain).0)
      × ((react_page p).shown ≡ and_now p.shown (react fulfilled p.chain).1)
unfolding react_page
react_page_lem p =
    shown_lem (react fulfilled p.chain).1 (record p { chain = (react fulfilled p.chain).0 })

Use-IsTidy : {p : Page} → Use p → IsTidy p.chain p.shown
Use-IsTidy begun = tt
Use-IsTidy (lined_up {p} e u) =
    let (c, s) = line_up_lem e p in rw (c, s) (append_tidy e p.chain p.shown (Use-IsTidy u))
Use-IsTidy (reacted {p} u) =
    let (c, s) = react_page_lem p in rw (c, s) (react-IsTidy p.chain p.shown (Use-IsTidy u))
Use-IsTidy (settled {p} accepted u) = settle_tidy accepted p.chain p.shown (Use-IsTidy u)

-- How many dialogs of a chain run.
abbrev pub one_if_running : Status → ℕ
one_if_running running = 1
one_if_running _ = 0

abbrev pub running_count : Chain → ℕ
running_count [] = 0
running_count (j ∷ jobs) = one_if_running j.status + running_count jobs

none_running : (jobs : Chain) → AllWaiting jobs → running_count jobs ≡ 0
none_running [] h = refl
none_running (j ∷ jobs) (w, ws) = rw w (omega (arith, none_running jobs ws))

abbrev NoneRunning : Chain → Type 0
NoneRunning jobs = AfterRejection jobs → running_count jobs ≡ 0

NoneRunning-cons :
    (d : String) (s : Status) (jobs : Chain) → NoneRunning jobs → NoneRunning (job d s ∷ jobs)
NoneRunning-cons d waiting jobs ih h = omega (arith, none_running jobs h)
NoneRunning-cons d rejected jobs ih h = omega (arith, ih h)
NoneRunning-cons d running jobs ih h = elim h [ ]
NoneRunning-cons d fulfilled jobs ih h = elim h [ ]

NoneRunning-rejected : (jobs : Chain) → NoneRunning jobs
NoneRunning-rejected [] h = refl
NoneRunning-rejected (j ∷ jobs) h =
    NoneRunning-cons j.dialog j.status jobs (NoneRunning-rejected jobs) h

abbrev InOrder : Chain → Type 0
InOrder jobs =
    (shown : List String)
    → IsTidy jobs shown
    → (running_count jobs ≤ 1) × (rest : List String) × (map (λ j. j.dialog) jobs ≡ shown ++ rest)

InOrder-cons : (d : String) (s : Status) (jobs : Chain) → InOrder jobs → InOrder (job d s ∷ jobs)
InOrder-cons d s jobs ih [] h = (omega (arith, none_running (job d s ∷ jobs) h), _, refl)
InOrder-cons d running jobs ih (x ∷ shown) (p, (n, ws)) =
    (omega (arith, none_running jobs ws), map (λ j. j.dialog) jobs, rw (n, p) refl)
InOrder-cons d fulfilled jobs ih (x ∷ shown) (p, t) =
    let (one, rest, e) = ih shown t in (omega arith, rest, rw (e, p) refl)
InOrder-cons d rejected jobs ih (x ∷ shown) (p, (n, r)) =
    (omega (arith, NoneRunning-rejected jobs r), map (λ j. j.dialog) jobs, rw (n, p) refl)
InOrder-cons d waiting jobs ih (x ∷ shown) (p, t) = elim t [ ]

in_order : (jobs : Chain) → InOrder jobs
in_order [] [] h = (omega arith, [], refl)
in_order [] (x ∷ shown) h = elim h [ ]
in_order (j ∷ jobs) shown h = InOrder-cons j.dialog j.status jobs (in_order jobs) shown h

-- While `clearDialogs` is not called, at most one dialog runs at a time, and the dialogs that have
-- been shown are the first of those that were lined up, in the same order.
pub Use-InOrder :
    {p : Page}
    → Use p
    → (running_count p.chain ≤ 1)
      × (rest : List String) × (map (λ j. j.dialog) p.chain ≡ p.shown ++ rest)
Use-InOrder {p} u = in_order p.chain p.shown (Use-IsTidy u)

line_up_old : (e : String) (p : Page) → (line_up_dialog e p).old_chains ≡ p.old_chains
unfolding line_up_dialog
line_up_old e p = elim (Bool-cases (contains e p.dialog_elements)) [
  | inl c ↦ rw c refl
  | inr c ↦ rw c refl
]

line_up_single :
    (e : String) (p : Page) → p.chain ≡ [] → (line_up_dialog e p).chain ≡ job e waiting ∷ []
line_up_single e p h = (line_up_lem e p).0 ∙ ap (λ (c : Chain). c ++ job e waiting ∷ []) h

react_single :
    (e : String) (p : Page)
    → p.chain ≡ job e waiting ∷ []
    → ((react_page p).chain ≡ job e running ∷ [])
      × ((react_page p).current_dialog ≡ some e)
      × ((react_page p).old_chains ≡ p.old_chains)
unfolding react_page react
react_single e p h = rw h (refl, refl, refl)

clear_lem :
    (p : Page)
    → ((clear_dialogs p).chain ≡ []) × ((clear_dialogs p).old_chains ≡ p.chain ∷ p.old_chains)
unfolding clear_dialogs
clear_lem p = elim (Option-cases p.current_dialog) [
  | inl c ↦ rw c (refl, refl)
  | inr (d, c) ↦ rw c (refl, refl)
]

-- `clearDialogs` begins a chain that does not wait for the dialog that runs: from a page with no
-- chain, a dialog lined up and shown before the call and one lined up and shown after it run at
-- the same time.
pub two_run_after_clear :
    (p : Page) (a b : String)
    → p.chain ≡ []
    → let before = react_page (line_up_dialog a p) in
      let after = react_page (line_up_dialog b (clear_dialogs before)) in
      (after.chain ≡ job b running ∷ []) × (after.old_chains ≡ (job a running ∷ []) ∷ p.old_chains)
two_run_after_clear p a b h =
    let q = line_up_dialog a p in
    let (chain₁, run₁, old₁) = react_single a q (line_up_single a p h) in
    let (none₂, old₂) = clear_lem (react_page q) in
    let r = clear_dialogs (react_page q) in
    let (chain₃, run₃, old₃) = react_single b (line_up_dialog b r) (line_up_single b r none₂) in
    (
      chain₃,
      old₃
          ∙ line_up_old b r
          ∙ old₂
          ∙ ap₂ (λ (c : Chain) (cs : List Chain). c ∷ cs) chain₁ (old₁ ∙ line_up_old a p),
    )
