-- ===== src/Dialogs/Queue.antt =====
-- `DialogMixin`: the elements that it creates, and the chain of promises by which dialogs wait for
-- one another. A job is a call of `lineUpDialog`: its dialog is shown when the promise of the job
-- before it is fulfilled. `clearDialogs` begins a new chain and leaves the old one running.
pub mod Order
pub mod Settled
pub mod Sequence
pub mod Passwords
use padlock_cloud.Prelude.{
  ℕ, Bool, true, false, ◌||◌, Option, none, some, List, [], ◌∷◌, ◌++◌, String, str_eq,
  if◌then◌else◌,
}

pub data Status : Type 0 where
  waiting running fulfilled rejected : Status

pub record Job : Type 0 where
  pub dialog : String
  pub status : Status

abbrev pub Chain : Type 0
Chain = List Job

pub record Page : Type 0 where
  -- `dialogElements`, and the elements appended to the body in their order.
  pub dialog_elements : List String
  pub appended : List String
  -- The chain that `lastDialogPromise` ends, and those that `clearDialogs` left.
  pub chain : Chain
  pub old_chains : List Chain
  pub current_dialog : Option String
  -- The dialogs whose function has been called, in order.
  pub shown : List String
  -- The dialogs that `clearDialogs` closed.
  pub closed : List String

abbrev pub init : Page
init = record {
  dialog_elements = [];
  appended = [];
  chain = [];
  old_chains = [];
  current_dialog = none;
  shown = [];
  closed = [];
}

abbrev pub contains : String → List String → Bool
contains e [] = false
contains e (d ∷ elements) = str_eq d e || contains e elements

-- `getDialog` and `getSingleton`, for the effect on the page.
unfoldable pub get_dialog : String → Page → Page
get_dialog element p = if contains element p.dialog_elements then p else record p {
  dialog_elements = p.dialog_elements ++ element ∷ [];
  appended = p.appended ++ element ∷ [];
}

-- `lineUpDialog`: the job joins the chain, and its function is not called yet.
unfoldable pub line_up_dialog : String → Page → Page
unfolding get_dialog
line_up_dialog element p =
    let p' = get_dialog element p in
    record p' { chain = p'.chain ++ record { dialog = element; status = waiting } ∷ [] }

abbrev pub by_status : Status → Status → Job → Chain → Chain × Option String → Chain × Option String
by_status fulfilled waiting j jobs rest = (record j { status = running } ∷ jobs, some j.dialog)
by_status rejected waiting j jobs rest = (record j { status = rejected } ∷ jobs, none)
by_status _ _ j jobs rest = (j ∷ rest.0, rest.1)

-- One reaction of a chain: the first job that waits behind a settled promise, with the status of the
-- promise before the list. It runs after a fulfilled promise and is rejected after a rejected one.
unfoldable pub react : Status → Chain → Chain × Option String
react before [] = ([], none)
react before (j ∷ jobs) = by_status before j.status j jobs (react j.status jobs)

abbrev pub settle_by : Status → Status → Job → Chain → Chain → Chain
settle_by outcome running j jobs rest = record j { status = outcome } ∷ jobs
settle_by outcome _ j jobs rest = j ∷ rest

-- The promise of the dialog that runs is settled.
unfoldable pub settle_running : Status → Chain → Chain
settle_running outcome [] = []
settle_running outcome (j ∷ jobs) = settle_by outcome j.status j jobs (settle_running outcome jobs)

abbrev pub show_dialog : Option String → Page → Page
show_dialog none p = p
show_dialog (some d) p = record p { current_dialog = some d; shown = p.shown ++ d ∷ [] }

-- The chain that `lastDialogPromise` ends reacts: `currentDialog` is set and `fn` called.
unfoldable pub react_page : Page → Page
react_page p =
    let (chain, now) = react fulfilled p.chain in show_dialog now (record p { chain = chain })

abbrev close : Option String → Page → Page
close none p = p
close (some d) p = record p { closed = p.closed ++ d ∷ [] }

-- `clearDialogs`
unfoldable pub clear_dialogs : Page → Page
clear_dialogs p =
    close p.current_dialog (record p { chain = []; old_chains = p.chain ∷ p.old_chains })
