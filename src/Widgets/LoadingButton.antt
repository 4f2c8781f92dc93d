-- ===== src/Widgets/LoadingButton.antt =====
-- `LoadingButton` (`pl-loading-button`). Every timer of the element has the callback
-- `() => this.stop()`.
pub mod Laws
use padlock_cloud.Prelude.{ℕ, Bool, true, false, Option, none, some, [], String, if◌then◌else◌}
use padlock_cloud.Browser.Timers.{Timers, remove, set_timeout, clear_timeout}

pub record LoadingButton : Type 0 where
  pub failed : Bool
  pub loading : Bool
  pub succeeded : Bool
  pub label : String
  pub no_tab : Bool
  -- `_stopTimeout`: the timer set last, whether or not it is still live.
  pub stop_timeout : Option ℕ
  pub timers : Timers (Unit {0})

unfoldable pub init : LoadingButton
init = record {
  failed = false;
  loading = false;
  succeeded = false;
  label = "";
  no_tab = false;
  stop_timeout = none;
  timers = record { live = []; fresh = 0 };
}

unfoldable pub start : LoadingButton → LoadingButton
unfolding clear_timeout
start b = record b {
  timers = clear_timeout b.stop_timeout b.timers;
  succeeded = false;
  failed = false;
  loading = true;
}

unfoldable pub stop : LoadingButton → LoadingButton
stop b = record b { succeeded = false; failed = false; loading = false }

unfoldable pub success : LoadingButton → LoadingButton
unfolding set_timeout
success b = record b {
  loading = false;
  failed = false;
  succeeded = true;
  stop_timeout = some b.timers.fresh;
  timers = set_timeout tt b.timers;
}

unfoldable pub fail : LoadingButton → LoadingButton
unfolding set_timeout
fail b = record b {
  loading = false;
  succeeded = false;
  failed = true;
  stop_timeout = some b.timers.fresh;
  timers = set_timeout tt b.timers;
}

unfoldable pub tab_index : Bool → String
tab_index no_tab = if no_tab then "-1" else ""

unfoldable pub button_class : LoadingButton → String
button_class b =
    if b.loading
    then "loading"
    else if b.succeeded
    then "success"
    else if b.failed
    then "fail"
    else ""

-- The browser fires a live timer: its number is live no longer, and its callback runs.
unfoldable pub fire : ℕ → LoadingButton → LoadingButton
unfolding remove stop
fire n b = stop (record b { timers = record b.timers { live = remove n b.timers.live } })
