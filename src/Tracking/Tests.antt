-- ===== src/Tracking/Tests.antt =====
-- Launches and tracked events at concrete inputs.
use padlock_cloud.Prelude.{◌≡◌, false, Option, none, [], String}
use padlock_cloud.Promise.{fulfilled, rejected}
use padlock_cloud.Tracking.{Stats, email_of, track}
use padlock_cloud.Tracking.Settling.{track_fulfilled}

abbrev no_stats : Stats
no_stats = record {
  tracking_id = none;
  first_launch = none;
  last_launch = none;
  launch_count = none;
  last_version = none;
  sync_custom_host = false;
  email = none;
  last_sync = none;
  last_asked_feedback = none;
  last_rated_version = none;
  last_rating = none;
  last_reviewed = none;
}

-- The server cannot be reached.
track_fulfilled_example :
    (o : Option String) × (track
        (λ t. "date")
        (λ address. fulfilled tt)
        (fulfilled tt)
        (fulfilled no_stats)
        (λ data'. rejected "Failed Connection")
        (λ response. fulfilled response)
        none
        "Install"
        []
      ≡ fulfilled o)
unfolding email_of
track_fulfilled_example =
    track_fulfilled (λ t. "date") (λ address. fulfilled tt) (fulfilled tt) (fulfilled no_stats)
      (λ data'. rejected "Failed Connection") (λ response. fulfilled response) none "Install" [] tt
      tt (λ d. tt) (λ response. tt)
