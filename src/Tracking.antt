-- ===== src/Tracking.antt =====
-- The tracking module (assets/static/elements/cloud-dashboard/cloud-dashboard.js, bundle module 4).
-- The store of statistics and the client's requests are outside: what a read gives, how a request is
-- settled and what `JSON.parse` makes of a response are arguments. Times are in milliseconds.
pub mod Launches
pub mod Settling
mod Tests
use padlock_cloud.Prelude.{
  ℕ, suc, Bool, true, false, Option, none, some, List, [], ◌∷◌, String, str_eq, ◌==◌, if◌then◌else◌,
}
use padlock_cloud.Promise.{Promise, pending, fulfilled, rejected, ◌>>=◌}

-- What the store holds; `none` is a property that is missing.
pub record Stats : Type 0 where
  pub tracking_id : Option String
  pub first_launch : Option ℕ
  pub last_launch : Option ℕ
  pub launch_count : Option ℕ
  pub last_version : Option String
  pub sync_custom_host : Bool
  pub email : Option String
  pub last_sync : Option ℕ
  pub last_asked_feedback : Option ℕ
  pub last_rated_version : Option String
  pub last_rating : Option ℕ
  pub last_reviewed : Option ℕ

-- The values of the properties that are sent.
pub data Value : Type 0 where
  undefined : Value
  text : String → Value
  number : ℕ → Value
  flag : Bool → Value

abbrev pub Props : Type 0
Props = List (String × Value)

-- `props[key] = value`
unfoldable pub set_prop : String → Value → Props → Props
set_prop key value [] = (key, value) ∷ []
set_prop key value ((k, v) ∷ props) =
    let rest = set_prop key value props in
    if str_eq k key then (k, value) ∷ props else (k, v) ∷ rest

pub record Data : Type 0 where
  pub event : String
  pub props : Props
  pub tracking_id : Option String

abbrev text_or_undefined : Option String → Value
text_or_undefined none = undefined
text_or_undefined (some s) = text s

abbrev number_or_undefined : Option ℕ → Value
number_or_undefined none = undefined
number_or_undefined (some n) = number n

-- `.catch(() => { })`
abbrev pub recover : {A : Type 0} → Promise String A → Promise String (Option A)
recover pending = pending
recover (fulfilled a) = fulfilled (some a)
recover (rejected e) = fulfilled none

-- The truthy `props.Email`.
unfoldable pub email_of : Props → Option String
email_of [] = none
email_of ((k, text s) ∷ props) =
    let rest = email_of props in
    if str_eq k "Email" then (if str_eq s "" then none else some s) else rest
email_of ((k, v) ∷ props) = email_of props

-- `ready`, which an address that is given replaces by its storing.
abbrev pub ready_after :
    (String → Promise String (Unit {0}))
    → Option String
    → Promise String (Unit {0})
    → Promise String (Unit {0})
ready_after set_email none ready = ready
ready_after set_email (some address) ready = set_email address

module _ (to_iso : ℕ → String) where
  -- `t && new Date(t).toISOString()`
  abbrev date_or_falsy : Option ℕ → Value
  date_or_falsy none = undefined
  date_or_falsy (some t) = if t == 0 then number 0 else text (to_iso t)

  -- `if (t) { … }`
  abbrev pub if_time : Option ℕ → (ℕ → Props → Props) → Props → Props
  if_time none f props = props
  if_time (some t) f props = if t == 0 then props else f t props

  -- The properties after the first `then` of `track`.
  unfoldable pub add_stats : Stats → Props → Props
  add_stats stats props =
      let p₁ = set_prop "First Launch" (date_or_falsy stats.first_launch) props in
      let p₂ = set_prop "Launch Count" (number_or_undefined stats.launch_count) p₁ in
      let p₃ = set_prop "Custom Server" (flag stats.sync_custom_host) p₂ in
      let p₄ = set_prop "Email" (text_or_undefined stats.email) p₃ in
      let p₅ = if_time stats.last_sync (λ t. set_prop "Last Sync" (text (to_iso t))) p₄ in
      let p₆ =
        if_time stats.last_asked_feedback
          (λ t p. set_prop "Rating" (number_or_undefined stats.last_rating) (
            set_prop "Rated Version" (text_or_undefined stats.last_rated_version)
              (set_prop "Last Rated" (text (to_iso t)) p)))
          p₅ in
      if_time stats.last_reviewed (λ t. set_prop "Last Reviewed" (text (to_iso t))) p₆

  -- The chain of `track` behind the promise `ready`, for statistics that are read, a request that is
  -- settled by the data, and the reading of the tracking id from its response. `some` is the
  -- identifier that `setTrackingID` takes.
  unfoldable pub track :
      (String → Promise String (Unit {0}))
      → Promise String (Unit {0})
      → Promise String Stats
      → (Data → Promise String String)
      → (String → Promise String String)
      → Option String
      → String
      → Props
      → Promise String (Option String)
  track set_email ready get client_request read_id tracking_id event props = recover (
      ready_after set_email (email_of props) ready >>= (λ r. get >>= (λ stats.
        client_request
          (record { event = event; props = add_stats stats props; tracking_id = tracking_id })
        >>= (λ response. read_id response))))

-- What a launch tracks.
pub data Launch : Type 0 where
  install : Launch
  update : (from : Option String) → Launch

abbrev count_after : Option ℕ → ℕ
count_after none = 1
count_after (some n) = suc n

abbrev pub is_first : Option ℕ → Bool
is_first none = true
is_first (some t) = t == 0

abbrev first_or_now : ℕ → Option ℕ → ℕ
first_or_now now none = now
first_or_now now (some t) = if t == 0 then now else t

abbrev same_version : Option String → String → Bool
same_version none version = false
same_version (some v) version = str_eq v version

-- The initial `ready`, when the statistics and the version have been read, at a time: what is
-- tracked, and the statistics that the store holds when it has merged those that are set.
unfoldable pub launch : String → ℕ → Stats → List Launch × Stats
launch version now stats = (
  if is_first stats.first_launch
      then install ∷ []
      else if same_version stats.last_version version
      then []
      else update stats.last_version ∷ [],
  record stats {
    first_launch = some (first_or_now now stats.first_launch);
    last_launch = some now;
    launch_count = some (count_after stats.launch_count);
    last_version = some version;
  },
)
