-- ===== src/Platform.antt =====
-- The platform module (assets/static/elements/cloud-dashboard/cloud-dashboard.js, bundle module 3):
-- which environment the app runs in, and what it asks of it.
-- The environment is a parameter: what `window.require`, Electron, Cordova and Chrome offer, each
-- where it is there, and how the promises of a plugin are settled.
pub mod Links
pub mod Device
mod Tests
use padlock_cloud.Prelude.{
  text_eq, Bool, true, false, Option, none, some, List, [], ◌∷◌, ◌++◌, Text, codes, is_some,
  if◌then◌else◌,
}
use padlock_cloud.Promise.{Promise, pending, fulfilled, rejected, ◌>>=◌}
use padlock_cloud.Util.Language.{lower_case}

abbrev pub Eventual : Type 0 → Type 0
Eventual A = Promise Text A

-- The `deviceready` event, `device` and the plugins.
pub record Cordova : Type 0 where
  pub ready : Eventual (Unit {0})
  pub copy : Text → Eventual (Unit {0})
  pub paste : Eventual Text
  pub version_number : Eventual Text
  pub platform : Text
  pub uuid : Text
  pub version : Text
  pub model : Text
  pub manufacturer : Text

pub record Electron : Type 0 where
  pub version : Text
  pub clipboard : Text
  -- `remote.getGlobal("settings").get("uuid")`
  pub settings_uuid : Text

-- `window.require`, with what it gives for "os" and "electron".
pub record Node : Type 0 where
  pub platform : Text
  pub release : Text
  pub host_name : Text
  pub electron : Option Electron

-- `chrome`, where `chrome.app.runtime` is there.
pub record ChromeApp : Type 0 where
  pub version : Text
  pub os : Eventual Text

pub record Environment : Type 0 where
  pub node : Option Node
  pub cordova : Option Cordova
  pub chrome_app : Option ChromeApp
  -- `navigator.language`, and whether `createEvent("TouchEvent")` works.
  pub language : Option Text
  pub touch : Bool
  -- What `execCommand("paste")` leaves in the text area.
  pub dom_clipboard : Text

abbrev pub electron_of : Option Node → Option Electron
electron_of none = none
electron_of (some n) = n.electron

unfoldable pub is_cordova : Environment → Bool
is_cordova e = is_some e.cordova

unfoldable pub is_chrome_app : Environment → Bool
is_chrome_app e = is_some e.chrome_app

unfoldable pub has_node : Environment → Bool
has_node e = is_some e.node

unfoldable pub is_electron : Environment → Bool
is_electron e = is_some (electron_of e.node)

unfoldable pub is_touch : Environment → Bool
is_touch e = e.touch

-- The first of three that is there, tried in this order, or a default.
abbrev pub on_electron {ℓ} : {A : Type ℓ} → Option Electron → (Electron → A) → A → A
on_electron none f rest = rest
on_electron (some x) f rest = f x

abbrev pub on_cordova {ℓ} : {A : Type ℓ} → Option Cordova → (Cordova → A) → A → A
on_cordova none f rest = rest
on_cordova (some x) f rest = f x

abbrev pub on_chrome {ℓ} : {A : Type ℓ} → Option ChromeApp → (ChromeApp → A) → A → A
on_chrome none f rest = rest
on_chrome (some x) f rest = f x

abbrev pub on_node {ℓ} : {A : Type ℓ} → Option Node → (Node → A) → A → A
on_node none f rest = rest
on_node (some x) f rest = f x

-- Where a text was copied to.
pub data Copied : Type 0 where
  by_plugin by_electron by_dom : Text → Copied

unfoldable pub set_clipboard : Text → Environment → Eventual Copied
set_clipboard text e =
    on_cordova e.cordova (λ c. c.ready >>= (λ r. c.copy text >>= (λ r. fulfilled (by_plugin text))))
      (on_electron (electron_of e.node) (λ x. fulfilled (by_electron text))
        (fulfilled (by_dom text)))

unfoldable pub get_clipboard : Environment → Eventual Text
get_clipboard e =
    on_cordova e.cordova (λ c. c.ready >>= (λ r. c.paste))
      (on_electron (electron_of e.node) (λ x. fulfilled x.clipboard) (fulfilled e.dom_clipboard))

unfoldable pub get_app_version : Environment → Eventual Text
get_app_version e =
    on_electron (electron_of e.node) (λ x. fulfilled x.version)
      (on_cordova e.cordova (λ c. c.ready >>= (λ r. c.version_number))
        (on_chrome e.chrome_app (λ c. fulfilled c.version) (fulfilled [])))

-- `{…}[key] || key`, for a key that no object inherits.
unfoldable pub renamed : List (Text × Text) → Text → Text
unfolding text_eq
renamed [] key = key
renamed ((k, name) ∷ names) key = if text_eq k key then name else renamed names key

abbrev pub electron_names : List (Text × Text)
electron_names =
    (codes "darwin", codes "MacOS")
    ∷ (codes "win32", codes "Windows")
    ∷ (codes "linux", codes "Linux")
    ∷ []

abbrev pub chrome_names : List (Text × Text)
chrome_names =
    (codes "cros", codes "ChromeOS")
    ∷ (codes "win", codes "Windows (Chrome)")
    ∷ (codes "linux", codes "Linux (Chrome)")
    ∷ (codes "android", codes "Android (Chrome)")
    ∷ (codes "mac", codes "MacOS (Chrome)")
    ∷ (codes "openbsd", codes "OpenBSD (Chrome)")
    ∷ []

abbrev pub node_platform : Option Node → Text
node_platform none = []
node_platform (some n) = n.platform

unfoldable pub get_platform_name : Environment → Eventual Text
get_platform_name e =
    on_electron (electron_of e.node)
      (λ x. fulfilled (renamed electron_names (node_platform e.node)))
      (on_cordova e.cordova (λ c. c.ready >>= (λ r. fulfilled c.platform))
        (on_chrome e.chrome_app (λ c. c.os >>= (λ os. fulfilled (renamed chrome_names os)))
          (fulfilled [])))

-- `(yield getPlatformName()).toLowerCase() === name`
unfoldable pub is_platform : Text → Environment → Eventual Bool
is_platform name e = get_platform_name e >>= (λ p. fulfilled (text_eq (lower_case p) name))

unfoldable pub is_ios : Environment → Eventual Bool
is_ios e = is_platform (codes "ios") e

unfoldable pub is_android : Environment → Eventual Bool
is_android e = is_platform (codes "android") e

unfoldable pub is_chrome_os : Environment → Eventual Bool
is_chrome_os e = is_platform (codes "chromeos") e

-- `navigator.language || "en"`
unfoldable pub get_locale : Environment → Text
get_locale e = or_english e.language
  where
    or_english : Option Text → Text
    or_english none = codes "en"
    or_english (some []) = codes "en"
    or_english (some (c ∷ l)) = c ∷ l
