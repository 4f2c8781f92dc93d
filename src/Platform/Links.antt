-- ===== src/Platform/Links.antt =====
-- The links to the app's stores and to its reviews: `getAppStoreLink`, `getReviewLink`.
-- `encodeURIComponent` is the browser's, an argument.
pub mod Laws
use padlock_cloud.Prelude.{
  Bool, true, false, Option, none, some, List, [], ◌∷◌, ◌++◌, Text, codes, if◌then◌else◌, ◌≡◌, refl,
  ◌⊎◌, inl, inr, Bool-cases,
}
use padlock_cloud.Promise.{Promise, pending, fulfilled, rejected, ◌>>=◌}
use padlock_cloud.Platform.{
  Eventual, Environment, is_ios, is_android, is_chrome_app, is_electron, get_platform_name,
  get_app_version,
}

unfoldable pub get_app_store_link : Environment → Eventual Text
get_app_store_link e = is_ios e >>= (λ ios.
    if ios
    then fulfilled (codes "https://itunes.apple.com/app/id871710139")
    else is_android e >>= (λ android.
      if android
      then fulfilled (codes "https://play.google.com/store/apps/details?id=com.maklesoft.padlock")
      else if is_chrome_app e
      then fulfilled (
          codes
            "https://chrome.google.com/webstore/detail/padlock/npkoefjfcjbknoeadfkbcdpbapaamcif")
      else fulfilled (codes "https://padlock.io")))

unfoldable pub get_review_link : (Text → Text) → Text → Environment → Eventual Text
get_review_link encode rating e = is_ios e >>= (λ ios.
    if ios
    then fulfilled (codes "https://itunes.apple.com/app/id871710139?action=write-review")
    else is_android e >>= (λ android.
      if android
      then fulfilled (codes "https://play.google.com/store/apps/details?id=com.maklesoft.padlock")
      else if is_chrome_app e
      then fulfilled (
          codes
            "https://chrome.google.com/webstore/detail/padlock/npkoefjfcjbknoeadfkbcdpbapaamcif/reviews")
      else get_app_version e >>= (λ version. get_platform_name e >>= (λ platform. fulfilled (
          codes "https://padlock.io/feedback/?r="
          ++ (rating ++ (codes "&p=" ++ (encode platform ++ (codes "&v=" ++ version)))))))))

-- What is asked of Electron's main process, or of the browser's window.
pub data Action : Type 0 where
  send_to_main : Text → Action
  open_system : Text → Action

unfoldable pub check_for_updates : Environment → Eventual Action
check_for_updates e =
    if is_electron e
    then fulfilled (send_to_main (codes "check-updates"))
    else get_app_store_link e >>= (λ link. fulfilled (open_system link))

unfoldable pub save_db_as : Environment → List Action
save_db_as e = if is_electron e then send_to_main (codes "save-db-as") ∷ [] else []

unfoldable pub load_db : Environment → List Action
load_db e = if is_electron e then send_to_main (codes "load-db") ∷ [] else []
