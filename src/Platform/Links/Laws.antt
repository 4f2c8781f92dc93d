-- ===== src/Platform/Links/Laws.antt =====
-- How the answers on the platform exclude one another, and how the two links belong together.
use padlock_cloud.Prelude.{
  text_eq_path, text_eq, ◌≡◌, refl, ap, Bool, true, false, [], ◌++◌, Text, codes, if◌then◌else◌,
}
use padlock_cloud.Promise.{pending, fulfilled, rejected, ◌>>=◌}
use padlock_cloud.Util.Language.{lower_case}
use padlock_cloud.Platform.{
  Eventual, Environment, get_platform_name, is_platform, is_ios, is_android, is_chrome_app,
  is_chrome_os, get_app_version,
}
use padlock_cloud.Platform.Links.{get_app_store_link, get_review_link}

is_name : Text → Eventual Text → Eventual Bool
is_name name p = p >>= (λ q. fulfilled (text_eq (lower_case q) name))

is_name_lem :
    (name other : Text) (p : Eventual Text)
    → is_name name p ≡ fulfilled true
    → is_name other p ≡ fulfilled (text_eq name other)
unfolding is_name
is_name_lem name other pending e = cc
is_name_lem name other (rejected m) e = cc
is_name_lem name other (fulfilled q) e =
    let same : text_eq (lower_case q) name ≡ true = cc in
    ap (λ s. fulfilled (text_eq s other)) (text_eq_path (lower_case q) name same)

-- At most one of `isIOS`, `isAndroid` and `isChromeOS` answers with true: once one does, the others
-- answer with false.
pub platforms_exclusive :
    (e : Environment)
    → (is_ios e ≡ fulfilled true
        → (is_android e ≡ fulfilled false) × (is_chrome_os e ≡ fulfilled false))
      × (is_android e ≡ fulfilled true
          → (is_ios e ≡ fulfilled false) × (is_chrome_os e ≡ fulfilled false))
      × (is_chrome_os e ≡ fulfilled true
          → (is_ios e ≡ fulfilled false) × (is_android e ≡ fulfilled false))
unfolding is_ios is_android is_chrome_os is_platform is_name text_eq
platforms_exclusive e =
    let p = get_platform_name e in
    (
      λ h. (
        is_name_lem (codes "ios") (codes "android") p h,
        is_name_lem (codes "ios") (codes "chromeos") p h,
      ),
      λ h. (
        is_name_lem (codes "android") (codes "ios") p h,
        is_name_lem (codes "android") (codes "chromeos") p h,
      ),
      λ h. (
        is_name_lem (codes "chromeos") (codes "ios") p h,
        is_name_lem (codes "chromeos") (codes "android") p h,
      ),
    )

-- The second text begins with the first.
abbrev pub Extends : Text → Text → Type 0
Extends s t = (rest : Text) × (t ≡ s ++ rest)

-- Both links are settled alike by the answers that they depend on.
choose_link :
    (a a' b b' c c' : Text) (ios android : Eventual Bool) (chrome : Bool)
    (others others' : Eventual Text) {s t : Text}
    → Extends a a'
    → Extends b b'
    → Extends c c'
    → (others ≡ fulfilled s → others' ≡ fulfilled t → Extends s t)
    → ios >>= (λ i.
      if i
      then fulfilled a
      else android >>= (λ x. if x then fulfilled b else if chrome then fulfilled c else others))
      ≡ fulfilled s
    → ios >>= (λ i.
      if i
      then fulfilled a'
      else android >>= (λ x. if x then fulfilled b' else if chrome then fulfilled c' else others'))
      ≡ fulfilled t
    → Extends s t
choose_link a a' b b' c c' pending android chrome o o' ha hb hc ho e f = cc
choose_link a a' b b' c c' (rejected m) android chrome o o' ha hb hc ho e f = cc
choose_link a a' b b' c c' (fulfilled true) android chrome o o' (r, h) hb hc ho e f = (r, cc)
choose_link a a' b b' c c' (fulfilled false) pending chrome o o' ha hb hc ho e f = cc
choose_link a a' b b' c c' (fulfilled false) (rejected m) chrome o o' ha hb hc ho e f = cc
choose_link a a' b b' c c' (fulfilled false) (fulfilled true) chrome o o' ha (r, h) hc ho e f =
    (r, cc)
choose_link a a' b b' c c' (fulfilled false) (fulfilled false) true o o' ha hb (r, h) ho e f =
    (r, cc)
choose_link a a' b b' c c' (fulfilled false) (fulfilled false) false o o' ha hb hc ho e f = ho e f

feedback_link :
    (encode : Text → Text) (rating : Text) (version platform : Eventual Text) {s t : Text}
    → codes "https://padlock.io" ≡ s
    → version >>= (λ v. platform >>= (λ p. fulfilled (
        codes "https://padlock.io/feedback/?r="
        ++ (rating ++ (codes "&p=" ++ (encode p ++ (codes "&v=" ++ v)))))))
      ≡ fulfilled t
    → Extends s t
feedback_link encode rating pending platform e f = cc
feedback_link encode rating (rejected m) platform e f = cc
feedback_link encode rating (fulfilled v) pending e f = cc
feedback_link encode rating (fulfilled v) (rejected m) e f = cc
feedback_link encode rating (fulfilled v) (fulfilled p) e f =
    (codes "/feedback/?r=" ++ (rating ++ (codes "&p=" ++ (encode p ++ (codes "&v=" ++ v)))), cc)

-- On every platform the review link, once both links are found, begins with the link to the app's
-- store, or to the home page where there is no store.
pub review_link-Extends :
    (encode : Text → Text) (rating : Text) (e : Environment) {s t : Text}
    → get_app_store_link e ≡ fulfilled s
    → get_review_link encode rating e ≡ fulfilled t
    → Extends s t
unfolding get_app_store_link get_review_link
review_link-Extends encode rating e {s} {t} h k =
    choose_link _ _ _ _ _ _ (is_ios e) (is_android e) (is_chrome_app e) _ _
      (codes "?action=write-review", refl) ([], refl) (codes "/reviews", refl)
      (λ x y.
        let home : codes "https://padlock.io" ≡ s = cc in
        feedback_link encode rating (get_app_version e) (get_platform_name e) home y)
      h k
