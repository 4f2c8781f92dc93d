-- ===== src/Dashboard/Laws.antt =====
-- What the dashboard does when it is connected, and when a deletion asks for a request.
use padlock_cloud.Prelude.{
  text_eq_path, text_eq, ℕ, ◌+◌, ◌≡◌, ◌≢◌, refl, sym, ap, ◌∙◌, inl, inr, true, false, not, ◌&&◌,
  ◌||◌, Option, none, some, List, [], ◌∷◌, ◌++◌, String, Text, codes, arith, str_eq, eq_iff,
  Bool-cases, All,
}
use padlock_cloud.Promise.{rejected}
use padlock_cloud.Account.Subscription.{is_sub_active}
use padlock_cloud.Account.Payment
use padlock_cloud.Account.Payment.{PaymentDialog, for_token, coupon_id, submit_card, token_made}
use padlock_cloud.Dialogs.Prompt.{Answer, cancelled, Prompt, prompt}
use padlock_cloud.Dialogs.Prompt.Laws.{Action, enter, confirm, dismiss, run}
use padlock_cloud.Dialogs.Prompt.Locked.{EntersRefused, run-Refused}
use padlock_cloud.Dashboard.{
  Effect, choose, Dashboard, buy_subscription, on_action, first_visit, connected,
}
use padlock_cloud.Dashboard.Deletion.{delete_validation, delete_account, deletion_answered}

-- A text that equals one name differs from another.
differs : (a b c : String) → str_eq a b ≡ true → str_eq b c ≡ false → str_eq a c ≡ false
differs a b c e d = let p : a ≡ b = (eq_iff a b).0 e in rw p d

on_action_opens :
    (d : Dashboard)
    → (on_action d).0.payment_dialog.open_flag ≡ (
        str_eq d.action "subscribe" && not (is_sub_active (some d.account))
        || d.payment_dialog.open_flag)
unfolding on_action buy_subscription Payment.show
on_action_opens d = ground (
  arith,
  differs d.action "paired" "subscribe",
  differs d.action "revoked" "subscribe",
  differs d.action "reset" "subscribe",
  differs d.action "subscribed" "subscribe",
  differs d.action "unsubscribed" "subscribe",
  differs d.action "payment-updated" "subscribe",
)

on_action_first : (d : Dashboard) → (on_action d).0.first_opened ≡ d.first_opened
unfolding on_action buy_subscription
on_action_first d = ground arith

-- How many choices a list of effects asks for.
abbrev one_if_choice : Effect → ℕ
one_if_choice (choose m options title) = 1
one_if_choice _ = 0

abbrev pub choices : List Effect → ℕ
choices [] = 0
choices (e ∷ es) = one_if_choice e + choices es

choices-append : (es fs : List Effect) → choices (es ++ fs) ≡ choices es + choices fs
choices-append [] fs = omega arith
choices-append (e ∷ es) fs = omega (arith, choices-append es fs)

choices-on_action : (d : Dashboard) → choices (on_action d).1 ≡ 0
unfolding on_action buy_subscription Payment.show
choices-on_action d = ground arith

abbrev pub first_time : Option ℕ → ℕ
first_time none = 1
first_time (some t) = 0

abbrev pub or_now : Option ℕ → ℕ → ℕ
or_now none now = now
or_now (some t) now = t

first_visit_lem :
    (now : ℕ) (o : Option ℕ) (d : Dashboard)
    → d.first_opened ≡ o
    → ((first_visit now o d).0.payment_dialog ≡ d.payment_dialog)
      × ((first_visit now o d).0.first_opened ≡ some (or_now o now))
      × (choices (first_visit now o d).1 ≡ first_time o)
first_visit_lem now none d h = (refl, refl, refl)
first_visit_lem now (some t) d h = (refl, h, refl)

-- When the dashboard is connected, it opens the payment dialog exactly if its action is "subscribe"
-- and the subscription is not active; a dialog that is open stays open.
pub connected_opens :
    (now : ℕ) (d : Dashboard)
    → (connected now d).0.payment_dialog.open_flag ≡ (
        str_eq d.action "subscribe" && not (is_sub_active (some d.account))
        || d.payment_dialog.open_flag)
unfolding connected
connected_opens now d =
    let (p, _, _) = first_visit_lem now (on_action d).0.first_opened (on_action d).0 refl in
    ap PaymentDialog.open_flag p ∙ on_action_opens d

connected_lem :
    (now : ℕ) (d : Dashboard)
    → ((connected now d).0.first_opened ≡ some (or_now d.first_opened now))
      × (choices (connected now d).1 ≡ first_time d.first_opened)
unfolding connected
connected_lem now d =
    let (_, t, c) = first_visit_lem now (on_action d).0.first_opened (on_action d).0 refl in
    let greeted = (first_visit now (on_action d).0.first_opened (on_action d).0).1 in
    let all =
      choices-append (on_action d).1 (greeted ++ Effect.track "Dashboard: Finish Loading" ∷ []) in
    let rest = choices-append greeted (Effect.track "Dashboard: Finish Loading" ∷ []) in
    let none_acted = choices-on_action d in
    (
      t ∙ ap (λ o. some (or_now o now)) (on_action_first d),
      omega (arith, all, rest, none_acted) ∙ (c ∙ ap first_time (on_action_first d)),
    )

-- The welcome is shown when the dashboard is connected on a first visit, and not on a later one,
-- whatever the actions: the first connection asks for one choice if no visit was recorded and for
-- none otherwise, and the next one asks for none and keeps the recorded time.
pub welcome_once :
    (now later : ℕ) (d : Dashboard)
    → let first = connected now d in
      let second = connected later first.0 in
      (choices first.1 ≡ first_time d.first_opened)
      × (choices second.1 ≡ 0)
      × (second.0.first_opened ≡ first.0.first_opened)
welcome_once now later d =
    let (t, c) = connected_lem now d in
    let (t', c') = connected_lem later (connected now d).0 in
    (c, c' ∙ ap first_time t, t' ∙ ap (λ o. some (or_now o later)) t ∙ sym t)

refuses_other : (t : Text) → t ≢ codes "DELETE" → (e : String) × (delete_validation t ≡ rejected e)
unfolding delete_validation
refuses_other t ne = elim (Bool-cases (text_eq t (codes "DELETE"))) [
  | inl e ↦ absurd (ne (text_eq_path t (codes "DELETE") e))
  | inr e ↦ ("Type 'DELETE' to confirm!", rw e refl)
]

question_lem : delete_account.validation ≡ some delete_validation
unfolding delete_account
question_lem = refl

no_request :
    (d : Dashboard) (calls : List (ℕ × Answer))
    → All (λ c. c.1 ≡ cancelled) calls
    → All (λ c. deletion_answered c.1 d ≡ (d, [])) calls
unfolding deletion_answered
no_request d [] h = tt
no_request d (c ∷ calls) (e, hs) = (rw e refl, no_request d calls hs)

-- As long as "DELETE" has not been entered into the prompt of `_deleteAccount`, no answer of it leads
-- to a request, if no earlier answer was anything but `null`.
pub deletion_needs_delete :
    (d : Dashboard) (p : Prompt) (as' : List Action)
    → All (λ c. c.1 ≡ cancelled) p.resolver.calls
    → All (λ a. a ≢ enter (codes "DELETE")) as'
    → All
        (λ c. deletion_answered c.1 d ≡ (d, []))
        (run as' (prompt delete_account p)).resolver.calls
deletion_needs_delete d p as' h ne = no_request d _ (
    run-Refused delete_validation (λ t. t ≢ codes "DELETE") refuses_other delete_account p as'
      question_lem (λ e. cc) h (entered as' ne))
  where
    entered :
        (as' : List Action)
        → All (λ a. a ≢ enter (codes "DELETE")) as'
        → All (EntersRefused delete_validation (λ t. t ≢ codes "DELETE") refuses_other) as'
    entered [] ns = tt
    entered (enter t ∷ as') (n, ns) = ((λ e. n (ap enter e)), entered as' ns)
    entered (confirm ∷ as') (n, ns) = (tt, entered as' ns)
    entered (dismiss ∷ as') (n, ns) = (tt, entered as' ns)
