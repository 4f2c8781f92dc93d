-- ===== src/Dialogs/Notification/Laws.antt =====
-- How the promises of a notification are settled, and when it is visible.
use padlock_cloud.Prelude.{
  ℕ, suc, ap, ◌∙◌, ◌==◌, ◌≡◌, refl, Bool, true, false, Option, none, some, List, [], ◌∷◌, ◌++◌,
  String, arith, str_eq, eq_iff, if◌then◌else◌,
}
use padlock_cloud.Dialogs.Resolver.{Resolver, new_promise}
use padlock_cloud.Dialogs.Resolver.Once.{
  SettlesOnce, none_shown-SettlesOnce, new_promise-SettlesOnce, settle-SettlesOnce,
}
use padlock_cloud.Dialogs.Notification.{
  Notification, contains, add_class, remove_class, set_type, with_message, with_type, with_timer,
  show, hide, created,
}

-- A notification of the page: it is created, shown, or hidden by a click (`true`) or a timer
-- (`false`).
pub data Reach : Notification → Type 0 where
  initial : Reach created
  shown :
      {n : Notification} (message type : Option String) (duration : Option ℕ)
      → Reach n
      → Reach (show message type duration n)
  hidden : {n : Notification} (clicked : Bool) → Reach n → Reach (hide clicked n)

resolver-if :
    (b : Bool) (x y : Notification) (r : Resolver Bool)
    → x.resolver ≡ r
    → y.resolver ≡ r
    → (if b then x else y).resolver ≡ r
resolver-if true x y r p q = p
resolver-if false x y r p q = q

resolver-set_type : (t : String) (n : Notification) → (set_type t n).resolver ≡ n.resolver
unfolding set_type
resolver-set_type t n = resolver-if (str_eq n.type t) _ _ n.resolver refl refl

resolver-with_message :
    (m : Option String) (n : Notification) → (with_message m n).resolver ≡ n.resolver
resolver-with_message none n = refl
resolver-with_message (some m) n = resolver-if (str_eq m "") _ _ n.resolver refl refl

resolver-with_type :
    (t : Option String) (n : Notification) → (with_type set_type t n).resolver ≡ n.resolver
resolver-with_type none n = refl
resolver-with_type (some t) n =
    resolver-if (str_eq t "") _ _ n.resolver refl (resolver-set_type t n)

resolver-with_timer : (d : Option ℕ) (n : Notification) → (with_timer d n).resolver ≡ n.resolver
resolver-with_timer none n = refl
resolver-with_timer (some d) n = resolver-if (d == 0) _ _ n.resolver refl refl

-- `show` waits for a new promise, and settles none.
resolver-show :
    (m t : Option String) (d : Option ℕ) (n : Notification)
    → (show m t d n).resolver ≡ new_promise n.resolver
unfolding show
resolver-show m t d n =
    ap new_promise (
      resolver-with_timer d _ ∙ resolver-with_type t (with_message m n) ∙ resolver-with_message m n)

-- In any use of the page's notification, no promise is settled twice, and the one that is waited for
-- is not yet settled.
pub notified-SettlesOnce : {n : Notification} → Reach n → SettlesOnce Bool n.resolver
unfolding created hide
notified-SettlesOnce initial = none_shown-SettlesOnce
notified-SettlesOnce (shown {n} m t d r) =
    rw (resolver-show m t d n) (new_promise-SettlesOnce n.resolver (notified-SettlesOnce r))
notified-SettlesOnce (hidden {n} clicked r) =
    settle-SettlesOnce clicked n.resolver (notified-SettlesOnce r)

-- A timer of an earlier `show` that fires after a later one settles the later promise with `false`,
-- and nothing else is settled, so the earlier promise is not.
pub stale_timer_hides :
    (n : Notification) (m t m' t' : Option String) (d d' : Option ℕ)
    → (hide false (show m' t' d' (show m t d n))).resolver.calls
      ≡ (suc n.resolver.next, false) ∷ n.resolver.calls
unfolding hide
stale_timer_hides n m t m' t' d d' =
    rw (resolver-show m' t' d' (show m t d n), resolver-show m t d n) refl

contains-append_self : (c : String) (classes : List String) → contains c (classes ++ c ∷ []) ≡ true
contains-append_self c [] = ground (arith, eq_iff c c)
contains-append_self c (d ∷ classes) = ground (arith, contains-append_self c classes)

contains-add_class : (c : String) (classes : List String) → contains c (add_class c classes) ≡ true
unfolding add_class
contains-add_class c classes = ground (arith, contains-append_self c classes)

contains-remove_class :
    (c : String) (classes : List String) → contains c (remove_class c classes) ≡ false
unfolding remove_class
contains-remove_class c [] = refl
contains-remove_class c (d ∷ classes) = ground (arith, contains-remove_class c classes)

class_list-with_timer :
    (d : Option ℕ) (n : Notification) → (with_timer d n).class_list ≡ n.class_list
class_list-with_timer none n = refl
class_list-with_timer (some d) n = ground arith

-- Whatever its classes were, the notification has the class "showing" after `show`, and has it not
-- after `hide`.
pub showing_lem :
    (n : Notification) (m t : Option String) (d : Option ℕ) (clicked : Bool)
    → (contains "showing" (show m t d n).class_list ≡ true)
      × (contains "showing" (hide clicked n).class_list ≡ false)
unfolding show hide
showing_lem n m t d clicked = (
  rw (class_list-with_timer d)
      (contains-add_class "showing" (with_type set_type t (with_message m n)).class_list),
  contains-remove_class "showing" n.class_list,
)
