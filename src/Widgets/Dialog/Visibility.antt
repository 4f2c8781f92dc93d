-- ===== src/Widgets/Dialog/Visibility.antt =====
-- When a dialog is shown: the flag `open`, the visible state and the one timer.
use padlock_cloud.Prelude.{
  Bool-cases, ℕ, ◌≡◌, ◌≢◌, refl, ◌⊎◌, inl, inr, Bool, true, false, Option, none, some, List, [],
  ◌∷◌, arith, if◌then◌else◌,
}
use padlock_cloud.Browser.Timers.{Timers, callback, set_timeout, clear_timeout}
use padlock_cloud.Widgets.Dialog.{
  same, Effect, dispatch, Dialog, init, open_changed, set_open, hide, dismiss, on_backbutton,
}

-- What can happen to a dialog; each time, some input of the page may have the focus.
pub data Step (d : Dialog) : Dialog → Type 0 where
  opened : (active value : Bool) → Step d (set_open active value d).0
  dismissed : (active : Bool) → Step d (dismiss active d).0
  went_back : (active : Bool) → Step d (on_backbutton active d).0
  -- `preventDismiss` is set from outside.
  locked : (value : Bool) → Step d (record d { prevent_dismiss = value })
  timed : (n : ℕ) → callback n d.timers.live ≡ some tt → Step d (hide n d)

-- From the element's `ready` on.
pub data Reach : Dialog → Type 0 where
  ready : (active : Bool) → Reach (open_changed active init).0
  next : {d e : Dialog} → Reach d → Step d e → Reach e

-- Open: shown, with no live timer. Closing: the timer set last is the only one. Closed: hidden, with
-- no live timer.
pub data Phase (d : Dialog) : Type 0 where
  shown :
      d.open_flag ≡ true
      → d.is_showing ≡ true
      → d.display ≡ ""
      → d.open_class ≡ true
      → d.timers.live ≡ []
      → Phase d
  closing :
      (n : ℕ)
      → d.open_flag ≡ false
      → d.open_class ≡ false
      → d.hide_timeout ≡ some n
      → d.timers.live ≡ (n, tt) ∷ []
      → Phase d
  hidden :
      d.open_flag ≡ false
      → d.is_showing ≡ false
      → d.display ≡ "none"
      → d.open_class ≡ false
      → d.timers.live ≡ []
      → Phase d

clear_none : (t : Option ℕ) (ts : Timers (Unit {0})) → ts.live ≡ [] → (clear_timeout t ts).live ≡ []
unfolding clear_timeout
clear_none none ts h = h
clear_none (some n) ts h = rw h refl

clear_last :
    (n : ℕ) (ts : Timers (Unit {0}))
    → ts.live ≡ (n, tt) ∷ []
    → (clear_timeout (some n) ts).live ≡ []
unfolding clear_timeout
clear_last n ts h = rw h (ground arith)

callback_one : (m n : ℕ) → callback m ((n, tt) ∷ []) ≡ some tt → n ≡ m
unfolding callback
callback_one m n e = ground arith

none_fires : (n : ℕ) {live : List (ℕ × Unit {0})} → live ≡ [] → callback n live ≢ some tt
unfolding callback
none_fires n h e = let e' : none ≡ some tt = rw h at e in cc

clear_Phase : (d : Dialog) → Phase d → (clear_timeout d.hide_timeout d.timers).live ≡ []
clear_Phase d (shown o s p c l) = clear_none d.hide_timeout d.timers l
clear_Phase d (closing n o c t l) = rw t (clear_last n d.timers l)
clear_Phase d (hidden o s p c l) = clear_none d.hide_timeout d.timers l

-- The observer needs only that clearing the last timer leaves none.
open_changed-Phase :
    (active : Bool) (d : Dialog)
    → (clear_timeout d.hide_timeout d.timers).live ≡ []
    → Phase (open_changed active d).0
unfolding open_changed
open_changed-Phase active d h = elim (Bool-cases d.open_flag) [
  | inl o ↦ rw o (shown refl refl refl refl h)
  | inr o ↦ rw o (
      closing (clear_timeout d.hide_timeout d.timers).fresh refl refl refl
        (unfold set_timeout in rw h refl))
]

set_open_cases :
    (active value : Bool) (d : Dialog)
    → ((set_open active value d).0 ≡ d)
      ⊎ ((set_open active value d).0 ≡ (open_changed active (record d { open_flag = value })).0)
unfolding set_open
set_open_cases active value d = elim (Bool-cases (same d.open_flag value)) [
  | inl s ↦ inl (rw s refl)
  | inr s ↦ inr (rw s refl)
]

set_open-Phase : (active value : Bool) (d : Dialog) → Phase d → Phase (set_open active value d).0
set_open-Phase active value d h = elim (set_open_cases active value d) [
  | inl e ↦ rw e h
  | inr e ↦ rw e (open_changed-Phase active (record d { open_flag = value }) (clear_Phase d h))
]

Phase-if :
    (b : Bool) (x y : Dialog × List Effect) → Phase x.0 → Phase y.0 → Phase (if b then x else y).0
Phase-if true x y hx hy = hx
Phase-if false x y hx hy = hy

dismiss-Phase : (active : Bool) (d : Dialog) → Phase d → Phase (dismiss active d).0
unfolding dismiss
dismiss-Phase active d h = Phase-if d.prevent_dismiss (d, []) _ h (set_open-Phase active false d h)

back-Phase : (active : Bool) (d : Dialog) → Phase d → Phase (on_backbutton active d).0
unfolding on_backbutton
back-Phase active d h = Phase-if d.open_flag _ (d, []) (dismiss-Phase active d h) h

hide-Phase : (n : ℕ) (d : Dialog) → callback n d.timers.live ≡ some tt → Phase d → Phase (hide n d)
unfolding hide
hide-Phase n d e (shown o s p c l) = absurd (none_fires n l e)
hide-Phase n d e (closing m o c t l) =
    let same_timer : m ≡ n = callback_one n m (rw l at e) in
    hidden o refl refl c (rw l (rw same_timer (ground arith)))
hide-Phase n d e (hidden o s p c l) = absurd (none_fires n l e)

lock-Phase : (d : Dialog) (value : Bool) → Phase d → Phase (record d { prevent_dismiss = value })
lock-Phase d value (shown o s p c l) = shown o s p c l
lock-Phase d value (closing n o c t l) = closing n o c t l
lock-Phase d value (hidden o s p c l) = hidden o s p c l

Step-Phase : {d e : Dialog} → Step d e → Phase d → Phase e
Step-Phase {d} (opened active value) h = set_open-Phase active value d h
Step-Phase {d} (dismissed active) h = dismiss-Phase active d h
Step-Phase {d} (went_back active) h = back-Phase active d h
Step-Phase {d} (locked value) h = lock-Phase d value h
Step-Phase {d} (timed n e) h = hide-Phase n d e h

-- A dialog is always in one of three phases: open, shown and with no live timer; closed, with
-- exactly one live timer, which is the one set last; or closed, hidden and with no live timer. So a
-- dialog that is opened again before its timer fires is not hidden by it.
pub Reach-Phase : {d : Dialog} → Reach d → Phase d
Reach-Phase (ready active) = open_changed-Phase active init (unfold init clear_timeout in refl)
Reach-Phase (next r s) = Step-Phase s (Reach-Phase r)

-- A dialog that may not be dismissed stays as it is, and nothing is dispatched. Any other open
-- dialog is closed, with the events "dialog-dismiss" and "dialog-close".
pub dismiss_lem :
    (active : Bool) (d : Dialog)
    → (d.prevent_dismiss ≡ true) × (dismiss active d ≡ (d, []))
      ⊎ (d.prevent_dismiss ≡ false)
        × (d.open_flag ≡ false)
        × (dismiss active d ≡ (d, dispatch "dialog-dismiss" ∷ []))
      ⊎ (d.prevent_dismiss ≡ false)
        × (d.open_flag ≡ true)
        × ((dismiss active d).0.open_flag ≡ false)
        × ((dismiss active d).1 ≡ dispatch "dialog-dismiss" ∷ dispatch "dialog-close" ∷ [])
unfolding dismiss
dismiss_lem active d = ground arith
