-- ===== src/Dialogs/Alert/Laws.antt =====
-- How the promises of an alert are settled.
use padlock_cloud.Prelude.{
  ℕ, zero, suc, false, ◌≡◌, refl, none, some, List, [], ◌∷◌, String, arith, get_elem?, eq_iff,
}
use padlock_cloud.Dialogs.Resolver.Once.{
  SettlesOnce, none_shown-SettlesOnce, new_promise-SettlesOnce, settle-SettlesOnce,
}
use padlock_cloud.Dialogs.Alert.{
  Choice, undefined, index, Alert, init, ShowOptions, show, open_later, index_of, select_option,
  dialog_dismiss,
}

-- The dialog is shown, its timer fires, a button is tapped, or it is dismissed.
pub data Step (d : Alert) : Alert → Type 0 where
  shown : (message : String) (o : ShowOptions) → Step d (show message o d)
  opened : Step d (open_later d)
  selected : (item : String) → Step d (select_option item d)
  dismissed : Step d (dialog_dismiss d)

pub data Reach : Alert → Type 0 where
  initial : Reach init
  next : {d e : Alert} → Reach d → Step d e → Reach e

Step-SettlesOnce :
    {d e : Alert} → Step d e → SettlesOnce Choice d.resolver → SettlesOnce Choice e.resolver
unfolding show open_later select_option dialog_dismiss
Step-SettlesOnce {d} (shown m o) h = new_promise-SettlesOnce d.resolver h
Step-SettlesOnce {d} opened h = h
Step-SettlesOnce {d} (selected item) h = settle-SettlesOnce (index_of item d.options) d.resolver h
Step-SettlesOnce {d} dismissed h = settle-SettlesOnce undefined d.resolver h

-- In any use of an alert, no promise is settled twice, and the one that is waited for is not yet
-- settled.
pub Reach-SettlesOnce : {d : Alert} → Reach d → SettlesOnce Choice d.resolver
Reach-SettlesOnce initial = none_shown-SettlesOnce
Reach-SettlesOnce (next r s) = Step-SettlesOnce s (Reach-SettlesOnce r)

index_of_lem :
    (item : String) (options : List String) {n : ℕ}
    → index_of item options ≡ index n
    → get_elem? options n ≡ some item
unfolding index_of
index_of_lem item [] e = cc
index_of_lem item (o ∷ options) {n = zero} e = ground (arith, eq_iff o item)
index_of_lem item (o ∷ options) {n = suc n} e = ground (arith, index_of_lem item options {n = n})

-- A tap on an option settles the promise that is waited for with the place of that option, closes
-- the dialog and leaves nothing to be settled.
pub select_option_lem :
    (item : String) (d : Alert) (n k : ℕ)
    → d.resolver.resolve ≡ some n
    → index_of item d.options ≡ index k
    → ((select_option item d).resolver.calls ≡ (n, index k) ∷ d.resolver.calls)
      × (get_elem? d.options k ≡ some item)
      × ((select_option item d).open_flag ≡ false)
      × ((select_option item d).resolver.resolve ≡ none)
unfolding select_option
select_option_lem item d n k r e = (rw (r, e) refl, index_of_lem item d.options e, refl, refl)
