-- ===== src/Tracking/Settling.antt =====
-- How the promise of `track` is settled.
use padlock_cloud.Prelude.{ℕ, ◌≡◌, refl, Option, none, some, String}
use padlock_cloud.Promise.{Promise, pending, fulfilled, rejected, ◌>>=◌}
use padlock_cloud.Tracking.{Stats, Props, Data, email_of, ready_after, recover, track}

abbrev pub IsSettled : {A : Type 0} → Promise String A → Type 0
IsSettled pending = ⊥
IsSettled (fulfilled a) = Unit
IsSettled (rejected e) = Unit

bind-IsSettled :
    {A B : Type 0} (p : Promise String A) (f : A → Promise String B)
    → IsSettled p
    → ((a : A) → IsSettled (f a))
    → IsSettled (p >>= f)
bind-IsSettled pending f h k = h
bind-IsSettled (fulfilled a) f h k = k a
bind-IsSettled (rejected e) f h k = h

recover_lem :
    (p : Promise String String) → IsSettled p → (o : Option String) × (recover p ≡ fulfilled o)
recover_lem pending h = absurd h
recover_lem (fulfilled a) h = (some a, refl)
recover_lem (rejected e) h = (none, refl)

-- If each promise that it waits for is settled, be it fulfilled or rejected, the promise of `track` is
-- fulfilled.
pub track_fulfilled :
    (to_iso : ℕ → String) (set_email : String → Promise String (Unit {0}))
    (ready : Promise String (Unit {0})) (get : Promise String Stats)
    (client_request : Data → Promise String String) (read_id : String → Promise String String)
    (tracking_id : Option String) (event : String) (props : Props)
    → IsSettled (ready_after set_email (email_of props) ready)
    → IsSettled get
    → ((d : Data) → IsSettled (client_request d))
    → ((response : String) → IsSettled (read_id response))
    → (o : Option String) × (track to_iso set_email ready get client_request read_id tracking_id
          event props
        ≡ fulfilled o)
unfolding track
track_fulfilled to_iso set_email ready get client_request read_id tracking_id event props h g c r =
    recover_lem _ (
      bind-IsSettled _ _ h
        (λ u. bind-IsSettled get _ g (λ s. bind-IsSettled _ _ (c _) (λ response. r response))))
