-- ===== src/Account/Payment/Stuck.antt =====
-- A payment dialog whose card has been submitted before Stripe had loaded.
use padlock_cloud.Prelude.{◌≡◌, refl, inl, inr, true, false, Bool-cases, []}
use padlock_cloud.Account.Payment.{
  PaymentDialog, show, card_created, card_changed, submit_card, on_dismiss,
}
use padlock_cloud.Account.Payment.Submission.{
  Step, offered, shown, created, changed, submitted, no_token, token, accepted, refused, dismissed,
  submit_card-blocked, submit_card-thrown,
}

-- What may happen from a state on.
pub data Since (d : PaymentDialog) : PaymentDialog → Type 0 where
  here : Since d d
  later : {e f : PaymentDialog} → Since d e → Step e f → Since d f

-- The flag is set and nothing that could clear it is in flight.
abbrev IsStuck : PaymentDialog → Type 0
IsStuck d = (d.submitting_card ≡ true) × (d.in_flight ≡ [])

Step-IsStuck : {d e : PaymentDialog} → Step d e → IsStuck d → IsStuck e
unfolding show card_created card_changed on_dismiss
Step-IsStuck (offered promo plan) h = h
Step-IsStuck (shown source) h = h
Step-IsStuck created h = h
Step-IsStuck (changed m) h = h
Step-IsStuck {d} submitted (s, n) = rw (submit_card-blocked d s) (s, n)
Step-IsStuck (no_token c t m k rest e) (s, n) = absurd (cc (e, n))
Step-IsStuck (token made k rest e) (s, n) = absurd (cc (e, n))
Step-IsStuck (accepted x rest e) (s, n) = absurd (cc (e, n))
Step-IsStuck (refused c m x rest e) (s, n) = absurd (cc (e, n))
Step-IsStuck dismissed h = h

Since-IsStuck : {d e : PaymentDialog} → Since d e → IsStuck d → IsStuck e
Since-IsStuck here h = h
Since-IsStuck (later r s) h = Step-IsStuck s (Since-IsStuck r h)

-- A card that is submitted before Stripe has loaded, with nothing in flight, makes every later
-- submission in the same dialog do nothing, whatever happens in between, Stripe's loading included.
pub submit_card-stuck :
    (d e : PaymentDialog)
    → d.in_flight ≡ []
    → d.has_card_element ≡ false
    → Since (submit_card d).0 e
    → submit_card e ≡ (e, [])
submit_card-stuck d e n c r =
    submit_card-blocked e
      (Since-IsStuck r (elim (Bool-cases d.submitting_card) [
        | inl s ↦ rw (submit_card-blocked d s) (s, n)
        | inr s ↦ rw (submit_card-thrown d s c) (refl, n)
      ])).0
