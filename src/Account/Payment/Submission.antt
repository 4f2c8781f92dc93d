-- ===== src/Account/Payment/Submission.antt =====
-- The submissions and promises of a payment dialog.
use padlock_cloud.Prelude.{
  ◌≡◌, refl, sym, subst, ◌∙◌, ◌⊎◌, inl, inr, Bool, true, false, Bool-cases, Option, List, [], ◌∷◌,
  String, if◌then◌else◌,
}
use padlock_cloud.Dialogs.Resolver.{Resolver}
use padlock_cloud.Dialogs.Resolver.Once.{
  SettlesOnce, none_shown-SettlesOnce, new_promise-SettlesOnce, settle-SettlesOnce,
}
use padlock_cloud.Account.Types.{Offer, Plan}
use padlock_cloud.Account.Payment.{
  EventData, Effect, Waiting, for_token, for_server, PaymentDialog, init, show, card_created,
  card_changed, coupon_id, started, submit_card, token_failed, token_made, subscribed,
  subscribe_failed, on_dismiss,
}

-- What can happen to a payment dialog; a promise is settled while it is in flight.
pub data Step (d : PaymentDialog) : PaymentDialog → Type 0 where
  offered :
      (promo : Option Offer) (plan : Option Plan) → Step d (record d { promo = promo; plan = plan })
  shown : (source : String) → Step d (show source d).0
  created : Step d (card_created d)
  changed : (message : String) → Step d (card_changed message d)
  submitted : Step d (submit_card d).0
  no_token :
      (code type message coupon : String) (rest : List Waiting)
      → d.in_flight ≡ for_token coupon ∷ rest
      → Step d (token_failed code type message coupon rest d).0
  token :
      (made coupon : String) (rest : List Waiting)
      → d.in_flight ≡ for_token coupon ∷ rest
      → Step d (token_made made coupon rest d).0
  accepted :
      (edata : EventData) (rest : List Waiting)
      → d.in_flight ≡ for_server edata ∷ rest
      → Step d (subscribed edata rest d).0
  refused :
      (code message : String) (edata : EventData) (rest : List Waiting)
      → d.in_flight ≡ for_server edata ∷ rest
      → Step d (subscribe_failed code message edata rest d).0
  dismissed : Step d (on_dismiss d)

pub data Reach : PaymentDialog → Type 0 where
  initial : Reach init
  next : {d e : PaymentDialog} → Reach d → Step d e → Reach e

-- A step that submits a card while `createToken` cannot be called, and a use with such a step.
abbrev pub Throws : {d e : PaymentDialog} → Step d e → Type 0
Throws (offered promo plan) = ⊥
Throws (shown source) = ⊥
Throws created = ⊥
Throws (changed message) = ⊥
Throws {d} submitted = (d.submitting_card ≡ false) × (d.has_card_element ≡ false)
Throws (no_token code type message coupon rest e) = ⊥
Throws (token made coupon rest e) = ⊥
Throws (accepted edata rest e) = ⊥
Throws (refused code message edata rest e) = ⊥
Throws dismissed = ⊥

abbrev pub HasThrown : {d : PaymentDialog} → Reach d → Type 0
HasThrown initial = ⊥
HasThrown (next r s) = HasThrown r ⊎ Throws s

-- Nothing is in flight and a card can be submitted; or one submission is in flight and the flag blocks
-- another; or, after an exception, none is in flight and the flag blocks every one.
pub data IsExclusive (Thrown : Type 0) (d : PaymentDialog) : Type 0 where
  idle : d.submitting_card ≡ false → d.in_flight ≡ [] → IsExclusive Thrown d
  busy : (w : Waiting) → d.submitting_card ≡ true → d.in_flight ≡ w ∷ [] → IsExclusive Thrown d
  stuck : Thrown → d.submitting_card ≡ true → d.in_flight ≡ [] → IsExclusive Thrown d

same :
    (T U : Type 0) (d e : PaymentDialog)
    → e.submitting_card ≡ d.submitting_card
    → e.in_flight ≡ d.in_flight
    → IsExclusive T d
    → IsExclusive (T ⊎ U) e
same T U d e p q (idle s n) = idle (p ∙ s) (q ∙ n)
same T U d e p q (busy w s n) = busy w (p ∙ s) (q ∙ n)
same T U d e p q (stuck t s n) = stuck (inl t) (p ∙ s) (q ∙ n)

alone : (w : Waiting) (ws : List Waiting) → ws ≡ [] → w ∷ ws ≡ w ∷ []
alone w ws e = rw e refl

only_one :
    (T : Type 0) (d : PaymentDialog) (w : Waiting) (rest : List Waiting)
    → d.in_flight ≡ w ∷ rest
    → IsExclusive T d
    → (rest ≡ []) × (d.submitting_card ≡ true)
only_one T d w rest e (idle s n) = (cc, cc)
only_one T d w rest e (busy v s n) = (cc, s)
only_one T d w rest e (stuck t s n) = (cc, cc)

-- A submission while the flag is set, one before Stripe has loaded, and one after.
pub submit_card-blocked : (d : PaymentDialog) → d.submitting_card ≡ true → submit_card d ≡ (d, [])
unfolding submit_card
submit_card-blocked d s = by_flag d.submitting_card (d, []) _ s
  where
    by_flag : (b : Bool) (x y : PaymentDialog × List Effect) → b ≡ true → (if b then x else y) ≡ x
    by_flag true x y e = refl
    by_flag false x y e = cc

pub submit_card-thrown :
    (d : PaymentDialog)
    → d.submitting_card ≡ false
    → d.has_card_element ≡ false
    → submit_card d ≡ (started d, [])
unfolding submit_card
submit_card-thrown d s c = rw (s, c) refl

submit_card-asked :
    (d : PaymentDialog)
    → d.submitting_card ≡ false
    → d.has_card_element ≡ true
    → submit_card d ≡ (
      record (started d) { in_flight = for_token (coupon_id d.promo) ∷ d.in_flight },
      Effect.create_token ∷ [],
    )
unfolding submit_card
submit_card-asked d s c = rw (s, c) refl

submit_card-IsExclusive :
    (T : Type 0) (d : PaymentDialog)
    → IsExclusive T d
    → IsExclusive
        (T ⊎ ((d.submitting_card ≡ false) × (d.has_card_element ≡ false)))
        (submit_card d).0
submit_card-IsExclusive T d (busy w s n) =
    rw (submit_card-blocked d s) (same T _ d d refl refl (busy w s n))
submit_card-IsExclusive T d (stuck t s n) =
    rw (submit_card-blocked d s) (same T _ d d refl refl (stuck t s n))
submit_card-IsExclusive T d (idle s n) = elim (Bool-cases d.has_card_element) [
  | inl c ↦ rw (submit_card-asked d s c) (
      busy (for_token (coupon_id d.promo)) refl
        (alone (for_token (coupon_id d.promo)) d.in_flight n))
  | inr c ↦ rw (submit_card-thrown d s c) (stuck (inr (s, c)) refl n)
]

Step-IsExclusive :
    (T : Type 0) {d e : PaymentDialog} (s : Step d e)
    → IsExclusive T d
    → IsExclusive (T ⊎ Throws s) e
unfolding show card_created card_changed token_failed token_made subscribed subscribe_failed
    on_dismiss
Step-IsExclusive T {d} {e} (offered promo plan) h = same T ⊥ d e refl refl h
Step-IsExclusive T {d} {e} (shown source) h = same T ⊥ d e refl refl h
Step-IsExclusive T {d} {e} created h = same T ⊥ d e refl refl h
Step-IsExclusive T {d} {e} (changed m) h = same T ⊥ d e refl refl h
Step-IsExclusive T {d} submitted h = submit_card-IsExclusive T d h
Step-IsExclusive T {d} (no_token c t m k rest e) h = idle refl (only_one T d _ rest e h).0
Step-IsExclusive T {d} (token made k rest e) h =
    let (r, s) = only_one T d _ rest e h in busy _ s (alone _ rest r)
Step-IsExclusive T {d} (accepted x rest e) h = idle refl (only_one T d _ rest e h).0
Step-IsExclusive T {d} (refused c m x rest e) h = idle refl (only_one T d _ rest e h).0
Step-IsExclusive T {d} {e} dismissed h = same T ⊥ d e refl refl h

-- In any use of the dialog, at most one submission is in flight, and the flag that blocks another is
-- set exactly while one is, unless in this use a card has been submitted before Stripe had loaded:
-- then the flag may be set while none is in flight.
pub Reach-IsExclusive : {d : PaymentDialog} (r : Reach d) → IsExclusive (HasThrown r) d
Reach-IsExclusive initial = idle refl refl
Reach-IsExclusive (next r s) = Step-IsExclusive (HasThrown r) s (Reach-IsExclusive r)

-- In any use of the dialog, submitting a card does one of three things. Either nothing is in flight,
-- Stripe has loaded and is asked for one token, which is then the only thing in flight; or a submission
-- is in flight, or a card has been submitted before Stripe had loaded, and nothing changes or is asked
-- for; or Stripe has not loaded, nothing is asked for or in flight, and the flag is set.
pub submit_card_lem :
    {d : PaymentDialog} (r : Reach d)
    → ((d.in_flight ≡ [])
        × (d.has_card_element ≡ true)
        × ((submit_card d).1 ≡ Effect.create_token ∷ [])
        × ((submit_card d).0.in_flight ≡ for_token (coupon_id d.promo) ∷ []))
      ⊎ ((((w : Waiting) × (d.in_flight ≡ w ∷ [])) ⊎ HasThrown r) × (submit_card d ≡ (d, []))
          ⊎ (d.has_card_element ≡ false)
            × ((submit_card d).1 ≡ [])
            × ((submit_card d).0.in_flight ≡ [])
            × ((submit_card d).0.submitting_card ≡ true))
submit_card_lem {d} r = elim (Reach-IsExclusive r) [
  | busy w s n ↦ inr (inl (inl (w, n), submit_card-blocked d s))
  | stuck t s n ↦ inr (inl (inr t, submit_card-blocked d s))
  | idle s n ↦ elim (Bool-cases d.has_card_element) [
    | inl c ↦
        let e = submit_card-asked d s c in
        inl (n, c, rw e refl, rw e (alone (for_token (coupon_id d.promo)) d.in_flight n))
    | inr c ↦ let e = submit_card-thrown d s c in inr (inr (c, rw e refl, rw e n, rw e refl))
  ]
]

resolver-if :
    (b : Bool) (x y : PaymentDialog × List Effect) (r : Resolver Bool)
    → x.0.resolver ≡ r
    → y.0.resolver ≡ r
    → (if b then x else y).0.resolver ≡ r
resolver-if true x y r p q = p
resolver-if false x y r p q = q

resolver-submit_card : (d : PaymentDialog) → (submit_card d).0.resolver ≡ d.resolver
unfolding submit_card
resolver-submit_card d =
    resolver-if d.submitting_card _ _ d.resolver refl
      (resolver-if d.has_card_element _ _ d.resolver refl refl)

Step-SettlesOnce :
    {d e : PaymentDialog} → Step d e → SettlesOnce Bool d.resolver → SettlesOnce Bool e.resolver
unfolding show card_created card_changed submit_card token_failed token_made subscribed
    subscribe_failed on_dismiss
Step-SettlesOnce (offered promo plan) h = h
Step-SettlesOnce {d} (shown source) h = new_promise-SettlesOnce d.resolver h
Step-SettlesOnce created h = h
Step-SettlesOnce (changed m) h = h
Step-SettlesOnce {d} submitted h = subst (SettlesOnce Bool) (sym (resolver-submit_card d)) h
Step-SettlesOnce (no_token c t m k rest e) h = h
Step-SettlesOnce (token made k rest e) h = h
Step-SettlesOnce {d} (accepted x rest e) h = settle-SettlesOnce true d.resolver h
Step-SettlesOnce (refused c m x rest e) h = h
Step-SettlesOnce {d} dismissed h = settle-SettlesOnce false d.resolver h

-- In any use of the dialog, no promise of `show` is settled twice, and the one that is waited for is
-- not yet settled.
pub payment-SettlesOnce : {d : PaymentDialog} → Reach d → SettlesOnce Bool d.resolver
payment-SettlesOnce initial = none_shown-SettlesOnce
payment-SettlesOnce (next r s) = Step-SettlesOnce s (payment-SettlesOnce r)
