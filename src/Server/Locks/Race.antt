-- ===== src/Server/Locks/Race.antt =====
-- Two requests at once for an account that has no mutex yet.
use padlock_cloud.Prelude.{
  ℕ, ◌+◌, ◌≡◌, ◌≢◌, refl, ◌≤◌, Bool-cases, inl, inr, sym, ap, ◌∙◌, true, false, none, Text, ◌==◌,
  arith, ==_iff,
}
use padlock_cloud.Dict.{lookup, insert, code_eq}
use padlock_cloud.Dict.Laws.{lookup-insert_self}
use padlock_cloud.Server.Locks.{
  testing, making, reading, locking, holding, Locks, set, is_nil, make, read, lock, Reach, start,
  step,
}

==_self : (i : ℕ) → (i == i) ≡ true
==_self i = (==_iff i i).1 refl

==_ne : (i j : ℕ) → i ≢ j → (j == i) ≡ false
==_ne i j n = elim (Bool-cases (j == i)) [ inl e ↦ absurd (n (sym ((==_iff j i).0 e))) | inr e ↦ e ]

module _ {A : Type 0} where
  pub set_self : (i : ℕ) (a : A) (f : ℕ → A) → set i a f i ≡ a
  unfolding set
  set_self i a f = rw (==_self i) refl

  pub set_ne : (i j : ℕ) (a : A) (f : ℕ → A) → i ≢ j → set i a f j ≡ f j
  unfolding set
  set_ne i j a f n = rw (==_ne i j n) refl

module _ (email : ℕ → Text) where
  -- Two requests for one email that both are at the test of the map, where it has no mutex for the
  -- email and mutexes that are not made yet are not locked, may both hold a lock on the account at
  -- once: each has made a mutex of its own.
  pub both_hold :
      (i j : ℕ) (s : Locks)
      → i ≢ j
      → email j ≡ email i
      → s.at i ≡ testing
      → s.at j ≡ testing
      → lookup (email i) s.account_mutexes ≡ none
      → ((m : ℕ) → s.made ≤ m → s.locked m ≡ false)
      → (s' : Locks) × Reach email s s'
        × (s'.at i ≡ holding s.made)
        × (s'.at j ≡ holding (s.made + 1))
  both_hold i j s n e a b l f =
      let n' : j ≢ i = (λ p. n (sym p)) in
      let m = s.made in
      let r₁ = step i start (is_nil a l) in
      let r₂ = step j r₁ (
        is_nil (set_ne i j making s.at n ∙ b)
          (ap (λ (x : Text). lookup x s.account_mutexes) e ∙ l)) in
      let at₂ = set j making (set i making s.at) in
      let r₃ =
        step i r₂ (make (set_ne j i making (set i making s.at) n' ∙ set_self i making s.at)) in
      let d₃ = insert (email i) m s.account_mutexes in
      let at₃ = set i reading at₂ in
      let r₄ =
        step i r₃
          (read m (set_self i reading at₂) (lookup-insert_self (email i) m s.account_mutexes)) in
      let at₄ = set i (locking m) at₃ in
      let r₅ = step i r₄ (lock m (set_self i (locking m) at₃) (f m (omega arith))) in
      let at₅ = set i (holding m) at₄ in
      let r₆ = step j r₅ (
        make (
          set_ne i j (holding m) at₄ n
          ∙ set_ne i j (locking m) at₃ n
          ∙ set_ne i j reading at₂ n
          ∙ set_self j making (set i making s.at))) in
      let at₆ = set j reading at₅ in
      let r₇ =
        step j r₆
          (read (m + 1) (set_self j reading at₅) (lookup-insert_self (email j) (m + 1) d₃)) in
      let at₇ = set j (locking (m + 1)) at₆ in
      let r₈ = step j r₇ (
        lock (m + 1) (set_self j (locking (m + 1)) at₆) (
          set_ne m (m + 1) true s.locked (λ p. absurd (omega (arith, p)))
          ∙ f (m + 1) (omega arith))) in
      (
        _,
        r₈,
        set_ne j i (holding (m + 1)) at₇ n'
            ∙ set_ne j i (locking (m + 1)) at₆ n'
            ∙ set_ne j i reading at₅ n'
            ∙ set_self i (holding m) at₄,
        set_self j (holding (m + 1)) at₇,
      )
