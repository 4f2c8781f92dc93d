-- ===== src/Server/Locks/Exclusion.antt =====
-- Where every account has its mutex, its requests exclude one another.
use padlock_cloud.Prelude.{
  ℕ, ◌≡◌, ◌≢◌, refl, sym, ap, ◌∙◌, inl, inr, Bool, true, false, Bool-cases, Option, none, some,
  Text, ◌==◌, ==_iff,
}
use padlock_cloud.Dict.{lookup, code_eq}
use padlock_cloud.Server.Locks.{
  Place, testing, making, reading, locking, holding, done, Locks, set, goes, Step, is_there, is_nil,
  make, read, lock, unlock, Reach, start, step,
}
use padlock_cloud.Server.Locks.Race.{set_self, set_ne}

-- A value after a change is the new one at its place, and the old one elsewhere.
data Changed {A : Type 0} (i : ℕ) (a : A) (f : ℕ → A) (j : ℕ) : Type 0 where
  here : j ≡ i → set i a f j ≡ a → Changed i a f j
  elsewhere : i ≢ j → set i a f j ≡ f j → Changed i a f j

changed : {A : Type 0} (i : ℕ) (a : A) (f : ℕ → A) (j : ℕ) → Changed i a f j
changed i a f j = elim (Bool-cases (j == i)) [
  | inl e ↦ let p = (==_iff j i).0 e in here p (ap (λ (k : ℕ). set i a f k) p ∙ set_self i a f)
  | inr e ↦
      let n : i ≢ j = λ p. cc (e, ap (λ (k : ℕ). k == i) (sym p), (==_iff i i).1 refl) in
      elsewhere n (set_ne i j a f n)
]

holding-inj : (m n : ℕ) → holding m ≡ holding n → m ≡ n
holding-inj m n e = cc (e)

locking-inj : (m n : ℕ) → locking m ≡ locking n → m ≡ n
locking-inj m n e = cc (e)

some-inj : {m n : ℕ} → some m ≡ some n → m ≡ n
some-inj e = cc (e)

none-known : {o : Option ℕ} → (m : ℕ) × (o ≡ some m) → o ≡ none → ⊥
none-known (m, e) h = cc (e, h)

stays_locked : (m k : ℕ) (f : ℕ → Bool) → f k ≡ true → set m true f k ≡ true
stays_locked m k f h = elim (changed m true f k) [ here p q ↦ q | elsewhere n q ↦ q ∙ h ]

module _ (email : ℕ → Text) where
  pub record IsExclusive (s : Locks) : Type 0 where
    pub known : (i : ℕ) → (m : ℕ) × (lookup (email i) s.account_mutexes ≡ some m)
    pub not_making : (i : ℕ) → s.at i ≢ making
    pub right : (i m : ℕ) → s.at i ≡ locking m → lookup (email i) s.account_mutexes ≡ some m
    pub held :
        (i m : ℕ)
        → s.at i ≡ holding m
        → (lookup (email i) s.account_mutexes ≡ some m) × (s.locked m ≡ true)
    pub alone : (i j m : ℕ) → s.at i ≡ holding m → s.at j ≡ holding m → i ≡ j

  -- One request moves to a place that fits, and the mutexes that the others hold stay locked.
  moved-IsExclusive :
      (s : Locks) (i : ℕ) (place : Place) (locked' : ℕ → Bool)
      → IsExclusive s
      → place ≢ making
      → ((m : ℕ) → place ≡ locking m → lookup (email i) s.account_mutexes ≡ some m)
      → ((m : ℕ)
          → place ≡ holding m
          → (lookup (email i) s.account_mutexes ≡ some m)
            × (locked' m ≡ true)
            × ((j : ℕ) → s.at j ≢ holding m))
      → ((j m : ℕ) → i ≢ j → s.at j ≡ holding m → locked' m ≡ true)
      → IsExclusive (goes i place (record s { locked = locked' }))
  moved-IsExclusive s i place locked' w n r h o = record {
    known = w.known;
    not_making = λ j e. elim (changed i place s.at j) [
      | here p q ↦ n (sym q ∙ e)
      | elsewhere k q ↦ w.not_making j (sym q ∙ e)
    ];
    right = λ j m e. elim (changed i place s.at j) [
      | here p q ↦ ap (λ (k : ℕ). lookup (email k) s.account_mutexes) p ∙ r m (sym q ∙ e)
      | elsewhere k q ↦ w.right j m (sym q ∙ e)
    ];
    held = λ j m e. elim (changed i place s.at j) [
      | here p q ↦
          let (l, t, _) = h m (sym q ∙ e) in
          (ap (λ (k : ℕ). lookup (email k) s.account_mutexes) p ∙ l, t)
      | elsewhere k q ↦ ((w.held j m (sym q ∙ e)).0, o j m k (sym q ∙ e))
    ];
    alone = λ j k m e f. elim (changed i place s.at j) [
      | here p q ↦ elim (changed i place s.at k) [
        | here p' q' ↦ p ∙ sym p'
        | elsewhere l' q' ↦ absurd ((h m (sym q ∙ e)).2 k (sym q' ∙ f))
      ]
      | elsewhere l q ↦ elim (changed i place s.at k) [
        | here p' q' ↦ absurd ((h m (sym q' ∙ f)).2 j (sym q ∙ e))
        | elsewhere l' q' ↦ w.alone j k m (sym q ∙ e) (sym q' ∙ f)
      ]
    ];
  }

  step-IsExclusive : (i : ℕ) (s s' : Locks) → Step email i s s' → IsExclusive s → IsExclusive s'
  step-IsExclusive i s _ (is_there m a l) w =
      moved-IsExclusive s i reading s.locked w (λ e. cc (e)) (λ m e. absurd (cc (e)))
        (λ m e. absurd (cc (e))) (λ j m n e. (w.held j m e).1)
  step-IsExclusive i s _ (is_nil a l) w = absurd (none-known (w.known i) l)
  step-IsExclusive i s _ (make a) w = absurd (w.not_making i a)
  step-IsExclusive i s _ (read m a l) w =
      moved-IsExclusive s i (locking m) s.locked w (λ e. cc (e))
        (λ k e. l ∙ ap (λ (x : ℕ). some x) (locking-inj m k e)) (λ k e. absurd (cc (e)))
        (λ j k n e. (w.held j k e).1)
  step-IsExclusive i s _ (lock m a l) w =
      moved-IsExclusive s i (holding m) (set m true s.locked) w (λ e. cc (e))
        (λ k e. absurd (cc (e)))
        (λ k e.
          let p = holding-inj m k e in
          (
            w.right i m a ∙ ap (λ (x : ℕ). some x) p,
            ap (λ (x : ℕ). set m true s.locked x) (sym p) ∙ set_self m true s.locked,
            λ j h. cc ((w.held j k h).1, ap (λ (x : ℕ). s.locked x) p, l),
          ))
        (λ j k n e. stays_locked m k s.locked (w.held j k e).1)
  step-IsExclusive i s _ (unlock m n a l t) w =
      moved-IsExclusive s i done (set n false s.locked) w (λ e. cc (e)) (λ k e. absurd (cc (e)))
        (λ k e. absurd (cc (e)))
        (λ j k o e.
          let q = some-inj (sym l ∙ (w.held i m a).0) in
          set_ne n k false s.locked
            (λ p. o (w.alone i j k (a ∙ ap (λ (x : ℕ). holding x) (sym q ∙ p)) e))
          ∙ (w.held j k e).1)

  reach-IsExclusive : (s s' : Locks) → Reach email s s' → IsExclusive s → IsExclusive s'
  reach-IsExclusive s _ start w = w
  reach-IsExclusive s _ (step {s' = s'} {s'' = s''} i r st) w =
      step-IsExclusive i s' s'' st (reach-IsExclusive s s' r w)

  -- Where every account has its mutex from the beginning, no two requests for one email ever hold a lock
  -- on its account at once, however the steps of the requests follow one another.
  pub exclusive_lem :
      (s s' : Locks) (i j m n : ℕ)
      → ((k : ℕ) → (x : ℕ) × (lookup (email k) s.account_mutexes ≡ some x))
      → ((k : ℕ) → s.at k ≡ testing)
      → Reach email s s'
      → email i ≡ email j
      → s'.at i ≡ holding m
      → s'.at j ≡ holding n
      → i ≡ j
  exclusive_lem s s' i j m n known new r e a b =
      let w = reach-IsExclusive s s' r (record {
        known = known;
        not_making = λ k p. cc (new k, p);
        right = λ k x p. absurd (cc (new k, p));
        held = λ k x p. absurd (cc (new k, p));
        alone = λ k l x p q. absurd (cc (new k, p));
      }) in
      let p = some-inj (
        sym (w.held i m a).0
        ∙ ap (λ (x : Text). lookup x s'.account_mutexes) e
        ∙ (w.held j n b).0) in
      w.alone i j n (a ∙ ap (λ (x : ℕ). holding x) p) b
