-- ===== src/Promise.antt =====
-- A JavaScript promise, as what it has been settled to so far. The program settles a promise by the
-- `resolve` and `reject` functions of its executor: the first call counts and later ones do nothing.
use padlock_cloud.Prelude.{◌≡◌, refl}

pub data Promise {ℓ} (E A : Type ℓ) : Type ℓ where
  pending : Promise E A
  fulfilled : A → Promise E A
  rejected : E → Promise E A

module _ {ℓ} {E A : Type ℓ} where
  abbrev pub settle : Promise E A → Promise E A → Promise E A
  settle pending p = p
  settle (fulfilled a) _ = fulfilled a
  settle (rejected e) _ = rejected e

  pub settle_assoc : (p q r : Promise E A) → settle (settle p q) r ≡ settle p (settle q r)
  settle_assoc pending q r = refl
  settle_assoc (fulfilled a) q r = refl
  settle_assoc (rejected e) q r = refl

-- `p.then(f)` and an awaited promise in a generator: a rejection is passed on.
infixl 5 ◌>>=◌
abbrev pub ◌>>=◌ {ℓ} : {E A B : Type ℓ} → Promise E A → (A → Promise E B) → Promise E B
pending >>= f = pending
fulfilled a >>= f = f a
rejected e >>= f = rejected e
