-- ===== src/Browser/Timers.antt =====
-- Live timers, and what `setTimeout`, `clearTimeout` and a firing timer do to them.
use padlock_cloud.Prelude.{
  ℕ, suc, ◌<◌, Option, none, some, List, [], ◌∷◌, ◌==◌, arith, if◌then◌else◌, All,
}

-- `C` is what the callbacks do.
pub record Timers (C : Type 0) : Type 0 where
  pub live : List (ℕ × C)
  pub fresh : ℕ

module _ {C : Type 0} where
  unfoldable pub remove : ℕ → List (ℕ × C) → List (ℕ × C)
  remove n [] = []
  remove n ((m, c) ∷ ms) = let rest = remove n ms in if m == n then rest else (m, c) ∷ rest

  unfoldable pub callback : ℕ → List (ℕ × C) → Option C
  callback n [] = none
  callback n ((m, c) ∷ ms) = let rest = callback n ms in if m == n then some c else rest

  unfoldable pub set_timeout : C → Timers C → Timers C
  set_timeout c ts = record { live = (ts.fresh, c) ∷ ts.live; fresh = suc ts.fresh }

  unfoldable pub clear_timeout : Option ℕ → Timers C → Timers C
  unfolding remove
  clear_timeout none ts = ts
  clear_timeout (some n) ts = record ts { live = remove n ts.live }

  -- Each live number was given before.
  abbrev pub AreOld : Timers C → Type 0
  AreOld ts = All (λ t. t.0 < ts.fresh) ts.live

  pub remove-All : (P : ℕ × C → Type 0) (n : ℕ) (ms : List (ℕ × C)) → All P ms → All P (remove n ms)
  unfolding remove
  remove-All P n [] h = tt
  remove-All P n ((m, c) ∷ ms) (h, hs) = ground (arith, remove-All P n ms hs)

  pub All-suc : (k : ℕ) (ms : List (ℕ × C)) → All (λ t. t.0 < k) ms → All (λ t. t.0 < suc k) ms
  All-suc k [] h = tt
  All-suc k ((m, c) ∷ ms) (h, hs) = (omega arith, All-suc k ms hs)
