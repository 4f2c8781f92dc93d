-- ===== src/Util/Debounce/Laws.antt =====
-- When the function behind a debounced one is called.
use padlock_cloud.Prelude.{
  ℕ, ◌+◌, ◌-◌, ◌≤◌, ◌<◌, ◌≡◌, refl, none, some, List, [], ◌∷◌, arith, length,
}
use padlock_cloud.Util.Debounce.{Timeout, Event, called, passed, fired}

module _ {ℓ} {A : Type ℓ} where
  -- Calls, each with the pause before it.
  abbrev pub burst : List (ℕ × A) → List (Event A) → List (Event A)
  burst [] rest = rest
  burst ((pause, args) ∷ calls) rest = passed pause ∷ called args ∷ burst calls rest

  -- The arguments of the last call of a burst that began with `args`.
  abbrev pub last_args : A → List (ℕ × A) → A
  last_args args [] = args
  last_args args ((_, args') ∷ calls) = last_args args' calls

  abbrev pub PausesBelow : ℕ → List (ℕ × A) → Type 0
  PausesBelow delay [] = Unit
  PausesBelow delay ((pause, _) ∷ calls) = (pause < delay) × PausesBelow delay calls

  fired-burst :
      (delay : ℕ) (args : A) (calls : List (ℕ × A)) (rest : List (Event A))
      → PausesBelow delay calls
      → fired delay (some (delay, args)) (burst calls rest)
        ≡ fired delay (some (delay, last_args args calls)) rest
  unfolding fired
  fired-burst delay args [] rest h = refl
  fired-burst delay args ((pause, args') ∷ calls) rest (p, h) =
      ground (arith, fired-burst delay args' calls rest h)

  -- If calls follow one another after pauses shorter than the delay, and then at least the delay
  -- passes, the function is called once, with the arguments of the last call, whatever happened
  -- before the burst.
  pub fired_once :
      (delay quiet : ℕ) (timeout : Timeout A) (args : A) (calls : List (ℕ × A))
      → PausesBelow delay calls
      → delay ≤ quiet
      → fired delay timeout (called args ∷ burst calls (passed quiet ∷ []))
        ≡ last_args args calls ∷ []
  unfolding fired
  fired_once delay quiet timeout args calls h q =
      ground (arith, fired-burst delay args calls (passed quiet ∷ []) h)

  abbrev pub calls_in : List (Event A) → ℕ
  calls_in [] = 0
  calls_in (called _ ∷ es) = 1 + calls_in es
  calls_in (passed _ ∷ es) = calls_in es

  abbrev pub live : Timeout A → ℕ
  live none = 0
  live (some _) = 1

  -- The function runs at most once for each call, and once more for a timer that was live.
  pub length-fired_le :
      (delay : ℕ) (timeout : Timeout A) (es : List (Event A))
      → length (fired delay timeout es) ≤ live timeout + calls_in es
  unfolding fired
  length-fired_le delay timeout [] = omega arith
  length-fired_le delay timeout (called args ∷ es) =
      ground (arith, length-fired_le delay (some (delay, args)) es)
  length-fired_le delay none (passed t ∷ es) = ground (arith, length-fired_le delay none es)
  length-fired_le delay (some (left, args)) (passed t ∷ es) =
      ground
        (arith, length-fired_le delay none es, length-fired_le delay (some (left - t, args)) es)
