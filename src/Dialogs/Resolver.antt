-- ===== src/Dialogs/Resolver.antt =====
-- The field `_resolve` that the dialogs share: the function that settles the promise of the last
-- call of `show`, `prompt` and the like. A call gives its promise a new number; the field holds the
-- number of the promise that it would settle.
pub mod Once
use padlock_cloud.Prelude.{ℕ, suc, Option, none, some, List, [], ◌∷◌}

-- `A` is what the promises resolve to.
pub record Resolver {ℓ} (A : Type ℓ) : Type ℓ where
  pub resolve : Option ℕ
  pub next : ℕ
  -- The calls of resolve functions, the last first: `resolve(a)` of the numbered promise.
  pub calls : List (ℕ × A)

module _ {ℓ} {A : Type ℓ} where
  abbrev pub none_shown : Resolver A
  none_shown = record { resolve = none; next = 0; calls = [] }

  -- `return new Promise((resolve) => { this._resolve = resolve; })`
  abbrev pub new_promise : Resolver A → Resolver A
  new_promise r = record r { resolve = some r.next; next = suc r.next }

  abbrev pub called : Option ℕ → A → List (ℕ × A) → List (ℕ × A)
  called none a calls = calls
  called (some n) a calls = (n, a) ∷ calls

  -- `typeof this._resolve === "function" && this._resolve(a)`
  abbrev pub resolve_if_function : A → Resolver A → Resolver A
  resolve_if_function a r = record r { calls = called r.resolve a r.calls }

  -- `this._resolve = null`
  abbrev pub forget : Resolver A → Resolver A
  forget r = record r { resolve = none }
