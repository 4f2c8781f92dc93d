-- ===== src/Dialogs/Resolver/Once.antt =====
-- How often the promises of a dialog are settled.
use padlock_cloud.Prelude.{ℕ, suc, ◌<◌, ◌≢◌, Option, none, some, List, [], ◌∷◌, arith, All, some}
use padlock_cloud.Dialogs.Resolver.{
  Resolver, none_shown, new_promise, called, resolve_if_function, forget,
}

-- The numbers of the promises that were settled are distinct.
abbrev pub AreDistinct : {A : Type 0} → List (ℕ × A) → Type 0
AreDistinct [] = Unit
AreDistinct ((n, _) ∷ calls) = All (λ c. c.0 ≢ n) calls × AreDistinct calls

abbrev pub IsUnsettled : {A : Type 0} → Option ℕ → ℕ → List (ℕ × A) → Type 0
IsUnsettled none next calls = Unit
IsUnsettled (some n) next calls = (n < next) × All (λ c. c.0 ≢ n) calls

-- No promise was settled twice, and the one that the field would settle was not yet.
pub record SettlesOnce (A : Type 0) (r : Resolver A) : Type 0 where
  pub given : All (λ c. c.0 < r.next) r.calls
  pub distinct : AreDistinct r.calls
  pub unsettled : IsUnsettled r.resolve r.next r.calls

module _ {A : Type 0} where
  All-ne_of_lt :
      (n : ℕ) (calls : List (ℕ × A)) → All (λ c. c.0 < n) calls → All (λ c. c.0 ≢ n) calls
  All-ne_of_lt n [] h = tt
  All-ne_of_lt n (c ∷ calls) (h, hs) = (omega arith, All-ne_of_lt n calls hs)

  All-lt_suc :
      (n : ℕ) (calls : List (ℕ × A)) → All (λ c. c.0 < n) calls → All (λ c. c.0 < suc n) calls
  All-lt_suc n [] h = tt
  All-lt_suc n (c ∷ calls) (h, hs) = (omega arith, All-lt_suc n calls hs)

  pub none_shown-SettlesOnce : SettlesOnce A none_shown
  none_shown-SettlesOnce = record { given = tt; distinct = tt; unsettled = tt }

  pub new_promise-SettlesOnce : (r : Resolver A) → SettlesOnce A r → SettlesOnce A (new_promise r)
  new_promise-SettlesOnce r h = record {
    given = All-lt_suc r.next r.calls h.given;
    distinct = h.distinct;
    unsettled = (omega arith, All-ne_of_lt r.next r.calls h.given);
  }

  pub forget-SettlesOnce : (r : Resolver A) → SettlesOnce A r → SettlesOnce A (forget r)
  forget-SettlesOnce r h = record { given = h.given; distinct = h.distinct; unsettled = tt }

  settle_calls :
      (a : A) (resolve : Option ℕ) (next : ℕ) (calls : List (ℕ × A))
      → SettlesOnce A (record { resolve = resolve; next = next; calls = calls })
      → SettlesOnce A (record { resolve = none; next = next; calls = called resolve a calls })
  settle_calls a none next calls h = h
  settle_calls a (some n) next calls h = record {
    given = (h.unsettled.0, h.given);
    distinct = (h.unsettled.1, h.distinct);
    unsettled = tt;
  }

  pub settle-SettlesOnce :
      (a : A) (r : Resolver A) → SettlesOnce A r → SettlesOnce A (forget (resolve_if_function a r))
  settle-SettlesOnce a r h = settle_calls a r.resolve r.next r.calls h
