-- ===== src/Dict.antt =====
-- Go maps, as association lists in which a key that is set again keeps its place. Equality of keys is
-- an instance.
pub mod Laws
use padlock_cloud.Prelude.{
  ℕ, ◌≡◌, ◌↔◌, Bool, true, Option, none, some, List, [], ◌∷◌, Text, text_eq, text_eq_iff, ◌==◌,
  ==_iff, if◌then◌else◌,
}

pub record Eq {ℓ} (A : Type ℓ) : Type ℓ where
  pub beq : A → A → Bool
  -- The test decides equality.
  pub beq_iff : (a b : A) → (beq a b ≡ true) ↔ (a ≡ b)

instance abbrev pub nat_eq : Eq ℕ
nat_eq = record { beq = ◌==◌; beq_iff = ==_iff }

instance abbrev pub code_eq : Eq Text
code_eq = record { beq = text_eq; beq_iff = text_eq_iff }

abbrev pub Dict {ℓ κ} : Type ℓ → Type κ → Type (ℓ ⊔ κ)
Dict K V = List (K × V)

module _ {ℓ κ} {K : Type ℓ} {V : Type κ} ⦃e : Eq K⦄ where
  -- `d[key]`; `none` is a missing key.
  unfoldable pub lookup : K → Dict K V → Option V
  lookup key [] = none
  lookup key ((k, v) ∷ d) = if e.beq k key then some v else lookup key d

  -- `d[key] = value`
  unfoldable pub insert : K → V → Dict K V → Dict K V
  insert key value [] = (key, value) ∷ []
  insert key value ((k, v) ∷ d) =
      let rest = insert key value d in if e.beq k key then (k, value) ∷ d else (k, v) ∷ rest

  -- `delete(d, key)`
  unfoldable pub erase : K → Dict K V → Dict K V
  erase key [] = []
  erase key ((k, v) ∷ d) = let rest = erase key d in if e.beq k key then rest else (k, v) ∷ rest
