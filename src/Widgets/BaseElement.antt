-- ===== src/Widgets/BaseElement.antt =====
-- `BaseElement`, the base class of the elements. `Value` is the type of the JavaScript values that a
-- template passes to these helpers, with its truthiness and its `===`.
use padlock_cloud.Prelude.{Bool, false, ◌||◌, List, [], ◌∷◌}

module _ {Value : Type 0} (to_boolean : Value → Bool) (strict_equal : Value → Value → Bool) where
  unfoldable pub truthy : Value → Bool
  truthy val = to_boolean val

  unfoldable pub equals : Value → List Value → Bool
  equals val [] = false
  equals val (v ∷ vals) = strict_equal v val || equals val vals

unfoldable pub identity {ℓ} : {Value : Type ℓ} → Value → Value
identity val = val
