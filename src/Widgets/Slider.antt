-- ===== src/Widgets/Slider.antt =====
-- `Slider` (`pl-slider`). `parseFloat`, `Number.prototype.toString` and the comparison by which
-- Polymer decides that a property has changed are arguments. The two observers set each other's
-- property, so they run on fuel: a change that is still to be observed when it runs out is `none`.
pub mod Settling
use padlock_cloud.Prelude.{
  ℕ, zero, suc, Bool, false, Option, none, some, Text, if◌then◌else◌, String,
}

pub record Slider (Number : Type 0) : Type 0 where
  pub min : Number
  pub max : Number
  pub value : Number
  pub unit : String
  pub step : Number
  pub label : String
  pub hide_value : Bool
  -- `_strValue`, bound to the inner range input.
  pub str_value : Text

-- The property whose change is to be observed.
pub data Changed : Type 0 where
  value_changed str_value_changed : Changed

module _ {Number : Type 0} (parse_float : Text → Number) (to_string : Number → Text)
    (same_number : Number → Number → Bool) (same_text : Text → Text → Bool) where
  -- `_valueChanged` and `_strValueChanged`, each with the observer that its write sets off.
  unfoldable pub observe : ℕ → Changed → Slider Number → Option (Slider Number)
  observe zero c s = none
  observe (suc fuel) value_changed s =
      let text = to_string s.value in
      let next = observe fuel str_value_changed (record s { str_value = text }) in
      if same_text s.str_value text then some s else next
  observe (suc fuel) str_value_changed s =
      let number = parse_float s.str_value in
      let next = observe fuel value_changed (record s { value = number }) in
      if same_number s.value number then some s else next
