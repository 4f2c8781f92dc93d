-- ===== src/Widgets/Input.antt =====
-- `PlInput` (`pl-input`) and the variable `activeInput` that all inputs of the page share.
-- The inner `<input>` or `<textarea>`, its validity and the browser's focus are outside the
-- repository: the validity is an argument (`none` where there is no inner element), and what a
-- handler asks of the page is listed as effects.
pub mod Focus
pub mod Mask
use padlock_cloud.Prelude.{
  ℕ, Bool, true, false, not, ◌&&◌, Option, none, some, List, [], ◌∷◌, ◌++◌, String, Text, ◌==◌,
  str_eq, length, if◌then◌else◌,
}

pub record Input : Type 0 where
  pub autosize : Bool
  pub autocapitalize : Bool
  pub disabled : Bool
  pub focused : Bool
  pub invalid : Bool
  pub masked : Bool
  pub multiline : Bool
  pub pattern_text : Option String
  pub placeholder : String
  pub no_tab : Bool
  pub readonly : Bool
  pub required : Bool
  pub type : String
  pub select_on_focus : Bool
  pub value : Text

-- The defaults of `properties`; `required` is declared with the falsy "".
unfoldable pub init : Input
init = record {
  autosize = false;
  autocapitalize = false;
  disabled = false;
  focused = false;
  invalid = false;
  masked = false;
  multiline = false;
  pattern_text = none;
  placeholder = "";
  no_tab = false;
  readonly = false;
  required = false;
  type = "text";
  select_on_focus = false;
  value = [];
}

-- What a handler asks of the page, about the input with this number.
pub data Effect : Type 0 where
  stop_propagation prevent_default : Effect
  dispatch : ℕ → String → Effect
  select_all_after blur_inner focus_inner : ℕ → Effect
  set_selection_range : ℕ → ℕ → Effect
  select_inner : ℕ → Effect
  autosize_inner autosize_update value_changed_after : ℕ → Effect

-- The inputs of the page by number, and `activeInput`.
pub record Page : Type 0 where
  pub inputs : ℕ → Input
  pub active_input : Option ℕ

abbrev pub set_input : ℕ → Input → Page → Page
set_input i input page = record page { inputs = λ j. if i == j then input else page.inputs j }

-- The selector that `inputElement` queries.
unfoldable pub inner_tag : Input → String
inner_tag input = if input.multiline then "textarea" else "input"

unfoldable pub dom_change : ℕ → Option Bool → Page → List Effect
dom_change i validity page =
    (if (page.inputs i).autosize && (page.inputs i).multiline && exists validity
      then autosize_inner i ∷ []
      else [])
    ++ value_changed_after i ∷ []
  where
    exists : Option Bool → Bool
    exists none = false
    exists (some _) = true

unfoldable pub on_focused : ℕ → Page → Page × List Effect
on_focused i page =
    let page' = set_input i (record (page.inputs i) { focused = true }) page in
    (
      record page' { active_input = some i },
      stop_propagation
          ∷ dispatch i "focus"
          ∷ (if (page.inputs i).select_on_focus then select_all_after i ∷ [] else []),
    )

abbrev is_active : Option ℕ → ℕ → Bool
is_active none i = false
is_active (some j) i = j == i

unfoldable pub on_blurred : ℕ → Page → Page × List Effect
on_blurred i page =
    let page' = set_input i (record (page.inputs i) { focused = false }) page in
    (
      record page' {
        active_input = if is_active page.active_input i then none else page.active_input;
      },
      stop_propagation ∷ dispatch i "blur" ∷ [],
    )

unfoldable pub on_change : ℕ → List Effect
on_change i = stop_propagation ∷ dispatch i "change" ∷ []

unfoldable pub on_keydown : ℕ → String → Page → List Effect
on_keydown i key page =
    if str_eq key "Enter" && not (page.inputs i).multiline
    then dispatch i "enter" ∷ prevent_default ∷ stop_propagation ∷ []
    else if str_eq key "Escape"
    then dispatch i "escape" ∷ prevent_default ∷ stop_propagation ∷ []
    else []

-- `this.inputElement && !this.inputElement.checkValidity()`
abbrev is_invalid : Option Bool → Bool
is_invalid none = false
is_invalid (some valid) = not valid

unfoldable pub on_value_changed : ℕ → Option Bool → Page → Page × List Effect
on_value_changed i validity page = (
  set_input i (record (page.inputs i) { invalid = is_invalid validity }) page,
  if (page.inputs i).autosize && (page.inputs i).multiline then autosize_update i ∷ [] else [],
)

-- `touchend` on the document: the active input's inner element loses the focus.
unfoldable pub on_touchend : Page → List Effect
on_touchend page = blur_active page.active_input
  where
    blur_active : Option ℕ → List Effect
    blur_active none = []
    blur_active (some i) = blur_inner i ∷ []

unfoldable pub tab_index : Bool → String
tab_index no_tab = if no_tab then "-1" else ""

abbrev is_empty : Text → Bool
is_empty [] = true
is_empty (_ ∷ _) = false

unfoldable pub show_mask : Input → Bool
show_mask input = input.masked && (not (is_empty input.value) && not input.focused)

-- `value.replace(/[^\n]/g, "\u2022")`; the empty text is returned as it is.
unfoldable pub mask : Text → Text
mask [] = []
mask (c ∷ s) = (if c == 0x0a then c else 0x2022) ∷ mask s

unfoldable pub auto_capitalize : Input → String
auto_capitalize input = if input.autocapitalize then "" else "off"

-- `selectAll`: `setSelectionRange` throws on some types of input, and `select` is called instead.
unfoldable pub select_all : ℕ → Bool → Page → List Effect
select_all i range_throws page =
    if range_throws
    then select_inner i ∷ []
    else set_selection_range i (length (page.inputs i).value) ∷ []
