-- ===== src/Json.antt =====
-- The values that `JSON.parse` returns. An object is the list of its own properties, each key once.
use padlock_cloud.Prelude.{ℕ, String, Bool, Option, none, some, str_eq, if◌then◌else◌}

mutual
  pub data Json : Type 0 where
    null : Json
    boolean : Bool → Json
    number : ℕ → Json
    string : String → Json
    array : Items → Json
    object : Fields → Json

  pub data Items : Type 0 where
    nil : Items
    cons : Json → Items → Items

  pub data Fields : Type 0 where
    end : Fields
    field : String → Json → Fields → Fields

-- An own property; `none` is `undefined`.
unfoldable pub get_field : Fields → String → Option Json
get_field end key = none
get_field (field k v fields) key = if str_eq k key then some v else get_field fields key

-- `value.key` for a key that no prototype has. Reading a property of `null` throws: `none`.
unfoldable pub member : Json → String → Option (Option Json)
unfolding get_field
member null key = none
member (object fields) key = some (get_field fields key)
member _ key = some none
