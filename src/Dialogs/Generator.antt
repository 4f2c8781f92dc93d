-- ===== src/Dialogs/Generator.antt =====
-- `Generator` (`pl-generator`). The bytes that `randomString` draws are an argument, as in
-- Util/Random.antt; `none` means that it asks for more. The observer `_generate` also runs when one
-- of the properties that it lists has changed.
pub mod Laws
use padlock_cloud.Prelude.{
  ℕ, Bool, true, false, Option, none, some, List, [], ◌∷◌, ◌++◌, Text, if◌then◌else◌, length, ◌==◌,
}
use padlock_cloud.Util.Random.{chars, random_string}
use padlock_cloud.Dialogs.Resolver.{Resolver, none_shown, new_promise, resolve_if_function}

pub record Generator : Type 0 where
  pub value : Text
  pub size : ℕ
  pub lower : Bool
  pub upper : Bool
  pub numbers : Bool
  pub other : Bool
  -- `this.$.dialog.open`
  pub open_flag : Bool
  -- `none` is `undefined`.
  pub resolver : Resolver (Option Text)

abbrev pub init : Generator
init = record {
  value = [];
  size = 10;
  lower = true;
  upper = true;
  numbers = true;
  other = false;
  open_flag = false;
  resolver = none_shown;
}

-- `charSet` after the four tests.
unfoldable pub char_set : Generator → Text
char_set g =
    (if g.lower then chars.lower else [])
    ++ ((if g.upper then chars.upper else [])
        ++ ((if g.numbers then chars.numbers else []) ++ (if g.other then chars.other else [])))

abbrev with_value : Generator → Option Text → Option Generator
with_value g none = none
with_value g (some value) = some (record g { value = value })

-- `_generate`
unfoldable pub regenerate : List ℕ → Generator → Option Generator
regenerate bytes g =
    with_value g
      (if length (char_set g) == 0 then some [] else random_string g.size (char_set g) bytes)

abbrev opened : Option Generator → Option Generator
opened none = none
opened (some g) = some (record g { open_flag = true; resolver = new_promise g.resolver })

-- `generate`
unfoldable pub generate : List ℕ → Generator → Option Generator
unfolding regenerate
generate bytes g = opened (regenerate bytes g)

-- These two do not forget the resolve function: a further call of it settles nothing.
unfoldable pub on_confirm : Generator → Generator
on_confirm g = record g {
  resolver = resolve_if_function (some g.value) g.resolver;
  open_flag = false;
}

unfoldable pub on_dismiss : Generator → Generator
on_dismiss g = record g { resolver = resolve_if_function none g.resolver; open_flag = false }
