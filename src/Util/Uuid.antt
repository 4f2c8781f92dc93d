-- ===== src/Util/Uuid.antt =====
-- `uuid` of the utility module. `Math.random() * 16 | 0` is outside the repository: the numbers it
-- gives are an argument, a function of the count of calls so far, each below 16.
pub mod Layout
use Prim.Native.Nat.{bit_and, bit_or}
use padlock_cloud.Prelude.{ℕ, suc, ◌+◌, ◌-◌, [], ◌∷◌, Text, codes, ltb, ◌==◌, if◌then◌else◌}

-- `v.toString(16)` for a number below 16.
unfoldable pub hex_digit : ℕ → ℕ
hex_digit v = if ltb v 10 then b'0' + v else b'a' + (v - 10)

-- The replacement of one `x` or `y`.
unfoldable pub replacement : ℕ → ℕ → ℕ
unfolding hex_digit
replacement c r = hex_digit (if c == b'x' then r else bit_or (bit_and r 0x3) 0x8)

-- `template.replace(/[xy]/g, f)`, with `i` matches made before.
replace_xy : (ℕ → ℕ) → ℕ → Text → Text
replace_xy rnd i [] = []
replace_xy rnd i (c ∷ rest) =
    let matched = replacement c (rnd i) ∷ replace_xy rnd (suc i) rest in
    let kept = c ∷ replace_xy rnd i rest in
    if c == b'x' then matched else if c == b'y' then matched else kept

unfoldable pub uuid : (ℕ → ℕ) → Text
unfolding replace_xy
uuid rnd = replace_xy rnd 0 (codes "xxxxxxxx-xxxx-4xxx-yxxx-xxxxxxxxxxxx")
