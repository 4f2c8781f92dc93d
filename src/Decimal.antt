-- ===== src/Decimal.antt =====
-- The decimal text of a natural number, as JavaScript prints it in a template or by `toString`.
use padlock_cloud.Prelude.{ℕ, zero, suc, ◌+◌, ◌/◌, ◌%◌, [], ◌∷◌, ◌++◌, Text, ltb, if◌then◌else◌}

-- The digits, on fuel: as many rounds as the number suffice.
unfoldable pub digits_from : ℕ → ℕ → Text
digits_from zero n = []
digits_from (suc fuel) n =
    let more = digits_from fuel (n / 10) ++ (b'0' + n % 10) ∷ [] in
    if ltb n 10 then (b'0' + n) ∷ [] else more

unfoldable pub decimal : ℕ → Text
unfolding digits_from
decimal n = digits_from (suc n) n
