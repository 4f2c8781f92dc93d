-- ===== src/Localize/Tests.antt =====
-- Messages at concrete inputs.
use padlock_cloud.Prelude.{ℕ, ◌≡◌, ◌≢◌, false, ◌||◌, ◌==◌, none, [], arith}
use padlock_cloud.Localize.{Locale}

abbrev english : Locale
english = record { translations = []; language = none }

-- A code unit that is none of the three special ones.
plain_unit :
    (c : ℕ) → (c == b'{' || (c == b'*' || c == b'$')) ≡ false → (c ≢ b'{') × (c ≢ b'*') × (c ≢ b'$')
plain_unit c h = ground arith
