-- ===== src/Util/Uuid/Layout.antt =====
-- The layout of the texts that `uuid` returns, against that of a version 4 UUID (RFC 4122).
use padlock_cloud.Prelude.{
  ℕ, zero, suc, ◌≤◌, ◌<◌, ◌≡◌, refl, ◌⊎◌, inl, inr, Bool, true, false, ◌||◌, List, [], ◌∷◌, ◌++◌,
  map, arith, Text, codes, ◌==◌, replicate, if◌then◌else◌, Bool-cases,
}
use padlock_cloud.Util.Uuid.{replacement, replace_xy, uuid}

pub data Place : Type 0 where
  hex variant : Place
  exactly : ℕ → Place

abbrev pub IsHex : ℕ → Type 0
IsHex c = (b'0' ≤ c) × (c ≤ b'9') ⊎ (b'a' ≤ c) × (c ≤ b'f')

abbrev pub Allows : Place → ℕ → Type 0
Allows hex c = IsHex c
Allows variant c = (c ≡ b'8') ⊎ (c ≡ b'9') ⊎ (c ≡ b'a') ⊎ (c ≡ b'b')
Allows (exactly t) c = c ≡ t

abbrev pub Fits : List Place → Text → Type 0
Fits [] [] = Unit
Fits [] (_ ∷ _) = ⊥
Fits (_ ∷ _) [] = ⊥
Fits (p ∷ places) (c ∷ s) = Allows p c × Fits places s

-- 8-4-4-4-12 lower-case hexadecimal digits, with version 4 and the variant of RFC 4122.
abbrev pub v4_layout : List Place
v4_layout =
    replicate 8 hex
    ++ (exactly b'-' ∷ replicate 4 hex)
    ++ (exactly b'-' ∷ exactly b'4' ∷ replicate 3 hex)
    ++ (exactly b'-' ∷ variant ∷ replicate 3 hex)
    ++ (exactly b'-' ∷ replicate 12 hex)

abbrev place : ℕ → Place
place t = if t == b'x' then hex else if t == b'y' then variant else exactly t

-- A test that each number up to a bound passes.
passes_upto : (ℕ → Bool) → ℕ → Bool
passes_upto test zero = test 0
passes_upto test (suc bound) = if test (suc bound) then passes_upto test bound else false

test-passes_upto :
    (test : ℕ → Bool) (bound r : ℕ) → r ≤ bound → passes_upto test bound ≡ true → test r ≡ true
unfolding passes_upto
test-passes_upto test zero zero le passed = passed
test-passes_upto test zero (suc r) le passed = absurd (omega arith)
test-passes_upto test (suc bound) r le passed = ground (arith, test-passes_upto test bound r)

abbrev is_variant : ℕ → Bool
is_variant c = c == b'8' || c == b'9' || c == b'a' || c == b'b'

variant_table : passes_upto (λ r. is_variant (replacement b'y' r)) 15 ≡ true
unfolding passes_upto replacement
variant_table = refl

variant_of_y : (r : ℕ) → r < 16 → Allows variant (replacement b'y' r)
variant_of_y r h = ground (
  arith,
  test-passes_upto (λ r. is_variant (replacement b'y' r)) 15 r (omega arith) variant_table,
)

hex_of_x : (r : ℕ) → r < 16 → Allows hex (replacement b'x' r)
unfolding replacement
hex_of_x r h = ground arith

replace_xy-Fits :
    (rnd : ℕ → ℕ) (i : ℕ) (t : Text)
    → ((k : ℕ) → rnd k < 16)
    → Fits (map place t) (replace_xy rnd i t)
unfolding replace_xy
replace_xy-Fits rnd i [] h = tt
replace_xy-Fits rnd i (c ∷ t) h = elim (Bool-cases (c == b'x')) [
  | inl x ↦
      let e : c ≡ b'x' = ground arith in
      rw e (hex_of_x (rnd i) (h i), replace_xy-Fits rnd (suc i) t h)
  | inr x ↦ elim (Bool-cases (c == b'y')) [
    | inl y ↦
        let e : c ≡ b'y' = ground arith in
        rw e (variant_of_y (rnd i) (h i), replace_xy-Fits rnd (suc i) t h)
    | inr y ↦ rw (x, y) (refl, replace_xy-Fits rnd i t h)
  ]
]

-- If each random number is below 16, `uuid` returns 36 characters of the form
-- hhhhhhhh-hhhh-4hhh-vhhh-hhhhhhhhhhhh, where h is a lower-case hexadecimal digit and v is one of
-- 8, 9, a and b.
pub uuid-Fits : (rnd : ℕ → ℕ) → ((k : ℕ) → rnd k < 16) → Fits v4_layout (uuid rnd)
unfolding uuid
uuid-Fits rnd h = replace_xy-Fits rnd 0 (codes "xxxxxxxx-xxxx-4xxx-yxxx-xxxxxxxxxxxx") h
