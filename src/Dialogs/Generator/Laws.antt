-- ===== src/Dialogs/Generator/Laws.antt =====
-- What the generator generates.
use padlock_cloud.Prelude.{
  ℕ, ◌<◌, ◌≡◌, refl, ◌⊎◌, inl, inr, Bool, true, false, Option, none, some, List, [], ◌∷◌, ◌++◌,
  Text, arith, All, Memᴰ, length, if◌then◌else◌, ◌==◌,
}
use padlock_cloud.Util.Random.{chars}
use padlock_cloud.Util.Random.Laws.{random_string_sound}
use padlock_cloud.Dialogs.Generator.{Generator, char_set, with_value, regenerate}

-- A character of a class that is switched on.
abbrev pub IsEnabled : Generator → ℕ → Type 0
IsEnabled g c =
    (g.lower ≡ true) × Memᴰ c chars.lower
    ⊎ (g.upper ≡ true) × Memᴰ c chars.upper
    ⊎ (g.numbers ≡ true) × Memᴰ c chars.numbers
    ⊎ (g.other ≡ true) × Memᴰ c chars.other

mem_append : {c : ℕ} (xs ys : Text) → Memᴰ c (xs ++ ys) → Memᴰ c xs ⊎ Memᴰ c ys
mem_append [] ys m = inr m
mem_append (x ∷ xs) ys (Memᴰ.head e) = inl (Memᴰ.head e)
mem_append (x ∷ xs) ys (Memᴰ.tail m) = elim (mem_append xs ys m) [
  | inl l ↦ inl (Memᴰ.tail l)
  | inr r ↦ inr r
]

mem_if : {c : ℕ} (b : Bool) (xs : Text) → Memᴰ c (if b then xs else []) → (b ≡ true) × Memᴰ c xs
mem_if true xs m = (refl, m)
mem_if false xs m = elim m [ ]

mem-char_set : (g : Generator) (c : ℕ) → Memᴰ c (char_set g) → IsEnabled g c
unfolding char_set
mem-char_set g c m = elim (mem_append _ _ m) [
  | inl l ↦ inl (mem_if g.lower chars.lower l)
  | inr m' ↦ elim (mem_append _ _ m') [
    | inl u ↦ inr (inl (mem_if g.upper chars.upper u))
    | inr m'' ↦ elim (mem_append _ _ m'') [
      | inl n ↦ inr (inr (inl (mem_if g.numbers chars.numbers n)))
      | inr o ↦ inr (inr (inr (mem_if g.other chars.other o)))
    ]
  ]
]

All-map : (P Q : ℕ → Type 0) (xs : Text) → ((c : ℕ) → P c → Q c) → All P xs → All Q xs
All-map P Q [] f h = tt
All-map P Q (x ∷ xs) f (h, hs) = (f x h, All-map P Q xs f hs)

with_value_lem :
    (g : Generator) (r : Option Text) {g' : Generator}
    → with_value g r ≡ some g'
    → r ≡ some g'.value
with_value_lem g none e = cc
with_value_lem g (some v) e = ground arith

value_cases :
    (b : Bool) (r : Option Text) (v : Text)
    → (if b then some [] else r) ≡ some v
    → (b ≡ true) × (v ≡ []) ⊎ (b ≡ false) × (r ≡ some v)
value_cases true r v e = inl (refl, cc)
value_cases false r v e = inr (refl, e)

pos_of_test : (n : ℕ) → (n == 0) ≡ false → 0 < n
pos_of_test n h = ground arith

zero_of_test : (n : ℕ) → (n == 0) ≡ true → n ≡ 0
zero_of_test n h = ground arith

-- With a class switched on, the generated value has the length that is set, and each of its
-- characters is of a class that is switched on. With no class it is empty.
pub regenerate_sound :
    (g : Generator) (bytes : List ℕ) {g' : Generator}
    → regenerate bytes g ≡ some g'
    → (length (char_set g) ≡ 0) × (g'.value ≡ [])
      ⊎ (length g'.value ≡ g.size) × All (λ c. IsEnabled g c) g'.value
unfolding regenerate
regenerate_sound g bytes {g'} e =
    elim (value_cases (length (char_set g) == 0) _ g'.value (with_value_lem g _ e)) [
      | inl (z, v) ↦ inl (zero_of_test (length (char_set g)) z, v)
      | inr (z, drawn) ↦
          let (len, from) =
            random_string_sound g.size (char_set g) bytes (pos_of_test (length (char_set g)) z)
              drawn in
          inr (len, All-map _ _ g'.value (mem-char_set g) from)
    ]
