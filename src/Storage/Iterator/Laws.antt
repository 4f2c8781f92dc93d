-- ===== src/Storage/Iterator/Laws.antt =====
-- What an iteration over a slice reads.
use padlock_cloud.Prelude.{
  ℕ, zero, suc, ◌+◌, ◌<◌, ◌≤◌, ◌≡◌, refl, ap, ◌∙◌, Option, some, List, [], ◌∷◌, map, Text, ltb,
  length, get_elem?, arith, inl, inr, Bool-cases, ltb→lt, sym, tests,
}
use padlock_cloud.Storage.Iterator.{new_iterator, next, current, collect}

-- The elements from a place on.
abbrev rest_from : ℕ → List Text → List (Option Text)
rest_from i [] = []
rest_from zero (x ∷ xs) = some x ∷ rest_from zero xs
rest_from (suc i) (x ∷ xs) = rest_from i xs

rest_from_step :
    (i : ℕ) (s : List Text) → i < length s → rest_from i s ≡ get_elem? s i ∷ rest_from (suc i) s
rest_from_step i [] h = absurd (omega (arith, h))
rest_from_step zero (x ∷ xs) h = refl
rest_from_step (suc i) (x ∷ xs) h = rest_from_step i xs (omega arith)

rest_from_end : (i : ℕ) (s : List Text) → length s ≤ i → rest_from i s ≡ []
rest_from_end i [] h = refl
rest_from_end zero (x ∷ xs) h = absurd (omega (arith, h))
rest_from_end (suc i) (x ∷ xs) h = rest_from_end i xs (omega arith)

rest_from-zero : (s : List Text) → rest_from zero s ≡ map some s
rest_from-zero [] = refl
rest_from-zero (x ∷ xs) = ap (λ l. some x ∷ l) (rest_from-zero xs)

collect_rest :
    (fuel : ℕ) (s : List Text) (i : ℕ)
    → length s ≤ fuel + i + 1
    → collect fuel (record { s = s; i = i }) ≡ rest_from (i + 1) s
unfolding collect next current
collect_rest zero s i h = sym (rest_from_end (i + 1) s (omega arith))
collect_rest (suc fuel) s i h = elim (Bool-cases (ltb (i + 1) (length s))) [
  | inl e ↦
      let l : i + 1 < length s = ltb→lt (i + 1) (length s) e in
      let p : suc (i + 1) ≡ i + 1 + 1 = omega arith in
      rw (e, rest_from_step (i + 1) s l, p)
        (ap (λ r. get_elem? s (i + 1) ∷ r) (collect_rest fuel s (i + 1) (omega arith)))
  | inr e ↦ rw e (sym (rest_from_end (i + 1) s (grind (tests, e))))
]

-- The elements after the first.
abbrev tail : List Text → List Text
tail [] = []
tail (x ∷ xs) = xs

-- An iteration of `Next` and `Get` over a new `SliceIterator`, with fuel for all the elements, reads
-- every element of the slice but the first, in their order, and no index is out of range.
pub collect-new_iterator :
    (fuel : ℕ) (s : List Text)
    → length s ≤ fuel + 1
    → collect fuel (new_iterator s) ≡ map some (tail s)
unfolding new_iterator
collect-new_iterator fuel [] h = collect_rest fuel [] 0 (omega arith)
collect-new_iterator fuel (x ∷ xs) h =
    collect_rest fuel (x ∷ xs) 0 (omega arith) ∙ rest_from-zero xs
