-- ===== src/Util/Random/Laws.antt =====
-- What `randomString` returns, and how many bytes it needs.
use padlock_cloud.Prelude.{
  ℕ, zero, suc, ◌+◌, ◌%◌, ◌≤◌, ◌<◌, ◌≡◌, refl, ap, ◌∙◌, inl, inr, none, some, List, [], ◌∷◌, ◌++◌,
  arith, Text, leb, length, take, get_elem?, lt→ltb, All, Memᴰ, Bool-cases, if◌then◌else◌,
  length-append, append-nil, append_assoc,
}
use padlock_cloud.Util.Random.{rejects, pick, draw, random_string}

-- The bytes that the loop does not throw away.
abbrev pub accepted : Text → List ℕ → List ℕ
accepted char_set [] = []
accepted char_set (b ∷ bytes) =
    let rest = accepted char_set bytes in if rejects char_set b then rest else b ∷ rest

-- The characters that bytes stand for.
abbrev pub picks : Text → List ℕ → Text
picks char_set [] = []
picks char_set (b ∷ bytes) = pick char_set b ++ picks char_set bytes

get_elem?_of_lt :
    (xs : Text) (i : ℕ) → i < length xs → (c : ℕ) × (get_elem? xs i ≡ some c) × Memᴰ c xs
get_elem?_of_lt [] i h = elim h [ ]
get_elem?_of_lt (x ∷ xs) zero h = (x, refl, Memᴰ.head refl)
get_elem?_of_lt (x ∷ xs) (suc i) h =
    let (c, e, m) = get_elem?_of_lt xs i (omega arith) in (c, e, Memᴰ.tail m)

-- From a set that is not empty, a byte picks one character of the set.
pick_lem : (cs : Text) (b : ℕ) → 0 < length cs → (c : ℕ) × (pick cs b ≡ c ∷ []) × Memᴰ c cs
unfolding pick
pick_lem cs b h =
    let (c, e, m) = get_elem?_of_lt cs (b % length cs) (grind arith) in (c, ground arith, m)

module _ (cs : Text) (nonempty : 0 < length cs) where
  draw_lem :
      (n k : ℕ) (str : Text) (bytes : List ℕ)
      → n ≡ length str + k
      → draw cs n str bytes ≡ (
          if leb k (length (accepted cs bytes))
          then some (str ++ picks cs (take k (accepted cs bytes)))
          else none)
  unfolding draw
  draw_lem n zero str [] e = rw append-nil (ground arith)
  draw_lem n (suc k) str [] e = ground arith
  draw_lem n zero str (b ∷ bytes) e = rw append-nil (ground arith)
  draw_lem n (suc k) str (b ∷ bytes) e =
      rw (lt→ltb (length str) n (omega arith)) (elim (Bool-cases (rejects cs b)) [
        | inl r ↦ rw r (draw_lem n (suc k) str bytes e)
        | inr r ↦
            let (c, p, _) = pick_lem cs b nonempty in
            let ih =
              draw_lem n k (str ++ pick cs b) bytes
                (e ∙ omega (arith, length-append str (pick cs b), ap length p)) in
            rw r (rw (← append_assoc) (ground (arith, ih)))
      ])

-- Over a set that is not empty, `randomString` returns the characters that the first `n` accepted
-- bytes pick, in their order, and it returns as soon as `n` bytes are accepted: it asks for more
-- exactly when fewer than `n` of the bytes are.
pub random_string_lem :
    (n : ℕ) (cs : Text) (bytes : List ℕ)
    → 0 < length cs
    → random_string n cs bytes ≡ (
        if leb n (length (accepted cs bytes))
        then some (picks cs (take n (accepted cs bytes)))
        else none)
unfolding random_string
random_string_lem n cs bytes h = draw_lem cs h n n [] bytes (omega arith)

abbrev FromSet : Text → Text → Type 0
FromSet cs = All (λ c. Memᴰ c cs)

picks_lem :
    (cs : Text) (bytes : List ℕ)
    → 0 < length cs
    → (length (picks cs bytes) ≡ length bytes) × FromSet cs (picks cs bytes)
picks_lem cs [] h = (refl, tt)
picks_lem cs (b ∷ bytes) h =
    let (c, p, m) = pick_lem cs b h in
    let (len, from) = picks_lem cs bytes h in rw p (ap suc len, (m, from))

length-take_of_le : (n : ℕ) (xs : List ℕ) → n ≤ length xs → length (take n xs) ≡ n
length-take_of_le zero xs h = refl
length-take_of_le (suc n) [] h = elim h [ ]
length-take_of_le (suc n) (x ∷ xs) h = ap suc (length-take_of_le n xs (omega arith))

-- Over a set that is not empty, a string that `randomString` returns has the length that was asked
-- for, and each of its characters stands in the set.
pub random_string_sound :
    (n : ℕ) (cs : Text) (bytes : List ℕ) {s : Text}
    → 0 < length cs
    → random_string n cs bytes ≡ some s
    → (length s ≡ n) × All (λ c. Memᴰ c cs) s
random_string_sound n cs bytes {s} h e =
    let enough : n ≤ length (accepted cs bytes) = ground (arith, random_string_lem n cs bytes h) in
    let same : picks cs (take n (accepted cs bytes)) ≡ s =
      ground (arith, random_string_lem n cs bytes h) in
    let (len, from) = picks_lem cs (take n (accepted cs bytes)) h in
    rw (← same) (len ∙ length-take_of_le n (accepted cs bytes) enough, from)
