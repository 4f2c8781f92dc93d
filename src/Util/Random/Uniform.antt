-- ===== src/Util/Random/Uniform.antt =====
-- How evenly the accepted bytes of `randomString` pick the characters of a set.
use native.Mathlib.Nat.{
  mul-add-mod_self_right, mod-eq_of_lt, div-add-mod', zero-add, suc-add, zero-mul,
}
use padlock_cloud.Prelude.{
  ℕ, zero, suc, ◌+◌, ◌*◌, ◌/◌, ◌%◌, ◌≤◌, ◌<◌, ◌≡◌, refl, ap, ◌∙◌, Bool, false, not, ◌&&◌, arith,
  Text, text_eq, [], ◌∷◌, ◌++◌, All, get_elem?, length, ◌==◌, if◌then◌else◌, ltb,
}
use padlock_cloud.Util.Random.{char_or_undefined, rejects, pick}

-- How many numbers below `n` pass a test.
abbrev pub tally : ℕ → (ℕ → Bool) → ℕ
tally zero p = 0
tally (suc n) p = (if p n then 1 else 0) + tally n p

tally-add : (m n : ℕ) (p : ℕ → Bool) → tally (m + n) p ≡ tally n p + tally m (λ b. p (n + b))
tally-add zero n p = rw zero-add (omega arith)
tally-add (suc m) n p = rw suc-add (
    let e : m + n ≡ n + m = omega arith in
    ap (λ (t : ℕ). (if p t then 1 else 0) + tally (m + n) p) e ∙ omega (arith, tally-add m n p))

tally-cong : (n : ℕ) (p q : ℕ → Bool) → ((b : ℕ) → b < n → p b ≡ q b) → tally n p ≡ tally n q
tally-cong zero p q h = refl
tally-cong (suc n) p q h =
    rw (h n (omega arith))
      (ap (λ (t : ℕ). (if q n then 1 else 0) + t) (tally-cong n p q (λ b l. h b (omega arith))))

-- One number below `n` is `r`.
tally-eq : (n r : ℕ) → tally n (λ b. b == r) ≡ (if ltb r n then 1 else 0)
tally-eq zero r = ground arith
tally-eq (suc n) r = ground (arith, tally-eq n r)

tally-false : (n : ℕ) → tally n (λ b. false) ≡ 0
tally-false zero = refl
tally-false (suc n) = omega (arith, tally-false n)

mod_block : (n k b : ℕ) → b < n → (k * n + b) % n ≡ b
mod_block n k b h = mul-add-mod_self_right k n b ∙ mod-eq_of_lt h

-- Each remainder is met once in each block of `n` numbers.
tally-mod : (n r k : ℕ) → r < n → tally (k * n) (λ b. b % n == r) ≡ k
tally-mod n r zero h = rw zero-mul refl
tally-mod n r (suc k) h =
    let block : tally n (λ b. (k * n + b) % n == r) ≡ tally n (λ b. b == r) =
      tally-cong n _ _ (λ b l. rw (mod_block n k b l) refl) in
    let first : tally n (λ b. b == r) ≡ 1 = ground (arith, tally-eq n r) in
    let e : suc k * n ≡ n + k * n = grind arith in
    rw e (omega (arith, tally-add n (k * n) (λ b. b % n == r), block, first, tally-mod n r k h))

rejects-places :
    (cs : Text) (r : ℕ)
    → length cs ≤ 256
    → r < length cs
    → tally 256 (λ b. not (rejects cs b) && (b % length cs == r)) ≡ 256 / length cs
unfolding rejects
rejects-places cs r small h =
    let n = length cs in
    let q = 256 / n in
    let p : ℕ → Bool = λ b. not (rejects cs b) && (b % n == r) in
    let whole : 256 ≡ 256 % n + q * n = omega (arith, div-add-mod' 256 n) in
    let kept : tally (q * n) p ≡ tally (q * n) (λ b. b % n == r) =
      tally-cong (q * n) _ _ (λ b l. ground arith) in
    let lost : tally (256 % n) (λ b. p (q * n + b)) ≡ tally (256 % n) (λ b. false) =
      tally-cong (256 % n) _ _ (λ b l. ground arith) in
    ap (λ (t : ℕ). tally t p) whole
    ∙ omega
        (arith, tally-add (256 % n) (q * n) p, kept, lost, tally-mod n r q h, tally-false (256 % n))

eq-one : (x c : ℕ) → text_eq (x ∷ []) (c ∷ []) ≡ (x == c)
unfolding text_eq
eq-one x c = ground arith

-- A character that occurs nowhere else in a text is found at its own place only.
only_place :
    (pre post : Text) (c i : ℕ)
    → All (λ x. (x == c) ≡ false) pre
    → All (λ x. (x == c) ≡ false) post
    → i < length (pre ++ (c ∷ post))
    → text_eq (char_or_undefined (get_elem? (pre ++ (c ∷ post)) i)) (c ∷ []) ≡ (i == length pre)
only_place [] post c zero h k l = eq-one c c ∙ ground arith
only_place [] post c (suc i) h k l = elsewhere post i k (omega arith) ∙ ground arith
  where
    elsewhere :
        (xs : Text) (j : ℕ)
        → All (λ x. (x == c) ≡ false) xs
        → j < length xs
        → text_eq (char_or_undefined (get_elem? xs j)) (c ∷ []) ≡ false
    elsewhere [] j h l = absurd (omega arith)
    elsewhere (x ∷ xs) zero (h, hs) l = eq-one x c ∙ h
    elsewhere (x ∷ xs) (suc j) (h, hs) l = elsewhere xs j hs (omega arith)
only_place (x ∷ pre) post c zero (h, hs) k l = eq-one x c ∙ (h ∙ ground arith)
only_place (x ∷ pre) post c (suc i) (h, hs) k l =
    only_place pre post c i hs k (omega arith) ∙ ground arith

length-middle : (pre post : Text) (c : ℕ) → length pre < length (pre ++ (c ∷ post))
length-middle [] post c = omega arith
length-middle (x ∷ pre) post c = omega (arith, length-middle pre post c)

-- For a set of at most 256 characters and one of them that occurs in it once, this character is what
-- the loop of `randomString` appends for exactly 256 / length of the 256 bytes (rounded down),
-- counting the bytes that it does not reject: the same number for every such character.
pub pick_uniform :
    (pre post : Text) (c : ℕ)
    → let cs = pre ++ (c ∷ post) in
      length cs ≤ 256
      → All (λ x. (x == c) ≡ false) pre
      → All (λ x. (x == c) ≡ false) post
      → tally 256 (λ b. not (rejects cs b) && text_eq (pick cs b) (c ∷ [])) ≡ 256 / length cs
unfolding pick
pick_uniform pre post c small h k =
    let cs = pre ++ (c ∷ post) in
    let l = length-middle pre post c in
    let some_chars : (length cs == 0) ≡ false = ground (arith, l) in
    tally-cong 256 (λ b. not (rejects cs b) && text_eq (pick cs b) (c ∷ []))
      (λ b. not (rejects cs b) && (b % length cs == length pre))
      (λ b _.
        ap (λ (x : Bool). not (rejects cs b) && x)
          (rw some_chars (only_place pre post c (b % length cs) h k (omega (arith, l)))))
    ∙ rejects-places cs (length pre) small l
