-- ===== src/Auth/Accounts/Laws.antt =====
-- What finding a token gives.
use padlock_cloud.Prelude.{
  ℕ, suc, ◌+◌, ◌≡◌, refl, ◌||◌, text_eq_refl, text_eq, sym, subst, ap, ◌∙◌, Bool, true, false, not,
  Bool-cases, inl, inr, Option, none, some, List, [], ◌∷◌, ◌++◌, All, length, arith, if◌then◌else◌,
}
use mathlib.Core.List.{Memᴰ}
use padlock_cloud.Auth.{AuthToken, Account, Device, is_empty}
use padlock_cloud.Auth.Accounts.{
  fits, blank, no_uuid, same_uuid, find_from, find_auth_token, filter,
}

-- The first token of a list that fits stands at an index.
pub record Found (at : AuthToken) (ts : List AuthToken) (i : ℕ) (t : AuthToken) : Type 0 where
  pub pre : List AuthToken
  pub post : List AuthToken
  pub whole : ts ≡ pre ++ (t ∷ post)
  pub place : i ≡ length pre
  pub that_fits : fits at t ≡ true
  pub none_before : All (λ u. fits at u ≡ false) pre

find_from-Found :
    (i : ℕ) (at : AuthToken) (ts : List AuthToken) (j : ℕ) (t : AuthToken)
    → find_from i at ts ≡ some (j, t)
    → (k : ℕ) × (j ≡ i + k) × Found at ts k t
unfolding find_from
find_from-Found i at [] j t h = absurd (cc (h))
find_from-Found i at (u ∷ us) j t h = elim (Bool-cases (fits at u)) [
  | inl e ↦
      let p : some (i, u) ≡ some (j, t) = sym (rw e refl) ∙ h in
      let q : i ≡ j = cc (p) in
      let r : u ≡ t = cc (p) in
      let w : j ≡ i + 0 = omega (arith, q) in
      (
        0,
        w,
        record {
          pre = [];
          post = us;
          whole = ap (λ x. x ∷ us) r;
          place = refl;
          that_fits = rw (sym r) e;
          none_before = tt;
        },
      )
  | inr e ↦
      let p : find_from (suc i) at us ≡ some (j, t) = sym (rw e refl) ∙ h in
      let (k, q, f) = find_from-Found (suc i) at us j t p in
      (
        suc k,
        omega (arith, q),
        record {
          pre = u ∷ f.pre;
          post = f.post;
          whole = ap (λ l. u ∷ l) f.whole;
          place = ap suc f.place;
          that_fits = f.that_fits;
          none_before = (e, f.none_before);
        },
      )
]

-- None fits where none is found.
pub filter-find_from :
    (i : ℕ) (at : AuthToken) (ts : List AuthToken)
    → find_from i at ts ≡ none
    → filter (λ t. not (fits at t)) ts ≡ ts
unfolding find_from filter
filter-find_from i at [] h = refl
filter-find_from i at (u ∷ us) h = elim (Bool-cases (fits at u)) [
  | inl e ↦ absurd (cc (h, e))
  | inr e ↦
      let p : find_from (suc i) at us ≡ none = sym (rw e refl) ∙ h in
      rw e (ap (λ l. u ∷ l) (filter-find_from (suc i) at us p))
]

-- What `findAuthToken` gives.
pub find_auth_token-Found :
    (at : AuthToken) (a : Account) (i : ℕ) (t : AuthToken)
    → find_auth_token at a ≡ some (i, t)
    → Found at a.auth_tokens i t
unfolding find_auth_token
find_auth_token-Found at a i t h = elim (Bool-cases (blank at)) [
  | inl e ↦ absurd (cc (h, e))
  | inr e ↦
      let p : find_from 0 at a.auth_tokens ≡ some (i, t) = sym (rw e refl) ∙ h in
      let (k, q, f) = find_from-Found 0 at a.auth_tokens i t p in
      let r : i ≡ k = omega (arith, q) in subst (λ (n : ℕ). Found at a.auth_tokens n t) (sym r) f
]

-- A token that a filter keeps.
pub Memᴰ-filter :
    (p : AuthToken → Bool) (t : AuthToken) (ts : List AuthToken)
    → Memᴰ t (filter p ts)
    → Memᴰ t ts × (p t ≡ true)
unfolding filter
Memᴰ-filter p t [] m = elim m [ ]
Memᴰ-filter p t (u ∷ us) m = elim (Bool-cases (p u)) [
  | inl h ↦
      in_cons (λ k. Memᴰ-filter p t us k)
        (subst (λ (b : Bool). Memᴰ t (if b then u ∷ filter p us else filter p us)) h m) h
  | inr h ↦
      let (k, q) =
        Memᴰ-filter p t us
          (subst (λ (b : Bool). Memᴰ t (if b then u ∷ filter p us else filter p us)) h m) in
      (Memᴰ.tail k, q)
]
  where
    in_cons :
        (Memᴰ t (filter p us) → Memᴰ t us × (p t ≡ true))
        → Memᴰ t (u ∷ filter p us)
        → p u ≡ true
        → Memᴰ t (u ∷ us) × (p t ≡ true)
    in_cons ih (Memᴰ.head e) h = (Memᴰ.head e, rw e h)
    in_cons ih (Memᴰ.tail k) h = (Memᴰ.tail (ih k).0, (ih k).1)

Found-Memᴰ : (t : AuthToken) (pre post : List AuthToken) → Memᴰ t (pre ++ (t ∷ post))
Found-Memᴰ t [] post = Memᴰ.head refl
Found-Memᴰ t (u ∷ us) post = Memᴰ.tail (Found-Memᴰ t us post)

-- A token that `findAuthToken` gives is one of the account's.
pub find_auth_token-Memᴰ :
    (at : AuthToken) (a : Account) (i : ℕ) (t : AuthToken)
    → find_auth_token at a ≡ some (i, t)
    → Memᴰ t a.auth_tokens
find_auth_token-Memᴰ at a i t h =
    let f = find_auth_token-Found at a i t h in rw f.whole (Found-Memᴰ t f.pre f.post)

-- The first token that fits is the one found.
pub find_from-first :
    (k : ℕ) (at : AuthToken) (pre : List AuthToken) (t : AuthToken) (post : List AuthToken)
    → All (λ u. fits at u ≡ false) pre
    → fits at t ≡ true
    → find_from k at (pre ++ (t ∷ post)) ≡ some (k + length pre, t)
unfolding find_from
find_from-first k at [] t post h f =
    let e : k ≡ k + 0 = omega arith in rw f (ap (λ (n : ℕ). some (n, t)) e)
find_from-first k at (u ∷ us) t post (h, hs) f =
    let e : suc k + length us ≡ k + length (u ∷ us) = omega arith in
    rw h (find_from-first (suc k) at us t post hs f ∙ ap (λ (n : ℕ). some (n, t)) e)

-- Nothing is found where none fits.
pub find_from-none :
    (k : ℕ) (at : AuthToken) (ts : List AuthToken)
    → All (λ u. fits at u ≡ false) ts
    → find_from k at ts ≡ none
unfolding find_from
find_from-none k at [] h = refl
find_from-none k at (u ∷ us) (h, hs) = rw h (find_from-none (suc k) at us hs)

or_true : (b : Bool) → (b || true) ≡ true
or_true true = refl
or_true false = refl

no_or_same_uuid : (d : Option Device) → (no_uuid d || same_uuid d d) ≡ true
no_or_same_uuid none = refl
no_or_same_uuid (some d) = rw (text_eq_refl d.uuid) (or_true (is_empty d.uuid))

-- A token fits itself.
pub fits_self : (t : AuthToken) → fits t t ≡ true
unfolding fits
fits_self t =
    rw
      (
        text_eq_refl t.type,
        text_eq_refl t.token,
        text_eq_refl t.id,
        or_true (is_empty t.type),
        or_true (is_empty t.token),
        or_true (is_empty t.id),
      )
      (no_or_same_uuid t.device)

-- A secret that is not the one given rules a token out.
pub fits-secret :
    (at x : AuthToken)
    → is_empty at.token ≡ false
    → text_eq x.token at.token ≡ false
    → fits at x ≡ false
unfolding fits
fits-secret at x n h = ground (arith, n, h)
