-- ===== src/Auth/Accounts/Revoking.antt =====
-- The loop that revokes every token for a device.
use padlock_cloud.Prelude.{
  ℕ, zero, suc, ◌≤◌, ◌≡◌, refl, sym, subst, ◌⊎◌, ap, ◌∙◌, Bool, true, false, not, Bool-cases,
  Option-cases, inl, inr, Option, none, List, ◌∷◌, length, arith,
}
use mathlib.Core.List.{Permᴰ}
use mathlib.Core.List
use padlock_cloud.Auth.{AuthToken, Account}
use padlock_cloud.Auth.Accounts.{
  fits, blank, find_auth_token, swap_remove, remove_auth_token, remove_at, remove_all, filter,
}
use padlock_cloud.Auth.Accounts.Laws.{filter-find_from, find_auth_token-Found}
use padlock_cloud.Auth.Accounts.Removing.{swap_remove-Permᴰ}

filter-Permᴰ :
    (p : AuthToken → Bool) {s t : List AuthToken} → Permᴰ s t → Permᴰ (filter p s) (filter p t)
unfolding filter
filter-Permᴰ p Permᴰ.nil = Permᴰ.nil
filter-Permᴰ p (Permᴰ.cons {a = a} {b = b} e d) = elim (Bool-cases (p b)) [
  | inl h ↦ rw (e, h) (Permᴰ.cons refl (filter-Permᴰ p d))
  | inr h ↦ rw (e, h) (filter-Permᴰ p d)
]
filter-Permᴰ p (Permᴰ.swap {a = a} {b = b} {l = l} e f) =
    rw (sym e, sym f) (swapped (Bool-cases (p a)) (Bool-cases (p b)))
  where
    swapped :
        (p a ≡ true) ⊎ (p a ≡ false)
        → (p b ≡ true) ⊎ (p b ≡ false)
        → Permᴰ (filter p (a ∷ b ∷ l)) (filter p (b ∷ a ∷ l))
    swapped (inl h) (inl g) = rw (h, g) (Permᴰ.swap refl refl)
    swapped (inl h) (inr g) = rw (h, g) (List.Permᴰ.refl (a ∷ filter p l))
    swapped (inr h) (inl g) = rw (h, g) (List.Permᴰ.refl (b ∷ filter p l))
    swapped (inr h) (inr g) = rw (h, g) (List.Permᴰ.refl (filter p l))
filter-Permᴰ p (Permᴰ.trans d d') = Permᴰ.trans (filter-Permᴰ p d) (filter-Permᴰ p d')

length-Permᴰ : {s t : List AuthToken} → Permᴰ s t → length s ≡ length t
length-Permᴰ Permᴰ.nil = refl
length-Permᴰ (Permᴰ.cons e d) = ap suc (length-Permᴰ d)
length-Permᴰ (Permᴰ.swap e f) = refl
length-Permᴰ (Permᴰ.trans d d') = length-Permᴰ d ∙ length-Permᴰ d'

-- One round of the loop.
data Round (at : AuthToken) (a : Account) : Type 0 where
  ended : find_auth_token at a ≡ none → remove_auth_token at a ≡ (false, a) → Round at a
  removed :
      (t : AuthToken) (rest : List AuthToken)
      → remove_auth_token at a ≡ (true, record a { auth_tokens = rest })
      → Permᴰ a.auth_tokens (t ∷ rest)
      → fits at t ≡ true
      → Round at a

round : (at : AuthToken) (a : Account) → Round at a
unfolding remove_auth_token
round at a = elim (Option-cases (find_auth_token at a)) [
  | inl e ↦ ended e (ap (λ (o : Option (ℕ × AuthToken)). remove_at o a) e)
  | inr ((i, t), e) ↦
      let f = find_auth_token-Found at a i t e in
      removed t (swap_remove i t a.auth_tokens)
        (ap (λ (o : Option (ℕ × AuthToken)). remove_at o a) e)
        (swap_remove-Permᴰ at a.auth_tokens i t f) f.that_fits
]

-- Removing a token, where one fits, removes that one and nothing else.
find_none-filter :
    (at : AuthToken) (a : Account)
    → blank at ≡ false
    → find_auth_token at a ≡ none
    → filter (λ t. not (fits at t)) a.auth_tokens ≡ a.auth_tokens
unfolding find_auth_token
find_none-filter at a b h = filter-find_from 0 at a.auth_tokens (sym (rw b refl) ∙ h)

abbrev Rest : AuthToken → Account → Account → Type 0
Rest at a a' =
    (find_auth_token at a' ≡ none)
    × Permᴰ a'.auth_tokens (filter (λ t. not (fits at t)) a.auth_tokens)
    × (a'.email ≡ a.email)
    × (a'.created ≡ a.created)

remove_all-ended :
    (fuel : ℕ) (at : AuthToken) (a : Account)
    → remove_auth_token at a ≡ (false, a)
    → remove_all (suc fuel) at a ≡ a
unfolding remove_all
remove_all-ended fuel at a e = rw e refl

remove_all-removed :
    (fuel : ℕ) (at : AuthToken) (a a' : Account)
    → remove_auth_token at a ≡ (true, a')
    → remove_all (suc fuel) at a ≡ remove_all fuel at a'
unfolding remove_all
remove_all-removed fuel at a a' e = rw e refl

-- A token that fits is not among the rest.
filter-cons_fits :
    (at t : AuthToken) (ts : List AuthToken)
    → fits at t ≡ true
    → filter (λ u. not (fits at u)) (t ∷ ts) ≡ filter (λ u. not (fits at u)) ts
unfolding filter
filter-cons_fits at t ts f = rw f refl

Rest-removed :
    (at : AuthToken) (a a' : Account) (t : AuthToken) (rest : List AuthToken)
    → Permᴰ a.auth_tokens (t ∷ rest)
    → fits at t ≡ true
    → Rest at (record a { auth_tokens = rest }) a'
    → Rest at a a'
Rest-removed at a a' t rest p f (n, q, e, c) = (
  n,
  Permᴰ.trans q (
      List.Permᴰ.symm (
        subst (λ (l : List AuthToken). Permᴰ (filter (λ u. not (fits at u)) a.auth_tokens) l)
          (filter-cons_fits at t rest f) (filter-Permᴰ (λ u. not (fits at u)) p))),
  e,
  c,
)

-- The loop that removes the tokens that fit a given one, for as long as `RemoveAuthToken` finds one,
-- ends after at most as many rounds as the account has tokens. Where the given token names a token,
-- an id or a device's UUID, the account then has exactly the tokens that do not fit, in some order, a
-- further search finds nothing, and its email and time of creation are as before.
pub remove_all-Rest :
    (fuel : ℕ) (at : AuthToken) (a : Account)
    → blank at ≡ false
    → length a.auth_tokens ≤ fuel
    → Rest at a (remove_all (suc fuel) at a)
remove_all-Rest zero at a b h = elim (round at a) [
  | ended n e ↦
      rw (remove_all-ended zero at a e)
        (n, rw (find_none-filter at a b n) (List.Permᴰ.refl a.auth_tokens), refl, refl)
  | removed t rest e p f ↦ absurd (omega (arith, h, length-Permᴰ p))
]
remove_all-Rest (suc fuel) at a b h = elim (round at a) [
  | ended n e ↦
      rw (remove_all-ended (suc fuel) at a e)
        (n, rw (find_none-filter at a b n) (List.Permᴰ.refl a.auth_tokens), refl, refl)
  | removed t rest e p f ↦
      let ih =
        remove_all-Rest fuel at (record a { auth_tokens = rest }) b
          (omega (arith, h, length-Permᴰ p)) in
      rw (remove_all-removed (suc fuel) at a (record a { auth_tokens = rest }) e) (
        Rest-removed at a (remove_all (suc fuel) at (record a { auth_tokens = rest })) t rest p f
          ih)
]
