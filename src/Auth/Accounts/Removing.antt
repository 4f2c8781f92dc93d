-- ===== src/Auth/Accounts/Removing.antt =====
-- What removing a token leaves.
use padlock_cloud.Prelude.{ℕ, ◌≡◌, refl, ap, ap₂, ◌∙◌, List, [], ◌∷◌, ◌++◌, length}
use mathlib.Core.List.{Permᴰ, Memᴰ}
use mathlib.Core.List
use padlock_cloud.Auth.{AuthToken}
use padlock_cloud.Auth.Accounts.{set_elem, last, drop_last, swap_remove}
use padlock_cloud.Auth.Accounts.Laws.{Found}

-- A removal at an index that `Found` gives.
pub set_elem-append :
    (pre : List AuthToken) (x t : AuthToken) (post : List AuthToken)
    → set_elem (length pre) x (pre ++ (t ∷ post)) ≡ pre ++ (x ∷ post)
unfolding set_elem
set_elem-append [] x t post = refl
set_elem-append (y ∷ ys) x t post = ap (λ l. y ∷ l) (set_elem-append ys x t post)

last-append :
    (x : AuthToken) (pre : List AuthToken) (t : AuthToken) (post : List AuthToken)
    → last x (pre ++ (t ∷ post)) ≡ last t post
unfolding last
last-append x [] t post = refl
last-append x (y ∷ ys) t post = last-append y ys t post

drop_last-append :
    (pre : List AuthToken) (x : AuthToken) (post : List AuthToken)
    → drop_last (pre ++ (x ∷ post)) ≡ pre ++ drop_last (x ∷ post)
unfolding drop_last
drop_last-append [] x post = refl
drop_last-append (y ∷ []) x post = refl
drop_last-append (y ∷ z ∷ zs) x post = ap (λ l. y ∷ l) (drop_last-append (z ∷ zs) x post)

drop_last-last :
    (y : AuthToken) (ys : List AuthToken) → Permᴰ (last y ys ∷ drop_last (y ∷ ys)) (y ∷ ys)
unfolding drop_last last
drop_last-last y [] = List.Permᴰ.refl (y ∷ [])
drop_last-last y (z ∷ zs) =
    Permᴰ.trans (Permᴰ.swap refl refl) (Permᴰ.cons refl (drop_last-last z zs))

drop_last_moved :
    (t : AuthToken) (post : List AuthToken) → Permᴰ (drop_last (last t post ∷ post)) post
unfolding drop_last last
drop_last_moved t [] = Permᴰ.nil
drop_last_moved t (y ∷ ys) = drop_last-last y ys

to_front :
    (pre : List AuthToken) (t : AuthToken) (post : List AuthToken)
    → Permᴰ (pre ++ (t ∷ post)) (t ∷ (pre ++ post))
to_front [] t post = List.Permᴰ.refl (t ∷ post)
to_front (y ∷ ys) t post = Permᴰ.trans (Permᴰ.cons refl (to_front ys t post)) (Permᴰ.swap refl refl)

pub swap_remove-Permᴰ :
    (at : AuthToken) (ts : List AuthToken) (i : ℕ) (t : AuthToken)
    → Found at ts i t
    → Permᴰ ts (t ∷ swap_remove i t ts)
unfolding swap_remove
swap_remove-Permᴰ at ts i t f =
    rw
      (
        f.whole,
        f.place,
        last-append t f.pre t f.post,
        set_elem-append f.pre (last t f.post) t f.post,
        drop_last-append f.pre (last t f.post) f.post,
      )
      (Permᴰ.trans (to_front f.pre t f.post) (
        Permᴰ.cons refl
          (List.Permᴰ.append_left f.pre (List.Permᴰ.symm (drop_last_moved t f.post)))))

-- What a removal leaves.
pub swap_remove-rest :
    (at : AuthToken) (ts : List AuthToken) (i : ℕ) (t : AuthToken) (f : Found at ts i t)
    → Permᴰ (swap_remove i t ts) (f.pre ++ f.post)
unfolding swap_remove
swap_remove-rest at ts i t f =
    let e : swap_remove i t ts ≡ swap_remove (length f.pre) t (f.pre ++ (t ∷ f.post)) =
      ap₂ (λ (k : ℕ) (l : List AuthToken). swap_remove k t l) f.place f.whole in
    rw
      (
        e,
        last-append t f.pre t f.post,
        set_elem-append f.pre (last t f.post) t f.post,
        drop_last-append f.pre (last t f.post) f.post,
      )
      (List.Permᴰ.append_left f.pre (drop_last_moved t f.post))

pub Memᴰ-Permᴰ : {t : AuthToken} {ts us : List AuthToken} → Permᴰ ts us → Memᴰ t ts → Memᴰ t us
Memᴰ-Permᴰ Permᴰ.nil m = m
Memᴰ-Permᴰ (Permᴰ.cons e d) (Memᴰ.head p) = Memᴰ.head (p ∙ e)
Memᴰ-Permᴰ (Permᴰ.cons e d) (Memᴰ.tail m) = Memᴰ.tail (Memᴰ-Permᴰ d m)
Memᴰ-Permᴰ (Permᴰ.swap e f) (Memᴰ.head p) = Memᴰ.tail (Memᴰ.head (p ∙ e))
Memᴰ-Permᴰ (Permᴰ.swap e f) (Memᴰ.tail (Memᴰ.head p)) = Memᴰ.head (p ∙ f)
Memᴰ-Permᴰ (Permᴰ.swap e f) (Memᴰ.tail (Memᴰ.tail m)) = Memᴰ.tail (Memᴰ.tail m)
Memᴰ-Permᴰ (Permᴰ.trans d d') m = Memᴰ-Permᴰ d' (Memᴰ-Permᴰ d m)
