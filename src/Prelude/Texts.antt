-- ===== src/Prelude/Texts.antt =====
-- Texts as lists of code units, where the program walks or measures a string.
use Prim.Native.Nat.{ℕ}
use mathlib.Core.Path.{◌≡◌, refl}
use mathlib.Core.Logic.{◌≢◌, ◌↔◌}
use mathlib.Core.Bool.{Bool, true, false, ◌&&◌}
use native.Mathlib.Omega.{arith}
use padlock_cloud.Prelude.Tests.{◌==◌}
use Prim.Native.Char.{code}
use Prim.Native.String.{String}
use mathlib.Core.List.{List, [], ◌∷◌}

abbrev pub Text : Type 0
Text = List ℕ

-- The code units of a text literal: each character is below U+10000 in the literals used.
abbrev pub codes : String → Text
codes String.[] = []
codes (String.◌∷◌ c s) = code c ∷ codes s

unfoldable pub text_eq : Text → Text → Bool
text_eq [] [] = true
text_eq [] (_ ∷ _) = false
text_eq (_ ∷ _) [] = false
text_eq (a ∷ s) (b ∷ t) = a == b && text_eq s t

pub text_eq_path : (s t : Text) → text_eq s t ≡ true → s ≡ t
unfolding text_eq
text_eq_path [] [] e = refl
text_eq_path [] (_ ∷ _) e = cc
text_eq_path (_ ∷ _) [] e = cc
text_eq_path (a ∷ s) (b ∷ t) e = ground (arith, text_eq_path s t)

pub text_eq_refl : (s : Text) → text_eq s s ≡ true
unfolding text_eq
text_eq_refl [] = refl
text_eq_refl (c ∷ s) = ground (arith, text_eq_refl s)

pub text_eq_iff : (s t : Text) → (text_eq s t ≡ true) ↔ (s ≡ t)
text_eq_iff s t = (text_eq_path s t, λ e. rw e (text_eq_refl t))

pub text_eq-neq : (s t : Text) → text_eq s t ≡ false → s ≢ t
text_eq-neq s t h e = cc (h, (text_eq_iff s t).1 e)
