-- ===== src/Widgets/Input/Mask.antt =====
-- What a masked value shows.
use padlock_cloud.Prelude.{
  suc, ◌≡◌, refl, ap, ◌↔◌, Bool, List, [], ◌∷◌, arith, Text, ◌==◌, length, map,
}
use padlock_cloud.Widgets.Input.{mask}

-- Where the line breaks of a text are.
abbrev pub line_breaks : Text → List Bool
line_breaks s = map (λ c. c == 0x0a) s

pub length-mask : (s : Text) → length (mask s) ≡ length s
unfolding mask
length-mask [] = refl
length-mask (c ∷ s) = ap suc (length-mask s)

mask_of_line_breaks : (s t : Text) → line_breaks s ≡ line_breaks t → mask s ≡ mask t
unfolding mask
mask_of_line_breaks [] [] e = refl
mask_of_line_breaks [] (d ∷ t) e = cc
mask_of_line_breaks (c ∷ s) [] e = cc
mask_of_line_breaks (c ∷ s) (d ∷ t) e =
    let rest : line_breaks s ≡ line_breaks t = cc in
    let same : (c == 0x0a) ≡ (d == 0x0a) = cc in ground (arith, mask_of_line_breaks s t rest, same)

line_breaks-mask : (s : Text) → line_breaks (mask s) ≡ line_breaks s
unfolding mask
line_breaks-mask [] = refl
line_breaks-mask (c ∷ s) = ground (arith, line_breaks-mask s)

-- Two values have the same mask exactly when they have the same length and the same line breaks:
-- the mask shows this and nothing else of a value.
pub mask_iff : (s t : Text) → (mask s ≡ mask t) ↔ (line_breaks s ≡ line_breaks t)
mask_iff s t =
    (λ e. cc (line_breaks-mask s, line_breaks-mask t, ap line_breaks e), mask_of_line_breaks s t)
