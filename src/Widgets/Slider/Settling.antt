-- ===== src/Widgets/Slider/Settling.antt =====
-- How the two observers of a slider settle.
use padlock_cloud.Prelude.{
  ℕ, suc, ◌≡◌, refl, ◌↔◌, ◌⊎◌, inl, inr, Bool, true, some, Text, Bool-cases, ap,
}
use padlock_cloud.Widgets.Slider.{Slider, value_changed, str_value_changed, observe}

module _ {Number : Type 0} (parse_float : Text → Number) (to_string : Number → Text)
    (same_number : Number → Number → Bool) (same_text : Text → Text → Bool)
    (same_number_iff : (a b : Number) → (same_number a b ≡ true) ↔ (a ≡ b))
    (same_text_iff : (a b : Text) → (same_text a b ≡ true) ↔ (a ≡ b))
    (round_trip : (a : Number) → parse_float (to_string a) ≡ a) where
  -- If printing and parsing a number gives it back, a change of the number settles after at most
  -- two observers: the number stays and the text is its text.
  pub value_settles :
      (fuel : ℕ) (s : Slider Number)
      → observe parse_float to_string same_number same_text (suc (suc fuel)) value_changed s
        ≡ some (record s { str_value = to_string s.value })
  unfolding observe
  value_settles fuel s = elim (Bool-cases (same_text s.str_value (to_string s.value))) [
    | inl e ↦ rw e (ap (λ (t : Text). some (record s { str_value = t })) ((same_text_iff _ _).0 e))
    | inr e ↦ rw (e, round_trip s.value, (same_number_iff s.value s.value).1 refl) refl
  ]

  -- Under the same condition, a change of the text settles after at most three: the number is the
  -- one that the text was read as, and the text is the number's own.
  pub str_value_settles :
      (fuel : ℕ) (s : Slider Number)
      → (observe parse_float to_string same_number same_text
            (suc (suc (suc fuel)))
            str_value_changed
            s
          ≡ some (record s {
            value = parse_float s.str_value;
            str_value = to_string (parse_float s.str_value);
          }))
        ⊎ (s.value ≡ parse_float s.str_value)
          × (observe parse_float to_string same_number same_text
                (suc (suc (suc fuel)))
                str_value_changed
                s
              ≡ some s)
  str_value_settles fuel s = elim (Bool-cases (same_number s.value (parse_float s.str_value))) [
    | inl e ↦ inr ((same_number_iff _ _).0 e, unfold observe in rw e refl)
    | inr e ↦ inl (
        unfold observe in
        rw e (unfold observe in value_settles fuel (record s { value = parse_float s.str_value })))
  ]
