-- ===== src/Util/Language/Laws.antt =====
-- Which language `resolveLanguage` chooses.
use padlock_cloud.Prelude.{
  ℕ, zero, suc, ◌≤◌, ◌<◌, ◌≡◌, refl, ap, ◌∙◌, ◌⊎◌, inl, inr, true, false, Option, none, some, List,
  [], ◌∷◌, ◌++◌, arith, Text, length, take, ◌==◌, Bool-cases, if◌then◌else◌, append_assoc,
  append-nil,
}
use padlock_cloud.Util.Language.{
  Languages, lower_case, split_from, join, pop, supported, resolve_from, first_key,
  resolve_language,
}

join-cons :
    (p : Text) (parts : List Text) → 0 < length parts → join (p ∷ parts) ≡ p ++ (b'-' ∷ join parts)
unfolding join
join-cons p [] h = elim h [ ]
join-cons p (q ∷ parts) h = refl

split_from_pos : (part s : Text) → 0 < length (split_from part s)
unfolding split_from
split_from_pos part [] = omega arith
split_from_pos part (c ∷ s) = ground (arith, split_from_pos (part ++ c ∷ []) s)

-- Joining undoes splitting.
join-split_from : (part s : Text) → join (split_from part s) ≡ part ++ s
unfolding split_from
join-split_from part [] = rw append-nil (unfold join in refl)
join-split_from part (c ∷ s) = elim (Bool-cases (c == b'-')) [
  | inl e ↦
      let same : c ≡ b'-' = ground arith in
      rw e (join-cons part _ (split_from_pos [] s) ∙ rw (same, join-split_from [] s) refl)
  | inr e ↦ rw e (join-split_from (part ++ c ∷ []) s ∙ rw append_assoc refl)
]

pop-take :
    (k : ℕ) (parts : List Text) → suc k ≤ length parts → pop (take (suc k) parts) ≡ take k parts
unfolding pop
pop-take k [] h = elim h [ ]
pop-take zero (p ∷ parts) h = refl
pop-take (suc k) (p ∷ []) h = absurd (omega arith)
pop-take (suc k) (p ∷ q ∷ parts) h =
    ap (λ (t : List Text). p ∷ t) (pop-take k (q ∷ parts) (omega arith))

-- The first `k` parts, joined, are supported, and no longer prefix is.
pub record IsLongest (languages : Languages) (parts : List Text) (n : ℕ) (l : Text) : Type 0 where
  pub count : ℕ
  pub positive : 0 < count
  pub within : count ≤ n
  pub is_prefix : l ≡ join (take count parts)
  pub is_supported : supported languages l ≡ true
  pub no_longer : (j : ℕ) → count < j → j ≤ n → supported languages (join (take j parts)) ≡ false

abbrev pub NoneSupported : Languages → List Text → ℕ → Type 0
NoneSupported languages parts n =
    (j : ℕ) → 0 < j → j ≤ n → supported languages (join (take j parts)) ≡ false

-- Either way that the loop can end.
abbrev pub Resolved : Languages → List Text → ℕ → Option Text → Type 0
Resolved languages parts n none = NoneSupported languages parts n
Resolved languages parts n (some l) = IsLongest languages parts n l

extend_no_longer :
    (languages : Languages) (parts : List Text) (k n : ℕ)
    → ((j : ℕ) → k < j → j ≤ n → supported languages (join (take j parts)) ≡ false)
    → supported languages (join (take (suc n) parts)) ≡ false
    → (j : ℕ) → k < j
    → j ≤ suc n
    → supported languages (join (take j parts)) ≡ false
extend_no_longer languages parts k n before now j above below = elim (Bool-cases (j == suc n)) [
  | inl e ↦ let same : j ≡ suc n = ground arith in rw same now
  | inr e ↦ before j above (ground arith)
]

extend :
    (languages : Languages) (parts : List Text) (n : ℕ) (r : Option Text)
    → Resolved languages parts n r
    → supported languages (join (take (suc n) parts)) ≡ false
    → Resolved languages parts (suc n) r
extend languages parts n none h now = extend_no_longer languages parts 0 n h now
extend languages parts n (some l) h now = record {
  count = h.count;
  positive = h.positive;
  within = omega arith;
  is_prefix = h.is_prefix;
  is_supported = h.is_supported;
  no_longer = extend_no_longer languages parts h.count n h.no_longer now;
}

take_cons :
    (n : ℕ) (parts : List Text)
    → suc n ≤ length parts
    → (p : Text) × (rest : List Text) × (take (suc n) parts ≡ p ∷ rest)
take_cons n [] h = elim h [ ]
take_cons n (p ∷ parts) h = (p, take n parts, refl)

resolve_from_step :
    (languages : Languages) (n : ℕ) (parts : List Text) {p : Text} {rest : List Text}
    → parts ≡ p ∷ rest
    → resolve_from languages (suc n) parts ≡ (
        if supported languages (join parts)
        then some (join parts)
        else resolve_from languages n (pop parts))
unfolding resolve_from
resolve_from_step languages n parts e = rw e refl

resolve_from-Resolved :
    (languages : Languages) (n : ℕ) (parts : List Text)
    → n ≤ length parts
    → Resolved languages parts n (resolve_from languages n (take n parts))
resolve_from-Resolved languages zero parts h =
    unfold resolve_from in (λ j p q. absurd (omega arith))
resolve_from-Resolved languages (suc n) parts h =
    let (p, rest, e) = take_cons n parts h in
    rw (resolve_from_step languages n (take (suc n) parts) e)
      (elim (Bool-cases (supported languages (join (take (suc n) parts)))) [
        | inl s ↦ rw s (record {
          count = suc n;
          positive = omega arith;
          within = omega arith;
          is_prefix = refl;
          is_supported = s;
          no_longer = λ j a b. absurd (omega arith);
        })
        | inr s ↦
            rw (s, pop-take n parts h)
              (extend languages parts n _ (resolve_from-Resolved languages n parts (omega arith)) s)
      ])

take-length : (parts : List Text) → take (length parts) parts ≡ parts
take-length [] = refl
take-length (p ∷ parts) = ap (λ (t : List Text). p ∷ t) (take-length parts)

abbrev pub tag_parts : Text → List Text
tag_parts locale = split_from [] (lower_case locale)

loop_lem :
    (locale : Text) (languages : Languages) (r : Option Text)
    → resolve_from languages (length (tag_parts locale)) (tag_parts locale) ≡ r
    → Resolved languages (tag_parts locale) (length (tag_parts locale)) r
loop_lem locale languages r e =
    let parts = tag_parts locale in
    let h = resolve_from-Resolved languages (length parts) parts (omega arith) in
    rw (take-length parts, e) at h

-- `resolveLanguage` returns the longest prefix of the lower-cased locale, cut at a dash, that is
-- supported. Where no prefix is supported it returns the first key of the supported languages, or
-- nothing if there is none.
pub resolve_language_lem :
    (locale : Text) (languages : Languages)
    → ((l : Text) × (resolve_language locale languages ≡ some l)
        × IsLongest languages (tag_parts locale) (length (tag_parts locale)) l)
      ⊎ (NoneSupported languages (tag_parts locale) (length (tag_parts locale))
          × (resolve_language locale languages ≡ first_key languages))
unfolding resolve_language
resolve_language_lem locale languages =
    by_result (resolve_from languages (length (tag_parts locale)) (tag_parts locale)) refl
  where
    by_result :
        (r : Option Text)
        → resolve_from languages (length (tag_parts locale)) (tag_parts locale) ≡ r
        → ((l : Text) × (resolve_language locale languages ≡ some l)
            × IsLongest languages (tag_parts locale) (length (tag_parts locale)) l)
          ⊎ (NoneSupported languages (tag_parts locale) (length (tag_parts locale))
              × (resolve_language locale languages ≡ first_key languages))
    by_result none e = inr (loop_lem locale languages none e, rw e refl)
    by_result (some l) e = inl (l, rw e refl, loop_lem locale languages (some l) e)

resolve_from_self :
    (languages : Languages) (parts : List Text)
    → 0 < length parts
    → supported languages (join parts) ≡ true
    → resolve_from languages (length parts) parts ≡ some (join parts)
unfolding resolve_from
resolve_from_self languages [] h s = elim h [ ]
resolve_from_self languages (p ∷ parts) h s = rw s refl

-- A locale whose lower-cased tag is supported is resolved to that tag.
pub resolve_language_exact :
    (locale : Text) (languages : Languages)
    → supported languages (lower_case locale) ≡ true
    → resolve_language locale languages ≡ some (lower_case locale)
unfolding resolve_language
resolve_language_exact locale languages s =
    let whole = join-split_from [] (lower_case locale) in
    rw
      (resolve_from_self languages (tag_parts locale) (split_from_pos [] (lower_case locale))
        (rw whole s))
      (ap some whole)
