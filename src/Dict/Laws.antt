-- ===== src/Dict/Laws.antt =====
-- What a look-up finds after a change.
use padlock_cloud.Prelude.{
  ap, ◌≡◌, ◌≢◌, refl, inl, inr, true, false, none, some, [], ◌∷◌, Bool-cases, if◌then◌else◌,
}
use padlock_cloud.Dict.{Eq, Dict, lookup, insert, erase}

module _ {ℓ} {K : Type ℓ} ⦃e : Eq K⦄ where
  pub beq_self : (k : K) → e.beq k k ≡ true
  beq_self k = (e.beq_iff k k).1 refl

  pub beq_ne : (j k : K) → j ≢ k → e.beq j k ≡ false
  beq_ne j k n = elim (Bool-cases (e.beq j k)) [
    | inl h ↦ absurd (n ((e.beq_iff j k).0 h))
    | inr h ↦ h
  ]

module _ {ℓ κ} {K : Type ℓ} {V : Type κ} ⦃e : Eq K⦄ where
  pub lookup-insert_self : (k : K) (v : V) (d : Dict K V) → lookup k (insert k v d) ≡ some v
  unfolding lookup insert
  lookup-insert_self k v [] = rw (beq_self k) refl
  lookup-insert_self k v ((j, w) ∷ d) = elim (Bool-cases (e.beq j k)) [
    | inl h ↦ rw (h, h) refl
    | inr h ↦ rw (h, h) (lookup-insert_self k v d)
  ]

  pub lookup-insert_ne :
      (j k : K) (v : V) (d : Dict K V) → k ≢ j → lookup j (insert k v d) ≡ lookup j d
  unfolding lookup insert
  lookup-insert_ne j k v [] n = rw (beq_ne k j n) refl
  lookup-insert_ne j k v ((i, w) ∷ d) n = elim (Bool-cases (e.beq i k)) [
    | inl h ↦ let p = (e.beq_iff i k).0 h in rw (h, p, beq_ne k j n) refl
    | inr h ↦ rw (h, lookup-insert_ne j k v d n) refl
  ]

  pub lookup-erase_self : (k : K) (d : Dict K V) → lookup k (erase k d) ≡ none
  unfolding lookup erase
  lookup-erase_self k [] = refl
  lookup-erase_self k ((j, w) ∷ d) = elim (Bool-cases (e.beq j k)) [
    | inl h ↦ rw h (lookup-erase_self k d)
    | inr h ↦ rw (h, h) (lookup-erase_self k d)
  ]

  pub lookup-erase_ne : (j k : K) (d : Dict K V) → k ≢ j → lookup j (erase k d) ≡ lookup j d
  unfolding lookup erase
  lookup-erase_ne j k [] n = refl
  lookup-erase_ne j k ((i, w) ∷ d) n = elim (Bool-cases (e.beq i k)) [
    | inl h ↦ let p = (e.beq_iff i k).0 h in rw (h, p, beq_ne k j n) (lookup-erase_ne j k d n)
    | inr h ↦ rw (h, lookup-erase_ne j k d n) refl
  ]

  -- Both laws in the form of a test.
  pub lookup-insert :
      (j k : K) (v : V) (d : Dict K V)
      → lookup j (insert k v d) ≡ (if e.beq j k then some v else lookup j d)
  lookup-insert j k v d = elim (Bool-cases (e.beq j k)) [
    | inl h ↦ let p = (e.beq_iff j k).0 h in rw (h, p) (lookup-insert_self k v d)
    | inr h ↦ rw h (lookup-insert_ne j k v d (λ p. cc (ap (λ i. e.beq j i) p, beq_self j, h)))
  ]

  pub lookup-erase :
      (j k : K) (d : Dict K V) → lookup j (erase k d) ≡ (if e.beq j k then none else lookup j d)
  lookup-erase j k d = elim (Bool-cases (e.beq j k)) [
    | inl h ↦ let p = (e.beq_iff j k).0 h in rw (h, p) (lookup-erase_self k d)
    | inr h ↦ rw h (lookup-erase_ne j k d (λ p. cc (ap (λ i. e.beq j i) p, beq_self j, h)))
  ]
