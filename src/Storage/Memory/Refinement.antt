-- ===== src/Storage/Memory/Refinement.antt =====
-- The memory storage against what it promises: a partial function from a type and a key to bytes that
-- each call changes at one place.
use padlock_cloud.Prelude.{
  sym, ==_iff, ℕ, ◌≡◌, refl, inl, inr, Option, none, some, List, [], ◌∷◌, Text, Bool-cases,
  if◌then◌else◌, ◌&&◌, ◌==◌, text_eq,
}
use mathlib.Core.Path.{fun_ext}
use padlock_cloud.Dict.{Dict, lookup, insert, erase, nat_eq, code_eq}
use padlock_cloud.Dict.Laws.{lookup-insert, lookup-erase}
use padlock_cloud.Errors.{Result, ok, err, ◌>>=◌}
use padlock_cloud.Storage.{Storable}
use padlock_cloud.Storage.Memory.{
  delete_in, put_in, MemoryStorage, inner, or_not_found, get, put, delete,
}

-- A call that changes the storage, on an object of any type.
pub data Change : Type 1 where
  put_it delete_it : {A : Type 0} → Storable A → Change

unfoldable pub apply : Change → MemoryStorage → MemoryStorage
apply (put_it t) s = (put (some t) s).1
apply (delete_it t) s = (delete (some t) s).1

unfoldable pub apply_all : List Change → MemoryStorage → MemoryStorage
unfolding apply
apply_all [] s = s
apply_all (c ∷ cs) s = apply_all cs (apply c s)

-- What the storage promises.
abbrev pub Contents : Type 0
Contents = ℕ → Text → Option Text

abbrev pub set_at : ℕ → Text → Option Text → Contents → Contents
set_at type_id key value c i k = if i == type_id && text_eq k key then value else c i k

abbrev written : ℕ → Text → Result Text → Contents → Contents
written type_id key (ok d) c = set_at type_id key (some d) c
written type_id key (err e) c = c

unfoldable pub replay : List Change → Contents → Contents
replay [] c = c
replay (put_it t ∷ cs) c = replay cs (written t.type_id t.key t.marshal c)
replay (delete_it t ∷ cs) c = replay cs (set_at t.type_id t.key none c)

-- The contents of an open storage.
abbrev pub contents : Dict ℕ (Dict Text Text) → Contents
contents store i k = lookup k (inner (lookup i store))

-- A change of one place of the nested maps.
contents-set :
    (st : Dict ℕ (Dict Text Text)) (type_id : ℕ) (key : Text) (value : Option Text)
    (m : Dict Text Text)
    → ((k : Text)
        → lookup k m ≡ (if text_eq k key then value else lookup k (inner (lookup type_id st))))
    → contents (insert type_id m st) ≡ set_at type_id key value (contents st)
contents-set st type_id key value m h = fun_ext (λ i. fun_ext (λ k.
    elim (Bool-cases (i == type_id)) [
      | inl e ↦ let p = (==_iff i type_id).0 e in rw (lookup-insert i type_id m st, e, p) (h k)
      | inr e ↦ rw (lookup-insert i type_id m st, e) refl
    ]))

pub contents-put :
    (st : Dict ℕ (Dict Text Text)) (type_id : ℕ) (key d : Text)
    → contents (insert type_id (insert key d (inner (lookup type_id st))) st)
      ≡ set_at type_id key (some d) (contents st)
contents-put st type_id key d =
    contents-set st type_id key (some d) (insert key d (inner (lookup type_id st)))
      (λ k. lookup-insert k key d (inner (lookup type_id st)))

pub contents-delete :
    (st : Dict ℕ (Dict Text Text)) (type_id : ℕ) (key : Text) (ts : Option (Dict Text Text))
    → ts ≡ lookup type_id st
    → contents (delete_in st type_id key ts) ≡ set_at type_id key none (contents st)
unfolding lookup
contents-delete st type_id key (some m) e =
    contents-set st type_id key none (erase key m) (λ k. rw (sym e) (lookup-erase k key m))
contents-delete st type_id key none e = fun_ext (λ i. fun_ext (λ k.
    elim (Bool-cases (i == type_id)) [
      | inl h ↦
          let p = (==_iff i type_id).0 h in
          elim (Bool-cases (text_eq k key)) [
            | inl q ↦ rw (h, q, p, sym e) refl
            | inr q ↦ rw (h, q) refl
          ]
      | inr h ↦ rw h refl
    ]))

-- An open storage after some changes.
applied :
    (cs : List Change) (st : Dict ℕ (Dict Text Text))
    → (end : Dict ℕ (Dict Text Text)) × (apply_all cs (record { store = some st })
        ≡ record { store = some end })
      × (contents end ≡ replay cs (contents st))
unfolding apply_all apply put delete replay
applied [] st = (st, refl, refl)
applied (put_it t ∷ cs) st = put_cases t.marshal refl (λ store. applied cs store)
  where
    put_cases :
        (m : Result Text)
        → m ≡ t.marshal
        → ((store : Dict ℕ (Dict Text Text))
            → (end : Dict ℕ (Dict Text Text)) × (apply_all cs (record { store = some store })
                ≡ record { store = some end })
              × (contents end ≡ replay cs (contents store)))
        → (end : Dict ℕ (Dict Text Text)) × (apply_all cs (put_in st t m).1
            ≡ record { store = some end })
          × (contents end ≡ replay cs (written t.type_id t.key m (contents st)))
    put_cases (err e) h ih = ih st
    put_cases (ok d) h ih =
        rw (sym (contents-put st t.type_id t.key d))
          (ih (insert t.type_id (insert t.key d (inner (lookup t.type_id st))) st))
applied (delete_it t ∷ cs) st =
    rw (sym (contents-delete st t.type_id t.key (lookup t.type_id st) refl))
      (applied cs (delete_in st t.type_id t.key (lookup t.type_id st)))

-- After any calls of `Put` and `Delete` on an open memory storage, with objects of any types, `Get`
-- gives what the object makes of the bytes that the last of these calls to succeed for its type and
-- key has left, and `ErrNotFound` where it has left none: calls for other types and other keys, and a
-- `Put` whose object does not marshal, change nothing of it.
pub get-apply_all :
    {A : Type 0} (cs : List Change) (st : Dict ℕ (Dict Text Text)) (u : Storable A)
    → get (some u) (apply_all cs (record { store = some st }))
      ≡ (or_not_found (replay cs (contents st) u.type_id u.key) >>= (λ d. u.unmarshal d))
unfolding get
get-apply_all cs st u = let (end, e, c) = applied cs st in rw (e, sym c) refl
