-- ===== src/Storage/Level/Refinement.antt =====
-- The LevelDB storage against what it promises, as far as the database keeps its word.
use padlock_cloud.Prelude.{
  ℕ, ◌≡◌, ◌≢◌, ◌⊎◌, subst, refl, sym, inl, inr, Option, none, some, List, [], ◌∷◌, Text, Bool-cases,
  if◌then◌else◌, ◌==◌, ==_iff, text_eq,
}
use mathlib.Core.Path.{fun_ext}
use padlock_cloud.Dict.{Dict, lookup, nat_eq}
use padlock_cloud.Dict.Laws.{lookup-insert}
use padlock_cloud.Errors.{
  Error, Result, ok, err, failure, response, err_not_found, err_unregistered_storable,
  err_storage_closed, other, ◌>>=◌,
}
use padlock_cloud.Storage.{Storable}
use padlock_cloud.Storage.Memory.Refinement.{Change, put_it, delete_it, Contents, set_at}
use padlock_cloud.Storage.Level.{
  LevelDb, LevelDbStorage, set_db, to_list, put, delete, get, get_db, registered, put_data,
  delete_data,
}

module _ (lib : LevelDb) where
  -- What an open database holds, and one that is not there.
  abbrev pub db_contents : Option lib.Db → Text → Option Text
  db_contents none k = none
  db_contents (some db) k = lib.contents db k

  abbrev pub contents : LevelDbStorage lib → Contents
  contents s i k = db_contents (lookup i (to_list lib s.stores)) k

  contents-set_db :
      (s : LevelDbStorage lib) (type_id : ℕ) (key : Text) (value : Option Text)
      (r : Result (Unit {0})) (db : lib.Db)
      → ((k : Text) → lib.contents db k ≡ (if text_eq k key then value else contents s type_id k))
      → contents (set_db lib type_id s (r, db)).1 ≡ set_at type_id key value (contents s)
  contents-set_db s type_id key value r db h = fun_ext (λ i. fun_ext (λ k.
      elim (Bool-cases (i == type_id)) [
        | inl e ↦
            let p = (==_iff i type_id).0 e in
            rw (lookup-insert i type_id db (to_list lib s.stores), e, p) (h k)
        | inr e ↦ rw (lookup-insert i type_id db (to_list lib s.stores), e) refl
      ]))

  abbrev pub Done : Result (Unit {0}) → Type 0
  Done r = r ≡ ok tt

  -- The calls in turn, up to the first that gives an error.
  unfoldable pub apply : Change → LevelDbStorage lib → Result (Unit {0}) × LevelDbStorage lib
  apply (put_it t) s = put lib (some t) s
  apply (delete_it t) s = delete lib (some t) s

  abbrev go_on :
      (LevelDbStorage lib → Result (Unit {0}) × LevelDbStorage lib)
      → Result (Unit {0}) × LevelDbStorage lib
      → Result (Unit {0}) × LevelDbStorage lib
  go_on k (err e, s) = (err e, s)
  go_on k (ok u, s) = k s

  unfoldable pub apply_all :
      List Change → LevelDbStorage lib → Result (Unit {0}) × LevelDbStorage lib
  unfolding apply
  apply_all [] s = (ok tt, s)
  apply_all (c ∷ cs) s = go_on (λ s'. apply_all cs s') (apply c s)

  abbrev written : ℕ → Text → Result Text → Contents → Contents
  written type_id key (ok d) c = set_at type_id key (some d) c
  written type_id key (err e) c = c

  abbrev pub changed : Change → Contents → Contents
  changed (put_it t) c = written t.type_id t.key t.serialize c
  changed (delete_it t) c = set_at t.type_id t.key none c

  unfoldable pub replay : List Change → Contents → Contents
  replay [] c = c
  replay (c ∷ cs) m = replay cs (changed c m)

  put_data-Done :
      {A : Type 0} (t : Storable A) (s : LevelDbStorage lib) (db : Option lib.Db) (d : Result Text)
      → db ≡ lookup t.type_id (to_list lib s.stores)
      → Done (put_data lib t s (registered lib db) d).0
      → contents (put_data lib t s (registered lib db) d).1 ≡ written t.type_id t.key d (contents s)
  put_data-Done t s none d e h = cc
  put_data-Done t s (some db) (err f) e h = cc
  put_data-Done t s (some db) (ok d) e h =
      contents-set_db s t.type_id t.key (some d) (lib.put_db t.key d db).0 (lib.put_db t.key d db).1
        (λ k. rw (sym e) (lib.put_db_ok t.key d k db h))

  delete_data-Done :
      {A : Type 0} (t : Storable A) (s : LevelDbStorage lib) (db : Option lib.Db)
      → db ≡ lookup t.type_id (to_list lib s.stores)
      → Done (delete_data lib t s (registered lib db)).0
      → contents (delete_data lib t s (registered lib db)).1
        ≡ set_at t.type_id t.key none (contents s)
  delete_data-Done t s none e h = cc
  delete_data-Done t s (some db) e h =
      contents-set_db s t.type_id t.key none (lib.delete_db t.key db).0 (lib.delete_db t.key db).1
        (λ k. rw (sym e) (lib.delete_db_ok t.key k db h))

  put-Done :
      {A : Type 0} (t : Storable A) (path : Text) (stores : Option (Dict ℕ lib.Db))
      → Done (put lib (some t) (record { path = path; stores = stores })).0
      → contents (put lib (some t) (record { path = path; stores = stores })).1
        ≡ written t.type_id t.key t.serialize (contents (record { path = path; stores = stores }))
  unfolding put get_db
  put-Done t path none h = cc
  put-Done t path (some stores) h =
      put_data-Done t (record { path = path; stores = some stores }) (lookup t.type_id stores)
        t.serialize refl h

  delete-Done :
      {A : Type 0} (t : Storable A) (path : Text) (stores : Option (Dict ℕ lib.Db))
      → Done (delete lib (some t) (record { path = path; stores = stores })).0
      → contents (delete lib (some t) (record { path = path; stores = stores })).1
        ≡ set_at t.type_id t.key none (contents (record { path = path; stores = stores }))
  unfolding delete get_db
  delete-Done t path none h = cc
  delete-Done t path (some stores) h =
      delete_data-Done t (record { path = path; stores = some stores }) (lookup t.type_id stores)
        refl h

  apply-Done :
      (c : Change) (s : LevelDbStorage lib)
      → Done (apply c s).0
      → contents (apply c s).1 ≡ changed c (contents s)
  unfolding apply
  apply-Done (put_it t) s h = put-Done t s.path s.stores h
  apply-Done (delete_it t) s h = delete-Done t s.path s.stores h

  go_on-Done :
      (cs : List Change) (r : Result (Unit {0}) × LevelDbStorage lib)
      → Done (go_on (λ s. apply_all cs s) r).0
      → (Done r.0) × (go_on (λ s. apply_all cs s) r ≡ apply_all cs r.1)
  go_on-Done cs (ok u, s) h = (refl, refl)
  go_on-Done cs (err e, s) h = (cc, cc)

  pub contents-apply_all :
      (cs : List Change) (s : LevelDbStorage lib)
      → Done (apply_all cs s).0
      → contents (apply_all cs s).1 ≡ replay cs (contents s)
  unfolding apply_all replay
  contents-apply_all [] s h = refl
  contents-apply_all (c ∷ cs) s h =
      let (d, e) = go_on-Done cs (apply c s) h in
      rw (e, sym (apply-Done c s d)) (contents-apply_all cs (apply c s).1 (rw (sym e) h))

  -- What `Get` gives of what is held for a type and key.
  abbrev pub answer : {A : Type 0} → Storable A → Option Text → Result A
  answer t none = err (failure err_not_found)
  answer t (some d) = t.deserialize d

  -- The other errors of `Get`: the storage is not open, the type is not registered, or the database gives
  -- an error other than that of a missing key.
  pub data IsFailed {A : Type 0} (t : Storable A) (s : LevelDbStorage lib) (r : Result A)
      : Type 0 where
    closed : s.stores ≡ none → r ≡ err (failure err_storage_closed) → IsFailed t s r
    unregistered :
        lookup t.type_id (to_list lib s.stores) ≡ none
        → r ≡ err (failure err_unregistered_storable)
        → IsFailed t s r
    broken :
        (db : lib.Db) (e : Error)
        → lookup t.type_id (to_list lib s.stores) ≡ some db
        → lib.get_db t.key db ≡ err e
        → e ≢ failure err_not_found
        → r ≡ err e
        → IsFailed t s r

  read-answer :
      {A : Type 0} (t : Storable A) (s : LevelDbStorage lib) (db : lib.Db) (r : Result Text)
      → lookup t.type_id (to_list lib s.stores) ≡ some db
      → lib.get_db t.key db ≡ r
      → ((r >>= (λ d. t.deserialize d)) ≡ answer t (lib.contents db t.key))
        ⊎ IsFailed t s (r >>= (λ d. t.deserialize d))
  read-answer t s db (ok d) l e = inl (rw (lib.get_db_ok t.key d db e) refl)
  read-answer t s db (err (failure err_not_found)) l e =
      inl (rw (lib.get_db_missing t.key db e) refl)
  read-answer t s db (err (failure err_unregistered_storable)) l e =
      inr (broken db (failure err_unregistered_storable) l e (λ p. cc (p)) refl)
  read-answer t s db (err (failure err_storage_closed)) l e =
      inr (broken db (failure err_storage_closed) l e (λ p. cc (p)) refl)
  read-answer t s db (err (failure (other msg))) l e =
      inr (broken db (failure (other msg)) l e (λ p. cc (p)) refl)
  read-answer t s db (err (response x)) l e = inr (broken db (response x) l e (λ p. cc (p)) refl)

  get-answer :
      {A : Type 0} (t : Storable A) (path : Text) (stores : Option (Dict ℕ lib.Db))
      → let s : LevelDbStorage lib = record { path = path; stores = stores } in
        (get lib (some t) s ≡ answer t (contents s t.type_id t.key))
        ⊎ IsFailed t s (get lib (some t) s)
  unfolding get get_db
  get-answer t path none = inr (closed refl refl)
  get-answer {A} t path (some stores) = found (lookup t.type_id stores) refl
    where
      found :
          (db : Option lib.Db)
          → lookup t.type_id stores ≡ db
          → let r : Result A =
              registered lib db >>= (λ db. lib.get_db t.key db >>= (λ d. t.deserialize d)) in
            (r ≡ answer t (db_contents db t.key))
            ⊎ IsFailed t (record { path = path; stores = some stores }) r
      found none l = inr (unregistered l refl)
      found (some db) l =
          read-answer t (record { path = path; stores = some stores }) db (lib.get_db t.key db) l
            refl

  -- After calls of `Put` and `Delete` on a LevelDB storage, with objects of any types, none of which
  -- has given an error, its databases hold what those calls leave of what they held before: for each
  -- type and key the bytes that the last of the calls for it has stored, or nothing after a `Delete`.
  -- A `Get` then gives what the object's type makes of the bytes held for its type and key, or
  -- `ErrNotFound` if nothing is held, unless the storage is not open, the type is not registered, or the
  -- database gives another error than that of a missing key: then it gives that error.
  pub get-apply_all-Done :
      {A : Type 0} (cs : List Change) (s : LevelDbStorage lib) (t : Storable A)
      → Done (apply_all cs s).0
      → let after = (apply_all cs s).1 in
        (contents after ≡ replay cs (contents s))
        × ((get lib (some t) after ≡ answer t (replay cs (contents s) t.type_id t.key))
            ⊎ IsFailed t after (get lib (some t) after))
  get-apply_all-Done cs s t h =
      let after = (apply_all cs s).1 in
      let e = contents-apply_all cs s h in
      (
        e,
        subst
            (λ (m : Contents).
              (get lib (some t) after ≡ answer t (m t.type_id t.key))
              ⊎ IsFailed t after (get lib (some t) after))
            e (get-answer t after.path after.stores),
      )
