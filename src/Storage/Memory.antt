-- ===== src/Storage/Memory.antt =====
-- `MemoryStorage`: a map from types to maps from keys to bytes.
pub mod Refinement
use padlock_cloud.Prelude.{
  ℕ, Bool, true, false, Option, none, some, List, [], ◌∷◌, map, Text, is_some, if◌then◌else◌,
}
use padlock_cloud.Dict.{Dict, lookup, insert, erase, nat_eq, code_eq}
use padlock_cloud.Errors.{
  Error, failure, err_not_found, err_unregistered_storable, err_storage_closed, Result, ok, err,
  ◌>>=◌,
}
use padlock_cloud.Storage.{Storable}

-- `none` is a nil map.
pub record MemoryStorage : Type 0 where
  pub store : Option (Dict ℕ (Dict Text Text))

unfoldable pub open_storage : MemoryStorage → Result (Unit {0}) × MemoryStorage
open_storage s = (ok tt, record { store = some [] })

unfoldable pub close : MemoryStorage → Result (Unit {0}) × MemoryStorage
close s = (ok tt, s)

unfoldable pub ready : MemoryStorage → Bool
ready s = is_some s.store

-- A look-up in a map that may be nil, which reads as an empty one.
abbrev pub inner : Option (Dict Text Text) → Dict Text Text
inner none = []
inner (some d) = d

abbrev pub or_not_found : Option Text → Result Text
or_not_found none = err (failure err_not_found)
or_not_found (some data') = ok data'

abbrev pub values : Option (Dict Text Text) → Result (List Text)
values none = err (failure err_unregistered_storable)
values (some ts) = ok (map (λ e. e.1) ts)

abbrev pub delete_in :
    Dict ℕ (Dict Text Text) → ℕ → Text → Option (Dict Text Text) → Dict ℕ (Dict Text Text)
delete_in store type_id key none = store
delete_in store type_id key (some ts) = insert type_id (erase key ts) store

module _ {A : Type 0} where
  abbrev pub get_in : Dict ℕ (Dict Text Text) → Storable A → Result A
  get_in store t =
      or_not_found (lookup t.key (inner (lookup t.type_id store))) >>= (λ data'. t.unmarshal data')

  unfoldable pub get : Option (Storable A) → MemoryStorage → Result A
  get t s = elim s.store [
    | none ↦ err (failure err_storage_closed)
    | some store ↦ elim t [
      | none ↦ err (failure err_unregistered_storable)
      | some t ↦ get_in store t
    ]
  ]

  abbrev pub put_in :
      Dict ℕ (Dict Text Text) → Storable A → Result Text → Result (Unit {0}) × MemoryStorage
  put_in store t (err e) = (err e, record { store = some store })
  put_in store t (ok data') = (
    ok tt,
    record {
      store = some (insert t.type_id (insert t.key data' (inner (lookup t.type_id store))) store);
    },
  )

  unfoldable pub put : Option (Storable A) → MemoryStorage → Result (Unit {0}) × MemoryStorage
  put t s = elim s.store [
    | none ↦ (err (failure err_storage_closed), s)
    | some store ↦ elim t [
      | none ↦ (err (failure err_unregistered_storable), s)
      | some t ↦ put_in store t t.marshal
    ]
  ]

  unfoldable pub delete : Option (Storable A) → MemoryStorage → Result (Unit {0}) × MemoryStorage
  delete t s = elim s.store [
    | none ↦ (err (failure err_storage_closed), s)
    | some store ↦ elim t [
      | none ↦ (err (failure err_unregistered_storable), s)
      | some t ↦ (
        ok tt,
        record { store = some (delete_in store t.type_id t.key (lookup t.type_id store)) },
      )
    ]
  ]

  -- The slice that `Iterator` gives to its `SliceIterator`; Go leaves the order of a map's values
  -- open.
  unfoldable pub iterator_values : Option (Storable A) → MemoryStorage → Result (List Text)
  iterator_values t s = elim s.store [
    | none ↦ err (failure err_storage_closed)
    | some store ↦ elim t [
      | none ↦ err (failure err_unregistered_storable)
      | some t ↦ values (lookup t.type_id store)
    ]
  ]
