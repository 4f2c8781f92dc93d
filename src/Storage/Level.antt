-- ===== src/Storage/Level.antt =====
-- `LevelDBStorage`: one database for each registered type. goleveldb is a library from elsewhere: its
-- calls are a record, with what its documentation says of a call that gives no error.
pub mod Refinement
use padlock_cloud.Prelude.{
  ℕ, ◌≡◌, Bool, true, false, Option, none, some, List, [], ◌∷◌, ◌++◌, Text, is_some, text_eq,
  if◌then◌else◌,
}
use padlock_cloud.Dict.{Dict, lookup, insert, nat_eq}
use padlock_cloud.Errors.{
  Error, failure, err_not_found, err_unregistered_storable, err_storage_closed, Result, ok, err,
  ◌>>=◌,
}
use padlock_cloud.Storage.{Storable}

pub record LevelDb : Type 1 where
  pub Db : Type 0
  -- `leveldb.OpenFile` and `DB.Close`
  pub open_file : (path : Text) → Result Db
  pub close_db : Db → Result (Unit {0})
  -- `leveldb.ErrNotFound` is `err_not_found` here.
  pub get_db : Text → Db → Result Text
  pub put_db : (key value : Text) → Db → Result (Unit {0}) × Db
  pub delete_db : Text → Db → Result (Unit {0}) × Db
  -- The values that an iterator passes over.
  pub values_db : Db → List Text
  -- What the database holds.
  pub contents : Db → Text → Option Text
  pub get_db_ok : (k v : Text) (db : Db) → get_db k db ≡ ok v → contents db k ≡ some v
  pub get_db_missing :
      (k : Text) (db : Db) → get_db k db ≡ err (failure err_not_found) → contents db k ≡ none
  pub put_db_ok :
      (k v j : Text) (db : Db)
      → (put_db k v db).0 ≡ ok tt
      → contents (put_db k v db).1 j ≡ (if text_eq j k then some v else contents db j)
  pub delete_db_ok :
      (k j : Text) (db : Db)
      → (delete_db k db).0 ≡ ok tt
      → contents (delete_db k db).1 j ≡ (if text_eq j k then none else contents db j)

module _ (lib : LevelDb) where
  -- `none` is a nil map.
  pub record LevelDbStorage : Type 0 where
    pub path : Text
    pub stores : Option (Dict ℕ lib.Db)

  -- The loop of `Open` over `StorableTypes`, with the databases that are open.
  unfoldable pub open_stores :
      (join : Text → Text → Text)
      → Text
      → List (ℕ × Text)
      → Dict ℕ lib.Db
      → Result (Unit {0}) × Dict ℕ lib.Db
  open_stores join path [] stores = (ok tt, stores)
  open_stores join path ((t, loc) ∷ types) stores = elim (lib.open_file (join path loc)) [
    | err e ↦ (err e, stores)
    | ok db ↦ open_stores join path types (insert t db stores)
  ]

  -- `filepath.Join` is the library's, an argument.
  unfoldable pub open_storage :
      (join : Text → Text → Text)
      → List (ℕ × Text)
      → LevelDbStorage
      → Result (Unit {0}) × LevelDbStorage
  unfolding open_stores
  open_storage join types s =
      let (r, stores) = open_stores join s.path types [] in (r, record s { stores = some stores })

  unfoldable pub close_stores : Dict ℕ lib.Db → Result (Unit {0})
  close_stores [] = ok tt
  close_stores ((t, db) ∷ stores) = elim (lib.close_db db) [
    | err e ↦ err e
    | ok u ↦ close_stores stores
  ]

  abbrev pub to_list : Option (Dict ℕ lib.Db) → Dict ℕ lib.Db
  to_list none = []
  to_list (some stores) = stores

  unfoldable pub close : LevelDbStorage → Result (Unit {0}) × LevelDbStorage
  unfolding close_stores
  close s = elim (close_stores (to_list s.stores)) [
    | err e ↦ (err e, s)
    | ok u ↦ (ok tt, record s { stores = none })
  ]

  unfoldable pub ready : LevelDbStorage → Bool
  ready s = is_some s.stores

  abbrev pub registered : Option lib.Db → Result lib.Db
  registered none = err (failure err_unregistered_storable)
  registered (some db) = ok db

  -- `getDB`; a nil map reads as an empty one.
  unfoldable pub get_db : ℕ → LevelDbStorage → Result lib.Db
  get_db type_id s = registered (lookup type_id (to_list s.stores))

  -- A database that has changed.
  abbrev pub set_db :
      ℕ → LevelDbStorage → Result (Unit {0}) × lib.Db → Result (Unit {0}) × LevelDbStorage
  set_db type_id s (r, db) = (r, record s { stores = some (insert type_id db (to_list s.stores)) })

  module _ {A : Type 0} where
    unfoldable pub can_store : Storable A → LevelDbStorage → Bool
    unfolding get_db
    can_store t s = elim (get_db t.type_id s) [ ok db ↦ true | err e ↦ false ]

    unfoldable pub get : Option (Storable A) → LevelDbStorage → Result A
    unfolding get_db
    get t s = elim s.stores [
      | none ↦ err (failure err_storage_closed)
      | some stores ↦ elim t [
        | none ↦ err (failure err_unregistered_storable)
        | some t ↦
            get_db t.type_id s >>= (λ db. lib.get_db t.key db >>= (λ data'. t.deserialize data'))
      ]
    ]

    abbrev pub put_data :
        Storable A
        → LevelDbStorage
        → Result lib.Db
        → Result Text
        → Result (Unit {0}) × LevelDbStorage
    put_data t s (err e) data' = (err e, s)
    put_data t s (ok db) (err e) = (err e, s)
    put_data t s (ok db) (ok data') = set_db t.type_id s (lib.put_db t.key data' db)

    unfoldable pub put : Option (Storable A) → LevelDbStorage → Result (Unit {0}) × LevelDbStorage
    unfolding get_db
    put t s = elim s.stores [
      | none ↦ (err (failure err_storage_closed), s)
      | some stores ↦ elim t [
        | none ↦ (err (failure err_unregistered_storable), s)
        | some t ↦ put_data t s (get_db t.type_id s) t.serialize
      ]
    ]

    abbrev pub delete_data :
        Storable A → LevelDbStorage → Result lib.Db → Result (Unit {0}) × LevelDbStorage
    delete_data t s (err e) = (err e, s)
    delete_data t s (ok db) = set_db t.type_id s (lib.delete_db t.key db)

    unfoldable pub delete :
        Option (Storable A) → LevelDbStorage → Result (Unit {0}) × LevelDbStorage
    unfolding get_db
    delete t s = elim s.stores [
      | none ↦ (err (failure err_storage_closed), s)
      | some stores ↦ elim t [
        | none ↦ (err (failure err_unregistered_storable), s)
        | some t ↦ delete_data t s (get_db t.type_id s)
      ]
    ]

    -- The values that `Iterator` passes over; it does not ask whether the storage is open.
    unfoldable pub iterator_values : Storable A → LevelDbStorage → Result (List Text)
    unfolding get_db
    iterator_values t s = get_db t.type_id s >>= (λ db. ok (lib.values_db db))
