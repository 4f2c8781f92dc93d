-- ===== src/Storage/Tests.antt =====
-- The storages at concrete objects: a text that is stored as it is.
use padlock_cloud.Prelude.{
  ℕ, ◌≡◌, ◌⊎◌, refl, Option, none, some, List, [], ◌∷◌, map, Text, codes, text_eq, arith,
}
use padlock_cloud.Dict.{Dict, lookup, insert, erase, code_eq}
use padlock_cloud.Dict.Laws.{lookup-insert, lookup-erase}
use padlock_cloud.Errors.{Result, ok, err, failure, err_not_found}
use padlock_cloud.Storage.{Storable}
use padlock_cloud.Storage.Memory.{get}
use padlock_cloud.Storage.Memory.Refinement as Mem
use padlock_cloud.Storage.Level.{LevelDb, LevelDbStorage}
use padlock_cloud.Storage.Level as Level
use padlock_cloud.Storage.Level.Refinement as Lev
use padlock_cloud.Storage.Iterator.{new_iterator, collect}
use padlock_cloud.Storage.Iterator.Laws.{collect-new_iterator}

abbrev note : ℕ → Text → Text → Storable Text
note type_id key content = record {
  type_id = type_id;
  key = key;
  serialize = ok content;
  deserialize = λ d. ok d;
  marshal = ok content;
  unmarshal = λ d. ok d;
}

abbrev changes : List Mem.Change
changes =
    Mem.put_it (note 0 (codes "k") (codes "a"))
    ∷ Mem.put_it (note 1 (codes "k") (codes "b"))
    ∷ Mem.put_it (note 0 (codes "k") (codes "c"))
    ∷ Mem.delete_it (note 1 (codes "j") [])
    ∷ []

get-apply_all_example :
    get (some (note 0 (codes "k") [])) (Mem.apply_all changes (record { store = some [] }))
    ≡ ok (codes "c")
unfolding Mem.replay lookup text_eq
get-apply_all_example = Mem.get-apply_all changes [] (note 0 (codes "k") [])

-- A database that is a table.
abbrev or_missing : Option Text → Result Text
or_missing none = err (failure err_not_found)
or_missing (some v) = ok v

or_missing-ok : (o : Option Text) (v : Text) → or_missing o ≡ ok v → o ≡ some v
or_missing-ok none v h = absurd (cc (h))
or_missing-ok (some w) v h = cc (h)

or_missing-err : (o : Option Text) → or_missing o ≡ err (failure err_not_found) → o ≡ none
or_missing-err none h = refl
or_missing-err (some w) h = absurd (cc (h))

abbrev table_db : LevelDb
table_db = record {
  Db = Dict Text Text;
  open_file = λ path. ok [];
  close_db = λ db. ok tt;
  get_db = λ k db. or_missing (lookup k db);
  put_db = λ k v db. (ok tt, insert k v db);
  delete_db = λ k db. (ok tt, erase k db);
  values_db = λ db. map (λ (e : Text × Text). e.1) db;
  contents = λ db k. lookup k db;
  get_db_ok = λ k v db h. or_missing-ok (lookup k db) v h;
  get_db_missing = λ k db h. or_missing-err (lookup k db) h;
  put_db_ok = λ k v j db h. lookup-insert j k v db;
  delete_db_ok = λ k j db h. lookup-erase j k db;
}

abbrev opened : LevelDbStorage table_db
opened = record { path = []; stores = some ((0, []) ∷ (1, []) ∷ []) }

get-apply_all-Done_example :
    let after = (Lev.apply_all table_db changes opened).1 in
    (Lev.contents table_db after ≡ Lev.replay table_db changes (Lev.contents table_db opened))
    × ((Level.get table_db (some (note 0 (codes "k") [])) after ≡ ok (codes "c"))
        ⊎ Lev.IsFailed table_db
            (note 0 (codes "k") [])
            after
            (Level.get table_db (some (note 0 (codes "k") [])) after))
unfolding Lev.apply_all Lev.apply Level.put Level.delete Level.get_db lookup insert erase text_eq
    Lev.replay
get-apply_all-Done_example =
    Lev.get-apply_all-Done table_db changes opened (note 0 (codes "k") []) refl

collect-new_iterator_example :
    collect 2 (new_iterator (codes "a" ∷ codes "b" ∷ codes "c" ∷ []))
    ≡ some (codes "b") ∷ some (codes "c") ∷ []
collect-new_iterator_example =
    collect-new_iterator 2 (codes "a" ∷ codes "b" ∷ codes "c" ∷ []) (omega arith)
