-- ===== src/Server/Memory.antt =====
-- The memory storage as the storage of the server: accounts, activation requests and data by what
-- `encoding/json` makes of them, which is a record with its documented behaviour.
use padlock_cloud.Prelude.{
  ℕ, ◌≡◌, ◌≢◌, refl, sym, ap, ap₂, ◌∙◌, ◌⊎◌, inl, inr, true, Bool-cases, Option, none, some, Text,
  text_eq, text_eq_refl, text_eq_path, ◌==◌,
}
use padlock_cloud.Dict.{Dict, lookup, insert, nat_eq, code_eq}
use padlock_cloud.Errors.{◌>>=◌, Result, ok, err, failure, err_not_found}
use padlock_cloud.Storage.{Storable}
use padlock_cloud.Storage.Memory.{
  MemoryStorage, inner, or_not_found, delete_in, put_in, get, put, delete,
}
use padlock_cloud.Storage.Memory.Refinement.{contents, set_at, contents-put, contents-delete}
use padlock_cloud.Server.{Kind, accounts, requests, data_stores, Value, Store, Keeps}

pub record Json : Type 0 where
  pub marshal : (k : Kind) → Value k → Result Text
  pub unmarshal : (k : Kind) → Text → Result (Value k)
  -- What is marshalled is read back.
  pub unmarshal-marshal :
      (k : Kind) (v : Value k) (d : Text) → marshal k v ≡ ok d → unmarshal k d ≡ ok v

-- The numbers of the types.
abbrev pub type_id : Kind → ℕ
type_id accounts = 0
type_id requests = 1
type_id data_stores = 2

type_id-inj : (k j : Kind) → (type_id j == type_id k) ≡ true → k ≡ j
type_id-inj accounts accounts e = refl
type_id-inj requests requests e = refl
type_id-inj data_stores data_stores e = refl
type_id-inj accounts requests e = cc (e)
type_id-inj accounts data_stores e = cc (e)
type_id-inj requests accounts e = cc (e)
type_id-inj requests data_stores e = cc (e)
type_id-inj data_stores accounts e = cc (e)
type_id-inj data_stores requests e = cc (e)

type_id_same : (k : Kind) → (type_id k == type_id k) ≡ true
type_id_same accounts = refl
type_id_same requests = refl
type_id_same data_stores = refl

-- A place is touched by a change there and by no other.
set_at_same :
    (k : Kind) (key : Text) (value : Option Text) (c : ℕ → Text → Option Text)
    → set_at (type_id k) key value c (type_id k) key ≡ value
set_at_same k key value c = rw (type_id_same k, text_eq_refl key) refl

set_at_other :
    (k j : Kind) (key key' : Text) (value : Option Text) (c : ℕ → Text → Option Text)
    → (k ≢ j) ⊎ (key ≢ key')
    → set_at (type_id k) key value c (type_id j) key' ≡ c (type_id j) key'
set_at_other k j key key' value c (inl n) = elim (Bool-cases (type_id j == type_id k)) [
  | inl e ↦ absurd (n (type_id-inj k j e))
  | inr e ↦ rw e refl
]
set_at_other k j key key' value c (inr n) = elim (Bool-cases (type_id j == type_id k)) [
  | inl e ↦ elim (Bool-cases (text_eq key' key)) [
    | inl q ↦ absurd (n (sym (text_eq_path key' key q)))
    | inr q ↦ rw (e, q) refl
  ]
  | inr e ↦ rw e refl
]

abbrev opened : Dict ℕ (Dict Text Text) → MemoryStorage
opened st = record { store = some st }

-- What a call that succeeds has changed of the storage.
data Changes (type_id : ℕ) (key : Text) (value : Option Text) (s s' : MemoryStorage) : Type 0 where
  changes :
      (st st' : Dict ℕ (Dict Text Text))
      → s ≡ opened st
      → s' ≡ opened st'
      → contents st' ≡ set_at type_id key value (contents st)
      → Changes type_id key value s s'

put-Changes :
    {A : Type 0} (t : Storable A) (store : Option (Dict ℕ (Dict Text Text))) (s' : MemoryStorage)
    → put (some t) (record { store = store }) ≡ (ok tt, s')
    → (d : Text) × (t.marshal ≡ ok d)
      × Changes t.type_id t.key (some d) (record { store = store }) s'
unfolding put
put-Changes t none s' h = absurd (cc (h))
put-Changes t (some st) s' h = marshalled t.marshal refl h
  where
    marshalled :
        (m : Result Text)
        → t.marshal ≡ m
        → put_in st t m ≡ (ok tt, s')
        → (d : Text) × (t.marshal ≡ ok d) × Changes t.type_id t.key (some d) (opened st) s'
    marshalled (err e) p h = absurd (cc (h))
    marshalled (ok d) p h =
        let st' = insert t.type_id (insert t.key d (inner (lookup t.type_id st))) st in
        (
          d,
          p,
          changes st st' refl (sym (ap (λ (x : Result (Unit {0}) × MemoryStorage). x.1) h))
              (contents-put st t.type_id t.key d),
        )

delete-Changes :
    {A : Type 0} (t : Storable A) (store : Option (Dict ℕ (Dict Text Text))) (s' : MemoryStorage)
    → delete (some t) (record { store = store }) ≡ (ok tt, s')
    → Changes t.type_id t.key none (record { store = store }) s'
unfolding delete
delete-Changes t none s' h = absurd (cc (h))
delete-Changes t (some st) s' h =
    changes st (delete_in st t.type_id t.key (lookup t.type_id st)) refl
      (sym (ap (λ (x : Result (Unit {0}) × MemoryStorage). x.1) h))
      (contents-delete st t.type_id t.key (lookup t.type_id st) refl)

-- What `Get` reads of an open storage.
get-opened :
    {A : Type 0} (t : Storable A) (st : Dict ℕ (Dict Text Text)) (s : MemoryStorage)
    (value : Option Text)
    → s ≡ opened st
    → contents st t.type_id t.key ≡ value
    → get (some t) s ≡ (or_not_found value >>= (λ d. t.unmarshal d))
unfolding get
get-opened t st s value e q = rw (e, q) refl

get-Changes_self :
    (k : Kind) (t : Storable (Value k)) (key : Text) (value : Option Text) (s s' : MemoryStorage)
    → t.type_id ≡ type_id k
    → t.key ≡ key
    → Changes (type_id k) key value s s'
    → get (some t) s' ≡ (or_not_found value >>= (λ d. t.unmarshal d))
get-Changes_self k t key value s s' e q (changes st st' a b c) = get-opened t st' s' value b (
    ap₂ (λ (i : ℕ) (x : Text). contents st' i x) e q
    ∙ ap (λ (f : ℕ → Text → Option Text). f (type_id k) key) c
    ∙ set_at_same k key value (contents st))

get-Changes_other :
    (k j : Kind) (t : Storable (Value j)) (key : Text) (value : Option Text) (s s' : MemoryStorage)
    → t.type_id ≡ type_id j
    → (k ≢ j) ⊎ (key ≢ t.key)
    → Changes (type_id k) key value s s'
    → get (some t) s' ≡ get (some t) s
get-Changes_other k j t key value s s' e n (changes st st' a b c) =
    get-opened t st' s' (contents st t.type_id t.key) b (
      ap (λ (f : ℕ → Text → Option Text). f t.type_id t.key) c
      ∙ ap (λ (i : ℕ). set_at (type_id k) key value (contents st) i t.key) e
      ∙ set_at_other k j key t.key value (contents st) n
      ∙ ap (λ (i : ℕ). contents st i t.key) (sym e))
    ∙ sym (get-opened t st s (contents st t.type_id t.key) a refl)

module _ (json : Json) where
  -- The object of a type with a key, and a value where there is one.
  abbrev pub storable : (k : Kind) → Text → Result Text → Storable (Value k)
  storable k key data' = record {
    type_id = type_id k;
    key = key;
    serialize = data';
    deserialize = λ d. json.unmarshal k d;
    marshal = data';
    unmarshal = λ d. json.unmarshal k d;
  }

  abbrev asked : (k : Kind) → Text → Storable (Value k)
  asked k key = storable k key (err (failure err_not_found))

  abbrev pub memory : Store MemoryStorage
  memory = record {
    load = λ k key s. get (some (asked k key)) s;
    save = λ k key v s. put (some (storable k key (json.marshal k v))) s;
    erase = λ k key s. delete (some (asked k key)) s;
  }

  -- A memory storage keeps what is put into it, for every type and key, as `Keeps` says.
  pub memory-Keeps : Keeps memory
  memory-Keeps = record {
    kept = λ k v. v;
    kept-tokens = λ a. refl;
    kept-email = λ a. refl;
    kept-request = λ ar. refl;
    kept-data = λ d. refl;
    load-save = λ k key v s s' h.
        let (d, m, c) = put-Changes (storable k key (json.marshal k v)) s.store s' h in
        get-Changes_self k (asked k key) key (some d) s s' refl refl c
        ∙ json.unmarshal-marshal k v d m;
    load-save_other = λ k j key key' v s s' h n.
        let (d, m, c) = put-Changes (storable k key (json.marshal k v)) s.store s' h in
        get-Changes_other k j (asked j key') key (some d) s s' refl n c;
    load-erase = λ k key s s' h.
        get-Changes_self k (asked k key) key none s s' refl refl
          (delete-Changes (asked k key) s.store s' h);
    load-erase_other = λ k j key key' s s' h n.
        get-Changes_other k j (asked j key') key none s s' refl n
          (delete-Changes (asked k key) s.store s' h);
  }
