-- ===== src/Server/Tests/Tables.antt =====
-- A storage of three tables, which keeps what is put into it.
use padlock_cloud.Prelude.{◌≡◌, ◌≢◌, refl, sym, ap, ◌∙◌, ◌⊎◌, inl, inr, Option, none, some, Text}
use padlock_cloud.Dict.{Dict, lookup, insert, erase, code_eq}
use padlock_cloud.Dict.Laws.{
  lookup-insert_self, lookup-insert_ne, lookup-erase_self, lookup-erase_ne,
}
use padlock_cloud.Errors.{Result, ok, err, failure, err_not_found}
use padlock_cloud.Auth.{Account, AuthRequest}
use padlock_cloud.Server.{Kind, accounts, requests, data_stores, Value, Store, Keeps}

pub record Tables : Type 0 where
  pub of_accounts : Dict Text Account
  pub of_requests : Dict Text AuthRequest
  pub of_data : Dict Text Text

abbrev pub table : (k : Kind) → Tables → Dict Text (Value k)
table accounts s = s.of_accounts
table requests s = s.of_requests
table data_stores s = s.of_data

abbrev pub set_table : (k : Kind) → Dict Text (Value k) → Tables → Tables
set_table accounts d s = record s { of_accounts = d }
set_table requests d s = record s { of_requests = d }
set_table data_stores d s = record s { of_data = d }

abbrev pub or_missing : {A : Type 0} → Option A → Result A
or_missing none = err (failure err_not_found)
or_missing (some a) = ok a

unfoldable pub load_table : (k : Kind) → Text → Tables → Result (Value k)
load_table k key s = or_missing (lookup key (table k s))

unfoldable pub save_table : (k : Kind) → Text → Value k → Tables → Result (Unit {0}) × Tables
save_table k key v s = (ok tt, set_table k (insert key v (table k s)) s)

unfoldable pub erase_table : (k : Kind) → Text → Tables → Result (Unit {0}) × Tables
erase_table k key s = (ok tt, set_table k (erase key (table k s)) s)

abbrev pub tables : Store Tables
tables = record { load = load_table; save = save_table; erase = erase_table }

table-set_table : (k : Kind) (d : Dict Text (Value k)) (s : Tables) → table k (set_table k d s) ≡ d
table-set_table accounts d s = refl
table-set_table requests d s = refl
table-set_table data_stores d s = refl

table-set_other :
    (k j : Kind) (d : Dict Text (Value k)) (s : Tables)
    → k ≢ j
    → table j (set_table k d s) ≡ table j s
table-set_other accounts accounts d s n = absurd (n refl)
table-set_other requests requests d s n = absurd (n refl)
table-set_other data_stores data_stores d s n = absurd (n refl)
table-set_other accounts requests d s n = refl
table-set_other accounts data_stores d s n = refl
table-set_other requests accounts d s n = refl
table-set_other requests data_stores d s n = refl
table-set_other data_stores accounts d s n = refl
table-set_other data_stores requests d s n = refl

-- Whether a place of one table is touched by a change of another place.
load-set_table :
    (k j : Kind) (key key' : Text) (d : Dict Text (Value k)) (s : Tables)
    → (key ≢ key' → lookup key' d ≡ lookup key' (table k s))
    → (k ≢ j) ⊎ (key ≢ key')
    → load_table j key' (set_table k d s) ≡ load_table j key' s
unfolding load_table
load-set_table k j key key' d s h (inl n) =
    ap (λ (t : Dict Text (Value j)). or_missing (lookup key' t)) (table-set_other k j d s n)
load-set_table accounts accounts key key' d s h (inr n) =
    ap (λ (o : Option Account). or_missing o) (h n)
load-set_table requests requests key key' d s h (inr n) =
    ap (λ (o : Option AuthRequest). or_missing o) (h n)
load-set_table data_stores data_stores key key' d s h (inr n) =
    ap (λ (o : Option Text). or_missing o) (h n)
load-set_table accounts requests key key' d s h n = refl
load-set_table accounts data_stores key key' d s h n = refl
load-set_table requests accounts key key' d s h n = refl
load-set_table requests data_stores key key' d s h n = refl
load-set_table data_stores accounts key key' d s h n = refl
load-set_table data_stores requests key key' d s h n = refl

after :
    (k : Kind) (d : Dict Text (Value k)) (s s' : Tables)
    → ◌≡◌ {A = Result (Unit {0}) × Tables} (ok tt, set_table k d s) (ok tt, s')
    → set_table k d s ≡ s'
after k d s s' e = ap (λ (x : Result (Unit {0}) × Tables). x.1) e

load-save_table :
    (k : Kind) (key : Text) (v : Value k) (s s' : Tables)
    → save_table k key v s ≡ (ok tt, s')
    → load_table k key s' ≡ ok v
unfolding load_table save_table
load-save_table k key v s s' e =
    ap (λ (x : Tables). or_missing (lookup key (table k x)))
      (sym (after k (insert key v (table k s)) s s' e))
    ∙ ap (λ (d : Dict Text (Value k)). or_missing (lookup key d))
        (table-set_table k (insert key v (table k s)) s)
    ∙ ap (λ (o : Option (Value k)). or_missing o) (lookup-insert_self key v (table k s))

load-erase_table :
    (k : Kind) (key : Text) (s s' : Tables)
    → erase_table k key s ≡ (ok tt, s')
    → load_table k key s' ≡ err (failure err_not_found)
unfolding load_table erase_table
load-erase_table k key s s' e =
    ap (λ (x : Tables). or_missing (lookup key (table k x)))
      (sym (after k (erase key (table k s)) s s' e))
    ∙ ap (λ (d : Dict Text (Value k)). or_missing (lookup key d))
        (table-set_table k (erase key (table k s)) s)
    ∙ ap (λ (o : Option (Value k)). or_missing o) (lookup-erase_self key (table k s))

pub tables-Keeps : Keeps tables
unfolding save_table erase_table load_table
tables-Keeps = record {
  kept = λ k v. v;
  kept-tokens = λ a. refl;
  kept-email = λ a. refl;
  kept-request = λ ar. refl;
  kept-data = λ d. refl;
  load-save = load-save_table;
  load-save_other = λ k j key key' v s s' e n.
      ap (λ x. load_table j key' x) (sym (ap (λ (x : Result (Unit {0}) × Tables). x.1) e))
      ∙ load-set_table k j key key' (insert key v (table k s)) s
          (λ m. lookup-insert_ne key' key v (table k s) m) n;
  load-erase = load-erase_table;
  load-erase_other = λ k j key key' s s' e n.
      ap (λ x. load_table j key' x) (sym (ap (λ (x : Result (Unit {0}) × Tables). x.1) e))
      ∙ load-set_table k j key key' (erase key (table k s)) s
          (λ m. lookup-erase_ne key' key (table k s) m) n;
}
