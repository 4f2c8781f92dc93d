-- ===== src/Server/Locks.antt =====
-- The mutexes of accounts (`GetAccountMutex`, `LockAccount` and `UnlockAccount` of
-- padlockcloud/server.go): the requests run beside one another, and read and write one map of mutexes
-- with nothing around it. The steps of a request are the reads and writes of that map, and what it
-- asks of a mutex. A mutex is known by the number of those made before it. A request that unlocks a
-- mutex which is not locked ends the program, and has no step.
pub mod Exclusion
pub mod Race
use padlock_cloud.Prelude.{
  ℕ, ◌+◌, ◌≡◌, Bool, true, false, Option, none, some, Text, ◌==◌, if◌then◌else◌,
}
use padlock_cloud.Dict.{Dict, lookup, insert, code_eq}

-- Where a request stands: before the test of the map, before a mutex is made, before the map is read
-- again, before the mutex that it has read is locked, in what that mutex guards, or behind it.
pub data Place : Type 0 where
  testing making reading : Place
  locking holding : (mutex : ℕ) → Place
  done : Place

pub record Locks : Type 0 where
  pub account_mutexes : Dict Text ℕ
  pub made : ℕ
  pub locked : ℕ → Bool
  pub at : ℕ → Place

-- A function with one value changed.
unfoldable pub set {ℓ} : {A : Type ℓ} → ℕ → A → (ℕ → A) → ℕ → A
set i a f j = if j == i then a else f j

-- The request `i` goes on to a place.
abbrev pub goes : ℕ → Place → Locks → Locks
goes i place s = record s { at = set i place s.at }

-- `email i` is the email of the request `i`.
module _ (email : ℕ → Text) where
  -- One step of the request `i`.
  pub data Step (i : ℕ) (s : Locks) : Locks → Type 0 where
    -- `server.accountMutexes[email] == nil`
    is_there :
        (m : ℕ)
        → s.at i ≡ testing
        → lookup (email i) s.account_mutexes ≡ some m
        → Step i s (goes i reading s)
    is_nil :
        s.at i ≡ testing → lookup (email i) s.account_mutexes ≡ none → Step i s (goes i making s)
    -- `server.accountMutexes[email] = &sync.Mutex{}`
    make :
        s.at i ≡ making
        → Step i s (
            goes i reading (record s {
              account_mutexes = insert (email i) s.made s.account_mutexes;
              made = s.made + 1;
            }))
    -- `return server.accountMutexes[email]`
    read :
        (m : ℕ)
        → s.at i ≡ reading
        → lookup (email i) s.account_mutexes ≡ some m
        → Step i s (goes i (locking m) s)
    -- `Lock()`, which waits for the mutex.
    lock :
        (m : ℕ)
        → s.at i ≡ locking m
        → s.locked m ≡ false
        → Step i s (goes i (holding m) (record s { locked = set m true s.locked }))
    -- `UnlockAccount`, of the mutex that the map then has.
    unlock :
        (m n : ℕ)
        → s.at i ≡ holding m
        → lookup (email i) s.account_mutexes ≡ some n
        → s.locked n ≡ true
        → Step i s (goes i done (record s { locked = set n false s.locked }))

  pub data Reach (s : Locks) : Locks → Type 0 where
    start : Reach s s
    step : {s' s'' : Locks} (i : ℕ) → Reach s s' → Step i s' s'' → Reach s s''
