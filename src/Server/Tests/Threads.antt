-- ===== src/Server/Tests/Threads.antt =====
-- Requests that run at once, at concrete accounts.
use padlock_cloud.Prelude.{ℕ, ◌≡◌, refl, true, false, [], ◌∷◌, Text, codes, text_eq}
use padlock_cloud.Dict.{lookup, code_eq}
use padlock_cloud.Server.Locks.{
  testing, reading, locking, holding, Locks, set, goes, is_there, read, lock, Reach, start, step,
}
use padlock_cloud.Server.Locks.Race.{both_hold}
use padlock_cloud.Server.Locks.Exclusion.{exclusive_lem}

abbrev email : ℕ → Text
email i = codes "a"

abbrev no_mutex : Locks
no_mutex = record { account_mutexes = []; made = 0; locked = λ m. false; at = λ i. testing }

both_hold_example :
    (s : Locks) × Reach email no_mutex s × (s.at 0 ≡ holding 0) × (s.at 1 ≡ holding 1)
unfolding lookup
both_hold_example = both_hold email 0 1 no_mutex (λ e. cc (e)) refl refl refl refl (λ m l. refl)

abbrev one_mutex : Locks
one_mutex = record no_mutex { account_mutexes = (codes "a", 0) ∷ []; made = 1 }

abbrev after_read : Locks
after_read = goes 0 (locking 0) (goes 0 reading one_mutex)

abbrev after_lock : Locks
after_lock = goes 0 (holding 0) (record after_read { locked = set 0 true after_read.locked })

run : Reach email one_mutex after_lock
unfolding lookup text_eq set
run = step 0 (step 0 (step 0 start (is_there 0 refl refl)) (read 0 refl refl)) (lock 0 refl refl)

exclusive_lem_example : ◌≡◌ {A = ℕ} 0 0
unfolding lookup text_eq set
exclusive_lem_example =
    exclusive_lem email one_mutex after_lock 0 0 0 0 (λ k. (0, refl)) (λ k. refl) run refl refl refl
