-- ===== src/ParallelState/Tests.antt =====
-- Commits, loads and balance changes of a small state.
use grevm.Prelude.{ℕ, ◌≡◌, ◌≢◌, false, Option, none, some, List, [], ◌∷◌, unwrap_or, refl, arith}
use grevm.Model.{Result, ok, err}
use grevm.Revm.Sample.{Entry}
use grevm.ParallelState.{Transition}
use grevm.ParallelState.Apply.{IsKnown}
use grevm.ParallelState.Balances.{
  ParallelState, commit, increment_one, increment_balance_transitions,
}
use grevm.ParallelState.Cache.{Cache, apply_account_state, apply_evm_state}
use grevm.ParallelState.Commits.{commit-basics}
use grevm.ParallelState.CommitTotal.{apply_evm_state-total}
use grevm.ParallelState.Credits.{increment_balance_transitions-credits}
use grevm.ParallelState.Loads.{db_basic-ReadsAlike, unchanged-ReadsAlike}
use grevm.ParallelState.Reads.{basic, slot}
use grevm.ParallelState.Storage.{slot-apply_account_state}
use grevm.ParallelState.Update.{IsFresh}
use grevm.ParallelState.Sample.{
  accounts, types, transitions, database, empty_cache, cached, touched,
}
use grevm.ParallelState.Slots.{db_storage-ReadsAlike}
use grevm.ParallelState.Overtaken.{db_storage-overtaken}
use grevm.ParallelState.View.{db_basic, db_storage, load_mut_cache_account}
use grevm.Scheduler.Sample.{numbers}

-- The result of an operation that succeeds here.
abbrev applied : Entry → Cache numbers accounts types × Option (Transition accounts types)
applied entry =
    unwrap_or (apply_account_state numbers accounts types cached 1 entry) (empty_cache, none)

abbrev destructed : Entry
destructed = touched 9 []

abbrev written_slot : Entry
written_slot = touched 2 ((3, 8) ∷ [])

reads_before :
    basic numbers accounts types database cached 1 ≡ ok (some (record { funds = 10; count = 1 }))
unfolding db_basic load_mut_cache_account
reads_before = refl

cached-IsKnown : IsKnown numbers accounts types cached
cached-IsKnown a x here absent = ground (arith, here, absent)

cached-IsFresh : IsFresh numbers accounts types database cached 1 3
cached-IsFresh old here unknown known = ground (arith, here, unknown, known)

slot-apply_account_state_example :
    slot numbers accounts types database (applied written_slot).0 1 3 ≡ ok 8
unfolding apply_account_state
slot-apply_account_state_example =
    slot-apply_account_state numbers accounts types database cached (applied written_slot).0 1
      written_slot (applied written_slot).1 cached-IsKnown refl 1 3 cached-IsFresh

-- The cache after another thread has loaded account 1, or its slot 3.
abbrev loaded : Cache numbers accounts types
loaded = (db_basic numbers accounts types database empty_cache empty_cache 1).0

abbrev loaded_slot : Cache numbers accounts types
loaded_slot = (db_storage numbers accounts types database empty_cache empty_cache 1 3).0

db_basic-ReadsAlike_example :
    (db_basic numbers accounts types database empty_cache loaded 1).1
    ≡ basic numbers accounts types database empty_cache 1
db_basic-ReadsAlike_example =
    (db_basic-ReadsAlike numbers accounts types database empty_cache loaded 1
      (λ e k. ground (arith, e))
      (db_basic-ReadsAlike numbers accounts types database empty_cache empty_cache 1
        (λ e k. ground (arith, e))
        (unchanged-ReadsAlike numbers accounts types database empty_cache)).1).0

db_storage-ReadsAlike_example :
    (db_storage numbers accounts types database empty_cache loaded_slot 1 3).1
    ≡ slot numbers accounts types database empty_cache 1 3
db_storage-ReadsAlike_example =
    (db_storage-ReadsAlike numbers accounts types database empty_cache loaded_slot 1 3
      (db_storage-ReadsAlike numbers accounts types database empty_cache empty_cache 1 3
        (unchanged-ReadsAlike numbers accounts types database empty_cache)).1).0

db_storage-overtaken_example :
    (slot numbers accounts types database (applied destructed).0 1 3 ≡ ok 0)
    × (slot numbers accounts types database
          (db_storage numbers accounts types database cached (applied destructed).0 1 3).0
          1
          3
        ≡ ok 5)
unfolding apply_account_state
db_storage-overtaken_example =
    db_storage-overtaken numbers accounts types database cached (applied destructed).0 1 destructed
      (applied destructed).1 3 5 refl refl refl refl refl

abbrev rewards : List (ℕ × ℕ)
rewards = (1, 5) ∷ (2, 3) ∷ (1, 1) ∷ []

abbrev credited : Cache numbers accounts types × Result ℕ (List (ℕ × Transition accounts types))
credited =
    unwrap_or
      (increment_balance_transitions numbers accounts types database transitions empty_cache
        rewards)
      (empty_cache, ok [])

abbrev unwrap_ok :
    Result ℕ (List (ℕ × Transition accounts types)) → List (ℕ × Transition accounts types)
unwrap_ok (err x) = []
unwrap_ok (ok ts) = ts

-- The entries of account 1 add up; account 2 is made.
increment_balance_transitions-credits_example :
    basic numbers accounts types database credited.0 1
    ≡ ok (some (record { funds = 16; count = 1 }))
unfolding increment_balance_transitions increment_one db_basic
increment_balance_transitions-credits_example =
    increment_balance_transitions-credits numbers accounts types database transitions empty_cache
      credited.0 rewards (unwrap_ok credited.1) refl 1

-- A destructed account, and an entry that was only read.
abbrev evm_state : List (ℕ × Entry)
evm_state = (1, destructed) ∷ (4, record (touched 1 []) { touched = false }) ∷ []

abbrev before : ParallelState numbers accounts types database transitions
before = record { cache = cached; transition_state = some [] }

abbrev after : ParallelState numbers accounts types database transitions
after = unwrap_or (commit numbers accounts types database transitions before evm_state) before

commit-basics_example : basic numbers accounts types database after.cache 1 ≡ ok none
unfolding commit apply_evm_state
commit-basics_example =
    commit-basics numbers accounts types database transitions before after evm_state refl 1

apply_evm_state-total_example : apply_evm_state numbers accounts types cached evm_state ≢ none
apply_evm_state-total_example = apply_evm_state-total numbers accounts types cached evm_state (
  (λ is h. ground (arith, h), λ is. ground (arith, is)),
  ((λ is. ground (arith, is), λ is. ground (arith, is)), tt),
)
