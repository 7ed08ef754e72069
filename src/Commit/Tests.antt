-- ===== src/Commit/Tests.antt =====
-- A commit whose nonce matches, and one whose nonce does not.
use grevm.Prelude.{◌≡◌, false, none, some, [], ◌∷◌, refl}
use grevm.Scheduler.{SpeculativeResult}
use grevm.Scheduler.Sample.{plain}
use grevm.Commit.{Ledger, committed, needs_sequential_fallback, executed, commit_result}
use grevm.Commit.Sample.{counter}
use grevm.Commit.Effect.{Committing, commit_result-Committing}

abbrev result : SpeculativeResult plain
result = record { output = 8; state = []; deferred_reward = none }

abbrev empty_ledger : Ledger plain counter
empty_ledger = record { state = 4; outcomes = [] }

mismatch :
    commit_result plain counter 9 false 0 (record { caller = 1; nonce = 5 }) result empty_ledger
    ≡ some (empty_ledger, needs_sequential_fallback)
unfolding commit_result
mismatch = refl

-- It defers a reward of 6 to the beneficiary 9.
abbrev deferring : SpeculativeResult plain
deferring = record result { deferred_reward = some 6 }

commit_result-Committing_example :
    Committing plain counter 9 false 0
      (record { caller = 1; nonce = 4 })
      deferring
      empty_ledger
      (record { state = 5; outcomes = executed 8 ∷ [] })
      (committed 1)
unfolding commit_result
commit_result-Committing_example =
    commit_result-Committing plain counter 9 false 0 (record { caller = 1; nonce = 4 }) deferring
      empty_ledger _ _ refl
