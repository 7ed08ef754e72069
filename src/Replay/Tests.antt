-- ===== src/Replay/Tests.antt =====
-- A block of two transactions of which one is committed, and whose rest is replayed.
use grevm.Prelude.{
  ◌≢◌, ◌⊎◌, ℕ, suc, ◌+◌, ◌≡◌, true, false, Option, none, some, [], ◌∷◌, refl, arith, put, update,
  filled, unwrap_or,
}
use grevm.Model.{ok, err}
use grevm.Dependency
use grevm.Context
use grevm.Beneficiary
use grevm.Scheduler.{EvmError, Scheduler, build, fallback_sequential}
use grevm.Scheduler.Sample.{plain}
use grevm.Commit.{Ledger, executed, commit_result}
use grevm.Commit.Sample.{counter}
use grevm.Replay.{
  Transact, custom, replay_suffix, Progress, execute_suffix, post_execute, commit_round,
}
use grevm.Replay.Suffix.{Replayed, post_execute-Replayed}
use grevm.Replay.Once.{Execution, Calls, called, parallel_execute_inner, run_once}
use grevm.Handler.Sample.{hooks, driver, driver-IsFaithful}
use grevm.Handler.Run.{run, from_planner}
use grevm.Reward.{apply}
use grevm.Commit.{TxEnv, check_nonce, u64_max}
use grevm.Scheduler.{fatal}
use grevm.Replay.Transact.{
  SequentialEvm, reject_nonce_overflow, reject_nonce_overflow-check_nonce, transact_total,
}
use grevm.Replay.Rounds.{Settled, commit_round-Settled}

abbrev run_one : Transact plain counter
run_one n txid = ok (10 + txid, suc n)

abbrev one_committed : Ledger plain counter
one_committed = record { state = 1; outcomes = executed 10 ∷ [] }

abbrev aborted : Scheduler plain
unfolding build Dependency.new Context.new Beneficiary.new
aborted = record (build plain 2 9 none) { aborted = true; abort_reason = some fallback_sequential }

replays :
    post_execute plain counter run_one aborted one_committed
    ≡ (record { state = 2; outcomes = executed 10 ∷ executed 11 ∷ [] }, none)
unfolding post_execute build Dependency.new Context.new Beneficiary.new
replays = refl

post_execute-Replayed_example :
    Replayed plain counter one_committed 2
      (post_execute plain counter run_one aborted one_committed)
unfolding build Dependency.new Context.new Beneficiary.new
post_execute-Replayed_example =
    post_execute-Replayed plain counter run_one aborted one_committed refl refl (omega arith)

-- Transaction 0 is final, and its result is stored.
abbrev one_final : Scheduler plain
unfolding build Dependency.new Context.new Beneficiary.new
one_final = record (build plain 2 9 none) {
  ctx = record (Context.new 2) { finality = 1 };
  tx_results = put (filled 2 none) 0 (
      some (record {
        read_set = [];
        write_set = [];
        execute_result = ok (record { output = 10; state = []; deferred_reward = none });
      }));
}

abbrev nothing : Ledger plain counter
nothing = record { state = 0; outcomes = [] }

abbrev round : Option (Scheduler plain × Ledger plain counter × Progress plain counter)
unfolding commit_round Dependency.commit
round = commit_round plain counter (λ i. record { caller = 1; nonce = i }) false one_final nothing

abbrev settled : Scheduler plain × Ledger plain counter × Progress plain counter
settled = unwrap_or round (one_final, nothing, grevm.Replay.idle)

commits : settled.1 ≡ one_committed
unfolding commit_round Dependency.commit build Dependency.new Context.new Beneficiary.new
    commit_result round one_final
commits = refl

commit_round-Settled_example : Settled plain counter one_final nothing settled
unfolding commit_round Dependency.commit build Dependency.new Context.new Beneficiary.new
    commit_result round one_final
commit_round-Settled_example =
    commit_round-Settled plain counter (λ i. record { caller = 1; nonce = i }) false one_final
      nothing settled (record { published = refl; bounded = omega arith }) refl

-- The block of two transactions, sequentially. Call 0 has been elected, call 1 refused, and call 0 has
-- returned.
abbrev sequential : ℕ → Execution plain counter
sequential i l = parallel_execute_inner plain counter true 1 2 9 (λ l. none) run_one l

abbrev accesses : ℕ → Calls plain counter → Calls plain counter
accesses i r =
    let (s, call) = run_once plain counter 2 0 (sequential i) (r.at i) r.once in
    record { once = s; at = update r.at i call }

abbrev unstarted : Calls plain counter
unstarted = record { once = record { started = false; ledger = nothing }; at = λ i. called }

abbrev run_twice : Calls plain counter
run_twice = accesses 0 (accesses 1 (accesses 0 (accesses 1 (accesses 0 unstarted))))

outcome_once :
    run_twice.once.ledger ≡ record { state = 2; outcomes = executed 10 ∷ executed 11 ∷ [] }
unfolding run_once parallel_execute_inner replay_suffix
outcome_once = refl

-- Every run executes to a frame of 11; the nonce overflows at its largest value.
abbrev evm : SequentialEvm plain counter hooks
evm = record {
  set_tx = λ n tx. 1;
  finalize = λ s. [];
  loaded = λ s. s;
  error = λ e. fatal e;
  overflow = 7;
}

abbrev txs : ℕ → TxEnv ℕ
txs i = record { caller = 1; nonce = i }

transact_total_example :
    grevm.Replay.Transact.transact plain counter hooks driver evm none false txs 0 0 ≢ none
unfolding run apply from_planner
transact_total_example =
    transact_total plain counter hooks driver evm driver-IsFaithful none false txs 0 0
      (λ h. ground (arith, h))

abbrev last_nonce : TxEnv ℕ
last_nonce = record { caller = 1; nonce = u64_max }

reject_nonce_overflow-check_nonce_example :
    ((e : EvmError ℕ ℕ)
      → reject_nonce_overflow plain counter 7 false u64_max last_nonce ≡ some e
      → (check_nonce plain counter u64_max last_nonce ≡ ok false)
        ⊎ ((x : ℕ) × (e ≡ fatal x) × (check_nonce plain counter u64_max last_nonce ≡ err x)))
    × (check_nonce plain counter u64_max last_nonce ≡ ok true
        → reject_nonce_overflow plain counter 7 false u64_max last_nonce ≡ none)
reject_nonce_overflow-check_nonce_example =
    reject_nonce_overflow-check_nonce plain counter 7 u64_max last_nonce
