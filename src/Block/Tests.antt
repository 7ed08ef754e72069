-- ===== src/Block/Tests.antt =====
-- A block of one transaction, executed by one worker.
use grevm.Prelude.{
  ℕ, ◌≡◌, ◌≢◌, ◌<◌, length, Option, none, some, List, [], ◌∷◌, refl, subst, false, unwrap_or, ◌+◌,
  suc, arith,
}
use grevm.Dependency
use grevm.Context
use grevm.Beneficiary
use grevm.IncarnationDb.{begin_incarnation}
use grevm.IncarnationDb.Publish.{finish_incarnation}
use grevm.Scheduler.{build, execution_task, Evm, TransactionResult, SpeculativeResult}
use grevm.Scheduler.Sample.{plain, idle_evm}
use grevm.Scheduler.Execute.{execute_task}
use grevm.Scheduler.Validate.{validate, check_reads, claim_validation, claim_execution}
use grevm.Scheduler.Coordinate.{finalize}
use grevm.Commit.{TxEnv, executed, commit_result}
use grevm.Commit.Sample.{counter}
use grevm.Replay.{Transact, commit_round}
use grevm.Block.{Threads, spawn, worker_step, finality_step, commit_step, Reach, begins}
use grevm.Model.{ok}
use grevm.Revm.Sample.{Info}
use grevm.Replay.Once.{Joined, parallel_execute_inner}
use grevm.Block.Complete.{Inv, Threads-Inv}
use grevm.Block.Rewards.{Reach-commit_result}
use grevm.Block.Outcomes.{Joins, joins, Finishes, fresh, parallel_execute_inner-Finishes}
use grevm.Block.Sample.{Turn, worker, finality_loop, commit_loop, play, play-Reach}

abbrev txs : ℕ → TxEnv ℕ
txs i = record { caller = 1; nonce = i }

abbrev start : Threads plain counter
unfolding spawn build Dependency.new Context.new Beneficiary.new
start = spawn plain counter 1 1 9 (some (record { funds = 0; count = 0 })) 0

abbrev turns : List Turn
turns =
    worker 0
    ∷ worker 0
    ∷ worker 0
    ∷ worker 0
    ∷ worker 0
    ∷ finality_loop
    ∷ finality_loop
    ∷ finality_loop
    ∷ finality_loop
    ∷ commit_loop
    ∷ commit_loop
    ∷ commit_loop
    ∷ commit_loop
    ∷ worker 0
    ∷ []

abbrev played : Option (Threads plain counter)
unfolding play worker_step finality_step commit_step commit_round Dependency.commit commit_result
    finalize execute_task Dependency.remove Dependency.next Context.executed
    Context.rewind_validation_to Context.should_schedule Context.next_validation_idx
    Context.unconfirmed Beneficiary.record_execution begin_incarnation finish_incarnation
    claim_execution claim_validation execution_task validate check_reads spawn build Dependency.new
    Context.new Beneficiary.new
played = play plain counter txs false idle_evm turns start

abbrev end_of : Threads plain counter
end_of = unwrap_or played start

plays : (end_of.ledger.outcomes ≡ executed 0 ∷ []) × (end_of.commit ≡ grevm.Block.returned none)
unfolding play worker_step finality_step commit_step commit_round Dependency.commit commit_result
    finalize execute_task Dependency.remove Dependency.next Context.executed
    Context.rewind_validation_to Context.should_schedule Context.next_validation_idx
    Context.unconfirmed Beneficiary.record_execution begin_incarnation finish_incarnation
    claim_execution claim_validation execution_task validate check_reads spawn build Dependency.new
    Context.new Beneficiary.new start played
plays = (refl, refl)

end_of-Reach : Reach plain counter txs false start end_of
unfolding play worker_step finality_step commit_step commit_round Dependency.commit commit_result
    finalize execute_task Dependency.remove Dependency.next Context.executed
    Context.rewind_validation_to Context.should_schedule Context.next_validation_idx
    Context.unconfirmed Beneficiary.record_execution begin_incarnation finish_incarnation
    claim_execution claim_validation execution_task validate check_reads spawn build Dependency.new
    Context.new Beneficiary.new start played
end_of-Reach = play-Reach plain counter txs false idle_evm turns start start end_of begins refl

Threads-Inv_example : Inv plain counter 1 end_of
unfolding start
Threads-Inv_example =
    Threads-Inv plain counter txs false 1 1 9 (some (record { funds = 0; count = 0 })) 0 end_of
      end_of-Reach

-- Its transaction defers a reward of 6, and is final, but not committed.
abbrev rewarding_evm : Evm plain
rewarding_evm db txid = (db, ok (record { output = txid; state = []; deferred_reward = some 6 }))

abbrev until_final : List Turn
until_final =
    worker 0 ∷ worker 0 ∷ worker 0 ∷ worker 0 ∷ worker 0 ∷ finality_loop ∷ finality_loop ∷ []

abbrev final_of : Threads plain counter
unfolding play worker_step finality_step commit_step commit_round Dependency.commit commit_result
    finalize execute_task Dependency.remove Dependency.next Context.executed
    Context.rewind_validation_to Context.should_schedule Context.next_validation_idx
    Context.unconfirmed Beneficiary.record_execution begin_incarnation finish_incarnation
    claim_execution claim_validation execution_task validate check_reads spawn build Dependency.new
    Context.new Beneficiary.new
final_of = unwrap_or (play plain counter txs false rewarding_evm until_final start) start

final_of-Reach : Reach plain counter txs false start final_of
unfolding play worker_step finality_step commit_step commit_round Dependency.commit commit_result
    finalize execute_task Dependency.remove Dependency.next Context.executed
    Context.rewind_validation_to Context.should_schedule Context.next_validation_idx
    Context.unconfirmed Beneficiary.record_execution begin_incarnation finish_incarnation
    claim_execution claim_validation execution_task validate check_reads spawn build Dependency.new
    Context.new Beneficiary.new start
final_of-Reach =
    play-Reach plain counter txs false rewarding_evm until_final start start final_of begins refl

Reach-commit_result_example :
    (length final_of.ledger.outcomes < final_of.scheduler.tx_results.len)
    × ((stored : TransactionResult plain) (result : SpeculativeResult plain) (tx : TxEnv ℕ)
        → final_of.scheduler.tx_results.at (length final_of.ledger.outcomes) ≡ some stored
        → stored.execute_result ≡ ok result
        → commit_result plain counter final_of.scheduler.beneficiary false
            (length final_of.ledger.outcomes)
            tx
            result
            final_of.ledger
          ≢ none)
unfolding play worker_step finality_step commit_step commit_round Dependency.commit commit_result
    finalize execute_task Dependency.remove Dependency.next Context.executed
    Context.rewind_validation_to Context.should_schedule Context.next_validation_idx
    Context.unconfirmed Beneficiary.record_execution begin_incarnation finish_incarnation
    claim_execution claim_validation execution_task validate check_reads spawn build Dependency.new
    Context.new Beneficiary.new start final_of
Reach-commit_result_example =
    Reach-commit_result plain counter txs false 1 1 9 (some (record { funds = 0; count = 0 })) 0
      final_of final_of-Reach (omega arith)

deferred_result :
    (final_of.scheduler.tx_results.at 0
      ≡ some (record {
        read_set = [];
        write_set = [];
        execute_result = ok (record { output = 0; state = []; deferred_reward = some 6 });
      }))
    × (◌≡◌ {A = ℕ} final_of.scheduler.ctx.finality 1)
unfolding play worker_step finality_step commit_step commit_round Dependency.commit commit_result
    finalize execute_task Dependency.remove Dependency.next Context.executed
    Context.rewind_validation_to Context.should_schedule Context.next_validation_idx
    Context.unconfirmed Beneficiary.record_execution begin_incarnation finish_incarnation
    claim_execution claim_validation execution_task validate check_reads spawn build Dependency.new
    Context.new Beneficiary.new start final_of
deferred_result = (refl, refl)

abbrev left_over : Joined plain counter
left_over = record { scheduler = end_of.scheduler; committed = end_of.ledger; error = none }

abbrev run_one : Transact plain counter
run_one n txid = ok (10 + txid, suc n)

left_over-Joins : Joins plain counter txs false start left_over
unfolding play worker_step finality_step commit_step commit_round Dependency.commit commit_result
    finalize execute_task Dependency.remove Dependency.next Context.executed
    Context.rewind_validation_to Context.should_schedule Context.next_validation_idx
    Context.unconfirmed Beneficiary.record_execution begin_incarnation finish_incarnation
    claim_execution claim_validation execution_task validate check_reads spawn build Dependency.new
    Context.new Beneficiary.new start played
left_over-Joins = joins end_of none end_of-Reach (λ i h. ground (arith, h)) refl refl

parallel_execute_inner-Finishes_example : Finishes plain counter 1 (
    parallel_execute_inner plain counter false 1 1 9
      (λ l. some left_over)
      run_one
      (fresh plain counter 0))
unfolding start
parallel_execute_inner-Finishes_example =
    parallel_execute_inner-Finishes plain counter txs false false 1 1 1 9 (λ l. some left_over)
      run_one 0
      (λ anchor h. (
        left_over,
        refl,
        subst
            (λ (a : Option Info).
              Joins plain counter txs false (spawn plain counter 1 1 9 a 0) left_over)
            (ground (arith, h)) left_over-Joins,
      ))
