-- ===== src/Scheduler/Fresh/Tests.antt =====
-- A block of one transaction that reads a slot of the database, from its claim to its finality.
use grevm.Prelude.{arith, All, [], ◌∷◌, Option, none, some, refl, unwrap_or}
use grevm.Memory.{storage}
use grevm.Model.{TxVersion, ok}
use grevm.Dependency
use grevm.Context
use grevm.Beneficiary
use grevm.IncarnationDb.{begin_incarnation, backing}
use grevm.IncarnationDb.Publish.{finish_incarnation}
use grevm.Scheduler.{Scheduler, TransactionResult, Evm, build, execution_task, execute_incarnation}
use grevm.Scheduler.Sample.{plain}
use grevm.Scheduler.Execute.{execute_task}
use grevm.Scheduler.Validate.{validate, check_reads, check_read, claim_validation, claim_execution}
use grevm.Memory.{latest_before}
use grevm.Scheduler.Coordinate.{FinalityLoop, finalize}
use grevm.Scheduler.Stability.{executes, validates, claims_validation, claims_execution, finalizes}
use grevm.Scheduler.Fresh.{Stays}
use grevm.Scheduler.Fresh.Serial.{Timely, starts, turns, Timely-Stays}

abbrev reading_evm : Evm plain
reading_evm db txid = (
  record db { read_set = (storage 4 8, backing) ∷ db.read_set },
  ok (record { output = txid; state = []; deferred_reward = none }),
)

abbrev fresh : Scheduler plain
unfolding build Dependency.new Context.new Beneficiary.new
fresh = build plain 1 9 none

abbrev first : TxVersion
first = record { txid = 0; incarnation = 1 }

abbrev after : {B : Type 0} → Option (Scheduler plain × B) → Scheduler plain
after {B} none = fresh
after (some (s, b)) = s

abbrev claimed : Scheduler plain
unfolding claim_execution Dependency.next execution_task
claimed = after (claim_execution plain fresh)

abbrev done : Scheduler plain
unfolding execute_task Dependency.remove Context.executed Context.rewind_validation_to
    Beneficiary.record_execution begin_incarnation finish_incarnation
done = after (execute_task plain reading_evm claimed first)

abbrev claimed_again : Scheduler plain
unfolding claim_validation Context.next_validation_idx
claimed_again = after (claim_validation plain done)

abbrev checked : Scheduler plain
unfolding validate check_reads Context.unconfirmed
checked = after (validate plain claimed_again first)

abbrev at_start : FinalityLoop
at_start = record { finality_idx = 0; lower_ts = 0 }

abbrev last : Scheduler plain × FinalityLoop
unfolding finalize
last = unwrap_or (finalize plain checked at_start) (fresh, at_start)

last-Timely : Timely plain 1 9 none last.0 last.1
unfolding claim_execution Dependency.next execution_task execute_task execute_incarnation
    Dependency.remove Context.executed Context.rewind_validation_to Beneficiary.record_execution
    begin_incarnation finish_incarnation claim_validation Context.next_validation_idx validate
    check_reads Context.unconfirmed finalize build Dependency.new Context.new Beneficiary.new
    latest_before check_read
last-Timely =
    turns checked _ at_start _
      (turns claimed_again _ at_start _
        (turns done _ at_start _
          (turns claimed _ at_start _
            (turns fresh _ at_start _ starts (claims_execution _ refl) tt (omega arith))
            (executes reading_evm first _ refl) (λ db txid. (refl, refl)) (omega arith))
          (claims_validation _ refl) tt (omega arith))
        (validates first _ refl) tt (omega arith))
      (finalizes _ refl) tt (omega arith)

abbrev kept : TransactionResult plain
kept = record {
  read_set = (storage 4 8, backing) ∷ [];
  write_set = [];
  execute_result = ok (record { output = 0; state = []; deferred_reward = none });
}

Timely-Stays_example : All (Stays plain last.0.memory 0) ((storage 4 8, backing) ∷ [])
unfolding claim_execution Dependency.next execution_task execute_task execute_incarnation
    Dependency.remove Context.executed Context.rewind_validation_to Beneficiary.record_execution
    begin_incarnation finish_incarnation claim_validation Context.next_validation_idx validate
    check_reads Context.unconfirmed finalize build Dependency.new Context.new Beneficiary.new
    latest_before check_read
Timely-Stays_example =
    Timely-Stays plain 1 9 none last.0 last.1 0 kept last-Timely (omega arith) refl
