-- ===== src/Scheduler/Tests.antt =====
-- A block of one transaction, from its claim to its finality.
use grevm.Prelude.{
  ℕ, ◌≡◌, ◌==◌, ◌&&◌, All, [], ◌∷◌, Option, none, some, refl, unwrap_or, false, if◌then◌else◌,
}
use grevm.Memory.{Memory, basic, storage, storage_value, latest_before}
use grevm.Revm.Sample.{sample, Info}
use grevm.Scheduler.ReadSets.{IsCurrent, check_reads-IsCurrent}
use mathlib.Core.Option
use grevm.Model.{TxVersion}
use grevm.Dependency
use grevm.Context
use grevm.Beneficiary
use grevm.Beneficiary.{exact, reward, snapshot}
use grevm.IncarnationDb.{begin_incarnation, ReadSet, mv_memory, backing, beneficiary}
use grevm.IncarnationDb.Publish.{finish_incarnation}
use grevm.Scheduler.{Scheduler, build, execution_task, execute_incarnation}
use grevm.Scheduler.Sample.{plain, idle_evm, numbers}
use grevm.Scheduler.Execute.{execute_task}
use grevm.Scheduler.Validate.{validate, check_reads, check_read, claim_validation, claim_execution}
use grevm.Scheduler.Coordinate.{FinalityLoop, finalize}
use grevm.Scheduler.Stability.{
  Inv, Reach, start, turn, executes, validates, claims_validation, claims_execution, finalizes,
  Reach-finalized,
}

abbrev fresh : Scheduler plain
unfolding build Dependency.new Context.new Beneficiary.new
fresh = build plain 1 9 none

abbrev first : TxVersion
first = record { txid = 0; incarnation = 1 }

abbrev after : {B : Type 0} → Option (Scheduler plain × B) → Scheduler plain
after {B} none = fresh
after (some (s, b)) = s

abbrev claimed : Scheduler plain
unfolding claim_execution Dependency.next execution_task
claimed = after (claim_execution plain fresh)

abbrev done : Scheduler plain
unfolding execute_task Dependency.remove Context.executed Context.rewind_validation_to
    Beneficiary.record_execution begin_incarnation finish_incarnation
done = after (execute_task plain idle_evm claimed first)

abbrev claimed_again : Scheduler plain
unfolding claim_validation Context.next_validation_idx
claimed_again = after (claim_validation plain done)

abbrev checked : Scheduler plain
unfolding validate check_reads Context.unconfirmed
checked = after (validate plain claimed_again first)

abbrev at_start : FinalityLoop
at_start = record { finality_idx = 0; lower_ts = 0 }

abbrev final : Option (Scheduler plain × FinalityLoop)
unfolding finalize
final = finalize plain checked at_start

finishes : Option.map (λ r. r.1.finality_idx) final ≡ some 1
unfolding claim_execution Dependency.next execution_task execute_task execute_incarnation
    Dependency.remove Context.executed Context.rewind_validation_to Beneficiary.record_execution
    begin_incarnation finish_incarnation claim_validation Context.next_validation_idx validate
    check_reads Context.unconfirmed finalize build Dependency.new Context.new Beneficiary.new
finishes = refl

abbrev last : Scheduler plain × FinalityLoop
last = unwrap_or final (fresh, at_start)

last-Reach : Reach plain 1 9 none last.0 last.1
unfolding claim_execution Dependency.next execution_task execute_task execute_incarnation
    Dependency.remove Context.executed Context.rewind_validation_to Beneficiary.record_execution
    begin_incarnation finish_incarnation claim_validation Context.next_validation_idx validate
    check_reads Context.unconfirmed finalize build Dependency.new Context.new Beneficiary.new
last-Reach =
    turn checked _ at_start _
      (turn claimed_again _ at_start _
        (turn done _ at_start _
          (turn claimed _ at_start _ (turn fresh _ at_start _ start (claims_execution _ refl))
            (executes idle_evm first _ refl))
          (claims_validation _ refl))
        (validates first _ refl))
      (finalizes _ refl)

Reach-finalized_example : Inv plain last.0 last.1
Reach-finalized_example = Reach-finalized plain 1 9 none last.0 last.1 last-Reach

-- Transaction 1 has written slot 7 of account 4 in its second incarnation; transaction 3 has read it,
-- and slot 8 from the database.
abbrev written : Memory ℕ Info ℕ
written (storage a i) w =
    if i == 7 && w == 1
    then some (record { incarnation = 2; value = storage_value 5; estimate = false })
    else none
written _ w = none

-- Transaction 2 has found the beneficiary as transactions 1 and 0 have left it: the one has rewarded it
-- in its second incarnation, the other has written it in its first.
abbrev history : Beneficiary.History Info
history = record {
  block_anchor = none;
  entries = record {
    at = λ w.
        if w == 1
        then record { incarnation = 2; value = exact (reward 5) }
        else record { incarnation = 1; value = exact (snapshot none) };
    len = 3;
  };
}

abbrev reads : ReadSet numbers sample
reads =
    (storage 4 7, mv_memory (record { txid = 1; incarnation = 2 }))
    ∷ (storage 4 8, backing)
    ∷ (
      basic 9,
      beneficiary
          (record { txid = 1; incarnation = 2 } ∷ record { txid = 0; incarnation = 1 } ∷ []),
    )
    ∷ []

check_reads-IsCurrent_example : All (IsCurrent numbers sample written history 2) reads
unfolding check_reads check_read latest_before Beneficiary.validate
check_reads-IsCurrent_example =
    (check_reads-IsCurrent numbers sample written history 2 reads false (some 1) refl).0 refl
