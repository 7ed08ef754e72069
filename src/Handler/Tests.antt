-- ===== src/Handler/Tests.antt =====
-- A delegated account 1 with 20 and a later transaction that costs 12. State 1 has spent 5 of it, the
-- states 2 and 3 have spent 15 and 16; state 0 is the checkpoint.
use grevm.Prelude.{
  ℕ, suc, max, ◌+◌, ◌≡◌, ◌≤◌, none, some, [], ◌∷◌, true, ◌==◌, if◌then◌else◌, min, refl, arith,
}
use grevm.Model.{ok}
use grevm.Scheduler.Sample.{numbers}
use grevm.Reserve.{u256_max, required_after}
use grevm.Reserve.Suffix.{total_after}
use grevm.Reserve.Journal.{balance_transfer, balance_before_entry, delegated_debits_since}
use grevm.Reserve.Journal.Undo.{balance_before_entry-Ran}
use grevm.Reserve.Journal.Debits.{first_debit}
use grevm.Handler.{Hooks, WithReserve, pre_execution, post_execution, enforce_reserve}
use grevm.Handler.Sample.{hooks, driver, driver-IsFaithful}
use grevm.Handler.Run.{run, no_reserve, with_reserve}
use grevm.Handler.Deferral.{Due, run-Due}
use grevm.Reward.{BeneficiaryMode, apply}
use grevm.Reward.Sample.{counting}
use grevm.Handler.Guard.{enforce_reserve-keeps}
use grevm.Handler.Rollback.{Observations}

abbrev reserve : WithReserve numbers hooks
reserve = record {
  block_size = 3;
  txs = λ i. record { caller = if i == 1 then 2 else 1; max_balance_spending = some (10 + i) };
  txid = 0;
}

passes : enforce_reserve numbers hooks reserve 1 4 4 21 0 (some 0) ≡ some (ok (1, 4, none))
unfolding enforce_reserve delegated_debits_since balance_before_entry required_after
passes = refl

poor_violates :
    enforce_reserve numbers hooks reserve 2 4 4 21 0 (some 0) ≡ some (ok (0, 4, some 25))
unfolding enforce_reserve delegated_debits_since balance_before_entry required_after
poor_violates = refl

abbrev before : ℕ → ℕ
before a = if a == 1 then 20 else 0

abbrev after : ℕ → ℕ
after a = if a == 1 then 15 else (if a == 2 then 5 else 0)

balance_before_entry-Ran_example :
    balance_before_entry numbers (balance_transfer 1 2 5 ∷ []) 0 1 15 ≡ some 20
balance_before_entry-Ran_example =
    balance_before_entry-Ran numbers (balance_transfer 1 2 5 ∷ []) (balance_transfer 1 2 5 ∷ []) 0
      before after 1 refl
      (after, (λ a. ground arith), (omega arith, λ a. ground arith), (λ a. refl))

enforce_reserve-keeps_example :
    min 20 (
      min
        (total_after numbers
          (λ i. record { caller = if i == 1 then 2 else 1; max_balance_spending = some (10 + i) })
          0
          1
          3
          0)
        u256_max)
    ≤ 15
unfolding enforce_reserve delegated_debits_since balance_before_entry required_after first_debit
enforce_reserve-keeps_example =
    enforce_reserve-keeps numbers hooks reserve 1 1 4 4 4 21 0 0 (balance_transfer 1 2 5 ∷ [])
      (balance_transfer 1 2 5 ∷ []) 0 before after 1 (record { balance = 15; is_eip7702 = true })
      refl refl refl refl
      (after, (λ a. ground arith), (omega arith, λ a. ground arith), (λ a. refl)) refl refl

-- A creation: a state is the caller's nonce, and a frame the gas that it spent.
abbrev creating : Hooks numbers
creating = record hooks {
  is_create = λ s. true;
  bump_nonce = λ s. ok (suc s);
  check_gas_floor = λ s frame init. max frame init;
}

abbrev seen : Observations numbers creating
seen = record {
  nonce = λ s. s;
  balance = λ s. 20;
  is_revert = λ frame. true;
  spent = λ frame. frame;
  floor = λ init. init;
  repaid = λ frame. 0;
}

abbrev creator : WithReserve numbers creating
creator = record { block_size = 3; txs = reserve.txs; txid = 0 }

abbrev deferring : BeneficiaryMode
deferring = BeneficiaryMode.deferred

defers :
    run numbers hooks ℕ driver (with_reserve reserve) deferring 1
    ≡ some (ok (1, record { result = 11; deferred_reward = some 30 }))
unfolding run pre_execution post_execution enforce_reserve delegated_debits_since
    balance_before_entry required_after apply
defers = refl

run-Due_example : Due counting deferring 30
unfolding run apply
run-Due_example =
    run-Due numbers hooks ℕ driver driver-IsFaithful no_reserve deferring 1 1
      (record { result = 11; deferred_reward = some 30 }) 30 refl refl
