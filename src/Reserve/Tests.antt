-- ===== src/Reserve/Tests.antt =====
-- The reserve in a block where account 1 sends transactions 0 and 2.
use grevm.Prelude.{ℕ, ◌+◌, ◌≡◌, ◌==◌, some, none, if◌then◌else◌, min, refl}
use grevm.Scheduler.Sample.{numbers}
use grevm.Reserve.{TxCost, u256_max, required_after}
use grevm.Reserve.Suffix.{total_after, required_after-total_after}

abbrev block : ℕ → TxCost ℕ
block i = record {
  caller = if i == 1 then 2 else 1;
  max_balance_spending = if i == 3 then none else some (10 + i);
}

after_first : required_after numbers block 3 0 1 ≡ 12
unfolding required_after
after_first = refl

overflowing : required_after numbers block 4 0 1 ≡ u256_max
unfolding required_after
overflowing = refl

required_after-total_after_example :
    required_after numbers block 3 0 1 ≡ min (total_after numbers block 0 1 3 0) u256_max
required_after-total_after_example = required_after-total_after numbers block 3 0 1
