-- ===== src/IncarnationDb/Tests.antt =====
-- A storage read over a reset and a later write.
use grevm.Prelude.{
  ℕ, ◌≡◌, false, not, none, some, [], refl, arith, ◌==◌, if◌then◌else◌, filled, is_none,
}
use grevm.Model.{ok, err}
use grevm.Revm.{Database}
use grevm.Revm.Sample.{sample, Info}
use grevm.Memory.{
  storage, storage_reset, storage_value, reset_value, Memory, Versions, latest_before,
}
use grevm.Scheduler.Sample.{numbers}
use grevm.IncarnationDb.{IncarnationDb, read_storage}
use grevm.IncarnationDb.Slots.{slot_before, slot_value, from_backing, read_storage-slot_before}

-- Transaction 1 writes 7 into the slot.
abbrev writes : Versions Info ℕ
writes w =
    if w == 1
    then some (record { incarnation = 1; value = storage_value 7; estimate = false })
    else none

-- Transaction 2 resets the account.
abbrev resets : Versions Info ℕ
resets w =
    if w == 2
    then some (record { incarnation = 1; value = reset_value; estimate = false })
    else none

abbrev memory : Memory ℕ Info ℕ
memory (storage a i) = writes
memory (storage_reset a) = resets
memory _ = λ w. none

abbrev backing_db : Database ℕ sample ℕ
backing_db = record {
  basic_ref = λ a. ok none;
  code_by_hash_ref = λ h. err h;
  storage_ref = λ a i. ok 5;
}

abbrev reader : ℕ → IncarnationDb numbers sample
reader txid = record {
  address = 9;
  history = record {
    entries = filled 4 (record { incarnation = 0; value = grevm.Beneficiary.estimate });
    block_anchor = none;
  };
  memory = memory;
  read_set = [];
  account_snapshots = λ _. none;
  version = record { txid = txid; incarnation = 1 };
  blocking_txs = [];
  blocked_by_beneficiary = false;
}

backed : (read_storage numbers sample backing_db (reader 1) 3 0).1 ≡ ok 5
unfolding read_storage latest_before
backed = refl

written : (read_storage numbers sample backing_db (reader 2) 3 0).1 ≡ ok 7
unfolding read_storage latest_before
written = refl

emptied : (read_storage numbers sample backing_db (reader 3) 3 0).1 ≡ ok 0
unfolding read_storage latest_before
emptied = refl

read_storage-slot_before_example :
    (read_storage numbers sample backing_db (reader 3) 3 0).1
    ≡ from_backing numbers sample backing_db 3 0
        (slot_before (λ w. slot_value (writes w)) (λ w. not (is_none (resets w))) 3)
read_storage-slot_before_example =
    read_storage-slot_before numbers sample backing_db (reader 3) 3 0 (λ w e h. (7, ground arith))
      (λ w e h. ground arith)
