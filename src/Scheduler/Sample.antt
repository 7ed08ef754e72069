-- ===== src/Scheduler/Sample.antt =====
-- A machine over numbers, for the tests.
use grevm.Prelude.{ℕ, ◌==◌, ==_iff, [], none}
use grevm.Model.{ok}
use grevm.Revm.Sample.{sample}
use grevm.Memory.{Keys}
use grevm.Scheduler.{Machine, Evm}

abbrev pub numbers : Keys
numbers = record { Address = ℕ; eqb = λ a b. a == b; eqb_iff = ==_iff }

abbrev pub plain : Machine
plain = record { keys = numbers; revm = sample; Output = ℕ; Invalid = ℕ; Fatal = ℕ }

-- It reads and writes nothing.
abbrev pub idle_evm : Evm plain
idle_evm db txid = (db, ok (record { output = txid; state = []; deferred_reward = none }))
