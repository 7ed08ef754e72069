-- ===== src/Commit/Sample.antt =====
-- A committed state for the tests: one number, the nonce that every caller has reached.
use grevm.Prelude.{ℕ, some, suc}
use grevm.Model.{ok}
use grevm.Scheduler.Sample.{plain}
use grevm.Commit.{Committed}

abbrev pub counter : Committed plain
counter = record {
  State = ℕ;
  basic_ref = λ n a. ok (some (record { funds = 0; count = n }));
  commit = λ n changes. suc n;
}
