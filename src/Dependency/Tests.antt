-- ===== src/Dependency/Tests.antt =====
-- Runs of the dependency graph, after the unit tests of src/tx_dependency.rs.
use grevm.Prelude.{
  ℕ, ◌≡◌, ◌≤◌, ◌<◌, true, false, Option, none, some, refl, arith, contains, ◌⊎◌, unwrap_or, ◌>>=◌,
}
use grevm.Dependency.{TxDependency, new, next, remove, key_tx, add}
use grevm.Dependency.Invariant.{Inv, state}
use grevm.Dependency.Progress.{
  Reach, start, later, nexts, adds, Reach-Inv, claimed_by, claimed_by-ready,
}
use grevm.Dependency.Wakeup.{remove-wakes}

abbrev claimed_pair : TxDependency
unfolding next
claimed_pair = unwrap_or (do (a, _) ← next (new 2); (b, _) ← next a; some b) (new 0)

-- Transaction 1 waits for transaction 0.
abbrev waiting_pair : TxDependency
unfolding next add
waiting_pair = unwrap_or (add claimed_pair 1 (some 0)) (new 0)

claimed_pair-Reach : Reach 2 claimed_pair
unfolding next new
claimed_pair-Reach = later (later start (nexts (some 0) refl)) (nexts (some 1) refl)

waiting_pair-Reach : Reach 2 waiting_pair
unfolding next new add
waiting_pair-Reach = later claimed_pair-Reach (adds 1 (some 0) refl)

Reach-Inv_example : Inv waiting_pair
Reach-Inv_example = Reach-Inv waiting_pair-Reach

-- `replacing_a_blocker_ignores_the_stale_reverse_edge`
replaced : Option (Option ℕ × Option ℕ × Option ℕ × Option ℕ)
unfolding next add remove
replaced = do
  (d, _) ← next (new 3)
  (d, _) ← next d
  (d, _) ← next d
  d ← add d 2 (some 0)
  d ← add d 2 (some 1)
  (d, a) ← next d
  (d, _) ← remove d 0 false
  (d, b) ← next d
  (d, c) ← next d
  (d, _) ← remove d 1 false
  (d, e) ← next d
  some (a, b, c, e)

replaced_test : replaced ≡ some (some 0, some 1, none, some 2)
unfolding replaced new
replaced_test = refl

-- `direct_handoff_is_not_claimed_again_by_the_cursor`
handoff : Option (Option ℕ × Option ℕ × Option ℕ)
unfolding next remove
handoff = do
  (d, a) ← next waiting_pair
  (d, _) ← next d
  (d, b) ← remove d 0 true
  (d, c) ← next d
  some (a, b, c)

handoff_test : handoff ≡ some (some 0, some 1, none)
unfolding handoff new add
handoff_test = refl

-- `dependency_must_be_a_strict_predecessor`
add_self_test : add (new 1) 0 (some 0) ≡ none
unfolding add
add_self_test = refl

claimed_by-ready_example : contains (claimed_by 2 waiting_pair) 0 ≡ true
unfolding next add new
claimed_by-ready_example =
    claimed_by-ready 2 waiting_pair 0 Reach-Inv_example (omega arith) (omega arith) (refl, refl)
      (omega arith)

abbrev freed_pair : TxDependency
unfolding remove next add
freed_pair = unwrap_or (do (d, _) ← remove waiting_pair 0 false; some d) (new 0)

remove-wakes_example :
    (1 < freed_pair.num_txs)
    × ((state freed_pair 1).dependency ≡ none)
    × (((state freed_pair 1).onboard ≡ true) × (freed_pair.index ≤ 1)
        ⊎ ◌≡◌ {A = Option ℕ} none (some 1))
unfolding remove next add new
remove-wakes_example =
    remove-wakes waiting_pair freed_pair 0 1 false none Reach-Inv_example refl refl (omega arith)

abbrev held : TxDependency
unfolding next key_tx
held = unwrap_or (key_tx claimed_pair 1 0) (new 0)
