-- ===== src/Scheduler/Separate.antt =====
-- src/scheduler.rs: the rewards that stored results defer. A published effect has asserted that a deferred
-- reward comes without a write of the beneficiary's account.
pub mod Turn
pub mod Execute
use grevm.Prelude.{
  ℕ, ◌+◌, ◌≡◌, ◌≢◌, ◌⊎◌, inl, inr, Bool, true, false, not, Option, none, some, refl, arith, ◌∙◌,
  sym, ap, [], subst, put, cell, Cells, Bool-cases, Option-cases, ◌>>=◌, >>=-eq-some, if◌then◌else◌,
  ◌==◌,
}
use grevm.Model.{TxVersion, Task, Result, ok, err, executing, validating, conflict, executed}
use grevm.Dependency
use grevm.Context
use grevm.Beneficiary
use grevm.Scheduler.{
  Machine, Scheduler, Evm, EvmError, SpeculativeResult, TransactionResult, abort, parallel_error,
  mark_mv_estimate, transaction, fatal, rewind_validation, execution_task, set_status,
  execute_incarnation, worker_db, Incarnation,
}
use grevm.IncarnationDb.{Accesses, is_blocked}
use grevm.Scheduler.Execute.{
  account_of, execute_task, execute_ok, execute_err, finish_execution, publish_history,
  dependency_after, retry_later, remove_stale, previous_writes, writes_new,
}
use grevm.Scheduler.Validate.{validate, validate_result, validate_conflict, validate_pass}
use grevm.Scheduler.Lifecycle.{status}
use grevm.Scheduler.Fresh.{is_open}
use grevm.Scheduler.Fresh.Calm.{Calm, Quietly, same, claimed, moved}
use grevm.Scheduler.Fresh.Tasks.{ran_task, execute_task_cases}

module _ (m : Machine) where
  -- A deferred reward does not come with a state write of the beneficiary.
  abbrev pub IsSeparate : m.keys.Address → SpeculativeResult m → Type 0
  IsSeparate beneficiary r = (r.deferred_reward ≡ none) ⊎ (account_of m beneficiary r.state ≡ none)

  abbrev pub KeepsApart : m.keys.Address → Option (TransactionResult m) → Type 0
  KeepsApart beneficiary o =
      (stored : TransactionResult m) (r : SpeculativeResult m)
      → o ≡ some stored
      → stored.execute_result ≡ ok r
      → IsSeparate beneficiary r

  -- The results of all transactions that have been executed and are not to be executed again.
  pub record Separated (s : Scheduler m) : Type 0 where
    pub results :
        (i : ℕ) → is_open (status m s i) ≡ false → KeepsApart s.beneficiary (s.tx_results.at i)

  -- What a change of the scheduler does to them: the results are the same, or keep the reward apart.
  pub record Carries (s t : Scheduler m) : Type 0 where
    pub beneficiary : t.beneficiary ≡ s.beneficiary
    pub len : t.tx_results.len ≡ s.tx_results.len
    pub results :
        (i : ℕ)
        → is_open (status m t i) ≡ false
        → ((is_open (status m s i) ≡ false) × (t.tx_results.at i ≡ s.tx_results.at i))
          ⊎ KeepsApart s.beneficiary (t.tx_results.at i)

  pub Carries-Separated : (s t : Scheduler m) → Carries s t → Separated s → Separated t
  Carries-Separated s t c v = record {
    results = λ i closed.
        subst (λ (b : m.keys.Address). KeepsApart b (t.tx_results.at i)) (sym c.beneficiary)
          (elim (c.results i closed) [
            | inl (before, kept) ↦ subst (KeepsApart s.beneficiary) (sym kept) (v.results i before)
            | inr apart ↦ apart
          ]);
  }

  pub Carries-refl : (s : Scheduler m) → Carries s s
  Carries-refl s = record {
    beneficiary = refl;
    len = refl;
    results = λ i closed. inl (closed, refl);
  }

  pub Carries-trans : (s t u : Scheduler m) → Carries s t → Carries t u → Carries s u
  Carries-trans s t u c d = record {
    beneficiary = d.beneficiary ∙ c.beneficiary;
    len = d.len ∙ c.len;
    results = λ i closed. elim (d.results i closed) [
      | inr apart ↦
          inr (subst (λ (b : m.keys.Address). KeepsApart b (u.tx_results.at i)) c.beneficiary apart)
      | inl (between, kept) ↦ elim (c.results i between) [
        | inl (before, was) ↦ inl (before, kept ∙ was)
        | inr apart ↦ inr (subst (KeepsApart s.beneficiary) (sym kept) apart)
      ]
    ];
  }

  pub Calm-Carries : (s t : Scheduler m) → t.beneficiary ≡ s.beneficiary → Calm m s t → Carries s t
  Calm-Carries s t b c = record {
    beneficiary = b;
    len = ground (arith, c.results);
    results = λ i closed. inl (by_state i (c.states i) closed, ground (arith, c.results));
  }
    where
      by_state :
          (i : ℕ)
          → Quietly m s t i
          → is_open (status m t i) ≡ false
          → is_open (status m s i) ≡ false
      by_state i (same e) closed = ground (arith, e, closed)
      by_state i (claimed a b d) closed = absurd (ground (arith, d, closed))
      by_state i (moved a b d e f) closed = a

  -- A validation changes no result, and no open transaction.
  pub validate-Carries :
      (s t : Scheduler m) (version : TxVersion) (task : Option Task)
      → validate m s version ≡ some (t, task)
      → Carries s t
  unfolding validate validate_result validate_conflict validate_pass abort
  validate-Carries s t version task e = record {
    beneficiary = ground (arith, e);
    len = ground (arith, e);
    results = λ i closed. inl (ground (arith, e, closed), ground (arith, e));
  }
