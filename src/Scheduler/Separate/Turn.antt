-- ===== src/Scheduler/Separate/Turn.antt =====
-- src/scheduler.rs: the parts of an execution task, and a deferred reward.
use grevm.Prelude.{
  ℕ, ◌≡◌, ◌≢◌, inl, inr, Bool, true, false, Option, none, some, arith, subst, Bool-cases,
  Option-cases, ◌==◌,
}
use grevm.Model.{TxVersion, Task}
use grevm.Beneficiary
use grevm.Scheduler.{Machine, Scheduler, SpeculativeResult, execution_task}
use grevm.Scheduler.Execute.{account_of, finish_execution}
use grevm.Scheduler.Lifecycle.{status}
use grevm.Scheduler.Fresh.{is_open}
use grevm.Scheduler.Separate.{IsSeparate, KeepsApart, Carries}

module _ (m : Machine) where
  -- What the end of an execution task does: no result changes, no other transaction stops being open, and
  -- after a conflict neither does its own.
  pub record Finishes (s t : Scheduler m) (k : ℕ) (conflicted : Bool) : Type 0 where
    pub beneficiary : t.beneficiary ≡ s.beneficiary
    pub results : t.tx_results ≡ s.tx_results
    pub others : (i : ℕ) → i ≢ k → is_open (status m t i) ≡ false → is_open (status m s i) ≡ false
    pub conflicts : conflicted ≡ true → is_open (status m t k) ≡ true

  pub finish_execution-Finishes :
      (s t : Scheduler m) (version : TxVersion) (conflicted writes_new : Bool) (handed : Option ℕ)
      (task : Option Task)
      → (conflicted ≡ true → handed ≡ none)
      → finish_execution m s version conflicted writes_new handed ≡ some (t, task)
      → Finishes s t version.txid conflicted
  unfolding finish_execution execution_task
  finish_execution-Finishes s t version conflicted w none task alone e = record {
    beneficiary = ground (arith, e);
    results = ground (arith, e);
    others = λ i h closed. ground (arith, e, h, closed);
    conflicts = λ h. ground (arith, e, h);
  }
  finish_execution-Finishes s t version conflicted w (some succ) task alone e = record {
    beneficiary = ground (arith, e);
    results = ground (arith, e);
    others = λ i h closed. ground (arith, e, h, closed);
    conflicts = λ h. absurd (ground (arith, alone h));
  }

  -- The assertion of a publication.
  pub recorded-IsSeparate :
      (s : Scheduler m) (version : TxVersion) (r : SpeculativeResult m)
      → Beneficiary.record_execution m.revm s.history version r.deferred_reward
          (account_of m s.beneficiary r.state)
        ≢ none
      → IsSeparate m s.beneficiary r
  unfolding Beneficiary.record_execution
  recorded-IsSeparate s version r recorded = elim (Option-cases r.deferred_reward) [
    | inl undeferred ↦ inl undeferred
    | inr (amount, due) ↦ elim (Option-cases (account_of m s.beneficiary r.state)) [
      | inl apart ↦ inr apart
      | inr (account, touched) ↦ absurd (recorded (ground (arith, due, touched)))
    ]
  ]

  -- A transaction's own turn, on a scheduler where it was executing.
  pub turn-Carries :
      (s t : Scheduler m) (k : ℕ)
      → t.beneficiary ≡ s.beneficiary
      → t.tx_results.len ≡ s.tx_results.len
      → ((i : ℕ) → i ≢ k → t.tx_results.at i ≡ s.tx_results.at i)
      → ((i : ℕ) → i ≢ k → is_open (status m t i) ≡ false → is_open (status m s i) ≡ false)
      → (is_open (status m t k) ≡ false → KeepsApart m s.beneficiary (t.tx_results.at k))
      → Carries m s t
  turn-Carries s t k b l others states own = record {
    beneficiary = b;
    len = l;
    results = λ i closed. elim (Bool-cases (i == k)) [
      | inl at ↦
          let here : k ≡ i = ground (arith, at) in
          inr (
            subst (λ (i : ℕ). KeepsApart m s.beneficiary (t.tx_results.at i)) here
              (own (ground (arith, here, closed))))
      | inr apart ↦
          let there : i ≢ k = λ h. ground (arith, apart, h) in
          inl (states i there closed, others i there)
    ];
  }
