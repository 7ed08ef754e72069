-- ===== src/Scheduler/Separate/Execute.antt =====
-- src/scheduler.rs: an execution task leaves a deferred reward apart from the beneficiary's account.
use grevm.Prelude.{
  ℕ, ◌≡◌, ◌≢◌, inl, inr, Bool, true, false, Option, none, some, refl, arith, ◌∙◌, sym, ap, [],
  subst, put, cell, Cells, Bool-cases, >>=-eq-some,
}
use grevm.Model.{TxVersion, Task, ok, err, executing}
use grevm.Beneficiary
use grevm.Scheduler.{
  Machine, Scheduler, Evm, EvmError, SpeculativeResult, TransactionResult, abort, parallel_error,
  mark_mv_estimate, transaction, fatal, execute_incarnation, worker_db, Incarnation,
}
use grevm.IncarnationDb.{Accesses, is_blocked}
use grevm.Scheduler.Execute.{
  execute_task, execute_ok, execute_err, finish_execution, publish_history, dependency_after,
  retry_later, remove_stale, previous_writes, writes_new,
}
use grevm.Scheduler.Lifecycle.{status}
use grevm.Scheduler.Fresh.Tasks.{ran_task, execute_task_cases}
use grevm.Scheduler.Separate.{IsSeparate, KeepsApart, Carries, Carries-refl}
use grevm.Scheduler.Separate.Turn.{finish_execution-Finishes, recorded-IsSeparate, turn-Carries}

module _ (m : Machine) where
  execute_ok-Carries :
      (s t : Scheduler m) (version : TxVersion) (accesses : Accesses m.keys m.revm)
      (result : SpeculativeResult m) (task : Option Task)
      → status m s version.txid ≡ executing
      → execute_ok m s version accesses result ≡ some (t, task)
      → Carries m s t
  unfolding execute_ok abort publish_history dependency_after
  execute_ok-Carries s t version accesses result task running e =
      let (last, p, q) = >>=-eq-some (cell s.tx_results version.txid) _ e in
      let s₁ : Scheduler m = record s {
        memory = remove_stale m s.memory version.txid accesses.write_set (previous_writes m last);
      } in
      let ((history, published), p₁, q₁) =
        >>=-eq-some (publish_history m s₁ version accesses result) _ q in
      let conflicted : Bool = is_blocked m.keys m.revm accesses in
      elim (Bool-cases published) [
        | inr stale ↦
            turn-Carries m s t version.txid (ground (arith, q₁, stale)) (ground (arith, q₁, stale))
              (λ i h. ground (arith, q₁, stale)) (λ i h closed. ground (arith, q₁, stale, closed))
              (λ closed. absurd (ground (arith, q₁, stale, running, closed)))
        | inl current ↦
            let s₂ : Scheduler m = record s₁ { history = history } in
            let ((dependency, handed), p₂, q₂) =
              >>=-eq-some (dependency_after m s₂ version.txid conflicted accesses.blockers)
                (λ x.
                  finish_execution m
                    (record s₂ {
                      tx_dependency = x.0;
                      tx_results = put s₂.tx_results version.txid (
                          some (record {
                            read_set = accesses.reads;
                            write_set = accesses.write_set;
                            execute_result = ok result;
                          }));
                    })
                    version conflicted (writes_new m last accesses.write_set) x.1)
                (ground (arith, q₁, current)) in
            let s₃ : Scheduler m = record s₂ {
              tx_dependency = dependency;
              tx_results = put s₂.tx_results version.txid (
                  some (record {
                    read_set = accesses.reads;
                    write_set = accesses.write_set;
                    execute_result = ok result;
                  }));
            } in
            let f =
              finish_execution-Finishes m s₃ t version conflicted
                (writes_new m last accesses.write_set) handed task (λ h. ground (arith, p₂, h))
                q₂ in
            turn-Carries m s t version.txid f.beneficiary (ground (arith, f.results))
              (λ i h. ground (arith, f.results, h)) f.others
              (λ closed stored r a b. elim (Bool-cases conflicted) [
                | inl blocked ↦ absurd (ground (arith, f.conflicts blocked, closed))
                | inr free ↦
                    let is : result ≡ r = ground (arith, f.results, a, b) in
                    subst (IsSeparate m s.beneficiary) is
                      (recorded-IsSeparate m s version result (λ h. ground (arith, p₁, free, h)))
              ])
      ]

  put-other : {A : Type 0} (v : Cells A) (k i : ℕ) (a : A) → i ≢ k → (put v k a).at i ≡ v.at i
  put-other v k i a h = ground (arith, h)

  retry_later_effect :
      (s t : Scheduler m) (txid : ℕ) (accesses : Accesses m.keys m.revm)
      (x : EvmError m.Invalid m.Fatal)
      → retry_later m s txid accesses x ≡ some t
      → (t.beneficiary ≡ s.beneficiary)
        × (t.tx_results ≡ s.tx_results)
        × (t.tx_states ≡ s.tx_states)
  unfolding retry_later abort
  retry_later_effect s t txid accesses (transaction x) e =
      (ground (arith, e), ground (arith, e), ground (arith, e))
  retry_later_effect s t txid accesses (fatal x) e =
      (ground (arith, e), ground (arith, e), ground (arith, e))

  abbrev without_writes :
      Scheduler m → ℕ → Option (TransactionResult m) → Cells (Option (TransactionResult m))
  without_writes s k none = s.tx_results
  without_writes s k (some r) = put s.tx_results k (some (record r { write_set = [] }))

  execute_err-Carries :
      (s t : Scheduler m) (version : TxVersion) (accesses : Accesses m.keys m.revm)
      (x : EvmError m.Invalid m.Fatal) (task : Option Task)
      → status m s version.txid ≡ executing
      → execute_err m s version accesses x ≡ some (t, task)
      → Carries m s t
  unfolding execute_err abort
  execute_err-Carries s t version accesses x task running e =
      let (last, p, q) = >>=-eq-some (cell s.tx_results version.txid) _ e in
      let s₁ : Scheduler m = record s {
        memory = mark_mv_estimate m s.memory version.txid (previous_writes m last);
        tx_results = without_writes s version.txid last;
      } in
      let ((history, published), p₁, q₁) =
        >>=-eq-some (Beneficiary.record_estimate s.history version) _ q in
      let emptied : (i : ℕ) → i ≢ version.txid → s₁.tx_results.at i ≡ s.tx_results.at i =
        λ i h. by_last last i h in
      let len : s₁.tx_results.len ≡ s.tx_results.len = same_len last in
      elim (Bool-cases published) [
        | inr stale ↦
            let given : abort m (record s₁ { history = history }) (parallel_error version.txid)
                ≡ t =
              ground (arith, q₁, stale) in
            subst (Carries m s) given (
              turn-Carries m s
                (abort m (record s₁ { history = history }) (parallel_error version.txid))
                version.txid refl len emptied (λ i h closed. closed)
                (λ closed. absurd (ground (arith, running, closed))))
        | inl current ↦
            let s₂ : Scheduler m = record s₁ {
              history = history;
              tx_results = put s₁.tx_results version.txid (
                  some (record {
                    read_set = [];
                    write_set = previous_writes m last;
                    execute_result = err x;
                  }));
            } in
            let (s₃, p₂, q₂) =
              >>=-eq-some (retry_later m s₂ version.txid accesses x)
                (λ s₃. finish_execution m s₃ version true false none)
                (ground (arith, q₁, current)) in
            let (a, b, d) = retry_later_effect s₂ s₃ version.txid accesses x p₂ in
            let f = finish_execution-Finishes m s₃ t version true false none task (λ h. refl) q₂ in
            turn-Carries m s t version.txid (f.beneficiary ∙ a)
              (ap (λ (v : Cells (Option (TransactionResult m))). v.len) (f.results ∙ b) ∙ len)
              (λ i h.
                ap (λ (v : Cells (Option (TransactionResult m))). v.at i) (f.results ∙ b)
                ∙ put-other s₁.tx_results version.txid i _ h
                ∙ emptied i h)
              (λ i h closed. ground (arith, f.others i h closed, d))
              (λ closed. absurd (ground (arith, f.conflicts refl, closed)))
      ]
    where
      by_last :
          (o : Option (TransactionResult m)) (i : ℕ)
          → i ≢ version.txid
          → (without_writes s version.txid o).at i ≡ s.tx_results.at i
      by_last none i h = refl
      by_last (some r) i h = ground (arith, h)

      same_len :
          (o : Option (TransactionResult m))
          → (without_writes s version.txid o).len ≡ s.tx_results.len
      same_len none = refl
      same_len (some r) = refl

  -- An execution task of any EVM.
  pub execute_task-Carries :
      (evm : Evm m) (s t : Scheduler m) (version : TxVersion) (task : Option Task)
      → execute_task m evm s version ≡ some (t, task)
      → Carries m s t
  unfolding abort ran_task
  execute_task-Carries evm s t version task e = elim (execute_task_cases m evm s t version task e) [
    | inl unchanged ↦ subst (Carries m s) (sym unchanged) (Carries-refl m s)
    | inr (inl stopped) ↦ record {
      beneficiary = ground (arith, stopped);
      len = ground (arith, stopped);
      results = λ i closed. inl (ground (arith, stopped, closed), ground (arith, stopped));
    }
    | inr (inr (running, claimed_as, q)) ↦
        ran (execute_incarnation m evm (worker_db m s) version) running q
  ]
    where
      from_memory :
          (s' : Scheduler m)
          → Carries m s' t
          → s'.beneficiary ≡ s.beneficiary
          → s'.tx_results ≡ s.tx_results
          → s'.tx_states ≡ s.tx_states
          → Carries m s t
      from_memory s' c a b d = record {
        beneficiary = c.beneficiary ∙ a;
        len = ground (arith, c.len, b);
        results = λ i closed. elim (c.results i closed) [
          | inl (before, kept) ↦ inl (ground (arith, before, d), ground (arith, kept, b))
          | inr apart ↦
              inr (subst (λ (b : m.keys.Address). KeepsApart m b (t.tx_results.at i)) a apart)
        ];
      }

      ran :
          (x : Incarnation m)
          → status m s version.txid ≡ executing
          → ran_task m s version x ≡ some (t, task)
          → Carries m s t
      ran (db, accesses, ok r) running q =
          from_memory (record s { memory = db.memory })
            (execute_ok-Carries (record s { memory = db.memory }) t version accesses r task running
              q)
            refl refl refl
      ran (db, accesses, err x) running q =
          from_memory (record s { memory = db.memory })
            (execute_err-Carries (record s { memory = db.memory }) t version accesses x task running
              q)
            refl refl refl
