-- ===== src/Scheduler/Fresh/Execute.antt =====
-- src/scheduler.rs: an execution task that gives a result.
use grevm.Prelude.{
  ℕ, ◌+◌, ◌≡◌, ◌≢◌, ◌<◌, Bool, true, false, not, ◌||◌, Option, none, some, arith, ◌⊎◌, inl, inr,
  refl, ◌∙◌, subst, Bool-cases, Option-cases, ◌>>=◌, >>=-eq-some, usize_mod, if◌then◌else◌, put,
  cell,
}
use grevm.Model.{executing, TxVersion, Task, ok}
use grevm.Memory.{Memory, Location}
use grevm.IncarnationDb.{Accesses, is_blocked}
use grevm.IncarnationDb.Publish.{contains_location}
use grevm.Context
use grevm.Beneficiary.{History}
use grevm.Beneficiary.Recorded.{Recorded}
use grevm.Scheduler.{
  Machine, Scheduler, SpeculativeResult, TransactionResult, abort, parallel_error,
}
use grevm.Scheduler.Execute.{
  execute_ok, publish_history, dependency_after, remove_stale, previous_writes, writes_new, expands,
  finish_execution,
}
use grevm.Scheduler.Entries.{remove-others, remove-written, remove-unwritten}
use grevm.Scheduler.Lifecycle.{status}
use grevm.Scheduler.Fresh.{incarnation_of, Covers, Protected, Inv}
use grevm.Scheduler.Fresh.Calm.{Ticks, Ticks-refl, Ticks-Clocked, Calm, Calm-same}
use grevm.Scheduler.Fresh.Core.{Core}
use grevm.Scheduler.Fresh.Finish.{Finished, finish_execution-Finished}
use grevm.Scheduler.Fresh.Attempt.{
  Ran, within_previous, publish_history-Recorded, refused-Core, not-Stuck, Covers-before,
}

module _ (m : Machine) where
  open m use {keys, revm, Invalid, Fatal}
  open keys use {Address}
  open revm use {AccountInfo, Bytecode}

  module _ (s : Scheduler m) (version : TxVersion) (v : Inv m s)
      (small : s.ctx.logical_clock + 1 < usize_mod) (running : status m s version.txid ≡ executing)
      (claimed_as : incarnation_of m s version.txid ≡ version.incarnation) where
    abbrev k : ℕ
    k = version.txid

    module _ (memory : Memory Address AccountInfo Bytecode) (accesses : Accesses keys revm)
        (ran : Ran m s.memory memory k accesses.write_set (is_blocked keys revm accesses))
        (result : SpeculativeResult m) where
      abbrev last : Option (TransactionResult m)
      last = s.tx_results.at k

      abbrev kept : Memory Address AccountInfo Bytecode
      kept = remove_stale m memory k accesses.write_set (previous_writes m last)

      kept-others : (l : Location Address) (w : ℕ) → w ≢ k → kept l w ≡ s.memory l w
      kept-others l w h =
          remove-others m (previous_writes m last) memory k accesses.write_set l w h
          ∙ ran.others l w h

      -- What the execution stores.
      abbrev stored : TransactionResult m
      stored = record {
        read_set = accesses.reads;
        write_set = accesses.write_set;
        execute_result = ok result;
      }

      kept_unwritten :
          (h : History AccountInfo) (r : Recorded s.history h version true) (l : Location Address)
          → contains_location keys revm accesses.write_set l ≡ false
          → kept l k ≡ none
      kept_unwritten h r l out =
          remove-unwritten m (previous_writes m last) memory k accesses.write_set l out (λ absent.
            ran.unwritten l out
            ∙ (Covers-before m s version v small running claimed_as h r).uncovered l absent)

      Covers-after :
          (s₃ u : Scheduler m)
          → s₃.memory ≡ kept
          → s₃.tx_results ≡ put s.tx_results k (some stored)
          → Recorded s.history s₃.history version true
          → Finished m s₃ u k (is_blocked keys revm accesses) (writes_new m last accesses.write_set)
          → Covers m u k
      Covers-after s₃ u a b r f =
          let now : u.tx_results.at k ≡ some stored = ground (arith, f.results, b) in
          record {
            covered = λ l h e.
                let in_set : contains_location keys revm accesses.write_set l ≡ true =
                  ground (arith, h, now) in
                let (entry, found, _) = ran.written l in_set in
                let there : kept l k ≡ memory l k =
                  remove-written m (previous_writes m last) memory k accesses.write_set l in_set in
                ground (arith, f.memory, a, there, found, e);
            uncovered = λ l h.
                let out : contains_location keys revm accesses.write_set l ≡ false =
                  ground (arith, h, now) in
                ground (arith, f.memory, a, kept_unwritten s₃.history r l out);
            estimates = λ l entry o e.
                elim (Bool-cases (contains_location keys revm accesses.write_set l)) [
                  | inr out ↦ ground (arith, f.memory, a, kept_unwritten s₃.history r l out, e)
                  | inl in_set ↦
                      let (entry', found, told) = ran.written l in_set in
                      let there : kept l k ≡ memory l k =
                        remove-written m (previous_writes m last) memory k accesses.write_set l
                          in_set in
                      ground (arith, f.memory, a, there, found, e, told, f.opened, o)
                ];
          }

      not_new :
          (x : Option (TransactionResult m))
          → writes_new m x accesses.write_set ≡ false
          → expands m accesses.write_set (previous_writes m x) ≡ false
      not_new none h = absurd (ground (arith, h))
      not_new (some x) h = h

      quiet :
          (s₃ u : Scheduler m)
          → s₃.memory ≡ kept
          → Recorded s.history s₃.history version true
          → Finished m s₃ u k (is_blocked keys revm accesses) (writes_new m last accesses.write_set)
          → (i : ℕ) → k < i
          → Protected m u i
          → (l : Location Address) → s.memory l k ≡ none
          → u.memory l k ≡ none
      quiet s₃ u a r f i lt p l absent =
          elim (Bool-cases (contains_location keys revm accesses.write_set l)) [
            | inr out ↦ ground (arith, f.memory, a, kept_unwritten s₃.history r l out)
            | inl in_set ↦
                elim (Bool-cases
                  (is_blocked keys revm accesses || writes_new m last accesses.write_set)) [
                    | inl moved ↦ absurd (f.rewound moved i lt p)
                    | inr still ↦
                        let prev =
                          within_previous m accesses.write_set (previous_writes m last) l
                            (not_new last (ground (arith, still))) in_set in
                        absurd (
                          (Covers-before m s version v small running claimed_as s₃.history
                              r).covered
                            l prev absent)
                  ]
          ]

      Finished-Core :
          (s₃ u : Scheduler m)
          → s₃.memory ≡ kept
          → s₃.tx_results ≡ put s.tx_results k (some stored)
          → Recorded s.history s₃.history version true
          → s₃.tx_states ≡ s.tx_states
          → s₃.ctx ≡ s.ctx
          → Finished m s₃ u k (is_blocked keys revm accesses) (writes_new m last accesses.write_set)
          → Core m s u k
      Finished-Core s₃ u a b r d e f = record {
        memory = λ l w h. ground (arith, f.memory, a, kept-others l w h);
        results = λ i h. ground (arith, f.results, b, h);
        states = λ i h. ground (arith, f.states i h, d);
        histories = λ i h. ground (arith, f.history, r.others i h);
        not_final = λ h. ground (arith, running, h);
        not_passed = f.not_passed;
        ticks = subst (λ (c : Context.SchedulerContext). Ticks c u.ctx) e f.ticks;
        outcome = inr (
          not-Stuck m s version v small running claimed_as s₃.history r,
          (λ h. ground (arith, f.history, f.incarnation, d, r.accepted refl, claimed_as)),
          Covers-after s₃ u a b r f,
          (λ i lt p. (ground (arith, running), λ l absent. quiet s₃ u a r f i lt p l absent)),
        );
      }

      abbrev with_history : History AccountInfo → Scheduler m
      with_history h = record s { memory = kept; history = h }

      abbrev after_history : History AccountInfo → Bool → Option (Scheduler m × Option Task)
      after_history h done =
          if not done then some (abort m (with_history h) (parallel_error k), none) else (do
            (dependency, handed) ←
                dependency_after m (with_history h) k (is_blocked keys revm accesses)
                  accesses.blockers
            finish_execution m
                (record (with_history h) {
                  tx_dependency = dependency;
                  tx_results = put s.tx_results k (some stored);
                })
                version (is_blocked keys revm accesses) (writes_new m last accesses.write_set)
                handed)

      after_history-Core :
          (h : History AccountInfo) (done : Bool) (t : Scheduler m) (task : Option Task)
          → Recorded s.history h version done
          → after_history h done ≡ some (t, task)
          → (u : Scheduler m) × Core m s u k × Calm m u t
      unfolding abort
      after_history-Core h false t task r e =
          let given : abort m (with_history h) (parallel_error k) ≡ t = ground (arith, e) in
          (
            t,
            subst (λ (u : Scheduler m). Core m s u k) given
                (refused-Core m s version v small running claimed_as
                  (abort m (with_history h) (parallel_error k)) kept-others (λ i x. refl) refl refl
                  r),
            Calm-same m t t refl refl refl refl (Ticks-refl t.ctx t.ctx refl),
          )
      after_history-Core h true t task r e =
          let ((dependency, handed), p, q) =
            >>=-eq-some
              (dependency_after m (with_history h) k (is_blocked keys revm accesses)
                accesses.blockers)
              _ e in
          let s₃ : Scheduler m = record (with_history h) {
            tx_dependency = dependency;
            tx_results = put s.tx_results k (some stored);
          } in
          let (u, f, calm) =
            finish_execution-Finished m s₃ version (is_blocked keys revm accesses)
              (writes_new m last accesses.write_set)
              (Ticks-Clocked m s s₃ (Ticks-refl s.ctx s₃.ctx refl) v.clocked) small handed t task
              q in
          (u, Finished-Core s₃ u refl refl r refl refl f, calm)

      abbrev published : Option (Scheduler m × Option Task)
      published = do
        (h, done) ← publish_history m (record s { memory = memory }) version accesses result
        after_history h done

      -- From the memory that the EVM's run has left on.
      pub execute_ok-Core :
          (t : Scheduler m) (task : Option Task)
          → execute_ok m (record s { memory = memory }) version accesses result ≡ some (t, task)
          → (u : Scheduler m) × Core m s u k × Calm m u t
      unfolding execute_ok
      execute_ok-Core t task e =
          let given : published ≡ some (t, task) = in_range (Option-cases (cell s.tx_results k)) in
          let ((h, done), p, q) =
            >>=-eq-some (publish_history m (record s { memory = memory }) version accesses result) _
              given in
          after_history-Core h done t task
            (publish_history-Recorded m (record s { memory = memory }) version accesses result h
              done p)
            q
        where
          in_range :
              (cell s.tx_results k ≡ none)
                ⊎ ((x : Option (TransactionResult m)) × (cell s.tx_results k ≡ some x))
              → published ≡ some (t, task)
          in_range (inl outside) = absurd (ground (arith, e, outside))
          in_range (inr (x, inside)) =
              let found : cell s.tx_results k ≡ some last = ground (arith, inside) in
              ground (arith, e, found)
