-- ===== src/Scheduler/Fresh/Validation.antt =====
-- src/scheduler.rs: a validation task.
use grevm.Prelude.{
  ℕ, ◌+◌, ◌≡◌, ◌<◌, All, Bool, true, false, Option, none, some, arith, ◌⊎◌, inl, inr, refl, sym,
  subst, Option-cases, ◌>>=◌, >>=-eq-some, usize_mod, if◌then◌else◌,
}
use grevm.Model.{validating, TxVersion, Task, ok, err, Result}
use grevm.Memory.{Memory}
use grevm.Context
use grevm.Context.{SchedulerContext, tick}
use grevm.Beneficiary
use grevm.Beneficiary.{History}
use grevm.Scheduler.{
  Machine, Scheduler, EvmError, SpeculativeResult, TransactionResult, abort, parallel_error,
}
use grevm.Scheduler.Validate.{
  validate, validate_result, validate_conflict, validate_pass, check_reads,
}
use grevm.Scheduler.ReadSets.{check_reads-IsCurrent}
use grevm.Scheduler.Lifecycle.{status}
use grevm.Scheduler.Fresh.{incarnation_of, Inv, Stays}
use grevm.Scheduler.Fresh.Calm.{Ticks-refl, Calm-same, Calm-Inv}
use grevm.Scheduler.Fresh.Core.{Core-Inv}
use grevm.Scheduler.Fresh.Conflict.{conflict-Core}
use grevm.Scheduler.Fresh.Passing.{Passes, Passes-Inv, IsCurrent-Stays-All}

module _ (m : Machine) where
  abbrev Store : Type 0
  Store = Memory m.keys.Address m.revm.AccountInfo m.revm.Bytecode

  pub abort-Inv : (s : Scheduler m) (txid : ℕ) → Inv m s → Inv m (abort m s (parallel_error txid))
  unfolding abort
  abort-Inv s txid v =
      Calm-Inv m s (abort m s (parallel_error txid))
        (Calm-same m s (abort m s (parallel_error txid)) refl refl refl refl
          (Ticks-refl s.ctx s.ctx refl))
        v

  module _ (s : Scheduler m) (version : TxVersion) (v : Inv m s)
      (small : s.ctx.logical_clock + 2 < usize_mod) (running : status m s version.txid ≡ validating)
      (claimed_as : incarnation_of m s version.txid ≡ version.incarnation)
      (result : TransactionResult m) (stored : s.tx_results.at version.txid ≡ some result) where
    abbrev k : ℕ
    k = version.txid

    abbrev ticked : Scheduler m
    ticked = record s { ctx = (tick s.ctx).0 }

    pass-Passes :
        (dependency : Option ℕ) (t : Scheduler m) (task : Option Task)
        → All (Stays m s.memory k) result.read_set
        → validate_pass m ticked version s.ctx.logical_clock dependency ≡ some (t, task)
        → Passes m s t k
    unfolding validate_pass Context.unconfirmed
    pass-Passes dependency t task current e = record {
      memory = ground (arith, e);
      results = ground (arith, e);
      history = ground (arith, e);
      before = running;
      after = ground (arith, e);
      states = λ i h. ground (arith, e, h);
      lower = ground (arith, e);
      validated = λ i h. ground (arith, e, h);
      clocked = record {
        clock = λ i. ground (arith, e, small, v.clocked.clock i);
        sized = λ i h. ground (arith, e, v.clocked.sized i, v.clocked.len, h);
        len = ground (arith, e, v.clocked.len);
      };
      current = λ r h.
          let same : result ≡ r = ground (arith, e, h, stored) in
          let memory : s.memory ≡ t.memory = ground (arith, e) in
          subst (λ (memory : Store). All (Stays m memory k) r.read_set) memory
            (subst (λ (x : TransactionResult m). All (Stays m s.memory k) x.read_set) same current);
    }

    abbrev checked : Bool → Option ℕ → Option (Scheduler m × Option Task)
    checked conflicting dependency =
        if conflicting
        then validate_conflict m ticked version result dependency
        else validate_pass m ticked version s.ctx.logical_clock dependency

    checked-Inv :
        (conflicting : Bool) (dependency : Option ℕ) (t : Scheduler m) (task : Option Task)
        → check_reads m.keys m.revm s.memory s.history k result.read_set (false, none)
          ≡ some (conflicting, dependency)
        → checked conflicting dependency ≡ some (t, task)
        → Inv m t
    unfolding validate_conflict
    checked-Inv true dependency t task scan e =
        let ((h, current), p, q) = >>=-eq-some (Beneficiary.invalidate s.history version) _ e in
        Core-Inv m s t k
          (conflict-Core m s version v small running claimed_as result stored dependency h current t
            task p q)
          v
    checked-Inv false dependency t task scan e =
        Passes-Inv m s t k
          (pass-Passes dependency t task
            (IsCurrent-Stays-All m s.memory s.history k result.read_set (
              (check_reads-IsCurrent m.keys m.revm s.memory s.history k result.read_set false
                  dependency scan).0
                refl))
            e)
          v

    result_Inv :
        (x : Result (EvmError m.Invalid m.Fatal) (SpeculativeResult m)) (t : Scheduler m)
        (task : Option Task)
        → result.execute_result ≡ x
        → validate_result m s version result ≡ some (t, task)
        → Inv m t
    unfolding validate_result
    result_Inv (err x) t task h e =
        let given : abort m s (parallel_error k) ≡ t = ground (arith, h, e) in
        subst (Inv m) given (abort-Inv s k v)
    result_Inv (ok x) t task h e =
        let given : (do
          (conflicting, dependency) ←
              check_reads m.keys m.revm s.memory s.history k result.read_set (false, none)
          checked conflicting dependency)
            ≡ some (t, task) =
          ground (arith, h, e) in
        let ((conflicting, dependency), p, q) =
          >>=-eq-some (check_reads m.keys m.revm s.memory s.history k result.read_set (false, none))
            _ given in
        checked-Inv conflicting dependency t task p q

  validate_cases :
      (s t : Scheduler m) (version : TxVersion) (task : Option Task)
      → validate m s version ≡ some (t, task)
      → (t ≡ s)
        ⊎ ((t ≡ abort m s (parallel_error version.txid))
            ⊎ ((result : TransactionResult m) × (s.tx_results.at version.txid ≡ some result)
                × (status m s version.txid ≡ validating)
                × (incarnation_of m s version.txid ≡ version.incarnation)
                × (validate_result m s version result ≡ some (t, task))))
  unfolding validate
  validate_cases s t version task e = elim (Option-cases (s.tx_results.at version.txid)) [
    | inl missing ↦
        let early : (t ≡ s) ⊎ (t ≡ abort m s (parallel_error version.txid)) =
          ground (arith, e, missing) in
        elim early [ inl same ↦ inl same | inr stopped ↦ inr (inl stopped) ]
    | inr (result, stored) ↦
        let cases : (t ≡ s)
            ⊎ ((t ≡ abort m s (parallel_error version.txid))
                ⊎ ((status m s version.txid ≡ validating)
                    × (incarnation_of m s version.txid ≡ version.incarnation)
                    × (validate_result m s version result ≡ some (t, task)))) =
          ground (arith, e, stored) in
        elim cases [
          | inl same ↦ inl same
          | inr (inl stopped) ↦ inr (inl stopped)
          | inr (inr (a, b, c)) ↦ inr (inr (result, stored, a, b, c))
        ]
  ]

  -- A validation task keeps the invariant.
  pub validate-Inv :
      (s t : Scheduler m) (version : TxVersion) (task : Option Task)
      → Inv m s
      → s.ctx.logical_clock + 2 < usize_mod
      → validate m s version ≡ some (t, task)
      → Inv m t
  validate-Inv s t version task v small e = elim (validate_cases s t version task e) [
    | inl same ↦ subst (Inv m) (sym same) v
    | inr (inl stopped) ↦ subst (Inv m) (sym stopped) (abort-Inv s version.txid v)
    | inr (inr (result, stored, running, claimed_as, q)) ↦
        result_Inv s version v small running claimed_as result stored result.execute_result t task
          refl q
  ]
