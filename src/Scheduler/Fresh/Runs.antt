-- ===== src/Scheduler/Fresh/Runs.antt =====
-- src/scheduler.rs: the reads of final transactions under interleavings of the roles.
use grevm.Prelude.{
  ℕ, suc, ◌≡◌, ◌≢◌, false, Option, none, some, arith, inl, inr, refl, subst, Bool-cases, ◌>>=◌,
  >>=-eq-some, ◌==◌, cell,
}
use grevm.Model.{
  TransactionStatus, executed, validating, unconfirmed, validation, finality, TxState, Task,
}
use grevm.Context
use grevm.Dependency
use grevm.Scheduler.{Machine, Scheduler, execution_task, set_status}
use grevm.Scheduler.Validate.{claim_validation, claim_execution}
use grevm.Scheduler.Coordinate.{FinalityLoop, finalize, finality_candidate}
use grevm.Scheduler.Lifecycle.{status}
use grevm.Scheduler.Fresh.{is_open}
use grevm.Scheduler.Fresh.Calm.{Ticks, Ticks-refl, Quietly, same, claimed, moved, Calm, Calm-same}
use grevm.Scheduler.Fresh.Clock.{next_validation_idx-Ticks}
use grevm.Scheduler.Fresh.Finish.{execution_task-Calm}

module _ (m : Machine) where
  -- A claimed validation.
  validating_Calm :
      (s : Scheduler m) (ctx : Context.SchedulerContext) (idx : ℕ)
      → Ticks s.ctx ctx
      → is_open (status m s idx) ≡ false
      → status m s idx ≢ finality
      → Calm m s (set_status m (record s { ctx = ctx }) idx validating)
  validating_Calm s ctx idx x solid open_tx = record {
    memory = refl;
    results = refl;
    history = refl;
    states = λ i. elim (Bool-cases (idx == i)) [
      | inr apart ↦ same (ground (arith, apart))
      | inl at ↦
          let here : idx ≡ i = ground (arith, at) in
          subst (λ (y : ℕ). Quietly m s (set_status m (record s { ctx = ctx }) idx validating) y)
            here
            (moved solid (ground arith) (ground arith) (λ h. absurd (ground (arith, h)))
              (λ h. absurd (open_tx h)))
    ];
    ticks = x;
  }

  abbrev by_status :
      Scheduler m → Context.SchedulerContext → ℕ → TxState → Option (Scheduler m × Option Task)
  by_status s ctx idx tx = elim tx.status [
    | executed ↦ some (
      set_status m (record s { ctx = ctx }) idx validating,
      some (validation (record { txid = idx; incarnation = tx.incarnation })),
    )
    | unconfirmed ↦ some (
      set_status m (record s { ctx = ctx }) idx validating,
      some (validation (record { txid = idx; incarnation = tx.incarnation })),
    )
    | _ ↦ some (record s { ctx = ctx }, none)
  ]

  by_status-Calm :
      (s t : Scheduler m) (task : Option Task) (ctx : Context.SchedulerContext) (idx : ℕ)
      (st : TransactionStatus) (tx : TxState)
      → Ticks s.ctx ctx
      → s.tx_states.at idx ≡ tx
      → tx.status ≡ st
      → by_status s ctx idx tx ≡ some (t, task)
      → Calm m s t
  by_status-Calm s t task ctx idx executed tx x here h q =
      let given : set_status m (record s { ctx = ctx }) idx validating ≡ t = ground (arith, q, h) in
      subst (Calm m s) given
        (validating_Calm s ctx idx x (ground (arith, here, h)) (λ z. ground (arith, here, h, z)))
  by_status-Calm s t task ctx idx unconfirmed tx x here h q =
      let given : set_status m (record s { ctx = ctx }) idx validating ≡ t = ground (arith, q, h) in
      subst (Calm m s) given
        (validating_Calm s ctx idx x (ground (arith, here, h)) (λ z. ground (arith, here, h, z)))
  by_status-Calm s t task ctx idx _ tx x here h q =
      let given : record s { ctx = ctx } ≡ t = ground (arith, q, h) in
      subst (Calm m s) given (Calm-same m s (record s { ctx = ctx }) refl refl refl refl x)

  abbrev after_claim :
      Scheduler m → Context.SchedulerContext → Option ℕ → Option (Scheduler m × Option Task)
  after_claim s ctx none = some (record s { ctx = ctx }, none)
  after_claim s ctx (some idx) = do tx ← cell s.tx_states idx; by_status s ctx idx tx

  abbrev after_next :
      Scheduler m → Dependency.TxDependency → Option ℕ → Option (Scheduler m × Option Task)
  after_next s d none = some (record s { tx_dependency = d }, none)
  after_next s d (some idx) = execution_task m (record s { tx_dependency = d }) idx

  claimed_Calm :
      (s t : Scheduler m) (task : Option Task) (ctx : Context.SchedulerContext) (claim : Option ℕ)
      → Ticks s.ctx ctx
      → after_claim s ctx claim ≡ some (t, task)
      → Calm m s t
  claimed_Calm s t task ctx none x q =
      let given : record s { ctx = ctx } ≡ t = ground (arith, q) in
      subst (Calm m s) given (Calm-same m s (record s { ctx = ctx }) refl refl refl refl x)
  claimed_Calm s t task ctx (some idx) x q =
      let (tx, p, q₁) = >>=-eq-some (cell s.tx_states idx) (by_status s ctx idx) q in
      by_status-Calm s t task ctx idx tx.status tx x (ground (arith, p)) refl q₁

  pub claim_validation_effect :
      (s t : Scheduler m) (task : Option Task) → claim_validation m s ≡ some (t, task) → Calm m s t
  unfolding claim_validation
  claim_validation_effect s t task e =
      let ((ctx, claim), p, q) =
        >>=-eq-some (Context.next_validation_idx s.ctx s.tx_dependency.index) _ e in
      claimed_Calm s t task ctx claim
        (next_validation_idx-Ticks s.tx_dependency.index s.ctx ctx claim p) q

  rebased :
      (s t : Scheduler m) (d : Dependency.TxDependency) (i : ℕ)
      → Quietly m (record s { tx_dependency = d }) t i
      → Quietly m s t i
  rebased s t d i (same e) = same e
  rebased s t d i (claimed a b c) = claimed a b c
  rebased s t d i (moved a b c e f) = moved a b c e f

  pub claim_execution_effect :
      (s t : Scheduler m) (task : Option Task) → claim_execution m s ≡ some (t, task) → Calm m s t
  unfolding claim_execution
  claim_execution_effect s t task e =
      let ((d, claim), p, q) = >>=-eq-some (Dependency.next s.tx_dependency) _ e in
      by_claim d claim q
    where
      by_claim :
          (d : Dependency.TxDependency) (claim : Option ℕ)
          → after_next s d claim ≡ some (t, task)
          → Calm m s t
      by_claim d none q =
          let given : record s { tx_dependency = d } ≡ t = ground (arith, q) in
          subst (Calm m s) given (
            Calm-same m s (record s { tx_dependency = d }) refl refl refl refl
              (Ticks-refl s.ctx s.ctx refl))
      by_claim d (some idx) q =
          let c = execution_task-Calm m (record s { tx_dependency = d }) idx t task q in
          record {
            memory = c.memory;
            results = c.results;
            history = c.history;
            states = λ i. rebased s t d i (c.states i);
            ticks = c.ticks;
          }

  abbrev finalized : Scheduler m → ℕ → Scheduler m
  finalized s idx = record (set_status m s idx finality) {
    ctx = Context.publish_finality s.ctx (suc idx);
  }

  finalized-Calm :
      (s : Scheduler m) (idx : ℕ) → status m s idx ≡ unconfirmed → Calm m s (finalized s idx)
  finalized-Calm s idx passed = record {
    memory = refl;
    results = refl;
    history = refl;
    states = λ i. elim (Bool-cases (idx == i)) [
      | inr apart ↦ same (ground (arith, apart))
      | inl at ↦
          let here : idx ≡ i = ground (arith, at) in
          subst (λ (y : ℕ). Quietly m s (finalized s idx) y) here
            (moved (ground (arith, passed)) (ground arith) (ground arith)
              (λ h. ground (arith, passed)) (λ h. ground arith))
    ];
    ticks = record { lower = λ j. omega arith; validated = refl; clock = omega arith; size = refl };
  }

  candidate_unconfirmed :
      (s : Scheduler m) (l : FinalityLoop) (effective : ℕ)
      → finality_candidate m s l ≡ some (some effective)
      → status m s l.finality_idx ≡ unconfirmed
  unfolding finality_candidate
  candidate_unconfirmed s l effective e = ground (arith, e)

  abbrev after_candidate : Scheduler m → FinalityLoop → Option ℕ → Scheduler m
  after_candidate s l none = s
  after_candidate s l (some effective) = finalized s l.finality_idx

  candidate_Calm :
      (s : Scheduler m) (l : FinalityLoop) (candidate : Option ℕ)
      → finality_candidate m s l ≡ some candidate
      → Calm m s (after_candidate s l candidate)
  candidate_Calm s l none e = Calm-same m s s refl refl refl refl (Ticks-refl s.ctx s.ctx refl)
  candidate_Calm s l (some effective) e =
      finalized-Calm s l.finality_idx (candidate_unconfirmed s l effective e)

  candidate_result :
      (s t : Scheduler m) (l k : FinalityLoop) (candidate : Option ℕ)
      → finality_candidate m s l ≡ some candidate
      → finalize m s l ≡ some (t, k)
      → after_candidate s l candidate ≡ t
  unfolding finalize
  candidate_result s t l k none p e = ground (arith, p, e)
  candidate_result s t l k (some effective) p e = ground (arith, p, e)

  pub finalize_effect :
      (s t : Scheduler m) (l k : FinalityLoop) → finalize m s l ≡ some (t, k) → Calm m s t
  unfolding finalize
  finalize_effect s t l k e =
      let (candidate, p, _) = >>=-eq-some (finality_candidate m s l) _ e in
      subst (Calm m s) (candidate_result s t l k candidate p e) (candidate_Calm s l candidate p)
