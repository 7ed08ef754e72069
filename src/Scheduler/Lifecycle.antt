-- ===== src/Scheduler/Lifecycle.antt =====
-- src/scheduler.rs: what a worker's task leaves alone.
use grevm.Prelude.{
  ℕ, ◌≡◌, ◌≢◌, ◌≤◌, ◌<◌, Bool, true, false, Option, some, refl, arith, ◌∙◌, sym, if◌then◌else◌, ◌⊎◌,
  inl, inr, ◌>>=◌, >>=-eq-some, subst, usize_add, some-injective,
}
use grevm.Model.{TransactionStatus, executing, TxState, Task}
use grevm.Context
use grevm.Context.{SchedulerContext, tick}
use grevm.Context.Keeps.{KeepsLower, rewind-KeepsLower}
use grevm.Scheduler.{Machine, Scheduler, set_tx, rewind_validation, execution_task}

module _ (m : Machine) where
  abbrev pub status : Scheduler m → ℕ → TransactionStatus
  status s i = (s.tx_states.at i).status

  pub record Frame (txid : ℕ) (s t : Scheduler m) : Type 0 where
    pub size : t.block_size ≡ s.block_size
    pub committed : t.ctx.committed ≡ s.ctx.committed
    pub finality : t.ctx.finality ≡ s.ctx.finality
    pub kept :
        (i : ℕ) → status s i ≡ TransactionStatus.finality → status t i ≡ TransactionStatus.finality
    pub fresh :
        (i : ℕ) → status t i ≡ TransactionStatus.finality → status s i ≡ TransactionStatus.finality
    pub aborts : s.aborted ≡ true → t.aborted ≡ true
    pub lower : (j : ℕ) → j < txid → t.ctx.lower_timestamps.at j ≡ s.ctx.lower_timestamps.at j
    pub validated : (j : ℕ) → s.ctx.unconfirmed_timestamps.at j ≤ t.ctx.unconfirmed_timestamps.at j

  pub Frame-refl :
      (txid : ℕ) (s t : Scheduler m)
      → t.block_size ≡ s.block_size
      → t.ctx ≡ s.ctx
      → t.tx_states ≡ s.tx_states
      → (s.aborted ≡ true → t.aborted ≡ true)
      → Frame txid s t
  Frame-refl txid s t a b c d = record {
    aborts = d;
    size = a;
    committed = ground (arith, b);
    finality = ground (arith, b);
    kept = λ i h. ground (arith, c);
    fresh = λ i h. ground (arith, c);
    lower = λ j h. ground (arith, b);
    validated = λ j. ground (arith, b);
  }

  pub Frame-trans :
      (txid : ℕ) (s t u : Scheduler m) → Frame txid s t → Frame txid t u → Frame txid s u
  Frame-trans txid s t u f g = record {
    size = g.size ∙ f.size;
    aborts = λ h. g.aborts (f.aborts h);
    committed = g.committed ∙ f.committed;
    finality = g.finality ∙ f.finality;
    kept = λ i h. g.kept i (f.kept i h);
    fresh = λ i h. f.fresh i (g.fresh i h);
    lower = λ j h. g.lower j h ∙ f.lower j h;
    validated = λ j. omega (arith, f.validated j, g.validated j);
  }

  pub set_tx-Frame :
      (txid i : ℕ) (s : Scheduler m) (tx : TxState)
      → status s i ≢ TransactionStatus.finality
      → tx.status ≢ TransactionStatus.finality
      → Frame txid s (set_tx m s i tx)
  set_tx-Frame txid i s tx old new = record {
    size = refl;
    aborts = λ h. h;
    committed = refl;
    finality = refl;
    kept = λ j h. ground (arith, old, new);
    fresh = λ j h. ground (arith, old, new);
    lower = λ j h. refl;
    validated = λ j. omega arith;
  }

  pub ctx-Frame :
      (txid : ℕ) (s : Scheduler m) (c : SchedulerContext)
      → KeepsLower txid s.ctx c
      → Frame txid s (record s { ctx = c })
  ctx-Frame txid s c k = record {
    size = refl;
    aborts = λ h. h;
    committed = k.committed;
    finality = k.finality;
    kept = λ j h. h;
    fresh = λ j h. h;
    lower = k.lower;
    validated = k.validated;
  }

  -- Whatever `o` gives, if it gives anything, is framed by `s`.
  abbrev pub Frames : {B : Type 0} → ℕ → Scheduler m → Option (Scheduler m × B) → Type 0
  Frames {B} txid s o = (t : Scheduler m) (b : B) → o ≡ some (t, b) → Frame txid s t

  pub some-Frames :
      {B : Type 0} (txid : ℕ) (s t : Scheduler m) (b : B)
      → Frame txid s t
      → Frames txid s (some (t, b))
  some-Frames {B} txid s t b f u b' e = subst (Frame txid s) (ground arith) f

  pub bind-Frames :
      {X B : Type 0} (txid : ℕ) (s : Scheduler m) (o : Option X) (f : X → Option (Scheduler m × B))
      → ((x : X) → o ≡ some x → Frames txid s (f x))
      → Frames txid s (o >>= f)
  bind-Frames txid s o f h t b e = let (x, p, q) = >>=-eq-some o f e in h x p t b q

  pub if-Frames :
      {B : Type 0} (txid : ℕ) (s : Scheduler m) (test : Bool) (p q : Option (Scheduler m × B))
      → (test ≡ true → Frames txid s p)
      → (test ≡ false → Frames txid s q)
      → Frames txid s (if test then p else q)
  if-Frames txid s true p q f g = f refl
  if-Frames txid s false p q f g = g refl

  pub after-Frames :
      {B : Type 0} (txid : ℕ) (s t : Scheduler m) (o : Option (Scheduler m × B))
      → Frame txid s t
      → Frames txid t o
      → Frames txid s o
  after-Frames txid s t o f g u b e = Frame-trans txid s t u f (g u b e)

  pub rewind-Frame :
      (txid index : ℕ) (s t : Scheduler m)
      → txid ≤ index
      → rewind_validation m s index ≡ some t
      → Frame txid s t
  rewind-Frame txid index s t le e =
      let (c, p, q) =
        >>=-eq-some (Context.rewind_validation_to s.ctx index)
          (λ ctx. some (record s { ctx = ctx })) e in
      subst (Frame txid s) (some-injective q)
        (ctx-Frame txid s c (rewind-KeepsLower txid index s.ctx c le p))

  execution_task_cases :
      (s : Scheduler m) (i : ℕ) (t : Scheduler m) (b : Option Task)
      → execution_task m s i ≡ some (t, b)
      → ((status s i ≢ TransactionStatus.finality)
          × (t
              ≡ set_tx m s i (record (s.tx_states.at i) {
                status = executing;
                incarnation = usize_add (s.tx_states.at i).incarnation 1;
              })))
        ⊎ ((t.block_size ≡ s.block_size)
            × (t.ctx ≡ s.ctx)
            × (t.tx_states ≡ s.tx_states)
            × (t.aborted ≡ s.aborted))
  unfolding execution_task
  execution_task_cases s i t b e = ground arith

  -- `execution_task` claims only a transaction that is not final.
  pub execution_task-Frames :
      (txid execute_id : ℕ) (s : Scheduler m) → Frames txid s (execution_task m s execute_id)
  unfolding execution_task
  execution_task-Frames txid execute_id s t b e = elim (execution_task_cases s execute_id t b e) [
    | inl (old, same) ↦ subst (Frame txid s) (sym same) (
        set_tx-Frame txid execute_id s
          (record (s.tx_states.at execute_id) {
            status = executing;
            incarnation = usize_add (s.tx_states.at execute_id).incarnation 1;
          })
          old (λ h. cc))
    | inr (x, y, z, w) ↦ Frame-refl txid s t x y z (λ h. w ∙ h)
  ]

  pub some-Frames_ctx :
      {B : Type 0} (txid : ℕ) (s : Scheduler m) (c : SchedulerContext) (b : B)
      → KeepsLower txid s.ctx c
      → Frames txid s (some (record s { ctx = c }, b))
  some-Frames_ctx txid s c b k = some-Frames txid s (record s { ctx = c }) b (ctx-Frame txid s c k)
