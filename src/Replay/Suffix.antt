-- ===== src/Replay/Suffix.antt =====
-- src/scheduler/fallback.rs and src/scheduler/control.rs: the outcomes of a replay.
use grevm.Prelude.{
  ℕ, zero, suc, ◌+◌, ◌-◌, ◌≡◌, ◌≤◌, ◌<◌, Bool, true, false, Option, none, some, List, [], ◌∷◌, ◌++◌,
  refl, arith, ap, ◌∙◌, sym, ◌==◌, inl, inr, Bool-cases, length, length-append, subst,
}
use mathlib.Core.List.{append_assoc, append-nil}
use grevm.Model.{Result, ok, err}
use grevm.Scheduler.{
  EvmError, transaction, fatal, Machine, Scheduler, AbortReason, fatal_evm_error, commit_error,
  parallel_error, fallback_sequential,
}
use grevm.Commit.{Committed, Outcome, executed, skipped, Ledger}
use grevm.Replay.{GrevmError, at_tx, custom, Transact, execute_suffix, replay_suffix, post_execute}

module _ (m : Machine) (c : Committed m) where
  -- The new outcomes stand behind the old ones, up to block position `stop`.
  pub record Extended (l l' : Ledger m c) (stop : ℕ) : Type 0 where
    pub added : List (Outcome m.Output m.Invalid)
    pub behind : l'.outcomes ≡ l.outcomes ++ added
    pub reaches : length l'.outcomes ≡ stop

  -- A replay ends behind the last transaction, or at the one whose error it returns.
  abbrev pub Replayed : Ledger m c → ℕ → Ledger m c × Option (GrevmError m.Invalid m.Fatal) → Type 0
  Replayed l block_size (l', none) = Extended l l' block_size
  Replayed l block_size (l', some (at_tx txid e)) =
      Extended l l' txid × (txid < block_size) × ((x : m.Fatal) × (e ≡ fatal x))
  Replayed l block_size (l', some (custom txid)) = ⊥

  one_more :
      (l l₁ l' : Ledger m c) (o : Outcome m.Output m.Invalid) (stop : ℕ)
      → l₁.outcomes ≡ l.outcomes ++ o ∷ []
      → Extended l₁ l' stop
      → Extended l l' stop
  one_more l l₁ l' o stop e x = record {
    added = o ∷ x.added;
    behind =
        x.behind
        ∙ ap (λ (os : List (Outcome m.Output m.Invalid)). os ++ x.added) e
        ∙ append_assoc l.outcomes (o ∷ []) x.added;
    reaches = x.reaches;
  }

  Replayed-after :
      (l l₁ : Ledger m c) (o : Outcome m.Output m.Invalid) (block_size : ℕ)
      (r : Ledger m c × Option (GrevmError m.Invalid m.Fatal))
      → l₁.outcomes ≡ l.outcomes ++ o ∷ []
      → Replayed l₁ block_size r
      → Replayed l block_size r
  Replayed-after l l₁ o n (l', none) e x = one_more l l₁ l' o n e x
  Replayed-after l l₁ o n (l', some (at_tx txid failure)) e (x, y, z) =
      (one_more l l₁ l' o txid e x, y, z)
  Replayed-after l l₁ o n (l', some (custom txid)) e x = x

  -- Sequential execution that starts at the position behind the outcomes gives every remaining transaction one outcome, in
  -- block order, behind the outcomes so far; if revm fails on one, it stops there with that error.
  pub execute_suffix-Replayed :
      (transact : Transact m c) (left txid : ℕ) (l : Ledger m c)
      → length l.outcomes ≡ txid
      → Replayed l (txid + left) (execute_suffix m c transact left txid l)
  unfolding execute_suffix
  execute_suffix-Replayed transact zero txid l e = record {
    added = [];
    behind = sym (append-nil l.outcomes);
    reaches = omega (arith, e);
  }
  execute_suffix-Replayed transact (suc left) txid l e =
      next_result (transact l.state txid) refl (λ l₁ o p.
        Replayed-after l l₁ o (txid + suc left) _ p (
          subst (λ (stop : ℕ). Replayed l₁ stop (execute_suffix m c transact left (suc txid) l₁))
            (omega arith)
            (execute_suffix-Replayed transact left (suc txid) l₁
              (ground (arith, p, length-append l.outcomes (o ∷ []), e)))))
    where
      next_result :
          (r : Result (EvmError m.Invalid m.Fatal) (m.Output × c.State))
          → transact l.state txid ≡ r
          → ((l₁ : Ledger m c) (o : Outcome m.Output m.Invalid)
              → l₁.outcomes ≡ l.outcomes ++ o ∷ []
              → Replayed l (txid + suc left) (execute_suffix m c transact left (suc txid) l₁))
          → Replayed l (txid + suc left) (execute_suffix m c transact (suc left) txid l)
      next_result (ok (output, state)) h rest =
          rw (h, execute_suffix)
            (rest (record { state = state; outcomes = l.outcomes ++ executed output ∷ [] })
              (executed output) refl)
      next_result (err (transaction x)) h rest =
          rw (h, execute_suffix)
            (rest (record l { outcomes = l.outcomes ++ skipped x ∷ [] }) (skipped x) refl)
      next_result (err (fatal x)) h rest =
          rw (h, execute_suffix)
            (
              record { added = []; behind = sym (append-nil l.outcomes); reaches = e },
              omega arith,
              (x, refl),
            )

  -- The reasons that leave the rest of the block to sequential replay.
  abbrev pub is_replayed : Option (AbortReason m) → Bool
  is_replayed none = true
  is_replayed (some (fatal_evm_error txid)) = false
  is_replayed (some (commit_error txid e)) = false
  is_replayed (some (parallel_error txid)) = true
  is_replayed (some fallback_sequential) = true

  pub replay_suffix-Replayed :
      (transact : Transact m c) (block_size : ℕ) (l : Ledger m c)
      → length l.outcomes ≤ block_size
      → Replayed l block_size (replay_suffix m c transact block_size (length l.outcomes) l)
  unfolding replay_suffix
  replay_suffix-Replayed transact block_size l le =
      elim (Bool-cases (length l.outcomes == block_size)) [
        | inl full ↦
            let same : (l, none) ≡ replay_suffix m c transact block_size (length l.outcomes) l =
              ground (arith, full) in
            subst (Replayed l block_size) same (record {
              added = [];
              behind = sym (append-nil l.outcomes);
              reaches = ground (arith, full);
            })
        | inr more ↦ subst (Replayed l block_size) (ground (arith, more)) (
            subst
              (λ (stop : ℕ). Replayed l stop (
                execute_suffix m c transact (block_size - length l.outcomes) (length l.outcomes) l))
              (omega arith)
              (execute_suffix-Replayed transact (block_size - length l.outcomes) (length l.outcomes)
                l refl))
      ]

  -- If no more outcomes than the block has transactions are there, after an abort for a fallback, for a
  -- parallel error or without a reason, every transaction of the block has one
  -- outcome, behind those committed in parallel, unless revm fails on one of the rest.
  pub post_execute-Replayed :
      (transact : Transact m c) (s : Scheduler m) (l : Ledger m c)
      → s.aborted ≡ true
      → is_replayed s.abort_reason ≡ true
      → length l.outcomes ≤ s.block_size
      → Replayed l s.block_size (post_execute m c transact s l)
  unfolding post_execute
  post_execute-Replayed transact s l aborted recovers le = by_reason s.abort_reason refl recovers
    where
      by_reason :
          (r : Option (AbortReason m))
          → s.abort_reason ≡ r
          → is_replayed r ≡ true
          → Replayed l s.block_size (post_execute m c transact s l)
      by_reason none h ok_reason =
          subst (Replayed l s.block_size) (ground (arith, h, aborted))
            (replay_suffix-Replayed transact s.block_size l le)
      by_reason (some (parallel_error txid)) h ok_reason =
          subst (Replayed l s.block_size) (ground (arith, h, aborted))
            (replay_suffix-Replayed transact s.block_size l le)
      by_reason (some fallback_sequential) h ok_reason =
          subst (Replayed l s.block_size) (ground (arith, h, aborted))
            (replay_suffix-Replayed transact s.block_size l le)
      by_reason (some (fatal_evm_error txid)) h ok_reason = absurd (ground (arith, ok_reason))
      by_reason (some (commit_error txid e)) h ok_reason = absurd (ground (arith, ok_reason))
