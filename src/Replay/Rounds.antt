-- ===== src/Replay/Rounds.antt =====
-- src/scheduler.rs: what a round of the commit loop leaves.
use grevm.Prelude.{
  some-injective, ℕ, ◌≡◌, ◌≤◌, ◌<◌, Bool, Option, none, some, [], ◌∷◌, ◌++◌, refl, arith, ltb, inl,
  inr, put, cell, Bool-cases, ◌>>=◌, >>=-eq-some, length, length-append, subst, ltb→lt,
}
use grevm.Model.{Result, ok, err}
use grevm.Dependency
use grevm.Scheduler.{
  EvmError, Machine, Scheduler, abort, SpeculativeResult, TransactionResult, parallel_error,
}
use grevm.Commit.{Committed, executed, Ledger, TxEnv, CommitOutcome, commit_result}
use grevm.Commit.Effect.{
  Committing, applies, falls_back, cannot_check, cannot_credit, commit_result-Committing,
}
use grevm.Replay.{
  Progress, advanced, idle, stopped, settle, commit_executed, commit_stored, commit_round,
}

module _ (m : Machine) (c : Committed m) where
  -- The published boundary is the end of the outcomes, which finality bounds.
  pub record Inv (s : Scheduler m) (l : Ledger m c) : Type 0 where
    pub published : s.ctx.committed ≡ length l.outcomes
    pub bounded : length l.outcomes ≤ s.ctx.finality

  -- What a round leaves: one more executed outcome exactly when it advances.
  abbrev pub Grown : Ledger m c → Ledger m c → Progress m c → Type 0
  Grown l l' advanced = (o : m.Output) × (l'.outcomes ≡ l.outcomes ++ executed o ∷ [])
  Grown l l' idle = l' ≡ l
  Grown l l' (stopped e) = l' ≡ l

  abbrev pub Settled : Scheduler m → Ledger m c → Scheduler m × Ledger m c × Progress m c → Type 0
  Settled s l (t, k, p) =
      Inv t k × Grown l k p × (t.tx_states ≡ s.tx_states) × (t.ctx.finality ≡ s.ctx.finality)

  settle-Settled :
      (disable : Bool) (tx : TxEnv m.keys.Address) (result : SpeculativeResult m) (s : Scheduler m)
      (l l' : Ledger m c) (o : CommitOutcome m.Fatal) (r : Scheduler m × Ledger m c × Progress m c)
      → Inv s l
      → length l.outcomes < s.ctx.finality
      → Committing m c s.beneficiary disable (length l.outcomes) tx result l l' o
      → settle m c s (length l.outcomes) (l', o) ≡ some r
      → Settled s l r
  unfolding settle abort
  settle-Settled disable tx result s l _ _ r v lt (applies state checked folded) e =
      let (d, _, q) = >>=-eq-some (Dependency.commit s.tx_dependency (length l.outcomes)) _ e in
      subst (Settled s l) (some-injective q) (
        record {
          published = ground (arith, length-append l.outcomes (executed result.output ∷ []));
          bounded = ground (arith, length-append l.outcomes (executed result.output ∷ []));
        },
        (result.output, refl),
        refl,
        refl,
      )
  settle-Settled disable tx result s l _ _ r v lt (falls_back n on read stale) e =
      subst (Settled s l) (some-injective e)
        (record { published = v.published; bounded = v.bounded }, refl, refl, refl)
  settle-Settled disable tx result s l _ _ r v lt (cannot_check x on read) e =
      subst (Settled s l) (some-injective e)
        (record { published = v.published; bounded = v.bounded }, refl, refl, refl)
  settle-Settled disable tx result s l _ _ r v lt (cannot_credit x amount checked due read) e =
      subst (Settled s l) (some-injective e)
        (record { published = v.published; bounded = v.bounded }, refl, refl, refl)

  stopped-Settled :
      (s t : Scheduler m) (l : Ledger m c) (e : Option (ℕ × m.Fatal))
      → Inv s l
      → t.ctx ≡ s.ctx
      → t.tx_states ≡ s.tx_states
      → Settled s l (t, l, stopped e)
  stopped-Settled s t l e v same states = (
    record {
      published = ground (arith, same, v.published);
      bounded = ground (arith, same, v.bounded);
    },
    refl,
    states,
    ground (arith, same),
  )

  commit_executed-Settled :
      (tx : TxEnv m.keys.Address) (disable : Bool) (s : Scheduler m) (l : Ledger m c)
      (x : Result (EvmError m.Invalid m.Fatal) (SpeculativeResult m))
      (r : Scheduler m × Ledger m c × Progress m c)
      → Inv s l
      → length l.outcomes < s.ctx.finality
      → commit_executed m c tx disable s l x ≡ some r
      → Settled s l r
  unfolding commit_executed abort
  commit_executed-Settled tx disable s l (err x) r v lt e =
      subst (Settled s l) (some-injective e)
        (stopped-Settled s (abort m s (parallel_error (length l.outcomes))) l none v refl refl)
  commit_executed-Settled tx disable s l (ok result) r v lt e =
      let ((l', o), p, q) =
        >>=-eq-some (commit_result m c s.beneficiary disable (length l.outcomes) tx result l)
          (settle m c s (length l.outcomes)) e in
      settle-Settled disable tx result s l l' o r v lt
        (commit_result-Committing m c s.beneficiary disable (length l.outcomes) tx result l l' o p)
        q

  commit_stored-Settled :
      (tx : TxEnv m.keys.Address) (disable : Bool) (s : Scheduler m) (l : Ledger m c)
      (x : Option (TransactionResult m)) (r : Scheduler m × Ledger m c × Progress m c)
      → Inv s l
      → length l.outcomes < s.ctx.finality
      → commit_stored m c tx disable s l x ≡ some r
      → Settled s l r
  unfolding commit_stored abort
  commit_stored-Settled tx disable s l none r v lt e =
      subst (Settled s l) (some-injective e)
        (stopped-Settled s (abort m s (parallel_error (length l.outcomes))) l none v refl refl)
  commit_stored-Settled tx disable s l (some x) r v lt e =
      commit_executed-Settled tx disable s l x.execute_result r v lt e

  -- A round of the commit loop keeps the published commit boundary at the end of the outcomes and
  -- behind finality. A round that advances appends one executed outcome; one that waits or stops, at
  -- a missing or failed result, a nonce mismatch or a database error, leaves the ledger as it was.
  pub commit_round-Settled :
      (txs : ℕ → TxEnv m.keys.Address) (disable : Bool) (s : Scheduler m) (l : Ledger m c)
      (r : Scheduler m × Ledger m c × Progress m c)
      → Inv s l
      → commit_round m c txs disable s l ≡ some r
      → Settled s l r
  unfolding commit_round
  commit_round-Settled txs disable s l r v e =
      elim (Bool-cases (ltb (length l.outcomes) s.ctx.finality)) [
        | inr waits ↦
            let same : (s, l, idle) ≡ r = ground (arith, waits) in
            subst (Settled s l) same (v, refl, refl, refl)
        | inl behind ↦
            let next : (do
              stored ← cell s.tx_results (length l.outcomes)
              commit_stored m c (txs (length l.outcomes)) disable
                  (record s { tx_results = put s.tx_results (length l.outcomes) none }) l stored)
                ≡ some r =
              ground (arith, behind) in
            let (stored, p, q) = >>=-eq-some (cell s.tx_results (length l.outcomes)) _ next in
            commit_stored-Settled (txs (length l.outcomes)) disable
              (record s { tx_results = put s.tx_results (length l.outcomes) none }) l stored r
              (record { published = v.published; bounded = v.bounded }) (ltb→lt _ _ behind) q
      ]
