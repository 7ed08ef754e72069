-- ===== src/Replay/Quiet.antt =====
-- src/scheduler.rs: what a round of the commit loop leaves alone.
use grevm.Prelude.{
  ℕ, ◌≡◌, ◌⊎◌, Bool, true, Option, none, some, refl, arith, Bool-cases, ◌>>=◌, >>=-eq-some,
  some-injective, inl, inr, subst, ltb, length, cell, put,
}
use grevm.Model.{ok, err, Result}
use grevm.Dependency
use grevm.Scheduler.{Machine, Scheduler, abort, EvmError, SpeculativeResult, TransactionResult}
use grevm.Commit.{
  Committed, TxEnv, Ledger, commit_result, CommitOutcome, committed, needs_sequential_fallback,
  failed,
}
use grevm.Replay.{Progress, idle, stopped, commit_round, commit_stored, commit_executed, settle}

module _ (m : Machine) (c : Committed m) where
  -- What a round keeps of the scheduler; one that stops leaves it aborted.
  pub record Quiet (s t : Scheduler m) (p : Progress m c) : Type 0 where
    pub size : t.block_size ≡ s.block_size
    pub lower : t.ctx.lower_timestamps ≡ s.ctx.lower_timestamps
    pub validated : t.ctx.unconfirmed_timestamps ≡ s.ctx.unconfirmed_timestamps
    pub aborts : s.aborted ≡ true → t.aborted ≡ true
    pub stops : (e : Option (ℕ × m.Fatal)) → p ≡ stopped e → t.aborted ≡ true
    pub beneficiary : t.beneficiary ≡ s.beneficiary
    pub states : t.tx_states ≡ s.tx_states
    pub len : t.tx_results.len ≡ s.tx_results.len
    pub results : (i : ℕ) → (t.tx_results.at i ≡ none) ⊎ (t.tx_results.at i ≡ s.tx_results.at i)

  abbrev pub IsQuiet : Scheduler m → Scheduler m × Ledger m c × Progress m c → Type 0
  IsQuiet s (t, l, p) = Quiet s t p

  -- A stop after an abort.
  aborted-Quiet :
      (s t : Scheduler m) (p : Progress m c)
      → t.block_size ≡ s.block_size
      → t.ctx ≡ s.ctx
      → t.aborted ≡ true
      → t.beneficiary ≡ s.beneficiary
      → t.tx_states ≡ s.tx_states
      → t.tx_results ≡ s.tx_results
      → Quiet s t p
  aborted-Quiet s t p a b d f g x = record {
    size = a;
    lower = ground (arith, b);
    validated = ground (arith, b);
    aborts = λ h. d;
    stops = λ e h. d;
    beneficiary = f;
    states = g;
    len = ground (arith, x);
    results = λ i. inr (ground (arith, x));
  }

  settle-Quiet :
      (s : Scheduler m) (txid : ℕ) (o : Ledger m c × CommitOutcome m.Fatal)
      (r : Scheduler m × Ledger m c × Progress m c)
      → settle m c s txid o ≡ some r
      → IsQuiet s r
  unfolding settle abort
  settle-Quiet s txid (k, committed next) r e =
      let (d, _, q) = >>=-eq-some (Dependency.commit s.tx_dependency txid) _ e in
      subst (IsQuiet s) (some-injective q) (record {
        size = refl;
        lower = refl;
        validated = refl;
        aborts = λ h. h;
        stops = λ x h. ground (arith, h);
        beneficiary = refl;
        states = refl;
        len = refl;
        results = λ i. inr refl;
      })
  settle-Quiet s txid (k, needs_sequential_fallback) r e =
      subst (IsQuiet s) (some-injective e) (aborted-Quiet s _ _ refl refl refl refl refl refl)
  settle-Quiet s txid (k, failed at x) r e =
      subst (IsQuiet s) (some-injective e) (aborted-Quiet s _ _ refl refl refl refl refl refl)

  commit_executed-Quiet :
      (tx : TxEnv m.keys.Address) (disable : Bool) (s : Scheduler m) (l : Ledger m c)
      (x : Result (EvmError m.Invalid m.Fatal) (SpeculativeResult m))
      (r : Scheduler m × Ledger m c × Progress m c)
      → commit_executed m c tx disable s l x ≡ some r
      → IsQuiet s r
  unfolding commit_executed abort
  commit_executed-Quiet tx disable s l (err x) r e =
      subst (IsQuiet s) (some-injective e) (aborted-Quiet s _ _ refl refl refl refl refl refl)
  commit_executed-Quiet tx disable s l (ok result) r e =
      let (o, p, q) =
        >>=-eq-some (commit_result m c s.beneficiary disable (length l.outcomes) tx result l)
          (settle m c s (length l.outcomes)) e in
      settle-Quiet s (length l.outcomes) o r q

  commit_stored-Quiet :
      (tx : TxEnv m.keys.Address) (disable : Bool) (s : Scheduler m) (l : Ledger m c)
      (x : Option (TransactionResult m)) (r : Scheduler m × Ledger m c × Progress m c)
      → commit_stored m c tx disable s l x ≡ some r
      → IsQuiet s r
  unfolding commit_stored abort
  commit_stored-Quiet tx disable s l none r e =
      subst (IsQuiet s) (some-injective e) (aborted-Quiet s _ _ refl refl refl refl refl refl)
  commit_stored-Quiet tx disable s l (some x) r e =
      commit_executed-Quiet tx disable s l x.execute_result r e

  -- A round keeps the block's size and every timestamp, takes no abort back, and aborts if it stops.
  pub commit_round-Quiet :
      (txs : ℕ → TxEnv m.keys.Address) (disable : Bool) (s : Scheduler m) (l : Ledger m c)
      (r : Scheduler m × Ledger m c × Progress m c)
      → commit_round m c txs disable s l ≡ some r
      → IsQuiet s r
  unfolding commit_round
  commit_round-Quiet txs disable s l r e =
      elim (Bool-cases (ltb (length l.outcomes) s.ctx.finality)) [
        | inr waits ↦
            let same : (s, l, idle) ≡ r = ground (arith, waits) in
            subst (IsQuiet s) same (record {
              size = refl;
              lower = refl;
              validated = refl;
              aborts = λ h. h;
              stops = λ x h. ground (arith, h);
              beneficiary = refl;
              states = refl;
              len = refl;
              results = λ i. inr refl;
            })
        | inl behind ↦
            let next : (do
              stored ← cell s.tx_results (length l.outcomes)
              commit_stored m c (txs (length l.outcomes)) disable
                  (record s { tx_results = put s.tx_results (length l.outcomes) none }) l stored)
                ≡ some r =
              ground (arith, behind) in
            let (stored, p, q) = >>=-eq-some (cell s.tx_results (length l.outcomes)) _ next in
            let v =
              commit_stored-Quiet (txs (length l.outcomes)) disable
                (record s { tx_results = put s.tx_results (length l.outcomes) none }) l stored r
                q in
            record {
              size = v.size;
              lower = v.lower;
              validated = v.validated;
              aborts = v.aborts;
              stops = v.stops;
              beneficiary = v.beneficiary;
              states = v.states;
              len = v.len;
              results = λ i. ground (arith, v.results i);
            }
      ]
