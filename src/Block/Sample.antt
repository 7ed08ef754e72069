-- ===== src/Block/Sample.antt =====
-- A list of turns, played from a state of the threads.
use grevm.Prelude.{
  ℕ, ◌≡◌, Bool, Option, some, List, [], ◌∷◌, ◌>>=◌, >>=-eq-some, some-injective, subst, put, cell,
}
use grevm.Scheduler.{Machine, Evm}
use grevm.Commit.{Committed, TxEnv}
use grevm.Block.{
  worker_step, finality_step, commit_step, Threads, Step, works, finalizes, commits, Reach, steps,
}

-- Whose turn it is.
pub data Turn : Type 0 where
  worker : ℕ → Turn
  finality_loop commit_loop : Turn

module _ (m : Machine) (c : Committed m) (txs : ℕ → TxEnv m.keys.Address) (disable : Bool)
    (evm : Evm m) where
  unfoldable pub take_turn : Turn → Threads m c → Option (Threads m c)
  take_turn (worker i) r = do
    p ← cell r.workers i
    (s, q) ← worker_step m evm p r.scheduler
    some (record r { scheduler = s; workers = put r.workers i q })
  take_turn finality_loop r = do
    (s, l, q) ← finality_step m r.finality r.scheduler r.loop
    some (record r { scheduler = s; loop = l; finality = q })
  take_turn commit_loop r = do
    (s, k, q) ← commit_step m c txs disable r.commit r.scheduler r.ledger
    some (record r { scheduler = s; ledger = k; commit = q })

  unfoldable pub play : List Turn → Threads m c → Option (Threads m c)
  unfolding take_turn
  play [] r = some r
  play (t ∷ ts) r = do r₁ ← take_turn t r; play ts r₁

  take_turn-Step :
      (t : Turn) (r r' : Threads m c) → take_turn t r ≡ some r' → Step m c txs disable r r'
  unfolding take_turn
  take_turn-Step (worker i) r r' e =
      let (p, a, e₁) = >>=-eq-some (cell r.workers i) _ e in
      let ((s, q), b, e₂) = >>=-eq-some (worker_step m evm p r.scheduler) _ e₁ in
      subst (Step m c txs disable r) (some-injective e₂) (works i evm p q s a b)
  take_turn-Step finality_loop r r' e =
      let ((s, l, q), b, e₁) = >>=-eq-some (finality_step m r.finality r.scheduler r.loop) _ e in
      subst (Step m c txs disable r) (some-injective e₁) (finalizes s l q b)
  take_turn-Step commit_loop r r' e =
      let ((s, k, q), b, e₁) =
        >>=-eq-some (commit_step m c txs disable r.commit r.scheduler r.ledger) _ e in
      subst (Step m c txs disable r) (some-injective e₁) (commits s k q b)

  pub play-Reach :
      (ts : List Turn) (start r r' : Threads m c)
      → Reach m c txs disable start r
      → play ts r ≡ some r'
      → Reach m c txs disable start r'
  unfolding play
  play-Reach [] start r r' before e = subst (Reach m c txs disable start) (some-injective e) before
  play-Reach (t ∷ ts) start r r' before e =
      let (r₁, a, e₁) = >>=-eq-some (take_turn t r) (play ts) e in
      play-Reach ts start r₁ r' (steps r r₁ before (take_turn-Step t r r₁ a)) e₁
