-- ===== src/Scheduler/Fresh/Attempt.antt =====
-- src/scheduler.rs: an incarnation that has run, and whether the history takes its effect.
use grevm.Prelude.{
  ℕ, ◌+◌, ◌≡◌, ◌≢◌, ◌<◌, Bool, true, false, some, List, [], ◌∷◌, arith, inl, inr, refl, subst,
  Bool-cases, usize_mod,
}
use grevm.Model.{executing, TxVersion}
use grevm.Memory.{Memory, Location, MemoryEntry, location_eq}
use grevm.IncarnationDb.{Accesses, is_blocked}
use grevm.IncarnationDb.Publish.{contains_location}
use grevm.IncarnationDb.Publish.Written.{location_eq_sound}
use grevm.Beneficiary.{History}
use grevm.Beneficiary.Recorded.{Recorded, record_estimate-Recorded, record_execution-Recorded}
use grevm.Scheduler.{Machine, Scheduler, SpeculativeResult}
use grevm.Scheduler.Execute.{publish_history, expands, account_of}
use grevm.Scheduler.Lifecycle.{status}
use grevm.Scheduler.Fresh.{incarnation_of, Stuck, Covers, Inv}
use grevm.Scheduler.Fresh.Calm.{Ticks-refl}
use grevm.Scheduler.Fresh.Core.{Core}

module _ (m : Machine) where
  open m use {keys, revm, Invalid, Fatal}
  open keys use {Address}
  open revm use {AccountInfo, Bytecode}

  abbrev pub Store : Type 0
  Store = Memory Address AccountInfo Bytecode

  -- What an incarnation of `k` leaves in the memory.
  pub record Ran (before after : Store) (k : ℕ) (write_set : List (Location Address))
      (blocked : Bool) : Type 0 where
    pub written :
        (l : Location Address)
        → contains_location keys revm write_set l ≡ true
        → (entry : MemoryEntry AccountInfo Bytecode) × (after l k ≡ some entry)
          × (entry.estimate ≡ blocked)
    pub unwritten :
        (l : Location Address)
        → contains_location keys revm write_set l ≡ false
        → after l k ≡ before l k
    pub others : (l : Location Address) (w : ℕ) → w ≢ k → after l w ≡ before l w

  -- A write set that does not expand is part of the previous one.
  pub within_previous :
      (write_set previous : List (Location Address)) (l : Location Address)
      → expands m write_set previous ≡ false
      → contains_location keys revm write_set l ≡ true
      → contains_location keys revm previous l ≡ true
  unfolding contains_location
  within_previous [] previous l e h = absurd (ground (arith, h))
  within_previous (k ∷ ks) previous l e h = elim (Bool-cases (location_eq keys k l)) [
    | inl same ↦
        subst (λ (x : Location Address). contains_location keys revm previous x ≡ true)
          (location_eq_sound keys revm k l same) (ground (arith, e))
    | inr apart ↦ within_previous ks previous l (ground (arith, e)) (ground (arith, h, apart))
  ]

  pub publish_history-Recorded :
      (s : Scheduler m) (version : TxVersion) (accesses : Accesses keys revm)
      (result : SpeculativeResult m) (h : History AccountInfo) (done : Bool)
      → publish_history m s version accesses result ≡ some (h, done)
      → Recorded s.history h version done
  unfolding publish_history
  publish_history-Recorded s version accesses result h done e =
      elim (Bool-cases (is_blocked keys revm accesses)) [
        | inl blocked ↦
            record_estimate-Recorded s.history h version done (ground (arith, e, blocked))
        | inr solid ↦
            record_execution-Recorded revm s.history h version result.deferred_reward
              (account_of m s.beneficiary result.state) done (ground (arith, e, solid))
      ]

  module _ (s : Scheduler m) (version : TxVersion) (v : Inv m s)
      (small : s.ctx.logical_clock + 1 < usize_mod) (running : status m s version.txid ≡ executing)
      (claimed_as : incarnation_of m s version.txid ≡ version.incarnation) where
    abbrev k : ℕ
    k = version.txid

    -- The history has refused the effect, so the transaction stays claimed.
    pub refused-Core :
        (t : Scheduler m)
        → ((l : Location Address) (w : ℕ) → w ≢ k → t.memory l w ≡ s.memory l w)
        → ((i : ℕ) → i ≢ k → t.tx_results.at i ≡ s.tx_results.at i)
        → t.tx_states ≡ s.tx_states
        → t.ctx ≡ s.ctx
        → Recorded s.history t.history version false
        → Core m s t k
    refused-Core t memory results states ctx r = record {
      memory = memory;
      results = results;
      states = λ i h. ground (arith, states);
      histories = λ i h. ground (arith, r.others i h);
      not_final = λ h. ground (arith, running, h);
      not_passed = ground (arith, states, running);
      ticks = Ticks-refl s.ctx t.ctx ctx;
      outcome =
          inl (ground (arith, states, running), ground (arith, states, claimed_as, r.refused refl));
    }

    pub not-Stuck : (h : History AccountInfo) → Recorded s.history h version true → Stuck m s k → ⊥
    not-Stuck h r stuck = ground (arith, r.later refl, stuck.1, claimed_as)

    pub Covers-before : (h : History AccountInfo) → Recorded s.history h version true → Covers m s k
    Covers-before h r = v.covers k (λ x. ground (arith, running, x)) (not-Stuck h r)
