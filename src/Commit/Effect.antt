-- ===== src/Commit/Effect.antt =====
-- src/scheduler/ordered_commit.rs: what a commit does to the outcomes and to the state.
use grevm.Prelude.{
  ℕ, suc, ◌≡◌, Bool, false, not, ◌&&◌, Option, none, some, [], ◌∷◌, ◌++◌, refl, arith, ◌==◌, ◌⊎◌,
  ◌≢◌, inl, inr, Bool-cases, Option-cases, length, subst,
}
use grevm.Model.{Result, ok, err}
use grevm.Scheduler.{Machine, SpeculativeResult, EvmState}
use grevm.Beneficiary.{apply_to}
use grevm.Scheduler.Execute.{account_of}
use grevm.Commit.{
  Committed, executed, TxEnv, CommitOutcome, committed, needs_sequential_fallback, failed, Ledger,
  commit_result, apply_result, fold_reward, check_nonce, u64_max,
}

module _ (m : Machine) (c : Committed m) where
  -- The nonce that the committed state expects next from the caller.
  abbrev pub expected_nonce : c.State → m.keys.Address → Option ℕ
  expected_nonce state caller = elim (c.basic_ref state caller) [
    | err e ↦ none
    | ok info ↦ some (elim info [ none ↦ 0 | some i ↦ m.revm.nonce i ])
  ]

  -- The caller's nonce passes: it is the expected one, and another transaction can follow it.
  abbrev pub Passes : c.State → TxEnv m.keys.Address → Type 0
  Passes state tx = (expected_nonce state tx.caller ≡ some tx.nonce) × (tx.nonce ≢ u64_max)

  -- The account changes that a commit applies: the result's, and, if it defers a reward, the
  -- beneficiary's committed account with that reward added, of which the result has no change.
  pub data Folded (beneficiary : m.keys.Address) (state : c.State) (result : SpeculativeResult m)
      : EvmState m → Type 0 where
    undeferred : result.deferred_reward ≡ none → Folded beneficiary state result result.state
    credited :
        (amount : ℕ) (info : Option m.revm.AccountInfo)
        → result.deferred_reward ≡ some amount
        → account_of m beneficiary result.state ≡ none
        → c.basic_ref state beneficiary ≡ ok info
        → Folded beneficiary state result
            ((beneficiary, m.revm.touched_account (apply_to m.revm amount info)) ∷ result.state)

  -- What a commit that gave an outcome has done.
  pub data Committing (beneficiary : m.keys.Address) (disable_nonce_check : Bool) (txid : ℕ)
      (tx : TxEnv m.keys.Address) (result : SpeculativeResult m) (l : Ledger m c)
      : Ledger m c → CommitOutcome m.Fatal → Type 0 where
    applies :
        (state : EvmState m)
        → (disable_nonce_check ≡ false → Passes l.state tx)
        → Folded beneficiary l.state result state
        → Committing beneficiary disable_nonce_check txid tx result l
            (record {
              state = c.commit l.state state;
              outcomes = l.outcomes ++ executed result.output ∷ [];
            })
            (committed (suc (length l.outcomes)))
    falls_back :
        (nonce : ℕ)
        → disable_nonce_check ≡ false
        → expected_nonce l.state tx.caller ≡ some nonce
        → (nonce ≢ tx.nonce) ⊎ (nonce ≡ u64_max)
        → Committing beneficiary disable_nonce_check txid tx result l l needs_sequential_fallback
    cannot_check :
        (e : m.Fatal)
        → disable_nonce_check ≡ false
        → c.basic_ref l.state tx.caller ≡ err e
        → Committing beneficiary disable_nonce_check txid tx result l l (failed txid e)
    cannot_credit :
        (e : m.Fatal) (amount : ℕ)
        → (disable_nonce_check ≡ false → Passes l.state tx)
        → result.deferred_reward ≡ some amount
        → c.basic_ref l.state beneficiary ≡ err e
        → Committing beneficiary disable_nonce_check txid tx result l l (failed txid e)

  module _ (beneficiary : m.keys.Address) (disable : Bool) (txid : ℕ) (tx : TxEnv m.keys.Address)
      (result : SpeculativeResult m) (l l' : Ledger m c) (o : CommitOutcome m.Fatal) where
    abbrev Ends : Ledger m c × CommitOutcome m.Fatal → Type 0
    Ends p = Committing beneficiary disable txid tx result l p.0 p.1

    credited_cases :
        (amount : ℕ) (r : Result m.Fatal (Option m.revm.AccountInfo))
        → (disable ≡ false → Passes l.state tx)
        → result.deferred_reward ≡ some amount
        → account_of m beneficiary result.state ≡ none
        → c.basic_ref l.state beneficiary ≡ r
        → apply_result m c beneficiary txid result l ≡ some (l', o)
        → Ends (l', o)
    unfolding apply_result fold_reward
    credited_cases amount (err e) checked due apart read given =
        subst Ends (ground (arith, due, apart, read, given))
          (cannot_credit e amount checked due read)
    credited_cases amount (ok info) checked due apart read given =
        subst Ends (ground (arith, due, apart, read, given)) (
          applies
            ((beneficiary, m.revm.touched_account (apply_to m.revm amount info)) ∷ result.state)
            checked (credited amount info due apart read))

    apply_result-Committing :
        (disable ≡ false → Passes l.state tx)
        → apply_result m c beneficiary txid result l ≡ some (l', o)
        → Ends (l', o)
    unfolding apply_result fold_reward
    apply_result-Committing checked e = elim (Option-cases result.deferred_reward) [
      | inl none_due ↦
          subst Ends (ground (arith, none_due, e))
            (applies result.state checked (undeferred none_due))
      | inr (amount, due) ↦ elim (Option-cases (account_of m beneficiary result.state)) [
        | inl apart ↦
            credited_cases amount (c.basic_ref l.state beneficiary) checked due apart refl e
        | inr (account, touched) ↦ absurd (ground (arith, due, touched, e))
      ]
    ]

    checked_cases :
        (info : Option m.revm.AccountInfo)
        → disable ≡ false
        → c.basic_ref l.state tx.caller ≡ ok info
        → commit_result m c beneficiary disable txid tx result l ≡ some (l', o)
        → Ends (l', o)
    unfolding commit_result check_nonce
    checked_cases info on read e =
        elim (Bool-cases (not (tx.nonce == u64_max && expect == u64_max) && tx.nonce == expect)) [
          | inl pass ↦
              apply_result-Committing (λ h. (ground (arith, read, pass), ground (arith, pass)))
                (ground (arith, on, read, pass, e))
          | inr stop ↦
              subst Ends (ground (arith, on, read, stop, e))
                (falls_back expect on (ground (arith, read)) (ground (arith, stop)))
        ]
      where
        expect : ℕ
        expect = elim info [ none ↦ 0 | some i ↦ m.revm.nonce i ]

    read_cases :
        (r : Result m.Fatal (Option m.revm.AccountInfo))
        → disable ≡ false
        → c.basic_ref l.state tx.caller ≡ r
        → commit_result m c beneficiary disable txid tx result l ≡ some (l', o)
        → Ends (l', o)
    unfolding commit_result check_nonce
    read_cases (err x) on read e = subst Ends (ground (arith, on, read, e)) (cannot_check x on read)
    read_cases (ok info) on read e = checked_cases info on read e

    -- A commit that does not panic ends in one of four ways. It appends exactly one executed outcome,
    -- and applies once the result's changes, to which a deferred reward adds the beneficiary's committed
    -- account with that reward; the caller's nonce was then the expected one, and not the largest,
    -- unless the check is off. Or it leaves the ledger as it was: and asks for a fallback, with the
    -- check on and the expected nonce not the caller's or the largest; or fails with the error of
    -- reading the caller, with the check on; or with that of reading the beneficiary, with a reward
    -- to add.
    pub commit_result-Committing :
        commit_result m c beneficiary disable txid tx result l ≡ some (l', o)
        → Committing beneficiary disable txid tx result l l' o
    unfolding commit_result
    commit_result-Committing e = elim (Bool-cases disable) [
      | inl off ↦
          apply_result-Committing (λ on. absurd (ground (arith, on, off))) (ground (arith, off, e))
      | inr on ↦ read_cases (c.basic_ref l.state tx.caller) on refl e
    ]
