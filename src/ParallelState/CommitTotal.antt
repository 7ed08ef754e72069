-- ===== src/ParallelState/CommitTotal.antt =====
-- src/parallel_state.rs: the expectations of a commit.
use grevm.Prelude.{
  ◌≡◌, ◌≢◌, true, Option, none, some, List, [], ◌∷◌, All, if◌then◌else◌, arith, Bool-cases,
  Option-cases, inl, inr, sym, ap, ◌∙◌,
}
use grevm.Revm.{Accounts}
use grevm.Memory.{Keys}
use grevm.ParallelState.{
  StateTypes, CacheAccountInfo, Transition, selfdestruct, newly_created, touch_empty_eip161, change,
}
use grevm.ParallelState.Apply.{untouched, removes, replaces, changes, apply_account_state-Applied}
use grevm.ParallelState.Cache.{
  Cache, apply_account_state, apply_evm_state, insert_code, set_account, set_storage,
}

module _ (keys : Keys) (revm : Accounts) (types : StateTypes revm) where
  open keys use {Address, eqb}
  open revm use {AccountInfo, Account}

  -- A touched account has been loaded, and a created one has its code.
  abbrev pub IsCommittable : Cache keys revm types → Address × Account → Type 0
  IsCommittable c (a, account) =
      (revm.is_touched account ≡ true → c.accounts a ≢ none)
      × (revm.is_created account ≡ true → revm.code (revm.info account) ≢ none)

  insert_code-total :
      (c : Cache keys revm types) (info : AccountInfo)
      → revm.code info ≢ none
      → insert_code keys revm types c info ≢ none
  insert_code-total c info has_code = elim (Option-cases (c.contracts (revm.code_hash info))) [
    | inr (code, known) ↦ λ h. ground (arith, known, h)
    | inl unknown ↦ elim (Option-cases (revm.code info)) [
      | inl missing ↦ λ h. ground (arith, has_code missing)
      | inr (code, given) ↦ λ h. ground (arith, unknown, given, h)
    ]
  ]

  apply_account_state-total :
      (c : Cache keys revm types) (a : Address) (account : Account)
      → IsCommittable c (a, account)
      → apply_account_state keys revm types c a account ≢ none
  unfolding apply_account_state newly_created selfdestruct touch_empty_eip161 change
  apply_account_state-total c a account (cached, coded) =
      elim (Bool-cases (revm.is_touched account)) [
        | inr not_touched ↦ λ h. ground (arith, not_touched, h)
        | inl touched ↦ elim (Option-cases (c.accounts a)) [
          | inl absent ↦ λ h. ground (arith, cached touched absent)
          | inr (old, present) ↦ elim (Bool-cases (revm.is_selfdestructed account)) [
            | inl gone ↦ λ h. ground (arith, touched, present, gone, h)
            | inr kept ↦ elim (Bool-cases (revm.is_created account)) [
              | inr old_account ↦ elim (Bool-cases (revm.is_empty account)) [
                | inl empty ↦ λ h. ground (arith, touched, present, kept, old_account, empty, h)
                | inr filled ↦ λ h. ground (arith, touched, present, kept, old_account, filled, h)
              ]
              | inl created_account ↦
                  let new =
                    (newly_created revm types old (revm.info account)
                      (types.changed_slots account)).0 in
                  let c₁ =
                    set_account keys revm types (set_storage keys revm types c a none) a new in
                  elim (Option-cases (insert_code keys revm types c₁ (revm.info account))) [
                    | inl panics ↦ λ h. ground (
                      arith,
                      insert_code-total c₁ (revm.info account) (coded created_account) panics,
                    )
                    | inr (c₂, inserted) ↦
                        λ h. ground (arith, touched, present, kept, created_account, inserted, h)
                  ]
            ]
          ]
        ]
      ]

  set_account-keeps :
      (c c' : Cache keys revm types) (a : Address) (new : CacheAccountInfo revm types)
      → c'.accounts ≡ (λ b. if eqb a b then some new else c.accounts b)
      → (b : Address) → c.accounts b ≢ none
      → c'.accounts b ≢ none
  set_account-keeps c c' a new accounts b present = elim (Bool-cases (eqb a b)) [
    | inl same ↦ λ h. ground (arith, same, ap (λ f. f b) accounts, h)
    | inr differs ↦ λ h. present (ground (arith, differs, ap (λ f. f b) accounts, h))
  ]

  apply_account_state-keeps :
      (c c' : Cache keys revm types) (a : Address) (account : Account)
      (t : Option (Transition revm types))
      → apply_account_state keys revm types c a account ≡ some (c', t)
      → (b : Address) → c.accounts b ≢ none
      → c'.accounts b ≢ none
  apply_account_state-keeps c c' a account t e b present =
      elim (apply_account_state-Applied keys revm types c c' a account t e) [
        | untouched is same ↦ λ h. present (sym (ap (λ x. x.accounts b) same) ∙ h)
        | removes old new is cached gone known accounts storage ↦
            set_account-keeps c c' a new accounts b present
        | replaces old new info is cached here known accounts storage ↦
            set_account-keeps c c' a new accounts b present
        | changes old new info is cached here known accounts storage ↦
            set_account-keeps c c' a new accounts b present
      ]

  IsCommittable-keeps :
      (c c' : Cache keys revm types) (entries : List (Address × Account))
      → ((b : Address) → c.accounts b ≢ none → c'.accounts b ≢ none)
      → All (IsCommittable c) entries
      → All (IsCommittable c') entries
  IsCommittable-keeps c c' [] keeps all = tt
  IsCommittable-keeps c c' ((a, account) ∷ entries) keeps ((cached, coded), rest) =
      ((λ touched. keeps a (cached touched), coded), IsCommittable-keeps c c' entries keeps rest)

  -- The expectations of a commit hold if each touched account of the transaction's state has been
  -- loaded and each created one comes with its code.
  pub apply_evm_state-total :
      (c : Cache keys revm types) (evm_state : List (Address × Account))
      → All (IsCommittable c) evm_state
      → apply_evm_state keys revm types c evm_state ≢ none
  unfolding apply_evm_state
  apply_evm_state-total c [] all = λ h. ground (arith, h)
  apply_evm_state-total c ((a, account) ∷ rest) (one, others) =
      elim (Option-cases (apply_account_state keys revm types c a account)) [
        | inl panics ↦ λ h. ground (arith, apply_account_state-total c a account one panics)
        | inr ((c₁, t), applied) ↦ elim (Option-cases (apply_evm_state keys revm types c₁ rest)) [
          | inl panics ↦
              let still =
                IsCommittable-keeps c c₁ rest (apply_account_state-keeps c c₁ a account t applied)
                  others in
              λ h. ground (arith, apply_evm_state-total c₁ rest still panics)
          | inr (after, done) ↦ λ h. ground (arith, applied, done, h)
        ]
      ]
