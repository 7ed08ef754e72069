-- ===== src/ParallelState/Apply.antt =====
-- src/parallel_state.rs: what reads give after a committed transaction.
use grevm.Prelude.{
  ℕ, ◌≡◌, true, Option, none, some, [], ◌∷◌, if◌then◌else◌, arith, refl, Bool-cases, Option-cases,
  inl, inr, ap, ◌∙◌,
}
use grevm.Revm.{Accounts}
use grevm.Account.{unchanged, deleted, created, updated, finalized}
use grevm.Memory.{Keys}
use grevm.ParallelState.{
  StateTypes, CacheAccountInfo, Transition, PlainStorage, present_values, selfdestruct,
  newly_created, touch_empty_eip161, change, had_no_nonce_and_code,
}
use grevm.ParallelState.Cache.{
  Cache, set_account, set_storage, insert_slots, slots_of, with_slots, update_storage_slot,
  insert_code, apply_account_state,
}

module _ (keys : Keys) (revm : Accounts) (types : StateTypes revm) where
  open keys use {Address, eqb, eqb_iff}
  open revm use {AccountInfo, Account}
  open types use {Slot}

  -- An account that does not exist has known storage.
  abbrev pub IsKnown : Cache keys revm types → Type 0
  IsKnown c =
      (a : Address) (x : CacheAccountInfo revm types)
      → c.accounts a ≡ some x
      → x.account ≡ none
      → types.is_storage_known x.status ≡ true

  -- What became of the cached account and its slots, by what the transaction did to the account.
  pub data Applied (c : Cache keys revm types) (a : Address) (account : Account)
      (c' : Cache keys revm types) : Type 0 where
    untouched : finalized revm account ≡ unchanged → c' ≡ c → Applied c a account c'
    removes :
        (old new : CacheAccountInfo revm types)
        → finalized revm account ≡ deleted
        → c.accounts a ≡ some old
        → new.account ≡ none
        → types.is_storage_known new.status ≡ true
        → c'.accounts ≡ (λ b. if eqb a b then some new else c.accounts b)
        → c'.storage ≡ (λ b. if eqb a b then none else c.storage b)
        → Applied c a account c'
    replaces :
        (old new : CacheAccountInfo revm types) (info : AccountInfo)
        → finalized revm account ≡ created info
        → c.accounts a ≡ some old
        → new.account ≡ some info
        → types.is_storage_known new.status ≡ true
        → c'.accounts ≡ (λ b. if eqb a b then some new else c.accounts b)
        → ((b : Address) (k : ℕ)
            → slots_of keys revm types (c'.storage b) k ≡ (
                if eqb a b
                then insert_slots keys revm types
                    (present_values revm types (types.changed_slots account))
                    (λ _. none)
                    k
                else slots_of keys revm types (c.storage b) k))
        → Applied c a account c'
    changes :
        (old new : CacheAccountInfo revm types) (info : AccountInfo)
        → finalized revm account ≡ updated info
        → c.accounts a ≡ some old
        → new.account ≡ some info
        → new.status ≡ types.on_changed old.status (had_no_nonce_and_code revm types old.account)
        → c'.accounts ≡ (λ b. if eqb a b then some new else c.accounts b)
        → ((b : Address) (k : ℕ)
            → slots_of keys revm types (c'.storage b) k ≡ (
                if eqb a b
                then insert_slots keys revm types
                    (present_values revm types (types.changed_slots account))
                    (slots_of keys revm types (c.storage a))
                    k
                else slots_of keys revm types (c.storage b) k))
        → Applied c a account c'

  slots_of-with_slots :
      (c : Cache keys revm types) (a : Address) (slots : PlainStorage revm types) (b : Address)
      (k : ℕ)
      → slots_of keys revm types ((with_slots keys revm types c a slots).storage b) k ≡ (
          if eqb a b
          then insert_slots keys revm types slots (slots_of keys revm types (c.storage a)) k
          else slots_of keys revm types (c.storage b) k)
  unfolding update_storage_slot
  slots_of-with_slots c a [] b k = elim (Bool-cases (eqb a b)) [
    | inl same ↦ ground (arith, same, ap c.storage ((eqb_iff a b).0 same))
    | inr differs ↦ ground (arith, differs)
  ]
  slots_of-with_slots c a (slot ∷ slots) b k = ground arith

  accounts-with_slots :
      (c : Cache keys revm types) (a : Address) (slots : PlainStorage revm types)
      → (with_slots keys revm types c a slots).accounts ≡ c.accounts
  unfolding update_storage_slot
  accounts-with_slots c a [] = refl
  accounts-with_slots c a (slot ∷ slots) = refl

  -- The code of a created account does not touch accounts and storage.
  insert_code-keeps :
      (c c' : Cache keys revm types) (info : AccountInfo)
      → insert_code keys revm types c info ≡ some c'
      → (c'.accounts ≡ c.accounts) × (c'.storage ≡ c.storage)
  insert_code-keeps c c' info e = elim (Option-cases (c.contracts (revm.code_hash info))) [
    | inl absent ↦ elim (Option-cases (revm.code info)) [
      | inl no_code ↦ ground (arith, absent, no_code, e)
      | inr (code, is_code) ↦ ground (arith, absent, is_code, e)
    ]
    | inr (code, present) ↦ ground (arith, present, e)
  ]

  -- A committed account whose storage is removed.
  without : Cache keys revm types → Address → CacheAccountInfo revm types → Cache keys revm types
  without c a new = set_account keys revm types (set_storage keys revm types c a none) a new

  slots-without :
      (c : Cache keys revm types) (a : Address) (new : CacheAccountInfo revm types)
      (slots : PlainStorage revm types) (b : Address) (k : ℕ)
      → (if eqb a b
          then insert_slots keys revm types slots
              (slots_of keys revm types ((without c a new).storage a))
              k
          else slots_of keys revm types ((without c a new).storage b) k)
        ≡ (if eqb a b
            then insert_slots keys revm types slots (λ _. none) k
            else slots_of keys revm types (c.storage b) k)
  unfolding without
  slots-without c a new slots b k = elim (Bool-cases (eqb a b)) [
    | inl same ↦ ground (arith, same, (eqb_iff a a).1 refl)
    | inr differs ↦ ground (arith, differs)
  ]

  replaced-Applied :
      (c c₁ c' : Cache keys revm types) (a : Address) (account : Account)
      (old new : CacheAccountInfo revm types)
      → finalized revm account ≡ created (revm.info account)
      → c.accounts a ≡ some old
      → new.account ≡ some (revm.info account)
      → types.is_storage_known new.status ≡ true
      → insert_code keys revm types (without c a new) (revm.info account) ≡ some c₁
      → c'
        ≡ with_slots keys revm types c₁ a (present_values revm types (types.changed_slots account))
      → Applied c a account c'
  unfolding without
  replaced-Applied c c₁ c' a account old new is_created cached is_new known coded result =
      let (same_accounts, same_storage) =
        insert_code-keeps (without c a new) c₁ (revm.info account) coded in
      let slots = present_values revm types (types.changed_slots account) in
      replaces old new (revm.info account) is_created cached is_new known
        (ap (λ x. x.accounts) result ∙ accounts-with_slots c₁ a slots ∙ same_accounts)
        (λ b k.
          ap (λ x. slots_of keys revm types (x.storage b) k) result
          ∙ slots_of-with_slots c₁ a slots b k
          ∙ ap
              (λ (s : Address → Option (ℕ → Option ℕ)).
                if eqb a b
                then insert_slots keys revm types slots (slots_of keys revm types (s a)) k
                else slots_of keys revm types (s b) k)
              same_storage
          ∙ slots-without c a new slots b k)

  pub apply_account_state-Applied :
      (c c' : Cache keys revm types) (a : Address) (account : Account)
      (t : Option (Transition revm types))
      → apply_account_state keys revm types c a account ≡ some (c', t)
      → Applied c a account c'
  unfolding apply_account_state selfdestruct newly_created touch_empty_eip161 change without
  apply_account_state-Applied c c' a account t e = elim (Bool-cases (revm.is_touched account)) [
    | inr untouched_account ↦ untouched (ground arith) (ground (arith, untouched_account, e))
    | inl touched ↦ elim (Option-cases (c.accounts a)) [
      | inl absent ↦ ground (arith, touched, absent, e)
      | inr (old, cached) ↦ elim (Bool-cases (revm.is_selfdestructed account)) [
        | inl gone ↦
            let new : CacheAccountInfo revm types = record {
              account = none;
              status = types.on_selfdestructed old.status;
            } in
            let same : c' ≡ without c a new = ground (arith, touched, cached, gone, e) in
            removes old new (ground arith) cached refl
              (types.is_storage_known-on_selfdestructed old.status) (ap (λ x. x.accounts) same)
              (ap (λ x. x.storage) same)
        | inr kept ↦ elim (Bool-cases (revm.is_created account)) [
          | inl is_new ↦
              let new : CacheAccountInfo revm types = record {
                account = some (revm.info account);
                status = types.on_created old.status;
              } in
              elim (Option-cases
                (insert_code keys revm types (without c a new) (revm.info account))) [
                  | inl no_code ↦ ground (arith, touched, cached, kept, is_new, no_code, e)
                  | inr (c₁, coded) ↦
                      replaced-Applied c c₁ c' a account old new (ground arith) cached refl
                        (types.is_storage_known-on_created old.status) coded
                        (ground (arith, touched, cached, kept, is_new, coded, e))
                ]
          | inr is_old ↦ elim (Bool-cases (revm.is_empty account)) [
            | inl empty ↦
                let new : CacheAccountInfo revm types = record {
                  account = none;
                  status = types.on_touched_empty_post_eip161 old.status;
                } in
                let same : c' ≡ without c a new =
                  ground (arith, touched, cached, kept, is_old, empty, e) in
                removes old new (ground arith) cached refl
                  (types.is_storage_known-on_touched_empty old.status) (ap (λ x. x.accounts) same)
                  (ap (λ x. x.storage) same)
            | inr filled ↦
                let new : CacheAccountInfo revm types = record {
                  account = some (revm.info account);
                  status =
                      types.on_changed old.status (had_no_nonce_and_code revm types old.account);
                } in
                let slots = present_values revm types (types.changed_slots account) in
                let same : c'
                    ≡ with_slots keys revm types (set_account keys revm types c a new) a slots =
                  ground (arith, touched, cached, kept, is_old, filled, e) in
                changes old new (revm.info account) (ground arith) cached refl refl
                  (ap (λ x. x.accounts) same
                    ∙ accounts-with_slots (set_account keys revm types c a new) a slots)
                  (λ b k.
                    ap (λ x. slots_of keys revm types (x.storage b) k) same
                    ∙ slots_of-with_slots (set_account keys revm types c a new) a slots b k)
          ]
        ]
      ]
    ]
  ]
