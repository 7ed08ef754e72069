-- ===== src/ParallelState/Loads.antt =====
-- src/parallel_state.rs: loads of several threads, and a load that a commit overtakes.
use grevm.Prelude.{
  ℕ, ◌≡◌, Option, none, some, arith, refl, Bool-cases, Option-cases, inl, inr, subst, sym, ap, ◌∙◌,
}
use grevm.Revm.{Accounts, Database}
use grevm.Model.{Result, ok, err}
use grevm.Memory.{Keys}
use grevm.ParallelState.{StateTypes, CacheAccountInfo}
use grevm.ParallelState.Cache.{Cache, loaded_account, set_account}
use grevm.ParallelState.Reads.{basic, slot, basic-eq, slot-eq}
use grevm.ParallelState.View.{db_basic, load_mut_cache_account}

module _ (keys : Keys) (revm : Accounts) (types : StateTypes revm) {E : Type 0}
    (database : Database keys.Address revm E) where
  open keys use {Address, eqb, eqb_iff}
  open revm use {AccountInfo, Account}

  -- Two caches that answer every read alike.
  pub record ReadsAlike (c c' : Cache keys revm types) : Type 0 where
    pub basics :
        (a : Address) → basic keys revm types database c' a ≡ basic keys revm types database c a
    pub slots :
        (a : Address) (k : ℕ)
        → slot keys revm types database c' a k ≡ slot keys revm types database c a k

  -- The database has no storage for an account that does not exist.
  abbrev pub HasNoStorage : Address → Type 0
  HasNoStorage a = database.basic_ref a ≡ ok none → (k : ℕ) → database.storage_ref a k ≡ ok 0

  loaded-slot :
      (now : Cache keys revm types) (a : Address) (info : Option AccountInfo) (k : ℕ)
      → HasNoStorage a
      → now.accounts a ≡ none
      → database.basic_ref a ≡ ok info
      → slot keys revm types database
          (set_account keys revm types now a (loaded_account keys revm types info))
          a
          k
        ≡ slot keys revm types database now a k
  loaded-slot now a none k empty absent backed =
      let loaded =
        slot-eq keys revm types database
          (set_account keys revm types now a (loaded_account keys revm types none)) a k in
      ground (
        arith,
        loaded,
        slot-eq keys revm types database now a k,
        (eqb_iff a a).1 refl,
        absent,
        empty backed k,
      )
  loaded-slot now a (some info) k empty absent backed =
      let loaded =
        slot-eq keys revm types database
          (set_account keys revm types now a (loaded_account keys revm types (some info))) a k in
      ground (
        arith,
        loaded,
        slot-eq keys revm types database now a k,
        (eqb_iff a a).1 refl,
        absent,
        types.is_storage_known-loaded,
        types.is_storage_known-loaded_empty,
      )

  pub set_account-basics :
      (now : Cache keys revm types) (a : Address) (info : Option AccountInfo)
      → now.accounts a ≡ none
      → database.basic_ref a ≡ ok info
      → (b : Address)
      → basic keys revm types database
          (set_account keys revm types now a (loaded_account keys revm types info))
          b
        ≡ basic keys revm types database now b
  set_account-basics now a info absent backed b = elim (Bool-cases (eqb a b)) [
    | inl same ↦
        subst
          (λ (x : Address).
            basic keys revm types database
              (set_account keys revm types now a (loaded_account keys revm types info)) x
            ≡ basic keys revm types database now x)
          ((eqb_iff a b).0 same)
          (ground (
            arith,
            basic-eq keys revm types database
                (set_account keys revm types now a (loaded_account keys revm types info)) a,
            basic-eq keys revm types database now a,
            (eqb_iff a a).1 refl,
            absent,
            backed,
          ))
    | inr differs ↦ ground (
      arith,
      basic-eq keys revm types database
          (set_account keys revm types now a (loaded_account keys revm types info)) b,
      basic-eq keys revm types database now b,
      differs,
    )
  ]

  set_account-ReadsAlike :
      (now : Cache keys revm types) (a : Address) (info : Option AccountInfo)
      → HasNoStorage a
      → now.accounts a ≡ none
      → database.basic_ref a ≡ ok info
      → ReadsAlike now (set_account keys revm types now a (loaded_account keys revm types info))
  set_account-ReadsAlike now a info empty absent backed = record {
    basics = set_account-basics now a info absent backed;
    slots = λ b k. elim (Bool-cases (eqb a b)) [
      | inl same ↦
          subst
            (λ (x : Address).
              slot keys revm types database
                (set_account keys revm types now a (loaded_account keys revm types info)) x k
              ≡ slot keys revm types database now x k)
            ((eqb_iff a b).0 same) (loaded-slot now a info k empty absent backed)
      | inr differs ↦ ground (
        arith,
        slot-eq keys revm types database
            (set_account keys revm types now a (loaded_account keys revm types info)) b k,
        slot-eq keys revm types database now b k,
        differs,
      )
    ];
  }

  pub unchanged-ReadsAlike : (c : Cache keys revm types) → ReadsAlike c c
  unchanged-ReadsAlike c = record { basics = λ a. refl; slots = λ a k. refl }

  pub settle :
      {A : Type 0} (now c : Cache keys revm types) (p : Cache keys revm types × Result E A)
      (r r' : Result E A)
      → p ≡ (c, r)
      → r ≡ r'
      → ReadsAlike now c
      → (p.1 ≡ r') × ReadsAlike now p.0
  settle now c p r r' e same alike =
      (ap (λ q. q.1) e ∙ same, subst (λ q. ReadsAlike now q) (ap (λ q. q.0) (sym e)) alike)

  load-cached :
      (seen now : Cache keys revm types) (a : Address) (account : CacheAccountInfo revm types)
      → seen.accounts a ≡ some account
      → db_basic keys revm types database seen now a ≡ (now, ok account.account)
  unfolding db_basic load_mut_cache_account
  load-cached seen now a account cached = ground (arith, cached)

  load-failed :
      (seen now : Cache keys revm types) (a : Address) (e : E)
      → seen.accounts a ≡ none
      → database.basic_ref a ≡ err e
      → db_basic keys revm types database seen now a ≡ (now, err e)
  unfolding db_basic load_mut_cache_account
  load-failed seen now a e absent failed = ground (arith, absent, failed)

  load-raced :
      (seen now : Cache keys revm types) (a : Address) (info : Option AccountInfo)
      (present : CacheAccountInfo revm types)
      → seen.accounts a ≡ none
      → database.basic_ref a ≡ ok info
      → now.accounts a ≡ some present
      → db_basic keys revm types database seen now a ≡ (now, ok present.account)
  unfolding db_basic load_mut_cache_account
  load-raced seen now a info present absent backed raced = ground (arith, absent, backed, raced)

  load-inserted :
      (seen now : Cache keys revm types) (a : Address) (info : Option AccountInfo)
      → seen.accounts a ≡ none
      → database.basic_ref a ≡ ok info
      → now.accounts a ≡ none
      → db_basic keys revm types database seen now a ≡ (
        set_account keys revm types now a (loaded_account keys revm types info),
        ok (loaded_account keys revm types info).account,
      )
  unfolding db_basic load_mut_cache_account
  load-inserted seen now a info absent backed still = ground (arith, absent, backed, still)

  backed-ReadsAlike :
      (seen now : Cache keys revm types) (a : Address)
      → HasNoStorage a
      → ReadsAlike seen now
      → seen.accounts a ≡ none
      → (r : Result E (Option AccountInfo)) → database.basic_ref a ≡ r
      → ((db_basic keys revm types database seen now a).1 ≡ basic keys revm types database seen a)
        × ReadsAlike now (db_basic keys revm types database seen now a).0
  backed-ReadsAlike seen now a empty alike absent (err e) failed =
      settle now now (db_basic keys revm types database seen now a) (err e)
        (basic keys revm types database seen a) (load-failed seen now a e absent failed)
        (ground (arith, basic-eq keys revm types database seen a, absent, failed))
        (unchanged-ReadsAlike now)
  backed-ReadsAlike seen now a empty alike absent (ok info) backed =
      elim (Option-cases (now.accounts a)) [
        | inr (present, raced) ↦
            settle now now (db_basic keys revm types database seen now a) (ok present.account)
              (basic keys revm types database seen a)
              (load-raced seen now a info present absent backed raced)
              (ground (arith, basic-eq keys revm types database now a, raced, alike.basics a))
              (unchanged-ReadsAlike now)
        | inl still ↦
            settle now (set_account keys revm types now a (loaded_account keys revm types info))
              (db_basic keys revm types database seen now a)
              (ok (loaded_account keys revm types info).account)
              (basic keys revm types database seen a)
              (load-inserted seen now a info absent backed still)
              (ground (arith, basic-eq keys revm types database seen a, absent, backed))
              (set_account-ReadsAlike now a info empty still backed)
      ]

  -- Loading an account gives what a read gave when the load began, and changes no later read, if other
  -- threads have only loaded in between and the database has no storage for a missing account.
  pub db_basic-ReadsAlike :
      (seen now : Cache keys revm types) (a : Address)
      → HasNoStorage a
      → ReadsAlike seen now
      → ((db_basic keys revm types database seen now a).1 ≡ basic keys revm types database seen a)
        × ReadsAlike now (db_basic keys revm types database seen now a).0
  db_basic-ReadsAlike seen now a empty alike = elim (Option-cases (seen.accounts a)) [
    | inr (account, cached) ↦
        settle now now (db_basic keys revm types database seen now a) (ok account.account)
          (basic keys revm types database seen a) (load-cached seen now a account cached)
          (ground (arith, basic-eq keys revm types database seen a, cached))
          (unchanged-ReadsAlike now)
    | inl absent ↦ backed-ReadsAlike seen now a empty alike absent (database.basic_ref a) refl
  ]
