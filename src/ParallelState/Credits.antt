-- ===== src/ParallelState/Credits.antt =====
-- src/parallel_state.rs: what the credited accounts read after `increment_balances`.
use grevm.Prelude.{
  ℕ, ◌≡◌, true, false, Option, none, some, List, [], ◌∷◌, ◌==◌, if◌then◌else◌, unwrap_or, arith,
  refl, Bool-cases, Option-cases, inl, inr, subst, ap, ◌∙◌,
}
use grevm.Revm.{Accounts, Database}
use grevm.Model.{Result, ok, err, map_ok}
use grevm.Memory.{Keys}
use grevm.Reserve.{saturating_add}
use grevm.ParallelState.{
  StateTypes, CacheAccountInfo, Transition, increment_balance, account_info_change,
}
use grevm.ParallelState.Balances.{
  Transitions, increment_one, increment_balance_transitions, prepend,
}
use grevm.ParallelState.Cache.{Cache, set_account, loaded_account}
use grevm.ParallelState.Loads.{set_account-basics}
use grevm.ParallelState.Reads.{basic, basic-eq}
use grevm.ParallelState.View.{load_mut_cache_account}

module _ (keys : Keys) (revm : Accounts) (types : StateTypes revm) {E : Type 0}
    (database : Database keys.Address revm E) (transitions : Transitions keys revm types) where
  open keys use {Address, eqb, eqb_iff}
  open revm use {AccountInfo}

  -- An account with a balance added; a balance of zero leaves even a missing account as it is.
  abbrev pub credited : ℕ → Option AccountInfo → Option AccountInfo
  credited n before =
      let info = unwrap_or before revm.default_info in
      if n == 0 then before else some (revm.set_balance info (saturating_add (revm.balance info) n))

  -- The entries of one address, applied to what a read of it gives.
  abbrev pub credits :
      List (Address × ℕ) → Address → Result E (Option AccountInfo) → Result E (Option AccountInfo)
  credits [] b before = before
  credits ((a, n) ∷ rest) b before =
      credits rest b (if eqb a b then map_ok (credited n) before else before)

  -- A load that succeeded.
  record Loaded (c loaded : Cache keys revm types) (a : Address)
      (account : CacheAccountInfo revm types) : Type 0 where
    pub here : loaded.accounts a ≡ some account
    pub alike :
        (b : Address) → basic keys revm types database loaded b ≡ basic keys revm types database c b

  load-backed :
      (c loaded : Cache keys revm types) (a : Address) (account : CacheAccountInfo revm types)
      (r : Result E (Option AccountInfo))
      → c.accounts a ≡ none
      → database.basic_ref a ≡ r
      → load_mut_cache_account keys revm types database c c a ≡ (loaded, ok account)
      → Loaded c loaded a account
  unfolding load_mut_cache_account
  load-backed c loaded a account (err x) absent backed e = ground (arith, absent, backed, e)
  load-backed c loaded a account (ok info) absent backed e =
      let same : loaded ≡ set_account keys revm types c a (loaded_account keys revm types info) =
        ground (arith, absent, backed, e) in
      record {
        here = ground (arith, same, (eqb_iff a a).1 refl, absent, backed, e);
        alike = λ b.
            ap (λ x. basic keys revm types database x b) same
            ∙ set_account-basics keys revm types database c a info absent backed b;
      }

  load-Loaded :
      (c loaded : Cache keys revm types) (a : Address) (account : CacheAccountInfo revm types)
      → load_mut_cache_account keys revm types database c c a ≡ (loaded, ok account)
      → Loaded c loaded a account
  unfolding load_mut_cache_account
  load-Loaded c loaded a account e = elim (Option-cases (c.accounts a)) [
    | inl absent ↦ load-backed c loaded a account (database.basic_ref a) absent refl e
    | inr (present, cached) ↦
        let same : loaded ≡ c = ground (arith, cached, e) in
        record {
          here = ground (arith, same, cached, e);
          alike = λ b. ap (λ x. basic keys revm types database x b) same;
        }
  ]

  credit-basic :
      (c loaded c' : Cache keys revm types) (a : Address)
      (account new : CacheAccountInfo revm types) (n : ℕ)
      → Loaded c loaded a account
      → c' ≡ set_account keys revm types loaded a new
      → new.account ≡ credited n account.account
      → (b : Address)
      → basic keys revm types database c' b ≡ (
          if eqb a b
          then map_ok (credited n) (basic keys revm types database c b)
          else basic keys revm types database c b)
  credit-basic c loaded c' a account new n load same is b = elim (Bool-cases (eqb a b)) [
    | inl at ↦
        let found =
          subst (λ (x : Address). loaded.accounts x ≡ some account) ((eqb_iff a b).0 at)
            load.here in
        ground (
          arith,
          ap (λ x. basic keys revm types database x b) same,
          basic-eq keys revm types database (set_account keys revm types loaded a new) b,
          basic-eq keys revm types database loaded b,
          at,
          found,
          is,
          load.alike b,
        )
    | inr differs ↦ ground (
      arith,
      ap (λ x. basic keys revm types database x b) same,
      basic-eq keys revm types database (set_account keys revm types loaded a new) b,
      basic-eq keys revm types database loaded b,
      differs,
      load.alike b,
    )
  ]

  one-backed :
      (c c' loaded : Cache keys revm types) (a : Address) (n : ℕ)
      (t : Option (Address × Transition revm types)) (r : Result E (CacheAccountInfo revm types))
      → (n == 0) ≡ false
      → load_mut_cache_account keys revm types database c c a ≡ (loaded, r)
      → increment_one keys revm types database transitions c a n ≡ some (c', ok t)
      → (b : Address)
      → basic keys revm types database c' b ≡ (
          if eqb a b
          then map_ok (credited n) (basic keys revm types database c b)
          else basic keys revm types database c b)
  unfolding increment_one increment_balance account_info_change
  one-backed c c' loaded a n t (err x) nonzero load e b = ground (arith, nonzero, load, e)
  one-backed c c' loaded a n t (ok account) nonzero load e b =
      let new = (increment_balance revm types account n).0 in
      credit-basic c loaded c' a account new n (load-Loaded c loaded a account load)
        (ground (arith, nonzero, load, e)) (ground (arith, nonzero)) b

  map_ok-zero :
      (n : ℕ) (r : Result E (Option AccountInfo)) → (n == 0) ≡ true → map_ok (credited n) r ≡ r
  map_ok-zero n (err x) e = refl
  map_ok-zero n (ok before) e = ground (arith, e)

  zero-credit :
      (c c' : Cache keys revm types) (a : Address) (n : ℕ)
      (t : Option (Address × Transition revm types))
      → (n == 0) ≡ true
      → increment_one keys revm types database transitions c a n ≡ some (c', ok t)
      → (b : Address)
      → basic keys revm types database c' b ≡ (
          if eqb a b
          then map_ok (credited n) (basic keys revm types database c b)
          else basic keys revm types database c b)
  unfolding increment_one
  zero-credit c c' a n t zero_balance e b =
      let same : c' ≡ c = ground (arith, zero_balance, e) in
      ap (λ x. basic keys revm types database x b) same
      ∙ ground (arith, map_ok-zero n (basic keys revm types database c b) zero_balance)

  increment_one-credits :
      (c c' : Cache keys revm types) (a : Address) (n : ℕ)
      (t : Option (Address × Transition revm types))
      → increment_one keys revm types database transitions c a n ≡ some (c', ok t)
      → (b : Address)
      → basic keys revm types database c' b ≡ (
          if eqb a b
          then map_ok (credited n) (basic keys revm types database c b)
          else basic keys revm types database c b)
  increment_one-credits c c' a n t e b = elim (Bool-cases (n == 0)) [
    | inl zero_balance ↦ zero-credit c c' a n t zero_balance e b
    | inr nonzero ↦
        one-backed c c' (load_mut_cache_account keys revm types database c c a).0 a n t
          (load_mut_cache_account keys revm types database c c a).1 nonzero refl e b
  ]

  prepend-cache :
      (t : Option (Address × Transition revm types)) (c : Cache keys revm types)
      (ts : List (Address × Transition revm types))
      → (prepend keys revm types database transitions t (c, ok ts)).0 ≡ c
  prepend-cache none c ts = refl
  prepend-cache (some t) c ts = refl

  -- If every load succeeds, each account reads, after `increment_balances`, with the balances of its
  -- entries added one after the other, saturating; an entry of zero does nothing.
  pub increment_balance_transitions-credits :
      (c c' : Cache keys revm types) (balances : List (Address × ℕ))
      (ts : List (Address × Transition revm types))
      → increment_balance_transitions keys revm types database transitions c balances
        ≡ some (c', ok ts)
      → (b : Address)
      → basic keys revm types database c' b
        ≡ credits balances b (basic keys revm types database c b)
  unfolding increment_balance_transitions
  increment_balance_transitions-credits c c' [] ts e b = ground (arith, e)
  increment_balance_transitions-credits c c' ((a, n) ∷ rest) ts e b =
      elim (Option-cases (increment_one keys revm types database transitions c a n)) [
        | inl panics ↦ ground (arith, panics, e)
        | inr ((c₁, err x), one) ↦ ground (arith, one, e)
        | inr ((c₁, ok t), one) ↦
            elim (Option-cases
              (increment_balance_transitions keys revm types database transitions c₁ rest)) [
                | inl panics ↦ ground (arith, one, panics, e)
                | inr ((c₂, err x), others) ↦ ground (arith, one, others, e)
                | inr ((c₂, ok ts₁), others) ↦
                    let same : c' ≡ c₂ = ground (arith, one, others, prepend-cache t c₂ ts₁, e) in
                    ap (λ x. basic keys revm types database x b) same
                    ∙ increment_balance_transitions-credits c₁ c₂ rest ts₁ others b
                    ∙ ap (λ r. credits rest b r) (increment_one-credits c c₁ a n t one b)
              ]
      ]
