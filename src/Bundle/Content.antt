-- ===== src/Bundle/Content.antt =====
-- src/bundle.rs: what the bundle of a block holds.
use grevm.Prelude.{
  ℕ, ◌+◌, ◌%◌, ◌<◌, ◌≡◌, Bool, true, false, Option, none, some, List, [], ◌∷◌, ◌++◌, if◌then◌else◌,
  usize_add, usize_mod, refl, ap, ◌∙◌, subst, sym, arith, Option-cases, inl, inr,
}
use grevm.Memory.{Keys}
use grevm.Bundle.{BundleTypes, BundleState, add_contract}
use grevm.Bundle.OnePass.{one_pass, insert_account, append_nil}

module _ (keys : Keys) (types : BundleTypes) where
  open keys use {Address, eqb}
  open types use {TransitionAccount, BundleAccount, AccountRevert, Bytecode, BundleRetention}

  abbrev pub account_in : List (Address × BundleAccount) → Address → Option BundleAccount
  account_in [] a = none
  account_in ((b, account) ∷ rest) a = if eqb b a then some account else account_in rest a

  abbrev pub or_else : {A : Type 0} → Option A → Option A → Option A
  or_else none x = x
  or_else (some y) x = some y

  -- The account of a transition that changes it.
  abbrev pub changed_account : TransitionAccount → Option BundleAccount
  changed_account t = elim (types.create_revert t) [
    | none ↦ none
    | some revert ↦ some (types.present_bundle_account t)
  ]

  -- What the transitions make of an address: the account of its last one that changes it.
  abbrev pub last_change : List (Address × TransitionAccount) → Address → Option BundleAccount
  last_change [] a = none
  last_change ((b, t) ∷ rest) a =
      or_else (last_change rest a) (if eqb b a then changed_account t else none)

  abbrev pub reverts_in : List (Address × TransitionAccount) → List (Address × AccountRevert)
  reverts_in [] = []
  reverts_in ((a, t) ∷ rest) = elim (types.create_revert t) [
    | none ↦ reverts_in rest
    | some revert ↦ (a, revert) ∷ reverts_in rest
  ]

  abbrev pub size_of : List (Address × TransitionAccount) → ℕ
  size_of [] = 0
  size_of ((a, t) ∷ rest) = elim (types.create_revert t) [
    | none ↦ size_of rest
    | some revert ↦ types.account_size_hint (types.present_bundle_account t) + size_of rest
  ]

  contract-state :
      (contract : Option (ℕ × Bytecode)) (bundle : BundleState keys types)
      → ((add_contract keys types contract bundle).state ≡ bundle.state)
        × ((add_contract keys types contract bundle).state_size ≡ bundle.state_size)
        × ((add_contract keys types contract bundle).reverts ≡ bundle.reverts)
  contract-state none bundle = (refl, refl, refl)
  contract-state (some entry) bundle = (refl, refl, refl)

  mod_small : (n : ℕ) → n < usize_mod → n % usize_mod ≡ n
  mod_small n small = omega (arith, small)

  keep-accounts :
      (x : Option BundleAccount) (b : Bool) (t : TransitionAccount) (y z : Option BundleAccount)
      → types.create_revert t ≡ none
      → y ≡ z
      → or_else x y ≡ or_else (or_else x (if b then changed_account t else none)) z
  keep-accounts none true t y z unchanged same = ground (arith, unchanged, same)
  keep-accounts none false t y z unchanged same = same
  keep-accounts (some account) b t y z unchanged same = refl

  insert-accounts :
      (x : Option BundleAccount) (b : Bool) (t : TransitionAccount) (y z : Option BundleAccount)
      (revert : AccountRevert)
      → types.create_revert t ≡ some revert
      → y ≡ z
      → or_else x (if b then some (types.present_bundle_account t) else y)
        ≡ or_else (or_else x (if b then changed_account t else none)) z
  insert-accounts none true t y z revert changed same = ground (arith, changed)
  insert-accounts none false t y z revert changed same = same
  insert-accounts (some account) b t y z revert changed same = refl

  usize_add_lt : (a b : ℕ) → usize_add a b < usize_mod
  usize_add_lt a b = omega arith

  usize_add_assoc : (a b c : ℕ) → (usize_add a b + c) % usize_mod ≡ (a + (b + c)) % usize_mod
  usize_add_assoc a b c = omega arith

  insert-size :
      (n m : ℕ) (a : Address) (t : TransitionAccount) (ts : List (Address × TransitionAccount))
      (revert : AccountRevert)
      → types.create_revert t ≡ some revert
      → n ≡ m
      → (usize_add n (types.account_size_hint (types.present_bundle_account t)) + size_of ts)
          % usize_mod
        ≡ (m + size_of ((a, t) ∷ ts)) % usize_mod
  insert-size n m a t ts revert changed same =
      usize_add_assoc n (types.account_size_hint (types.present_bundle_account t)) (size_of ts)
      ∙ ap
          (λ k.
            (k + (types.account_size_hint (types.present_bundle_account t) + size_of ts))
            % usize_mod)
          same
      ∙ ap
          (λ r.
            (m + elim r [
              | none ↦ size_of ts
              | some _ ↦ types.account_size_hint (types.present_bundle_account t) + size_of ts
            ])
            % usize_mod)
          (sym changed)

  append_assoc : {A : Type 0} (xs ys zs : List A) → (xs ++ ys) ++ zs ≡ xs ++ (ys ++ zs)
  append_assoc [] ys zs = refl
  append_assoc (x ∷ xs) ys zs = ap (λ r. x ∷ r) (append_assoc xs ys zs)

  insert-reverts :
      (include_reverts : Bool) (a : Address) (t : TransitionAccount)
      (ts : List (Address × TransitionAccount)) (reverts : List (Address × AccountRevert))
      (revert : AccountRevert)
      → types.create_revert t ≡ some revert
      → (if include_reverts
          then (if include_reverts then reverts ++ ((a, revert) ∷ []) else reverts) ++ reverts_in ts
          else (if include_reverts then reverts ++ ((a, revert) ∷ []) else reverts))
        ≡ (if include_reverts then reverts ++ reverts_in ((a, t) ∷ ts) else reverts)
  insert-reverts true a t ts reverts revert changed =
      append_assoc reverts ((a, revert) ∷ []) (reverts_in ts)
      ∙ ap (λ r. reverts ++ elim r [ none ↦ reverts_in ts | some x ↦ (a, x) ∷ reverts_in ts ])
          (sym changed)
  insert-reverts false a t ts reverts revert changed = refl

  -- One pass, by what it adds to a bundle.
  pub record Added (include_reverts : Bool) (ts : List (Address × TransitionAccount))
      (bundle : BundleState keys types) (reverts : List (Address × AccountRevert))
      (after : BundleState keys types × List (Address × AccountRevert)) : Type 0 where
    pub accounts :
        (a : Address)
        → account_in after.0.state a ≡ or_else (last_change ts a) (account_in bundle.state a)
    pub size : after.0.state_size ≡ (bundle.state_size + size_of ts) % usize_mod
    pub blocks : after.0.reverts ≡ bundle.reverts
    pub reverted : after.1 ≡ (if include_reverts then reverts ++ reverts_in ts else reverts)

  pub one_pass-Added :
      (include_reverts : Bool) (ts : List (Address × TransitionAccount))
      (bundle : BundleState keys types) (reverts : List (Address × AccountRevert))
      → bundle.state_size < usize_mod
      → Added include_reverts ts bundle reverts
          (one_pass keys types include_reverts ts bundle reverts)
  unfolding one_pass
  one_pass-Added include_reverts [] bundle reverts small = record {
    accounts = λ a. refl;
    size = ground (arith, mod_small bundle.state_size small);
    blocks = refl;
    reverted = elim include_reverts as (λ b. reverts ≡ (if b then reverts ++ [] else reverts)) [
      | true ↦ sym (append_nil keys types reverts)
      | false ↦ refl
    ];
  }
  one_pass-Added include_reverts ((a, t) ∷ ts) bundle reverts small =
      elim (Option-cases (types.create_revert t)) [
        | inl unchanged ↦
            let code = add_contract keys types (types.has_new_contract t) bundle in
            let (same_state, same_size, same_blocks) =
              contract-state (types.has_new_contract t) bundle in
            let ih =
              one_pass-Added include_reverts ts code reverts
                (subst (λ (n : ℕ). n < usize_mod) (sym same_size) small) in
            let step : one_pass keys types include_reverts ((a, t) ∷ ts) bundle reverts
                ≡ one_pass keys types include_reverts ts code reverts =
              ground (arith, unchanged) in
            record {
              accounts = λ b.
                  ap (λ x. account_in x.0.state b) step
                  ∙ ih.accounts b
                  ∙ keep-accounts (last_change ts b) (eqb a b) t (account_in code.state b)
                      (account_in bundle.state b) unchanged (ap (λ x. account_in x b) same_state);
              size = ap (λ x. x.0.state_size) step ∙ ih.size ∙ ground (arith, unchanged, same_size);
              blocks = ap (λ x. x.0.reverts) step ∙ ih.blocks ∙ same_blocks;
              reverted = ap (λ x. x.1) step ∙ ih.reverted ∙ ground (arith, unchanged);
            }
        | inr (revert, changed) ↦
            let code = add_contract keys types (types.has_new_contract t) bundle in
            let (same_state, same_size, same_blocks) =
              contract-state (types.has_new_contract t) bundle in
            let new = insert_account keys types include_reverts a t revert code in
            let kept = if include_reverts then reverts ++ ((a, revert) ∷ []) else reverts in
            let ih = one_pass-Added include_reverts ts new kept (
              usize_add_lt code.state_size
                (types.account_size_hint (types.present_bundle_account t))) in
            let step : one_pass keys types include_reverts ((a, t) ∷ ts) bundle reverts
                ≡ one_pass keys types include_reverts ts new kept =
              ground (arith, changed) in
            record {
              accounts = λ b.
                  ap (λ x. account_in x.0.state b) step
                  ∙ ih.accounts b
                  ∙ insert-accounts (last_change ts b) (eqb a b) t (account_in code.state b)
                      (account_in bundle.state b) revert changed
                      (ap (λ x. account_in x b) same_state);
              size =
                  ap (λ x. x.0.state_size) step
                  ∙ ih.size
                  ∙ insert-size code.state_size bundle.state_size a t ts revert changed same_size;
              blocks = ap (λ x. x.0.reverts) step ∙ ih.blocks ∙ same_blocks;
              reverted =
                  ap (λ x. x.1) step
                  ∙ ih.reverted
                  ∙ insert-reverts include_reverts a t ts reverts revert changed;
            }
      ]
