-- ===== src/Bundle/Take.antt =====
-- src/bundle.rs: the bundle that `parallel_take_bundle` extracts.
use grevm.Prelude.{
  ◌%◌, ◌≡◌, Bool, Option, none, some, List, [], ◌∷◌, if◌then◌else◌, usize_mod, refl, ap, ◌∙◌, subst,
  sym, arith,
}
use grevm.Memory.{Keys}
use grevm.Bundle.{
  BundleTypes, BundleState, Pending, parallel_apply, parallel_take_bundle, empty_bundle,
}
use grevm.Bundle.Content.{account_in, last_change, or_else, reverts_in, size_of, one_pass-Added}
use grevm.Bundle.OnePass.{parallel_apply-one_pass}

module _ (keys : Keys) (types : BundleTypes) where
  open keys use {Address}
  open types use {TransitionAccount, BundleAccount, AccountRevert, BundleRetention}

  -- The bundle of a block.
  pub record Holds (include_reverts : Bool) (ts : List (Address × TransitionAccount))
      (bundle : BundleState keys types) : Type 0 where
    pub accounts :
        (a : Address) → account_in keys types bundle.state a ≡ last_change keys types ts a
    pub size : bundle.state_size ≡ size_of keys types ts % usize_mod
    pub blocks : bundle.reverts ≡ (if include_reverts then reverts_in keys types ts else []) ∷ []

  or_else-none : (x : Option BundleAccount) → or_else keys types x none ≡ x
  or_else-none none = refl
  or_else-none (some account) = refl

  parallel_apply-Holds :
      (canonical : BundleState keys types
        → List (Address × TransitionAccount)
        → BundleRetention
        → BundleState keys types)
      (retention : BundleRetention) (ts : List (Address × TransitionAccount))
      → Holds
          (types.includes_reverts retention)
          ts
          (parallel_apply keys types canonical (empty_bundle keys types) ts retention)
  parallel_apply-Holds canonical retention ts =
      let same =
        parallel_apply-one_pass keys types canonical (empty_bundle keys types) ts retention in
      let added =
        one_pass-Added keys types (types.includes_reverts retention) ts (empty_bundle keys types) []
          (ground arith) in
      record {
        accounts = λ a.
            ap (λ b. account_in keys types b.state a) same
            ∙ added.accounts a
            ∙ or_else-none (last_change keys types ts a);
        size = ap (λ b. b.state_size) same ∙ added.size ∙ ground arith;
        blocks = ap (λ b. b.reverts) same ∙ ground (arith, added.blocks, added.reverted);
      }

  -- Taking the bundle of pending transitions, when the bundle so far is empty, gives for each address
  -- the account of its last transition that changes it, the sum of the sizes modulo 2^64, and one block
  -- of reverts, empty if they are not kept; no transition is left, and the bundle is empty again.
  pub parallel_take_bundle-Holds :
      (canonical : BundleState keys types
        → List (Address × TransitionAccount)
        → BundleRetention
        → BundleState keys types)
      (retention : BundleRetention) (ts : List (Address × TransitionAccount))
      (p : Pending keys types)
      → p.transition_state ≡ some ts
      → p.bundle_state ≡ empty_bundle keys types
      → Holds
          (types.includes_reverts retention)
          ts
          (parallel_take_bundle keys types canonical retention p).0
        × ((parallel_take_bundle keys types canonical retention p).1
            ≡ record { transition_state = some []; bundle_state = empty_bundle keys types })
  unfolding parallel_take_bundle
  parallel_take_bundle-Holds canonical retention ts p pending empty =
      let bundle : (parallel_take_bundle keys types canonical retention p).0
          ≡ parallel_apply keys types canonical (empty_bundle keys types) ts retention =
        ground (arith, pending, empty) in
      (
        subst (λ b. Holds (types.includes_reverts retention) ts b) (sym bundle)
            (parallel_apply-Holds canonical retention ts),
        ground (arith, pending, empty),
      )
