-- ===== src/Bundle/OnePass.antt =====
-- src/bundle.rs: the two phases as one pass over the transitions.
use grevm.Prelude.{
  ◌≡◌, Bool, ◌&&◌, none, some, List, [], ◌∷◌, ◌++◌, map, is_empty, if◌then◌else◌, usize_add, refl,
  ap, arith, Option-cases, Bool-cases, inl, inr,
}
use grevm.Memory.{Keys}
use grevm.Bundle.{BundleTypes, BundleState, process, merge, parallel_apply, add_contract}

module _ (keys : Keys) (types : BundleTypes) where
  open keys use {Address, eqb}
  open types use {TransitionAccount, BundleAccount, AccountRevert, Bytecode, BundleRetention}

  -- The insertion of an account, with the sizes.
  abbrev pub insert_account :
      Bool
      → Address
      → TransitionAccount
      → AccountRevert
      → BundleState keys types
      → BundleState keys types
  insert_account include_reverts a t revert bundle = record bundle {
    state = (a, types.present_bundle_account t) ∷ bundle.state;
    state_size =
        usize_add bundle.state_size (types.account_size_hint (types.present_bundle_account t));
    reverts_size =
        usize_add bundle.reverts_size
          (if include_reverts then types.revert_size_hint revert else 0);
  }

  -- Each transition changes the bundle before the next one is looked at.
  unfoldable pub one_pass :
      Bool
      → List (Address × TransitionAccount)
      → BundleState keys types
      → List (Address × AccountRevert)
      → BundleState keys types × List (Address × AccountRevert)
  one_pass include_reverts [] bundle reverts = (bundle, reverts)
  one_pass include_reverts ((a, t) ∷ rest) bundle reverts =
      let with_code = add_contract keys types (types.has_new_contract t) bundle in
      elim (types.create_revert t) [
        | none ↦ one_pass include_reverts rest with_code reverts
        | some revert ↦
            one_pass include_reverts rest (insert_account include_reverts a t revert with_code)
              (if include_reverts then reverts ++ ((a, revert) ∷ []) else reverts)
      ]

  pub append_nil : {A : Type 0} (xs : List A) → xs ++ [] ≡ xs
  append_nil [] = refl
  append_nil (x ∷ xs) = ap (λ ys. x ∷ ys) (append_nil xs)

  merge-one_pass :
      (include_reverts : Bool) (ts : List (Address × TransitionAccount))
      (bundle : BundleState keys types) (reverts : List (Address × AccountRevert))
      → merge keys types (map (process keys types include_reverts) ts) bundle reverts
        ≡ one_pass include_reverts ts bundle reverts
  unfolding merge process one_pass
  merge-one_pass include_reverts [] bundle reverts = refl
  merge-one_pass include_reverts ((a, t) ∷ ts) bundle reverts =
      elim (Option-cases (types.create_revert t)) [
        | inl unchanged ↦
            let same = append_nil reverts in
            ground (
              arith,
              unchanged,
              same,
              merge-one_pass include_reverts ts
                  (add_contract keys types (types.has_new_contract t) bundle) reverts,
            )
        | inr (revert, changed) ↦ elim (Bool-cases include_reverts) [
          | inl kept ↦ ground (
            arith,
            changed,
            kept,
            merge-one_pass include_reverts ts
                (insert_account include_reverts a t revert
                  (add_contract keys types (types.has_new_contract t) bundle))
                (reverts ++ ((a, revert) ∷ [])),
          )
          | inr dropped ↦
              let same = append_nil reverts in
              ground (
                arith,
                changed,
                dropped,
                same,
                merge-one_pass include_reverts ts
                    (insert_account include_reverts a t revert
                      (add_contract keys types (types.has_new_contract t) bundle))
                    reverts,
              )
        ]
      ]

  -- Applied to an empty bundle, the two phases give the bundle of one pass, with the reverts of all
  -- transitions as one more block; a bundle that is not empty is left to revm's merge.
  pub parallel_apply-one_pass :
      (canonical : BundleState keys types
        → List (Address × TransitionAccount)
        → BundleRetention
        → BundleState keys types)
      (bundle : BundleState keys types) (ts : List (Address × TransitionAccount))
      (retention : BundleRetention)
      → parallel_apply keys types canonical bundle ts retention ≡ (
          if is_empty bundle.state && (is_empty bundle.contracts && is_empty bundle.reverts)
          then (let (merged, reverts) = one_pass (types.includes_reverts retention) ts bundle [] in
              record merged { reverts = merged.reverts ++ (reverts ∷ []) })
          else canonical bundle ts retention)
  unfolding parallel_apply
  parallel_apply-one_pass canonical bundle ts retention =
      elim (Bool-cases
        (is_empty bundle.state && (is_empty bundle.contracts && is_empty bundle.reverts))) [
          | inl empty ↦
              ground (arith, empty, merge-one_pass (types.includes_reverts retention) ts bundle [])
          | inr filled ↦ ground (arith, filled)
        ]
