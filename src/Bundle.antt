-- ===== src/Bundle.antt =====
-- src/bundle.rs: the transitions of a block, applied to an empty bundle in two phases.
pub mod OnePass
pub mod Content
pub mod Take
mod Tests
use grevm.Prelude.{
  ℕ, Bool, true, false, not, ◌&&◌, Option, none, some, List, [], ◌∷◌, ◌++◌, map, is_empty,
  if◌then◌else◌, usize_add,
}
use grevm.Memory.{Keys}

-- What the code uses of revm_database; `size_hint` is a `usize`.
pub record BundleTypes : Type 1 where
  pub TransitionAccount : Type 0
  pub BundleAccount : Type 0
  pub AccountRevert : Type 0
  pub Bytecode : Type 0
  pub BundleRetention : Type 0
  pub includes_reverts : BundleRetention → Bool
  pub has_new_contract : TransitionAccount → Option (ℕ × Bytecode)
  pub present_bundle_account : TransitionAccount → BundleAccount
  pub create_revert : TransitionAccount → Option AccountRevert
  pub account_size_hint : BundleAccount → ℕ
  pub revert_size_hint : AccountRevert → ℕ

module _ (keys : Keys) (types : BundleTypes) where
  open keys use {Address, eqb}
  open types use {TransitionAccount, BundleAccount, AccountRevert, Bytecode, BundleRetention}

  pub record ProcessedAccount : Type 0 where
    pub address : Address
    pub present : BundleAccount
    pub revert : Option AccountRevert
    pub state_size : ℕ
    pub revert_size : ℕ

  pub record ProcessedTransition : Type 0 where
    pub contract : Option (ℕ × Bytecode)
    pub account : Option ProcessedAccount

  -- The maps of a `BundleState` are association lists, a later entry first.
  pub record BundleState : Type 0 where
    pub state : List (Address × BundleAccount)
    pub contracts : List (ℕ × Bytecode)
    pub reverts : List (List (Address × AccountRevert))
    pub state_size : ℕ
    pub reverts_size : ℕ

  abbrev pub empty_bundle : BundleState
  empty_bundle = record {
    state = [];
    contracts = [];
    reverts = [];
    state_size = 0;
    reverts_size = 0;
  }

  -- The account of the first phase, with its revert and the revert's size if reverts are kept.
  abbrev pub processed_account : Bool → Address → BundleAccount → AccountRevert → ProcessedAccount
  processed_account include_reverts address present revert = record {
    address = address;
    present = present;
    revert = if include_reverts then some revert else none;
    state_size = types.account_size_hint present;
    revert_size = if include_reverts then types.revert_size_hint revert else 0;
  }

  -- The first phase, on one transition.
  pub process : Bool → Address × TransitionAccount → ProcessedTransition
  process include_reverts (address, transition) = record {
    contract = types.has_new_contract transition;
    account = elim (types.create_revert transition) [
      | none ↦ none
      | some revert ↦ some (
          processed_account include_reverts address (types.present_bundle_account transition)
            revert)
    ];
  }

  abbrev pub add_contract : Option (ℕ × Bytecode) → BundleState → BundleState
  add_contract none bundle = bundle
  add_contract (some entry) bundle = record bundle { contracts = entry ∷ bundle.contracts }

  abbrev pub add_account : Option ProcessedAccount → BundleState → BundleState
  add_account none bundle = bundle
  add_account (some account) bundle = record bundle {
    state = (account.address, account.present) ∷ bundle.state;
    state_size = usize_add bundle.state_size account.state_size;
    reverts_size = usize_add bundle.reverts_size account.revert_size;
  }

  abbrev pub revert_of : Option ProcessedAccount → List (Address × AccountRevert)
  revert_of none = []
  revert_of (some account) = elim account.revert [
    | none ↦ []
    | some revert ↦ (account.address, revert) ∷ []
  ]

  -- The second phase, over the processed transitions in their order, with the reverts so far.
  unfoldable pub merge :
      List ProcessedTransition
      → BundleState
      → List (Address × AccountRevert)
      → BundleState × List (Address × AccountRevert)
  merge [] bundle reverts = (bundle, reverts)
  merge (x ∷ rest) bundle reverts =
      merge rest (add_account x.account (add_contract x.contract bundle))
        (reverts ++ revert_of x.account)

  -- `canonical` is revm's `apply_transitions_and_create_reverts`.
  unfoldable pub parallel_apply :
      (BundleState → List (Address × TransitionAccount) → BundleRetention → BundleState)
      → BundleState
      → List (Address × TransitionAccount)
      → BundleRetention
      → BundleState
  unfolding process merge
  parallel_apply canonical bundle transitions retention =
      if not (is_empty bundle.state && (is_empty bundle.contracts && is_empty bundle.reverts))
      then canonical bundle transitions retention
      else (let (merged, reverts) =
            merge (map (process (types.includes_reverts retention)) transitions) bundle [] in
          record merged { reverts = merged.reverts ++ (reverts ∷ []) })

  -- The fields of `ParallelState` that the extraction changes.
  pub record Pending : Type 0 where
    pub transition_state : Option (List (Address × TransitionAccount))
    pub bundle_state : BundleState

  -- `take_bundle`
  abbrev pub take_bundle : Pending → BundleState × Pending
  take_bundle p = (p.bundle_state, record p { bundle_state = empty_bundle })

  unfoldable pub parallel_take_bundle :
      (BundleState → List (Address × TransitionAccount) → BundleRetention → BundleState)
      → BundleRetention
      → Pending
      → BundleState × Pending
  unfolding parallel_apply
  parallel_take_bundle canonical retention p = elim p.transition_state [
    | none ↦ take_bundle p
    | some transitions ↦ take_bundle (record {
      transition_state = some [];
      bundle_state = parallel_apply canonical p.bundle_state transitions retention;
    })
  ]
