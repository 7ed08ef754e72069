-- ===== src/Bundle/Tests.antt =====
-- The bundle of three transitions, one of which changes nothing.
use grevm.Prelude.{ℕ, ◌≡◌, Bool, true, none, some, [], ◌∷◌, ◌==◌, if◌then◌else◌, ap, refl}
use grevm.Bundle.{BundleTypes, Pending, empty_bundle, parallel_apply, parallel_take_bundle}
use grevm.Bundle.Content.{last_change}
use grevm.Bundle.OnePass.{one_pass, parallel_apply-one_pass}
use grevm.Bundle.Take.{Holds, parallel_take_bundle-Holds}
use grevm.Scheduler.Sample.{numbers}

-- A transition is a number; 0 changes nothing.
abbrev types : BundleTypes
types = record {
  TransitionAccount = ℕ;
  BundleAccount = ℕ;
  AccountRevert = ℕ;
  Bytecode = ℕ;
  BundleRetention = Bool;
  includes_reverts = λ b. b;
  has_new_contract = λ t. if t == 5 then some (t, t) else none;
  present_bundle_account = λ t. t;
  create_revert = λ t. if t == 0 then none else some t;
  account_size_hint = λ a. a;
  revert_size_hint = λ r. 1;
}

abbrev pending : Pending numbers types
pending = record {
  transition_state = some ((1, 5) ∷ (2, 0) ∷ (3, 7) ∷ []);
  bundle_state = empty_bundle numbers types;
}

parallel_take_bundle-Holds_example :
    Holds numbers types true
      ((1, 5) ∷ (2, 0) ∷ (3, 7) ∷ [])
      (parallel_take_bundle numbers types (λ bundle ts retention. bundle) true pending).0
    × ((parallel_take_bundle numbers types (λ bundle ts retention. bundle) true pending).1
        ≡ record { transition_state = some []; bundle_state = empty_bundle numbers types })
parallel_take_bundle-Holds_example =
    parallel_take_bundle-Holds numbers types (λ bundle ts retention. bundle) true
      ((1, 5) ∷ (2, 0) ∷ (3, 7) ∷ []) pending refl refl

kept : last_change numbers types ((1, 5) ∷ (2, 0) ∷ (3, 7) ∷ []) 1 ≡ some 5
kept = refl

-- One pass over the three transitions.
parallel_apply-one_pass_example :
    (parallel_apply numbers types
      (λ bundle ts retention. bundle)
      (empty_bundle numbers types)
      ((1, 5) ∷ (2, 0) ∷ (3, 7) ∷ [])
      true).reverts
    ≡ (((1, 5) ∷ (3, 7) ∷ []) ∷ [])
unfolding one_pass
parallel_apply-one_pass_example =
    ap (λ b. b.reverts)
      (parallel_apply-one_pass numbers types (λ bundle ts retention. bundle)
        (empty_bundle numbers types) ((1, 5) ∷ (2, 0) ∷ (3, 7) ∷ []) true)
