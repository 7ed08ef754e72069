-- ===== src/Beneficiary/Recorded.antt =====
-- src/beneficiary/history.rs: which incarnation an entry is of after a publication.
use grevm.Prelude.{ℕ, ◌≡◌, ◌≢◌, ◌≤◌, ◌<◌, Bool, true, false, Option, some, arith, >>=-eq-some}
use grevm.Model.{TxVersion}
use grevm.Revm.{Accounts}
use grevm.Beneficiary.{
  History, EntryValue, exact, record_effect, record_estimate, record_execution, from_execution,
  invalidate,
}

module _ {Info : Type 0} where
  -- The other entries are as they were; the own one is of the given incarnation, which is a later one
  -- than before, or of no earlier one if the publication is refused.
  pub record Recorded (h h' : History Info) (v : TxVersion) (done : Bool) : Type 0 where
    pub others : (i : ℕ) → i ≢ v.txid → h'.entries.at i ≡ h.entries.at i
    pub refused : done ≡ false → v.incarnation ≤ (h'.entries.at v.txid).incarnation
    pub accepted : done ≡ true → (h'.entries.at v.txid).incarnation ≡ v.incarnation
    pub later : done ≡ true → (h.entries.at v.txid).incarnation < v.incarnation

  pub record_effect-Recorded :
      (h h' : History Info) (v : TxVersion) (value : EntryValue Info) (done : Bool)
      → record_effect h v value ≡ some (h', done)
      → Recorded h h' v done
  unfolding record_effect
  record_effect-Recorded h h' v value done e = record {
    others = λ i x. ground (arith, e, x);
    refused = λ x. ground (arith, e, x);
    accepted = λ x. ground (arith, e, x);
    later = λ x. ground (arith, e, x);
  }

  pub record_estimate-Recorded :
      (h h' : History Info) (v : TxVersion) (done : Bool)
      → record_estimate h v ≡ some (h', done)
      → Recorded h h' v done
  unfolding record_estimate
  record_estimate-Recorded h h' v done e = record_effect-Recorded h h' v EntryValue.estimate done e

  -- An invalidation keeps every entry's incarnation, and is refused only at another incarnation.
  pub invalidate-incarnation :
      (h h' : History Info) (v : TxVersion) (done : Bool)
      → invalidate h v ≡ some (h', done)
      → ((i : ℕ) → (h'.entries.at i).incarnation ≡ (h.entries.at i).incarnation)
        × (done ≡ false → (h.entries.at v.txid).incarnation ≢ v.incarnation)
  unfolding invalidate
  invalidate-incarnation h h' v done e = (λ i. ground (arith, e), λ x. ground (arith, e, x))

module _ (revm : Accounts) where
  pub record_execution-Recorded :
      (h h' : History revm.AccountInfo) (v : TxVersion) (reward : Option ℕ)
      (account : Option revm.Account) (done : Bool)
      → record_execution revm h v reward account ≡ some (h', done)
      → Recorded h h' v done
  unfolding record_execution
  record_execution-Recorded h h' v reward account done e =
      let (effect, p, q) = >>=-eq-some (from_execution revm reward account) _ e in
      record_effect-Recorded h h' v (exact effect) done q
