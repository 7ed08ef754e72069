-- ===== src/Beneficiary.antt =====
-- src/beneficiary/history.rs and the reward of src/beneficiary/reward.rs: the versions of the
-- beneficiary account inside a block. A panic is `none`.
pub mod Sequential
pub mod Scans
pub mod Origins
pub mod Freshness
pub mod Recorded
mod Tests
use mathlib.Core.List.{foldl, reverse}
use grevm.Prelude.{
  ℕ, zero, suc, ◌+◌, ◌≡◌, Bool, true, false, Option, none, some, List, [], ◌∷◌, ◌++◌, leb, ltb,
  ◌==◌, ◌&&◌, if◌then◌else◌, ◌>>=◌, unwrap_or, Cells, cell, put, filled, not,
}
use grevm.Revm.{Accounts, checked_add}
use grevm.Model.{TxVersion, Result, ok, err, map_ok}
use grevm.Account.{FinalizedAccount, finalized}

abbrev pub version_eq : TxVersion → TxVersion → Bool
version_eq v w = v.txid == w.txid && v.incarnation == w.incarnation

-- `BeneficiaryReadVersion`: the contributing writes, newest first, with its derived equality.
abbrev pub ReadVersion : Type 0
ReadVersion = List TxVersion

abbrev pub origins_eq : List TxVersion → List TxVersion → Bool
origins_eq [] [] = true
origins_eq [] (w ∷ ws) = false
origins_eq (v ∷ vs) [] = false
origins_eq (v ∷ vs) (w ∷ ws) = version_eq v w && origins_eq vs ws

abbrev pub latest_dependency : ReadVersion → Option ℕ
latest_dependency [] = none
latest_dependency (v ∷ vs) = some v.txid

pub record Read (Info : Type 0) : Type 0 where
  pub account : Option Info
  pub version : ReadVersion

pub record Validation : Type 0 where
  pub valid : Bool
  pub dependency : Option ℕ

pub data Effect (Info : Type 0) : Type 0 where
  unchanged : Effect Info
  reward : ℕ → Effect Info
  snapshot : Option Info → Effect Info

pub data EntryValue (Info : Type 0) : Type 0 where
  estimate : EntryValue Info
  exact : Effect Info → EntryValue Info

pub record EntryState (Info : Type 0) : Type 0 where
  pub incarnation : ℕ
  pub value : EntryValue Info

module _ {Info : Type 0} where
  abbrev pub first_estimate : EntryState Info
  first_estimate = record { incarnation = 0; value = estimate }

  -- `HistoryEntry::record`, with its answer.
  pub record_entry : EntryState Info → ℕ → EntryValue Info → EntryState Info × Bool
  record_entry state incarnation value =
      if leb incarnation state.incarnation
      then (state, false)
      else (record { incarnation = incarnation; value = value }, true)

  abbrev pub estimated : EntryValue Info → EntryValue Info
  estimated estimate = estimate
  estimated (exact e) = estimate

  pub invalidate_entry : EntryState Info → ℕ → EntryState Info × Bool
  invalidate_entry state incarnation =
      if not (state.incarnation == incarnation)
      then (state, false)
      else (record state { value = estimated state.value }, true)

pub record HistoryScan (Info : Type 0) : Type 0 where
  pub base : Option Info
  pub rewards_newest_first : List ℕ
  pub version : ReadVersion

pub record History (Info : Type 0) : Type 0 where
  pub block_anchor : Option Info
  pub entries : Cells (EntryState Info)

module _ {Info : Type 0} where
  unfoldable pub new : Option Info → ℕ → History Info
  new block_anchor block_size = record {
    block_anchor = block_anchor;
    entries = filled block_size first_estimate;
  }

  -- The loop of `scan_before` over the writers below `n`.
  pub scan :
      (ℕ → EntryState Info)
      → Option Info
      → ℕ
      → List TxVersion
      → List ℕ
      → Result ℕ (HistoryScan Info)
  scan entry anchor zero origins rewards =
      ok (record { base = anchor; rewards_newest_first = rewards; version = origins })
  scan entry anchor (suc writer) origins rewards =
      let origins' =
        origins ++ record { txid = writer; incarnation = (entry writer).incarnation } ∷ [] in
      elim (entry writer).value [
        | estimate ↦ err writer
        | exact unchanged ↦ scan entry anchor writer origins' rewards
        | exact (reward r) ↦ scan entry anchor writer origins' (rewards ++ r ∷ [])
        | exact (snapshot account) ↦
            ok (record { base = account; rewards_newest_first = rewards; version = origins' })
      ]

  pub scan_before : History Info → ℕ → Option (Result ℕ (HistoryScan Info))
  unfolding scan
  scan_before h txid =
      if leb txid h.entries.len then some (scan h.entries.at h.block_anchor txid [] []) else none

  -- The entry update of `record_execution`, `record_estimate` and `invalidate`.
  pub record_effect : History Info → TxVersion → EntryValue Info → Option (History Info × Bool)
  unfolding record_entry
  record_effect h v value = do
    state ← cell h.entries v.txid
    let (state', done) = record_entry state v.incarnation value
    some (record h { entries = put h.entries v.txid state' }, done)

  pub record_estimate : History Info → TxVersion → Option (History Info × Bool)
  unfolding record_effect
  record_estimate h v = record_effect h v estimate

  pub invalidate : History Info → TxVersion → Option (History Info × Bool)
  unfolding invalidate_entry
  invalidate h v = do
    state ← cell h.entries v.txid
    let (state', done) = invalidate_entry state v.incarnation
    some (record h { entries = put h.entries v.txid state' }, done)

  abbrev pub validate_scan : Result ℕ (HistoryScan Info) → ReadVersion → Validation
  validate_scan (ok s) expected = record {
    valid = origins_eq s.version expected;
    dependency = latest_dependency s.version;
  }
  validate_scan (err blocker) expected = record { valid = false; dependency = some blocker }

  unfoldable pub validate : History Info → ℕ → ReadVersion → Option Validation
  unfolding scan_before
  validate h txid expected = do scanned ← scan_before h txid; some (validate_scan scanned expected)

module _ (revm : Accounts) where
  open revm use {AccountInfo, Account, default_info, balance, set_balance}

  -- `DeferredBeneficiaryReward::apply_to`
  pub apply_to : ℕ → Option AccountInfo → AccountInfo
  unfolding checked_add
  apply_to amount account =
      let a = unwrap_or account default_info in
      elim (checked_add (balance a) amount) [ none ↦ a | some sum ↦ set_balance a sum ]

  pub resolve : HistoryScan AccountInfo → Read AccountInfo
  unfolding apply_to
  resolve s = record {
    account =
        foldl (λ account r. some (apply_to r account)) s.base (reverse s.rewards_newest_first);
    version = s.version;
  }

  pub resolve_before : History AccountInfo → ℕ → Option (Result ℕ (Read AccountInfo))
  unfolding resolve scan_before
  resolve_before h txid = do scanned ← scan_before h txid; some (map_ok resolve scanned)

  -- `BeneficiaryEffect::from_execution`; `none` is its assertion.
  pub from_execution : Option ℕ → Option Account → Option (Effect AccountInfo)
  from_execution (some r) (some account) = none
  from_execution (some r) none = some (reward r)
  from_execution none none = some unchanged
  from_execution none (some account) = some (elim (finalized revm account) [
    | FinalizedAccount.unchanged ↦ unchanged
    | FinalizedAccount.deleted ↦ snapshot none
    | FinalizedAccount.created i ↦ snapshot (some i)
    | FinalizedAccount.updated i ↦ snapshot (some i)
  ])

  unfoldable pub record_execution :
      History AccountInfo
      → TxVersion
      → Option ℕ
      → Option Account
      → Option (History AccountInfo × Bool)
  unfolding record_effect from_execution
  record_execution h v deferred_reward account = do
    effect ← from_execution deferred_reward account
    record_effect h v (exact effect)
