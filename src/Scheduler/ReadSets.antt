-- ===== src/Scheduler/ReadSets.antt =====
-- src/scheduler.rs: the read set that `validate` checks against the memory.
use grevm.Prelude.{
  ℕ, ◌≡◌, ◌<◌, ◌↔◌, Bool, false, not, ◌||◌, Option, none, some, [], ◌∷◌, ◌==◌, ltb, arith, refl,
  Bool-cases, Option-cases, inl, inr, subst, sym, ◌∙◌, All,
}
use grevm.Revm.{Accounts}
use grevm.Model.{TxVersion}
use grevm.Beneficiary
use grevm.Beneficiary.{History, Validation}
use grevm.Beneficiary.Origins.{Origins, validate-Origins}
use grevm.Memory.{
  Location, Memory, MemoryEntry, Versions, Keys, IsLatest, latest_before, latest_before-some,
  latest_before-none,
}
use grevm.IncarnationDb.{ReadVersion, mv_memory, beneficiary, backing, ReadSet}
use grevm.Scheduler.Validate.{check_read, check_reads, later_dependency}

module _ (keys : Keys) (revm : Accounts) where
  open keys use {Address}
  open revm use {AccountInfo, Bytecode}

  -- The entry that a read took is still the newest of the preceding transactions, of the same
  -- incarnation and no estimate; a read of the database still has no preceding entry; a read of the
  -- beneficiary has noted the versions that its history holds now.
  unfoldable pub IsCurrent :
      Memory Address AccountInfo Bytecode
      → History AccountInfo
      → ℕ
      → Location Address × ReadVersion
      → Type 0
  IsCurrent memory history txid (l, mv_memory v) =
      (entry : MemoryEntry AccountInfo Bytecode) × IsLatest (memory l) txid v.txid entry
      × (entry.estimate ≡ false)
      × (entry.incarnation ≡ v.incarnation)
  IsCurrent memory history txid (l, backing) = (w : ℕ) → w < txid → memory l w ≡ none
  IsCurrent memory history txid (l, beneficiary expected) = Origins history.entries.at txid expected

  latest_unique :
      (versions : Versions AccountInfo Bytecode) (txid w w' : ℕ)
      (entry entry' : MemoryEntry AccountInfo Bytecode)
      → IsLatest versions txid w entry
      → IsLatest versions txid w' entry'
      → w ≡ w'
  latest_unique versions txid w w' entry entry' a b = elim (Bool-cases (ltb w w')) [
    | inl later ↦ ground (arith, later, a.newest w', b.found, b.below)
    | inr not_later ↦ elim (Bool-cases (ltb w' w)) [
      | inl earlier ↦ ground (arith, earlier, b.newest w, a.found, a.below)
      | inr same ↦ ground (arith, not_later, same)
    ]
  ]

  entry_passes :
      (memory : Memory Address AccountInfo Bytecode) (history : History AccountInfo) (txid : ℕ)
      (l : Location Address) (v : TxVersion) (conflicted : Bool) (d : Option ℕ) (w : ℕ)
      (entry : MemoryEntry AccountInfo Bytecode)
      → latest_before (memory l) txid ≡ some (w, entry)
      → check_read keys revm memory history txid (l, mv_memory v) ≡ some (conflicted, d)
      → conflicted ≡ false
      → IsCurrent memory history txid (l, mv_memory v)
  unfolding check_read IsCurrent
  entry_passes memory history txid l v conflicted d w entry found e passes =
      let newest = latest_before-some (memory l) txid w entry found in
      let clear : (entry.estimate || not (v.txid == w) || not (v.incarnation == entry.incarnation))
          ≡ false =
        ground (arith, found, e, passes) in
      let at : w ≡ v.txid = ground (arith, clear) in
      (
        entry,
        subst (λ (x : ℕ). IsLatest (memory l) txid x entry) at newest,
        ground (arith, clear),
        ground (arith, clear),
      )

  entry_current :
      (memory : Memory Address AccountInfo Bytecode) (history : History AccountInfo) (txid : ℕ)
      (l : Location Address) (v : TxVersion) (conflicted : Bool) (d : Option ℕ) (w : ℕ)
      (entry entry' : MemoryEntry AccountInfo Bytecode)
      → latest_before (memory l) txid ≡ some (w, entry)
      → check_read keys revm memory history txid (l, mv_memory v) ≡ some (conflicted, d)
      → IsLatest (memory l) txid v.txid entry'
      → entry'.estimate ≡ false
      → entry'.incarnation ≡ v.incarnation
      → conflicted ≡ false
  unfolding check_read
  entry_current memory history txid l v conflicted d w entry entry' found e is solid same =
      let newest = latest_before-some (memory l) txid w entry found in
      let at : w ≡ v.txid = latest_unique (memory l) txid w v.txid entry entry' newest is in
      let same_entry : entry ≡ entry' = ground (arith, at, newest.found, is.found) in
      ground (arith, found, e, at, same_entry, solid, same)

  read-IsCurrent :
      (memory : Memory Address AccountInfo Bytecode) (history : History AccountInfo) (txid : ℕ)
      (read : Location Address × ReadVersion) (conflicted : Bool) (d : Option ℕ)
      → check_read keys revm memory history txid read ≡ some (conflicted, d)
      → (conflicted ≡ false) ↔ IsCurrent memory history txid read
  unfolding check_read IsCurrent
  read-IsCurrent memory history txid (l, mv_memory v) conflicted d e =
      elim (Option-cases (latest_before (memory l) txid)) [
        | inl absent ↦ (
          λ passes. ground (arith, absent, e, passes),
          λ (entry, is, solid, same).
              ground (arith, latest_before-none (memory l) txid absent v.txid is.below, is.found),
        )
        | inr ((w, entry), found) ↦ (
          entry_passes memory history txid l v conflicted d w entry found e,
          λ (entry', is, solid, same).
              entry_current memory history txid l v conflicted d w entry entry' found e is solid
                same,
        )
      ]
  read-IsCurrent memory history txid (l, backing) conflicted d e =
      elim (Option-cases (latest_before (memory l) txid)) [
        | inl absent ↦ (
          λ passes w below. latest_before-none (memory l) txid absent w below,
          λ none_before. ground (arith, absent, e),
        )
        | inr ((w, entry), found) ↦
            let newest = latest_before-some (memory l) txid w entry found in
            (
              λ passes. ground (arith, found, e, passes),
              λ none_before. ground (arith, none_before w newest.below, newest.found),
            )
      ]
  read-IsCurrent memory history txid (l, beneficiary expected) conflicted d e =
      elim (Option-cases (Beneficiary.validate history txid expected)) [
        | inl panics ↦ ground (arith, panics, e)
        | inr (v, checked) ↦
            let origins = validate-Origins history txid expected v checked in
            (
              λ passes. origins.0 (ground (arith, checked, e, passes)),
              λ o. ground (arith, checked, origins.1 o, e),
            )
      ]

  -- A scan of a read set finds no conflict exactly if it had found none before and each read is
  -- current.
  check_reads_lem :
      (memory : Memory Address AccountInfo Bytecode) (history : History AccountInfo) (txid : ℕ)
      (reads : ReadSet keys revm) (before after : Bool) (d d' : Option ℕ)
      → check_reads keys revm memory history txid reads (before, d) ≡ some (after, d')
      → (after ≡ false) ↔ ((before ≡ false) × All (IsCurrent memory history txid) reads)
  unfolding check_reads
  check_reads_lem memory history txid [] before after d d' e =
      let same : before ≡ after = ground (arith, e) in
      (λ passes. (same ∙ passes, tt), λ (passed, nothing). sym same ∙ passed)
  check_reads_lem memory history txid (read ∷ reads) before after d d' e =
      elim (Option-cases (check_read keys revm memory history txid read)) [
        | inl panics ↦ ground (arith, panics, e)
        | inr ((c, dep), checked) ↦
            let one = read-IsCurrent memory history txid read c dep checked in
            let rest =
              check_reads_lem memory history txid reads (before || c) after
                (later_dependency keys revm d dep) d' (ground (arith, checked, e)) in
            (
              λ passes.
                  let (passed, others) = rest.0 passes in
                  (ground (arith, passed), (one.0 (ground (arith, passed)), others)),
              λ (passed, (current, others)). rest.1 (ground (arith, passed, one.1 current), others),
            )
      ]

  -- A scan that returns finds no conflict exactly if each read of the transaction is current: the
  -- entry that it took is still the newest of the preceding transactions, of the same incarnation and
  -- no estimate; a read of the database still has no preceding entry; and a read of the beneficiary
  -- has noted, newest first, the current incarnation of every preceding transaction down to the newest
  -- that replaces the account, or of all of them if there is none, and none of these is an estimate.
  pub check_reads-IsCurrent :
      (memory : Memory Address AccountInfo Bytecode) (history : History AccountInfo) (txid : ℕ)
      (reads : ReadSet keys revm) (conflicted : Bool) (dependency : Option ℕ)
      → check_reads keys revm memory history txid reads (false, none)
        ≡ some (conflicted, dependency)
      → (conflicted ≡ false) ↔ All (IsCurrent memory history txid) reads
  check_reads-IsCurrent memory history txid reads conflicted dependency e =
      let both = check_reads_lem memory history txid reads false conflicted none dependency e in
      (λ passes. (both.0 passes).1, λ current. both.1 (refl, current))
