-- ===== src/Dependency/Wakeup.antt =====
-- What `remove`, `key_tx` and `commit` of src/tx_dependency.rs do for the transactions that wait.
use grevm.Prelude.{
  ◌≢◌, Bool-cases, ℕ, ◌+◌, ◌≡◌, ◌≤◌, ◌<◌, Bool, true, false, Option, none, some, refl, arith,
  contains, List, [], ◌∷◌, ◌⊎◌, inl, inr, Bool-cases, >>=-eq-some, Option-cases,
}
use grevm.Dependency.{TxDependency, remove, release, release_all, commit, key_tx}
use grevm.Dependency.Invariant.{Inv, state, IsWaiting, IsReady}
use grevm.Dependency.Preservation.{remove-Removed, remove-Inv, release_all-Frees}

module _ (txid : ℕ) (pop_next : Bool) where
  -- A round that takes a transaction off board hands it over.
  abbrev Hands : TxDependency → TxDependency → Option ℕ → Option ℕ → Type 0
  Hands d d' o o' =
      ((tx : ℕ)
        → (state d tx).onboard ≡ true
        → (state d' tx).onboard ≡ false
        → o' ≡ some (txid + 1) × (tx ≡ txid + 1))
      × (o ≡ some (txid + 1) → o' ≡ some (txid + 1))

  release-Hands :
      (tx : ℕ) (d d' : TxDependency) (o o' : Option ℕ)
      → release txid pop_next tx (d, o) ≡ some (d', o')
      → Hands d d' o o'
  unfolding release
  release-Hands tx d d' o o' h = (λ t b c. ground arith, λ e. ground arith)

  release_all-Hands :
      (txs : List ℕ) (d d' : TxDependency) (o o' : Option ℕ)
      → release_all txid pop_next txs (d, o) ≡ some (d', o')
      → Hands d d' o o'
  unfolding release_all
  release_all-Hands [] d d' o o' h = (λ t b c. ground arith, λ e. ground arith)
  release_all-Hands (tx ∷ txs) d d' o o' h =
      let ((d₁, o₁), e, k) =
        >>=-eq-some (release txid pop_next tx (d, o)) (release_all txid pop_next txs) h in
      let (f, keep) = release-Hands tx d d₁ o o₁ e in
      let (g, keep') = release_all-Hands txs d₁ d' o₁ o' k in
      (
        λ t b c. elim (Bool-cases (state d₁ t).onboard) [
          | inl on ↦ g t on c
          | inr off ↦ (keep' (f t b off).0, (f t b off).1)
        ],
        λ p. keep' (keep p),
      )

  release-total :
      (tx : ℕ) (d : TxDependency) (o : Option ℕ)
      → tx < d.dependent_state.len
      → (r : TxDependency × Option ℕ) × (release txid pop_next tx (d, o) ≡ some r)
        × (r.0.dependent_state.len ≡ d.dependent_state.len)
  unfolding release
  release-total tx d o lt = elim (Option-cases (release txid pop_next tx (d, o))) [
    | inl e ↦ absurd (ground arith)
    | inr (r, e) ↦ (r, e, ground arith)
  ]

  release_all-total :
      (txs : List ℕ) (d : TxDependency) (o : Option ℕ)
      → ((tx : ℕ) → contains txs tx ≡ true → tx < d.dependent_state.len)
      → (r : TxDependency × Option ℕ) × (release_all txid pop_next txs (d, o) ≡ some r)
  unfolding release_all
  release_all-total [] d o h = ((d, o), refl)
  release_all-total (tx ∷ txs) d o h =
      let ((d₁, o₁), e, same) = release-total tx d o (h tx (ground arith)) in
      let (r, k) = release_all-total txs d₁ o₁ (λ t c. rw same (h t (ground arith))) in (r, rw e k)

-- Whoever waited for `txid` and is on its list waits for nothing after `remove`: the cursor will
-- reach it, or it is the transaction that is handed to the caller.
pub remove-wakes :
    (d d' : TxDependency) (txid tx : ℕ) (pop_next : Bool) (r : Option ℕ)
    → Inv d
    → remove d txid pop_next ≡ some (d', r)
    → IsWaiting d tx txid
    → txid < tx
    → (tx < d'.num_txs)
      × ((state d' tx).dependency ≡ none)
      × (((state d' tx).onboard ≡ true) × (d'.index ≤ tx) ⊎ (r ≡ some tx))
remove-wakes d d' txid tx pop_next r v h w lt = elim (remove-Removed d d' txid pop_next r h) [
  | inl (empty, _, _) ↦ absurd (ground (arith, v.reverse tx txid w lt))
  | inr (m, e, done) ↦
      let (f, free) = release_all-Frees txid pop_next (d.affect_txs.at txid) d m none r e in
      let (hands, _) = release_all-Hands txid pop_next (d.affect_txs.at txid) d m none r e in
      let listed = v.reverse tx txid w lt in
      let inside : tx < d'.num_txs = rw (done, f.size) (v.known txid tx listed) in
      let freed : (state d' tx).dependency ≡ none = elim (Option-cases (state m tx).dependency) [
        | inl e₀ ↦ rw done e₀
        | inr (b, e₁) ↦ absurd (ground (arith, f.fewer tx b e₁, free tx listed))
      ] in
      (
        inside,
        freed,
        elim (Bool-cases (state m tx).onboard) [
          | inl on ↦
              let on' : (state d' tx).onboard ≡ true = rw done on in
              inl (on', (remove-Inv d d' txid pop_next r h v).ready tx inside (on', freed))
          | inr off ↦ inr (ground (arith, hands tx (ground (arith, v.claimed tx)) off))
        ],
      )
]

-- Under the invariant, `remove` of a transaction of the block does not panic.
pub remove_total :
    (d : TxDependency) (txid : ℕ) (pop_next : Bool)
    → Inv d
    → txid < d.num_txs
    → (r : TxDependency × Option ℕ) × (remove d txid pop_next ≡ some r)
unfolding remove
remove_total d txid pop_next v lt =
    let ((m, o), e) =
      release_all-total txid pop_next (d.affect_txs.at txid) d none
        (λ t c. ground (arith, v.known txid t, v.states)) in
    elim (Option-cases (remove d txid pop_next)) [
      | inl fail ↦ absurd (ground (arith, v.affects, e))
      | inr found ↦ found
    ]

-- A failed transaction whose barrier `key_tx` installs before its predecessor's `commit` can be claimed
-- again after that `commit`, whatever boundary `key_tx` read.
pub key_tx-commit :
    (d d₁ d₂ : TxDependency) (txid commit_idx : ℕ)
    → Inv d
    → txid + 1 < d.num_txs
    → key_tx d (txid + 1) commit_idx ≡ some d₁
    → commit d₁ txid ≡ some d₂
    → IsReady d₂ (txid + 1) × (d₂.index ≤ txid + 1)
unfolding key_tx commit
key_tx-commit d d₁ d₂ txid commit_idx v lt h k = ground (arith, v.states)

-- If the `commit` comes first, `key_tx` finds the boundary published and the transaction can be claimed
-- again at once.
pub commit-key_tx :
    (d d₁ d₂ : TxDependency) (txid commit_idx : ℕ)
    → Inv d
    → txid + 1 ≤ commit_idx
    → txid + 1 < d.num_txs
    → commit d txid ≡ some d₁
    → key_tx d₁ (txid + 1) commit_idx ≡ some d₂
    → IsReady d₂ (txid + 1) × (d₂.index ≤ txid + 1)
unfolding key_tx commit
commit-key_tx d d₁ d₂ txid commit_idx v published lt h k =
    ground (arith, v.states, v.claimed (txid + 1))

pub commit_total : (d : TxDependency) (txid : ℕ) → Inv d → commit d txid ≢ none
unfolding commit
commit_total d txid v = λ h. ground (arith, v.states, h)
