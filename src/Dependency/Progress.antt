-- ===== src/Dependency/Progress.antt =====
-- src/tx_dependency.rs: sequences of calls by the workers that share the graph.
use grevm.Prelude.{
  ℕ, zero, suc, ◌+◌, ◌≡◌, ◌<◌, Bool, true, Option, none, some, arith, contains, List, [], ◌∷◌, inl,
  inr, Bool-cases, ltb, ltb→lt, ◌^◌, Option-cases, ap, ◌∙◌,
}
use grevm.Dependency.{TxDependency, new, next, claim, remove, commit, key_tx, add}
use grevm.Dependency.Invariant.{Inv, IsReady, new-Inv}
use grevm.Dependency.Preservation.{claim-Inv, next-Inv, remove-Inv, commit-Inv, key_tx-Inv, add-Inv}

-- One call by some worker, the committer, or part of a `next` whose guard was read earlier.
pub data Step (d : TxDependency) : TxDependency → Type 0 where
  claims : {d' : TxDependency} (r : Option ℕ) → claim d ≡ some (d', r) → Step d d'
  nexts : {d' : TxDependency} (r : Option ℕ) → next d ≡ some (d', r) → Step d d'
  removes :
      {d' : TxDependency} (txid : ℕ) (pop_next : Bool) (r : Option ℕ)
      → remove d txid pop_next ≡ some (d', r)
      → Step d d'
  commits : {d' : TxDependency} (txid : ℕ) → commit d txid ≡ some d' → Step d d'
  keys : {d' : TxDependency} (txid commit_idx : ℕ) → key_tx d txid commit_idx ≡ some d' → Step d d'
  adds : {d' : TxDependency} (txid : ℕ) (dep : Option ℕ) → add d txid dep ≡ some d' → Step d d'

pub data Reach (n : ℕ) : TxDependency → Type 0 where
  start : Reach n (new n)
  later : {d d' : TxDependency} → Reach n d → Step d d' → Reach n d'

Step-Inv : {d d' : TxDependency} → Step d d' → Inv d → Inv d'
Step-Inv {d} {d'} (claims r e) v = claim-Inv d d' r e v
Step-Inv {d} {d'} (nexts r e) v = next-Inv d d' r e v
Step-Inv {d} {d'} (removes txid p r e) v = remove-Inv d d' txid p r e v
Step-Inv {d} {d'} (commits txid e) v = commit-Inv d d' txid e v
Step-Inv {d} {d'} (keys txid c e) v = key_tx-Inv d d' txid c e v
Step-Inv {d} {d'} (adds txid dep e) v = add-Inv d d' txid dep e v

-- In every sequence of calls from a new graph, of whichever workers, the graph keeps its invariant: the
-- cursor stands at or before every ready transaction, a claimed transaction waits for nothing, and a
-- waiting one waits for itself, at the commit barrier, or for an earlier one that lists it.
pub Reach-Inv : {n : ℕ} {d : TxDependency} → Reach n d → Inv d
Reach-Inv {n} start = new-Inv n
Reach-Inv (later r s) = Step-Inv s (Reach-Inv r)

-- What one worker claims in `fuel` calls of `next`.
pub claimed_by : ℕ → TxDependency → List ℕ
claimed_by zero d = []
claimed_by (suc fuel) d = elim (next d) [
  | none ↦ []
  | some (d', none) ↦ claimed_by fuel d'
  | some (d', some tx) ↦ tx ∷ claimed_by fuel d'
]

-- Under the invariant `next` does not panic.
pub next_total : (d : TxDependency) → Inv d → (r : TxDependency × Option ℕ) × (next d ≡ some r)
unfolding next
next_total d v = elim (Option-cases (next d)) [
  | inl e ↦ absurd (ground (arith, v.states))
  | inr found ↦ found
]

-- A call that stops before `tx` leaves `tx` ready and brings the cursor nearer.
next_passes :
    (d d' : TxDependency) (r : Option ℕ) (tx : ℕ)
    → next d ≡ some (d', r)
    → d.num_txs < 2 ^ 64
    → tx < d.num_txs
    → IsReady d tx
    → d.index < tx
    → IsReady d' tx × (d'.index ≡ d.index + 1) × (d'.num_txs ≡ d.num_txs)
unfolding next
next_passes d d' r tx e small lt rd below = ground arith

next_takes :
    (d d' : TxDependency) (r : Option ℕ) (tx : ℕ)
    → next d ≡ some (d', r)
    → tx < d.num_txs
    → IsReady d tx
    → d.index ≡ tx
    → r ≡ some tx
unfolding next
next_takes d d' r tx e lt rd here = ground arith

claimed_later :
    (fuel : ℕ) (d d' : TxDependency) (r : Option ℕ) (tx : ℕ)
    → next d ≡ some (d', r)
    → contains (claimed_by fuel d') tx ≡ true
    → contains (claimed_by (suc fuel) d) tx ≡ true
unfolding claimed_by
claimed_later fuel d d' none tx e h = rw (e, claimed_by) h
claimed_later fuel d d' (some found) tx e h = rw (e, claimed_by) (ground (arith, h))

claimed_now :
    (fuel : ℕ) (d d' : TxDependency) (r : Option ℕ) (tx : ℕ)
    → next d ≡ some (d', r)
    → r ≡ some tx
    → contains (claimed_by (suc fuel) d) tx ≡ true
unfolding claimed_by
claimed_now fuel d d' r tx e h = rw (e ∙ ap (λ x. some (d', x)) h, claimed_by) (ground arith)

-- A worker that keeps calling `next` claims every ready transaction, in a block that a `usize` counts,
-- after at most as many calls as the cursor has positions to pass: none is skipped or lost.
pub claimed_by-ready :
    (fuel : ℕ) (d : TxDependency) (tx : ℕ)
    → Inv d
    → d.num_txs < 2 ^ 64
    → tx < d.num_txs
    → IsReady d tx
    → tx < d.index + fuel
    → contains (claimed_by fuel d) tx ≡ true
unfolding claimed_by
claimed_by-ready zero d tx v small lt rd h = absurd (omega (arith, v.ready tx lt rd))
claimed_by-ready (suc fuel) d tx v small lt rd h =
    let ((d', r), e) = next_total d v in
    elim (Bool-cases (ltb d.index tx)) [
      | inl before ↦
          let (rd', moved, same) = next_passes d d' r tx e small lt rd (ltb→lt _ _ before) in
          claimed_later fuel d d' r tx e (
            claimed_by-ready fuel d' tx (next-Inv d d' r e v) (omega (arith, same))
              (omega (arith, same)) rd' (omega (arith, moved)))
      | inr reached ↦
          claimed_now fuel d d' r tx e
            (next_takes d d' r tx e lt rd (ground (arith, v.ready tx lt rd)))
    ]
