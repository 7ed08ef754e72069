-- ===== src/Context/Frontier.antt =====
-- src/scheduler/context.rs: `ExecutionFrontier` and the end of the executed prefix.
use grevm.Prelude.{
  ℕ, zero, suc, ◌+◌, ◌-◌, ◌≡◌, ◌≤◌, ◌<◌, Bool, true, false, ◌&&◌, some, refl, arith, ltb, ◌==◌,
  if◌then◌else◌, inl, inr, put, Bool-cases, ltb→lt,
}
use grevm.Context.{ExecutionFrontier, run_end, advance, rounds, publish_frontier, current}

-- `n` is the end of the contiguous prefix of executed transactions.
pub record IsPrefixEnd (f : ExecutionFrontier) (n : ℕ) : Type 0 where
  pub bound : n ≤ f.executed.len
  pub done : (i : ℕ) → i < n → f.executed.at i ≡ true
  pub first : n < f.executed.len → f.executed.at n ≡ false

pub record Inv (f : ExecutionFrontier) : Type 0 where
  pub bound : f.frontier ≤ f.executed.len
  pub done : (i : ℕ) → i < f.frontier → f.executed.at i ≡ true

module _ (executed : ℕ → Bool) where
  record IsRunEnd (left start end : ℕ) : Type 0 where
    from : start ≤ end
    upto : end ≤ start + left
    inside : (i : ℕ) → start ≤ i → i < end → executed i ≡ true
    stops : end < start + left → executed end ≡ false

  run_end-IsRunEnd : (left start : ℕ) → IsRunEnd left start (run_end executed left start)
  unfolding run_end
  run_end-IsRunEnd zero start = record {
    from = omega arith;
    upto = omega arith;
    inside = λ i lo hi. absurd (omega arith);
    stops = λ h. absurd (omega arith);
  }
  run_end-IsRunEnd (suc left) start = elim (Bool-cases (executed start)) [
    | inl more ↦
        let r = run_end-IsRunEnd left (suc start) in
        rw (more, run_end)
          (record {
            from = omega (arith, r.from);
            upto = omega (arith, r.upto);
            inside = λ i lo hi. elim (Bool-cases (i == start)) [
              | inl here ↦ ground (arith, more)
              | inr later ↦ r.inside i (ground arith) hi
            ];
            stops = λ h. r.stops (omega arith);
          })
    | inr stop ↦
        rw (stop, run_end)
          (record {
            from = omega arith;
            upto = omega arith;
            inside = λ i lo hi. absurd (omega arith);
            stops = λ h. stop;
          })
  ]

  run_end_stopped :
      (left start : ℕ) → (0 < left → executed start ≡ false) → run_end executed left start ≡ start
  unfolding run_end
  run_end_stopped zero start h = refl
  run_end_stopped (suc left) start h = rw (h (omega arith), run_end)

-- The fuel of `advance` is never used up: it moves the frontier to the end of the executed prefix.
advance-IsPrefixEnd :
    (f : ExecutionFrontier)
    → Inv f
    → (f' : ExecutionFrontier) × (advance (rounds f) f f.frontier ≡ some f')
      × (f'.executed ≡ f.executed)
      × IsPrefixEnd f' f'.frontier
unfolding advance
advance-IsPrefixEnd f v =
    let end : ℕ = run_end f.executed.at (f.executed.len - f.frontier) f.frontier in
    let r = run_end-IsRunEnd f.executed.at (f.executed.len - f.frontier) f.frontier in
    let again : run_end f.executed.at (f.executed.len - end) end ≡ end =
      run_end_stopped f.executed.at (f.executed.len - end) end
        (λ h. r.stops (omega (arith, v.bound))) in
    (
      record f { frontier = end },
      ground (arith, again, r.from),
      refl,
      record {
        bound = omega (arith, r.upto, v.bound);
        done = λ i h. elim (Bool-cases (ltb i f.frontier)) [
          | inl old ↦ v.done i (ltb→lt _ _ old)
          | inr new ↦ r.inside i (ground arith) h
        ];
        first = λ h. r.stops (omega (arith, v.bound));
      },
    )

-- A reader that nothing interrupts gets the end of the executed prefix, also when a publisher has not
-- advanced the frontier.
pub current-IsPrefixEnd :
    (f : ExecutionFrontier)
    → Inv f
    → (f' : ExecutionFrontier) × (current f ≡ some (f', f'.frontier))
      × (f'.executed ≡ f.executed)
      × IsPrefixEnd f' f'.frontier
unfolding current
current-IsPrefixEnd f v =
    elim (Bool-cases (ltb f.frontier f.executed.len && f.executed.at f.frontier)) [
      | inl behind ↦
          let (f', e, same, p) = advance-IsPrefixEnd f v in (f', ground (arith, e, behind), same, p)
      | inr settled ↦ (
        f,
        ground (arith, settled),
        refl,
        record { bound = v.bound; done = v.done; first = λ h. ground arith },
      )
    ]

-- Publishing a transaction without interruption keeps the frontier at the end of the executed prefix,
-- in whatever order the transactions complete.
pub publish_frontier-IsPrefixEnd :
    (f : ExecutionFrontier) (index : ℕ)
    → IsPrefixEnd f f.frontier
    → index < f.executed.len
    → (f' : ExecutionFrontier) × (publish_frontier f index ≡ some f')
      × ((i : ℕ) → f'.executed.at i ≡ (if index == i then true else f.executed.at i))
      × (f'.executed.len ≡ f.executed.len)
      × IsPrefixEnd f' f'.frontier
unfolding publish_frontier
publish_frontier-IsPrefixEnd f index p lt = elim (Bool-cases (ltb index f.frontier)) [
  | inl old ↦ (f, ground (arith, old), λ i. ground (arith, p.done i), refl, p)
  | inr new ↦
      let f₁ : ExecutionFrontier = record f { executed = put f.executed index true } in
      elim (Bool-cases (index == f.frontier)) [
        | inl gap ↦
            let (f', e, same, q) =
              advance-IsPrefixEnd f₁
                (record { bound = p.bound; done = λ i h. ground (arith, p.done i) }) in
            (f', ground (arith, e, gap, new), λ i. ground (arith, same), ground (arith, same), q)
        | inr ahead ↦ (
          f₁,
          ground (arith, ahead, new),
          λ i. refl,
          refl,
          record {
            bound = p.bound;
            done = λ i h. ground (arith, p.done i);
            first = λ h. ground (arith, p.first h);
          },
        )
      ]
]
