-- ===== src/Context/Tests.antt =====
-- Runs of the validation cursor and of the execution frontier.
use grevm.Prelude.{
  unwrap_or, update, ◌≤◌, ◌⊎◌, inl, ℕ, ◌≡◌, true, false, [], ◌∷◌, refl, arith, filled, contains,
}
use grevm.Context.{claim_round, rewind, ExecutionFrontier}
use grevm.Context.Cursor.{claims, rewinds, Run, begin, access, Run-claims}
use grevm.Context.Frontier.{IsPrefixEnd}
use grevm.Context.Race.{
  Access, away, publishing, answered, frontier_access, publishes, Reach, begins, calls, accesses,
  owes, Below,
}
use grevm.Context.Race.Prefix.{Reach-IsPrefixEnd}

-- Transactions 0 and 1 are claimed, then the cursor is rewound to 0, and 0 is claimed again.
rewound : Run 0 1 (0 ∷ 1 ∷ 0 ∷ [])
unfolding claim_round rewind
rewound =
    access
      (access (access (access begin (claims 2 0 false 0 refl)) (claims 2 1 false 1 refl))
        (rewinds 0 refl))
      (claims 2 0 false 0 refl)

Run-claims_example : contains (0 ∷ 1 ∷ 0 ∷ []) 0 ≡ true
Run-claims_example = Run-claims 0 rewound (omega arith) (omega arith)

-- Threads 0 and 1 publish the transactions of their numbers.
abbrev Threads : Type 0
Threads = ExecutionFrontier × (ℕ → Access)

abbrev call : ℕ → Access → Threads → Threads
call t x (f, at) = (f, update at t x)

abbrev turn : ℕ → Threads → Threads
turn t (f, at) = let (f', x) = unwrap_or (frontier_access f (at t)) (f, away) in (f', update at t x)

abbrev start : Threads
start = (record { executed = filled 2 false; frontier = 0 }, λ t. away)

-- Both have called and loaded the frontier; thread 1 has stored.
abbrev half : Threads
unfolding frontier_access
half = turn 1 (turn 0 (turn 1 (call 0 (publishing 0) (call 1 (publishing 1) start))))

-- Thread 1 has found that it has not filled the gap, and thread 0 has stored.
abbrev filled_gap : Threads
unfolding frontier_access
filled_gap = turn 0 (turn 1 half)

filled_gap-Reach : Reach 2 filled_gap.0 filled_gap.1
unfolding frontier_access
filled_gap-Reach =
    accesses _ _ _ 0 _
      (accesses _ _ _ 1 _
        (accesses _ _ _ 1 _
          (accesses _ _ _ 0 _
            (accesses _ _ _ 1 _
              (calls _ _ 0 _ (calls _ _ 1 _ begins (inl refl) (publishes 1)) (inl refl)
                (publishes 0))
              refl)
            refl)
          refl)
        refl)
      refl

Reach-IsPrefixEnd_example :
    (filled_gap.0.executed.len ≡ 2)
    × Below filled_gap.0 filled_gap.0.frontier
    × (IsPrefixEnd filled_gap.0 filled_gap.0.frontier
        ⊎ ((t : ℕ) × (owes filled_gap.0.frontier (filled_gap.1 t) ≡ true)))
    × ((t answer : ℕ)
        → filled_gap.1 t ≡ answered answer
        → (answer ≤ filled_gap.0.frontier) × Below filled_gap.0 answer)
Reach-IsPrefixEnd_example = Reach-IsPrefixEnd 2 filled_gap.0 filled_gap.1 filled_gap-Reach

-- Thread 0 then moves the frontier over both.
moves : (turn 0 (turn 0 (turn 0 (turn 0 (turn 0 filled_gap))))).0.frontier ≡ 2
unfolding frontier_access
moves = refl
