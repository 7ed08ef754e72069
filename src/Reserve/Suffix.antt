-- ===== src/Reserve/Suffix.antt =====
-- src/delegated_safety/reserve.rs: the suffix sums and a sum over the block.
use grevm.Prelude.{
  ℕ, zero, suc, ◌+◌, ◌≡◌, ◌<◌, min, ◌&&◌, List, [], ◌∷◌, length, leb, ltb, ◌==◌, if◌then◌else◌,
  Bool-cases, inl, inr, refl, arith, ◌∙◌,
}
use grevm.Memory.{Keys}
use grevm.Reserve.{
  u256_max, TxCost, partition_point, sender_index, cost, first, build_schedule, scheduled_after,
  required_after,
}

module _ (keys : Keys) (txs : ℕ → TxCost keys.Address) where
  -- What the caller's transactions after `txid` cost at most, over `left` transactions from `start`.
  pub total_after : ℕ → keys.Address → ℕ → ℕ → ℕ
  total_after txid caller zero start = 0
  total_after txid caller (suc left) start =
      let rest = total_after txid caller left (suc start) in
      if keys.eqb (txs start).caller caller && ltb txid start
      then cost keys txs start + rest
      else rest

  past_all :
      (txid : ℕ) (txids : List ℕ)
      → partition_point txid txids ≡ length txids
      → scheduled_after keys txs txid txids ≡ 0
  unfolding scheduled_after build_schedule partition_point
  past_all txid [] e = refl
  past_all txid (i ∷ is) e = elim (Bool-cases (leb i txid)) [
    | inl before ↦ ground (arith, before, past_all txid is (ground (arith, before)))
    | inr after ↦ absurd (ground (arith, after))
  ]

  later_start :
      (txid : ℕ) (caller : keys.Address) (left start : ℕ)
      → txid < start
      → first keys txs (build_schedule keys txs (sender_index keys txs caller left start))
        ≡ min (total_after txid caller left start) u256_max
  unfolding sender_index build_schedule total_after
  later_start txid caller zero start lt = omega arith
  later_start txid caller (suc left) start lt =
      elim (Bool-cases (keys.eqb (txs start).caller caller)) [
        | inl own ↦ ground (arith, own, later_start txid caller left (suc start) (omega arith))
        | inr other ↦ ground (arith, other, later_start txid caller left (suc start) (omega arith))
      ]

  at_first :
      (txid : ℕ) (caller : keys.Address) (left start : ℕ)
      → txid < start
      → scheduled_after keys txs txid (sender_index keys txs caller left start)
        ≡ first keys txs (build_schedule keys txs (sender_index keys txs caller left start))
  unfolding sender_index scheduled_after build_schedule partition_point
  at_first txid caller zero start lt = refl
  at_first txid caller (suc left) start lt =
      elim (Bool-cases (keys.eqb (txs start).caller caller)) [
        | inl own ↦ ground (arith, own)
        | inr other ↦ ground (arith, other, at_first txid caller left (suc start) (omega arith))
      ]

  scheduled_after-total_after :
      (txid : ℕ) (caller : keys.Address) (left start : ℕ)
      → scheduled_after keys txs txid (sender_index keys txs caller left start)
        ≡ min (total_after txid caller left start) u256_max
  unfolding sender_index scheduled_after build_schedule partition_point total_after
  scheduled_after-total_after txid caller zero start = omega arith
  scheduled_after-total_after txid caller (suc left) start = elim (Bool-cases (ltb txid start)) [
    | inl after ↦
        at_first txid caller (suc left) start (ground arith)
        ∙ later_start txid caller (suc left) start (ground arith)
    | inr before ↦ elim (Bool-cases (keys.eqb (txs start).caller caller)) [
      | inl own ↦ ground (arith, own, scheduled_after-total_after txid caller left (suc start))
      | inr other ↦ ground (arith, other, scheduled_after-total_after txid caller left (suc start))
    ]
  ]

  -- The reserve of an account after a transaction is what its own later transactions of the block cost
  -- at most, each overflowing cost counted as the largest number, and the sum capped at it.
  pub required_after-total_after :
      (block_size txid : ℕ) (address : keys.Address)
      → required_after keys txs block_size txid address
        ≡ min (total_after txid address block_size 0) u256_max
  unfolding required_after
  required_after-total_after block_size txid address =
      elim (Bool-cases (
        partition_point txid (sender_index keys txs address block_size 0)
        == length (sender_index keys txs address block_size 0))) [
          | inl past ↦ ground (
            arith,
            past,
            past_all txid (sender_index keys txs address block_size 0),
            scheduled_after-total_after txid address block_size 0,
          )
          | inr more ↦ ground (arith, more, scheduled_after-total_after txid address block_size 0)
        ]
