-- ===== src/Reserve.antt =====
-- src/delegated_safety/reserve.rs: the reserve planner, which says how much an account needs for its
-- later transactions in the block. The caches of the planner (`OnceLock`, `DashMap`) hold what these
-- functions give and are left out.
pub mod Suffix
pub mod Journal
mod Tests
use grevm.Prelude.{
  ℕ, zero, suc, ◌+◌, ◌-◌, ◌≡◌, min, Bool, Option, none, some, List, [], ◌∷◌, length, get_elem?,
  unwrap_or, leb, ◌==◌, if◌then◌else◌,
}
use grevm.Revm.{u256_mod}
use grevm.Memory.{Keys}

abbrev pub u256_max : ℕ
u256_max = u256_mod - 1

-- `U256::saturating_add`
abbrev pub saturating_add : ℕ → ℕ → ℕ
saturating_add a b = min (a + b) u256_max

-- What the planner uses of `TxEnv`; `none` is a maximum cost that overflows.
pub record TxCost (Address : Type 0) : Type 0 where
  pub caller : Address
  pub max_balance_spending : Option ℕ

-- `slice::partition_point` for `candidate <= txid`: the slice is partitioned by it.
pub partition_point : ℕ → List ℕ → ℕ
partition_point txid [] = 0
partition_point txid (i ∷ is) = if leb i txid then suc (partition_point txid is) else 0

module _ (keys : Keys) (txs : ℕ → TxCost keys.Address) where
  -- The entry of `sender_index` for a caller, over `left` transactions from `txid`.
  pub sender_index : keys.Address → ℕ → ℕ → List ℕ
  sender_index caller zero txid = []
  sender_index caller (suc left) txid =
      let rest = sender_index caller left (suc txid) in
      if keys.eqb (txs txid).caller caller then txid ∷ rest else rest

  abbrev pub cost : ℕ → ℕ
  cost txid = unwrap_or (txs txid).max_balance_spending u256_max

  -- `build_schedule`: the suffix sums, of which `first` is the one before the loop's next index.
  abbrev pub first : List ℕ → ℕ
  first [] = 0
  first (c ∷ cs) = c

  pub build_schedule : List ℕ → List ℕ
  build_schedule [] = []
  build_schedule (txid ∷ txids) =
      let rest = build_schedule txids in saturating_add (first rest) (cost txid) ∷ rest

  -- `AccountReserveSchedule::required_after`
  pub scheduled_after : ℕ → List ℕ → ℕ
  unfolding partition_point build_schedule
  scheduled_after txid txids =
      unwrap_or (get_elem? (build_schedule txids) (partition_point txid txids)) 0

  -- `ReservePlanner::required_after`
  unfoldable pub required_after : ℕ → ℕ → keys.Address → ℕ
  unfolding sender_index scheduled_after partition_point
  required_after block_size txid address =
      let txids = sender_index address block_size 0 in
      if partition_point txid txids == length txids then 0 else scheduled_after txid txids
