-- ===== src/Account.antt =====
-- src/account.rs: what a finalized journal account does to the state.
use grevm.Prelude.{not, if◌then◌else◌}
use grevm.Revm.{Accounts}

pub data FinalizedAccount (Info : Type 0) : Type 0 where
  unchanged deleted : FinalizedAccount Info
  created updated : Info → FinalizedAccount Info

module _ (revm : Accounts) where
  open revm use {AccountInfo, Account, is_touched, is_selfdestructed, is_created, is_empty, info}

  abbrev pub finalized : Account → FinalizedAccount AccountInfo
  finalized account =
      if not (is_touched account)
      then unchanged
      else (if is_selfdestructed account
          then deleted
          else (if is_created account
              then created (info account)
              else (if is_empty account then deleted else updated (info account))))
