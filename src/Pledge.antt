-- ===== src/Pledge.antt =====
-- server/contract/pledge.go: the pool of pledges. This file has its state; the children have its
-- operations and what they guarantee.
pub mod Calls
pub mod Shares
pub mod Ledger
pub mod Bookings
pub mod Held
pub mod Rewards
pub mod Loops
pub mod Sound
pub mod Written
pub mod Meeting
pub mod Steps
pub mod Deposits
pub mod Settling
pub mod Payouts
pub mod Withdrawals
pub mod Solvency
pub mod Receipts
pub mod Priced
pub mod Additions
pub mod History
mod Tests
use mefs_go_settlement.Base.{ℕ, List, ℤ, pos, Dict}
use mefs_go_settlement.Utils.Key.{Address}
use mefs_go_settlement.Keys.{MultiKey}

-- `reward_accum` is the reward for each unit pledged, `last_reward` what is held.
pub record RewardInfo : Type 0 where
  pub reward_accum : ℤ
  pub last_reward : ℤ

pub record PledgeMgr : Type 0 where
  pub owner : Address
  pub local : Address
  pub token : ℕ
  pub tokens : List Address
  pub total_pledge : ℤ
  pub amount : Dict MultiKey RewardInfo
  pub t_info : Dict ℕ RewardInfo

abbrev pub no_reward : RewardInfo
no_reward = record { reward_accum = pos 0; last_reward = pos 0 }
