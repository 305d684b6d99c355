-- ===== src/Fs.antt =====
-- server/contract/fs.go: the storage contract of a group. This file has its state; the children
-- have its operations and what they guarantee.
pub mod Orders
pub mod Repairs
pub mod Funds
pub mod Calls
pub mod Liability
pub mod Books
pub mod Closings
pub mod Losses
pub mod Payouts
pub mod Promise
pub mod Liquid
pub mod Liveness
pub mod Payable
pub mod Kept
pub mod Withdrawals
pub mod Accounts
pub mod Providers
pub mod Owned
pub mod Met
pub mod Covered
pub mod Steps
pub mod Sends
pub mod Solvency
pub mod History
mod Tests
use mefs_go_settlement.Base.{ℕ, Bool, true, List, [], ◌∷◌, ℤ, pos, Dict, nat_eq, insert}
use mefs_go_settlement.Utils.Key.{Address}
use mefs_go_settlement.Keys.{MultiKey, multi_key_eq}
use mefs_go_settlement.Settlement.{Settlement}

pub record StoreInfo : Type 0 where
  pub time : ℕ
  pub size : ℕ
  pub price : ℤ

abbrev pub new_store_info : StoreInfo
new_store_info = record { time = 0; size = 0; price = pos 0 }

pub record ChannelInfo : Type 0 where
  pub amount : ℤ
  pub nonce : ℕ
  pub expire : ℕ

pub record AggOrder : Type 0 where
  pub nonce : ℕ
  pub sub_nonce : ℕ
  pub s_info : Dict ℕ StoreInfo
  pub channel : Dict ℕ ChannelInfo

pub record FsInfo : Type 0 where
  pub is_active : Bool
  pub token_index : ℕ
  pub providers : List ℕ
  pub ao : Dict ℕ AggOrder

-- `manageRate` and `taxRate` are the ints 4 and 1.
pub record FsMgr : Type 0 where
  pub local : Address
  pub owner : Address
  pub manage_rate : ℕ
  pub tax_rate : ℕ
  pub g_index : ℕ
  pub foundation : ℕ
  pub balance : Dict MultiKey ℤ
  pub penalty : Dict MultiKey ℤ
  pub users : List ℕ
  pub fs : Dict ℕ FsInfo
  pub repair_fs : FsInfo
  pub keepers : List ℕ
  pub period : ℕ
  pub last_time : ℕ
  pub t_acc : Dict ℕ ℤ
  pub total_count : ℕ
  pub count : Dict ℕ ℕ
  pub providers : List ℕ
  pub pro_info : Dict MultiKey Settlement
  pub tokens : List ℕ

abbrev pub new_fs_info : FsInfo
new_fs_info = record { is_active = true; token_index = 0; providers = []; ao = [] }

-- The loop of `NewFsMgr` over the keepers that the group has.
unfoldable pub count_keepers : List ℕ → Dict ℕ ℕ → Dict ℕ ℕ
count_keepers [] count = count
count_keepers (kp ∷ kps) count = count_keepers kps (insert kp 1 count)
