-- ===== src/Role.antt =====
-- server/contract/role.go: the registry of roles, groups and tokens. This file has its state and
-- its lookups; the children have its operations and what they guarantee.
pub mod Groups
pub mod Funds
pub mod Mint
pub mod Levels
pub mod Issuance
pub mod Orders
pub mod Registry
pub mod Members
mod Tests
use mefs_go_settlement.Base.{
  ℕ, ◌/◌, Bool, not, ◌||◌, ltb, word, if◌then◌else◌, List, length, get_elem?, set, ℤ, pos, sub_ℕ,
  leb_ℤ, Dict, nat_eq, lookup, insert, M, gets, or_throw, or_crash, throw_if, pure, ◌>>=◌, ◌>>◌,
  err_input, err_empty, err_permission, err_no_such_addr,
}
use mefs_go_settlement.Utils.Key.{Address}

abbrev pub role_user : ℕ
role_user = 1

abbrev pub role_provider : ℕ
role_provider = 2

abbrev pub role_keeper : ℕ
role_keeper = 3

pub record BaseInfo : Type 0 where
  pub is_active : Bool
  pub is_banned : Bool
  pub role_type : ℕ
  pub index : ℕ
  pub g_index : ℕ
  pub extra : List ℕ

pub record TokenInfo : Type 0 where
  pub is_banned : Bool
  pub index : ℕ

pub record GroupInfo : Type 0 where
  pub is_active : Bool
  pub is_banned : Bool
  pub is_ready : Bool
  pub level : ℕ
  pub keepers : List ℕ
  pub providers : List ℕ
  pub size : ℤ
  pub price : ℤ
  pub fs_addr : Address

pub record MintInfo : Type 0 where
  pub ratio : ℕ
  pub size : ℕ
  pub duration : ℕ

pub record RoleMgr : Type 0 where
  pub local : Address
  pub admin : Address
  pub pledge : Address
  pub foundation : Address
  pub addrs : List Address
  pub info : Dict Address BaseInfo
  pub groups : List GroupInfo
  pub tokens : List Address
  pub t_info : Dict Address TokenInfo
  pub pledge_keeper : ℤ
  pub pledge_pro : ℤ
  pub total_pledge : ℤ
  pub mint_level : ℕ
  pub mint : List MintInfo
  pub last_mint : ℕ
  pub start : ℕ
  pub size : ℤ
  pub price : ℤ
  pub space_time : ℤ
  pub total_paid : ℤ
  pub total_pay : ℤ
  pub sub_p_map : Dict ℕ ℤ
  pub sub_s_map : Dict ℕ ℤ

-- Go's conversion of a uint64 to an int, which is negative from 2 ^ 63 on.
abbrev pub int : ℕ → ℤ
int n = if ltb n (word / 2) then pos n else sub_ℕ n word

-- `r.addrs[index]` behind the test `int(index) >= len(r.addrs)`.
unfoldable pub address_at : ℕ → M RoleMgr Address
address_at index = do
  throw_if (leb_ℤ (pos (length (← gets (λ r. r.addrs)))) (int index)) err_input
  or_crash (← gets (λ r. get_elem? r.addrs index))

-- `GetIndex`
unfoldable pub get_index : (addr : Address) → M RoleMgr ℕ
get_index addr = do bi ← or_throw (← gets (λ r. lookup addr r.info)) err_no_such_addr; pure bi.index

-- `GetTokenAddress`
unfoldable pub get_token_address : (index : ℕ) → M RoleMgr Address
get_token_address index = do or_throw (← gets (λ r. get_elem? r.tokens index)) err_input

-- `GetTokenIndex`
unfoldable pub get_token_index : (addr : Address) → M RoleMgr ℕ
get_token_index addr = do
  ti ← or_throw (← gets (λ r. lookup addr r.t_info)) err_no_such_addr
  pure ti.index

-- `GetInfo`
unfoldable pub get_info_addr : (index : ℕ) → M RoleMgr (BaseInfo × Address)
unfolding address_at
get_info_addr index = do
  addr ← address_at index
  ki ← or_throw (← gets (λ r. lookup addr r.info)) err_empty
  pure (ki, addr)

-- `getInfo`, which refuses a role that is banned.
unfoldable pub get_info : (index : ℕ) → M RoleMgr BaseInfo
unfolding address_at
get_info index = do
  addr ← address_at index
  bi ← or_throw (← gets (λ r. lookup addr r.info)) err_empty
  throw_if bi.is_banned err_permission
  pure bi

-- `GetGroupInfo`
unfoldable pub get_group_info_any : (index : ℕ) → M RoleMgr GroupInfo
get_group_info_any index = do or_throw (← gets (λ r. get_elem? r.groups index)) err_input

-- `getGroupInfo`, which refuses a group that is not active or is banned.
unfoldable pub get_group_info : (index : ℕ) → M RoleMgr GroupInfo
get_group_info index = do
  gi ← or_throw (← gets (λ r. get_elem? r.groups index)) err_input
  throw_if (not gi.is_active || gi.is_banned) err_permission
  pure gi

-- A write through the pointer of `getInfo`.
abbrev pub set_info : Address → BaseInfo → RoleMgr → RoleMgr
set_info addr bi r = record r { info = insert addr bi r.info }

-- A write through the pointer of `getGroupInfo`.
abbrev pub set_group : ℕ → GroupInfo → RoleMgr → RoleMgr
set_group index gi r = record r { groups = set r.groups index gi }
