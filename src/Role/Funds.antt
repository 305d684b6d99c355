-- ===== src/Role/Funds.antt =====
-- server/contract/role.go, lines 569 to 729: pledges, and money in and out of the storage contracts.
use mefs_go_settlement.Base.{
  ℕ, ◌==◌, leb, if◌then◌else◌, length, get_elem?, Option, none, some, ℤ, pos, ◌+ℤ◌, ◌-ℤ◌, M, pure,
  gets, throw, read_or_crash, throw_if, modify, ◌>>=◌, ◌>>◌, err_input, err_permission,
}
use mefs_go_settlement.Utils.Key.{Address}
use mefs_go_settlement.Settlement.{Settlement}
use mefs_go_settlement.Erc
use mefs_go_settlement.Fs.Funds.{get_settle_info}
use mefs_go_settlement.Fs.Calls as Group
use mefs_go_settlement.Pledge.Calls as Pool
use mefs_go_settlement.Role.{
  RoleMgr, BaseInfo, role_provider, role_keeper, get_info, get_group_info,
}
use mefs_go_settlement.World.{
  World, get_erc_token, get_pledge_pool, get_fs_mgr, on_erc, on_role, on_fs, on_pledge,
}

-- The payer of a call about `addr`: the contract itself if the admin calls, which first allows
-- `spender` to take the money from it; and `addr`, who must be the caller, otherwise. The source
-- names as `spender` the owner of the contract that will take the money, and not that contract.
unfoldable pub payer :
    (self caller addr spender : Address) (token : ℕ) (money : ℤ) → M World Address
payer self caller addr spender token money = do
  admin ← on_role self (gets (λ r. r.admin))
  if caller == admin
      then (do
        taddr ← on_role self (read_or_crash (λ r. get_elem? r.tokens token))
        get_erc_token taddr
        on_erc taddr (modify (Erc.approve self spender money))
        pure self)
      else if caller == addr
      then pure addr
      else throw err_permission

unfoldable pub pledge : (self caller : Address) (index : ℕ) (money : ℤ) → M World (Unit {0})
unfolding payer
pledge self caller index money = do
  bi ← on_role self (get_info index)
  throw_if bi.is_banned err_permission
  pool ← on_role self (gets (λ r. r.pledge))
  get_pledge_pool pool
  addr ← on_role self (read_or_crash (λ r. get_elem? r.addrs index))
  owner ← on_pledge pool (gets (λ p. p.owner))
  from ← payer self caller addr owner 0 money
  Pool.pledge pool self from index money

-- What a role must leave in the pool.
unfoldable pub lock_of : BaseInfo → RoleMgr → ℤ
lock_of bi r =
    if bi.role_type == role_keeper
    then r.pledge_keeper
    else if bi.role_type == role_provider
    then r.pledge_pro
    else pos 0

unfoldable pub withdraw : (self caller : Address) (index token : ℕ) (money : ℤ) → M World (Unit {0})
unfolding lock_of
withdraw self caller index token money = do
  throw_if (leb (length (← on_role self (gets (λ r. r.tokens)))) token) err_input
  bi ← on_role self (get_info index)
  throw_if bi.is_banned err_permission
  pool ← on_role self (gets (λ r. r.pledge))
  get_pledge_pool pool
  lock ← on_role self (gets (lock_of bi))
  Pool.withdraw pool self index token money lock

-- The storage contract of the group that a role is in, behind the test on the token.
unfoldable pub group_contract : (self : Address) (index token : ℕ) → M World Address
group_contract self index token = do
  throw_if (leb (length (← on_role self (gets (λ r. r.tokens)))) token) err_input
  ui ← on_role self (get_info index)
  gi ← on_role self (get_group_info ui.g_index)
  get_fs_mgr gi.fs_addr
  pure gi.fs_addr

unfoldable pub recharge : (self caller : Address) (index token : ℕ) (money : ℤ) → M World (Unit {0})
unfolding group_contract payer
recharge self caller index token money = do
  fm ← group_contract self index token
  addr ← on_role self (read_or_crash (λ r. get_elem? r.addrs index))
  owner ← on_fs fm (gets (λ f. f.owner))
  from ← payer self caller addr owner token money
  Group.recharge fm self from index token money

abbrev pub lost_of : Option Settlement → ℤ
lost_of none = pos 0
lost_of (some se) = se.lost

unfoldable pub pro_withdraw :
    (self caller : Address) (pro token : ℕ) (pay lost : ℤ) → M World (Unit {0})
unfolding group_contract
pro_withdraw self caller pro token pay lost = do
  fm ← group_contract self pro token
  blost ← on_fs fm (gets (λ f. lost_of (get_settle_info pro token f)))
  Group.pro_withdraw fm self pro token pay lost
  on_role self (
      modify
        (λ r. if token == 0 then record r { total_paid = r.total_paid +ℤ lost -ℤ blost } else r))

unfoldable pub withdraw_from_fs :
    (self caller : Address) (index token : ℕ) (amount : ℤ) → M World (Unit {0})
unfolding group_contract
withdraw_from_fs self caller index token amount = do
  fm ← group_contract self index token
  Group.withdraw fm self index token amount
