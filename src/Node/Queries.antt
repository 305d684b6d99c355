-- ===== src/Node/Queries.antt =====
-- server/impl/node/node.go, lines 44 to 51 and 427 to 604, and erc.go, lines 212 to 248: what the node
-- answers to a query, for which it only takes the read lock.
use mefs_go_settlement.Base.{
  ℕ, List, [], none, some, ℤ, pos, lookup, nat_eq, M, pure, gets, or_throw, ◌>>=◌, ◌>>◌,
  node_err_res,
}
use mefs_go_settlement.Utils.Key.{Address}
use mefs_go_settlement.Erc
use mefs_go_settlement.Erc.{ErcToken}
use mefs_go_settlement.Settlement.{Settlement}
use mefs_go_settlement.Fs.Funds
use mefs_go_settlement.Fs.Funds.{get_settle_info}
use mefs_go_settlement.Pledge.Calls
use mefs_go_settlement.Pledge.Calls.{get_pledge}
use mefs_go_settlement.Role.{
  BaseInfo, GroupInfo, get_index, get_token_address, get_token_index, get_info_addr,
  get_group_info_any,
}
use mefs_go_settlement.World.{
  World, on_erc, on_role, on_fs, find_pledge, get_pledge_pool, get_fs_mgr, get_time,
}
use mefs_go_settlement.Node.{Server, get_nonce, on_world, on_manager}

pub data Query : Type 0 where
  nonce_of : (addr : Address) → Query
  index_of : (addr : Address) → Query
  addr_of info_of : (index : ℕ) → Query
  token_index_of : (taddr : Address) → Query
  token_address_of : (index : ℕ) → Query
  group_info_of : (g_index : ℕ) → Query
  balance_in_pool : (index : ℕ) → Query
  settle_info balance_in_fs : (index token : ℕ) → Query
  pledge_address foundation : Query
  keeper_pledge provider_pledge : Query
  pledge_balance all_tokens all_addrs all_groups : Query
  supply_of : (taddr : Address) → Query
  balance_of_owner : (taddr owner : Address) → Query
  allowance_of : (taddr owner spender : Address) → Query

-- The type of the answer.
abbrev pub Answer : Query → Type 0
Answer (nonce_of addr) = ℕ
Answer (index_of addr) = ℕ
Answer (addr_of index) = Address
Answer (info_of index) = BaseInfo
Answer (token_index_of taddr) = ℕ
Answer (token_address_of index) = Address
Answer (group_info_of g_index) = GroupInfo
Answer (balance_in_pool index) = List ℤ
Answer (settle_info index token) = Settlement
Answer (balance_in_fs index token) = ℤ × ℤ
Answer pledge_address = Address
Answer foundation = Address
Answer keeper_pledge = ℤ
Answer provider_pledge = ℤ
Answer pledge_balance = List ℤ
Answer all_tokens = List Address
Answer all_addrs = List Address
Answer all_groups = List GroupInfo
Answer (supply_of taddr) = ℤ
Answer (balance_of_owner taddr owner) = ℤ
Answer (allowance_of taddr owner spender) = ℤ

-- The storage contract of the group that a role is in.
unfoldable pub fs_of : (self : Address) (index : ℕ) → M World Address
fs_of self index = do
  ui ← on_role self (get_info_addr index)
  gi ← on_role self (get_group_info_any ui.0.g_index)
  get_fs_mgr gi.fs_addr
  pure gi.fs_addr

unfoldable pub settle_info_of : (self : Address) (index token : ℕ) → M World Settlement
unfolding fs_of
settle_info_of self index token = do
  fm ← fs_of self index
  se ← on_fs fm (gets (get_settle_info index token))
  or_throw se node_err_res

unfoldable pub balance_in_fs_of : (self : Address) (index token : ℕ) → M World (ℤ × ℤ)
unfolding fs_of
balance_in_fs_of self index token = do
  fm ← fs_of self index
  now ← gets get_time
  on_fs fm (Funds.get_balance now index token)

unfoldable pub balance_at : (self : Address) (index : ℕ) → M World (List ℤ)
balance_at self index = do
  pool ← on_role self (gets (λ r. r.pledge))
  get_pledge_pool pool
  Calls.get_balance pool index

-- Nil where the registry's pool is none.
unfoldable pub pledge_balance_at : (self : Address) → M World (List ℤ)
pledge_balance_at self = do
  pool ← on_role self (gets (λ r. r.pledge))
  found ← gets (find_pledge pool)
  elim found [ none ↦ pure [] | some p ↦ gets (get_pledge pool p.tokens) ]

-- A view of a token that the node knows, and 0 of any other.
unfoldable pub erc_view : (taddr : Address) → (ErcToken → ℤ) → M Server ℤ
erc_view taddr view = do
  er ← gets (λ s. lookup taddr s.node.erc_map)
  elim er [ none ↦ pure (pos 0) | some a ↦ on_world (on_erc a (gets view)) ]

unfoldable pub ask : (q : Query) → M Server (Answer q)
unfolding settle_info_of balance_in_fs_of balance_at pledge_balance_at erc_view
ask (nonce_of addr) = gets (λ s. get_nonce addr s.node)
ask (index_of addr) = on_manager (λ self. on_role self (get_index addr))
ask (addr_of index) = on_manager (λ self. on_role self (get_info_addr index >>= (λ x. pure x.1)))
ask (info_of index) = on_manager (λ self. on_role self (get_info_addr index >>= (λ x. pure x.0)))
ask (token_index_of taddr) = on_manager (λ self. on_role self (get_token_index taddr))
ask (token_address_of index) = on_manager (λ self. on_role self (get_token_address index))
ask (group_info_of g_index) = on_manager (λ self. on_role self (get_group_info_any g_index))
ask (balance_in_pool index) = on_manager (λ self. balance_at self index)
ask (settle_info index token) = on_manager (λ self. settle_info_of self index token)
ask (balance_in_fs index token) = on_manager (λ self. balance_in_fs_of self index token)
ask pledge_address = on_manager (λ self. on_role self (gets (λ r. r.pledge)))
ask foundation = on_manager (λ self. on_role self (gets (λ r. r.foundation)))
ask keeper_pledge = on_manager (λ self. on_role self (gets (λ r. r.pledge_keeper)))
ask provider_pledge = on_manager (λ self. on_role self (gets (λ r. r.pledge_pro)))
ask pledge_balance = on_manager pledge_balance_at
ask all_tokens = on_manager (λ self. on_role self (gets (λ r. r.tokens)))
ask all_addrs = on_manager (λ self. on_role self (gets (λ r. r.addrs)))
ask all_groups = on_manager (λ self. on_role self (gets (λ r. r.groups)))
ask (supply_of taddr) = erc_view taddr (λ e. e.total_supply)
ask (balance_of_owner taddr owner) = erc_view taddr (Erc.balance_of owner)
ask (allowance_of taddr owner spender) = erc_view taddr (Erc.allowance owner spender)
