-- ===== src/Role/Orders.antt =====
-- server/contract/role.go, lines 731 to 1039: orders and repairs. Signatures are not read.
use mefs_go_settlement.Base.{
  ℕ, ◌*◌, ◌/◌, ◌==◌, leb, sub64, if◌then◌else◌, not, length, get_elem?, Option, none, some, ℤ, pos,
  ◌-ℤ◌, ◌*ℤ◌, nat_eq, lookup, M, pure, gets, read_or_crash, throw_if, modify, ◌>>=◌, ◌>>◌,
  err_input, err_role_type, err_balance_not_enough,
}
use mefs_go_settlement.Utils.Key.{Address}
use mefs_go_settlement.Fs.Orders as Group
use mefs_go_settlement.Fs.Repairs.{add_repair as group_add_repair, sub_repair as group_sub_repair}
use mefs_go_settlement.Role.{BaseInfo, role_user, role_provider, get_info, get_group_info}
use mefs_go_settlement.Role.Groups.{update_group}
use mefs_go_settlement.Role.Mint.{day, mint_order}
use mefs_go_settlement.World.{World, get_time, get_fs_mgr, on_role, on_fs, send_balance}

-- The index of the caller, which counts as a keeper's call; 0 if the caller is not known.
abbrev pub index_of : Option BaseInfo → ℕ
index_of none = 0
index_of (some bi) = bi.index

-- The reward goes to the pool, and only then is the time remembered.
unfoldable pub send_reward : (self : Address) (ntime : ℕ) → Option ℤ → M World (Unit {0})
send_reward self ntime none = pure tt
send_reward self ntime (some reward) = do
  taddr ← on_role self (read_or_crash (λ r. get_elem? r.tokens 0))
  pool ← on_role self (gets (λ r. r.pledge))
  send_balance taddr self pool reward
  on_role self (modify (λ r. record r { last_mint = ntime }))

-- The part of `AddOrder` for the first token.
unfoldable pub issue :
    (self : Address) (g_index start end size token : ℕ) (sprice : ℤ) → M World (Unit {0})
unfolding mint_order send_reward
issue self g_index start end size token sprice =
    if token == 0
    then (do
      now ← gets get_time
      minted ← on_role self (mint_order now g_index start end size sprice)
      send_reward self minted.1 minted.0)
    else pure tt

unfoldable pub add_order :
    (self caller : Address) (user pro start end size nonce token : ℕ) (sprice : ℤ)
    → M World (Unit {0})
unfolding issue
add_order self caller user pro start end size nonce token sprice = do
  throw_if (leb size 0) err_input
  throw_if (leb end start) err_input
  throw_if (not (end / day * day == end)) err_input
  ui ← on_role self (get_info user)
  pi ← on_role self (get_info pro)
  throw_if (not (pi.role_type == role_provider)) err_role_type
  kindex ← on_role self (gets (λ r. index_of (lookup caller r.info)))
  throw_if (not (pi.g_index == ui.g_index)) err_input
  gi ← on_role self (get_group_info ui.g_index)
  get_fs_mgr gi.fs_addr
  throw_if (leb (length (← on_role self (gets (λ r. r.tokens)))) token) err_balance_not_enough
  on_fs gi.fs_addr (Group.add_order self kindex user pro start end size nonce token sprice)
  issue self ui.g_index start end size token sprice

unfoldable pub sub_order :
    (self caller : Address) (user pro start end size nonce token : ℕ) (sprice : ℤ)
    → M World (Unit {0})
unfolding update_group
sub_order self caller user pro start end size nonce token sprice = do
  ui ← on_role self (get_info user)
  throw_if (not (ui.role_type == role_user)) err_role_type
  pi ← on_role self (get_info pro)
  throw_if (not (pi.role_type == role_provider)) err_role_type
  throw_if (not (pi.g_index == ui.g_index)) err_input
  gi ← on_role self (get_group_info ui.g_index)
  kindex ← on_role self (gets (λ r. index_of (lookup caller r.info)))
  get_fs_mgr gi.fs_addr
  now ← gets get_time
  on_fs gi.fs_addr (Group.sub_order now self kindex user pro start end size nonce token sprice)
  on_role self (
      modify (
        update_group ui.g_index
          (λ g. record g { size = g.size -ℤ pos size; price = g.price -ℤ sprice })))

unfoldable pub add_repair :
    (self caller : Address) (pro newpro start end size nonce token : ℕ) (sprice : ℤ)
    → M World (Unit {0})
add_repair self caller pro newpro start end size nonce token sprice = do
  pi ← on_role self (get_info pro)
  throw_if (not (pi.role_type == role_provider)) err_role_type
  npi ← on_role self (get_info newpro)
  throw_if (not (npi.role_type == role_provider)) err_role_type
  kindex ← on_role self (gets (λ r. index_of (lookup caller r.info)))
  throw_if (not (pi.g_index == npi.g_index)) err_input
  gi ← on_role self (get_group_info npi.g_index)
  get_fs_mgr gi.fs_addr
  throw_if (leb (length (← on_role self (gets (λ r. r.tokens)))) token) err_balance_not_enough
  on_fs gi.fs_addr (group_add_repair self kindex pro newpro start end size nonce token sprice)
  on_role self (
      modify (λ r.
        if token == 0
        then record r { total_paid = r.total_paid -ℤ sprice *ℤ pos (sub64 end start) }
        else r))

unfoldable pub sub_repair :
    (self caller : Address) (pro newpro start end size nonce token : ℕ) (sprice : ℤ)
    → M World (Unit {0})
sub_repair self caller pro newpro start end size nonce token sprice = do
  pi ← on_role self (get_info newpro)
  throw_if (not (pi.role_type == role_provider)) err_role_type
  gi ← on_role self (get_group_info pi.g_index)
  kindex ← on_role self (gets (λ r. index_of (lookup caller r.info)))
  get_fs_mgr gi.fs_addr
  now ← gets get_time
  on_fs gi.fs_addr (group_sub_repair now self kindex pro newpro start end size nonce token sprice)
