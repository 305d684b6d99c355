-- ===== src/Role/Members/Steps.antt =====
-- What the calls of server/contract/role.go are made of: lookups, and the calls of the pool
-- (server/contract/pledge.go).
use mefs_go_settlement.Base.{
  ℕ, zero, suc, ◌==◌, ◌≡◌, refl, arith, Bool, not, ◌&&◌, true, false, if◌then◌else◌, List, [], ◌∷◌,
  ◌++◌, Option, none, some, ℤ, pos, sub64, ◌+ℤ◌, ◌-ℤ◌, ◌*ℤ◌, nat_eq, lookup, insert, M, modify,
  throw_if, pure, methods, length, get_elem?,
}
use mefs_go_settlement.Base.Keeps.{
  Keeps, Keeps-modify, Keeps-pure, Keeps-then, Keeps-bind, Keeps-gets, Keeps-if, keeps_rules,
}
use mefs_go_settlement.Utils.Key.{Address}
use mefs_go_settlement.Pledge.{RewardInfo}
use mefs_go_settlement.Pledge.Calls as Pool
use mefs_go_settlement.Pledge.Calls.{
  settle_all, settle_some, settle_if, pay_out, owed_all, owed_to, new_pledge_mgr, add_token,
}
use mefs_go_settlement.Role.{
  get_info_addr, address_at, get_group_info, get_group_info_any, get_token_address,
}
use mefs_go_settlement.Role.Groups.{open_group}
use mefs_go_settlement.World.{
  get_erc_token, get_pledge_pool, get_role_mgr, get_fs_mgr, send_balance, send_balance_from,
}
use mefs_go_settlement.Role.Registry.{
  IsRegistry, Keeps-update_group, Keeps-update_info, get_info-Keeps, mint_order-Keeps,
}
use mefs_go_settlement.Role.Members.{
  AllInOrder, stored, Keeps-on_erc, Keeps-on_pledge, Keeps-on_fs, Keeps-on_role, Keeps-call_token,
}

-- ## Lookups

pub info-Keeps : (index : ℕ) → Keeps IsRegistry (get_info_addr index)
unfolding get_info_addr address_at
info-Keeps index = search keeps_rules depth 20

pub group-Keeps : (index : ℕ) → Keeps IsRegistry (get_group_info index)
unfolding get_group_info
group-Keeps index = search keeps_rules depth 20

pub any_group-Keeps : (index : ℕ) → Keeps IsRegistry (get_group_info_any index)
unfolding get_group_info_any
any_group-Keeps index = search keeps_rules depth 20

pub open_group-Keeps : (index : ℕ) → Keeps IsRegistry (open_group index)
unfolding open_group
open_group-Keeps index = search keeps_rules depth 20

pub token-Keeps : (index : ℕ) → Keeps IsRegistry (get_token_address index)
unfolding get_token_address
token-Keeps index = search keeps_rules depth 20

pub get_erc_token-Keeps : (a : Address) → Keeps AllInOrder (get_erc_token a)
unfolding get_erc_token
get_erc_token-Keeps a = search keeps_rules depth 20

pub get_pledge_pool-Keeps : (a : Address) → Keeps AllInOrder (get_pledge_pool a)
unfolding get_pledge_pool
get_pledge_pool-Keeps a = search keeps_rules depth 20

pub get_role_mgr-Keeps : (a : Address) → Keeps AllInOrder (get_role_mgr a)
unfolding get_role_mgr
get_role_mgr-Keeps a = search keeps_rules depth 20

pub get_fs_mgr-Keeps : (a : Address) → Keeps AllInOrder (get_fs_mgr a)
unfolding get_fs_mgr
get_fs_mgr-Keeps a = search keeps_rules depth 20

pub send-Keeps :
    (t caller to : Address) (money : ℤ) → Keeps AllInOrder (send_balance t caller to money)
unfolding send_balance
send-Keeps t caller to money = Keeps-call_token t _

pub send_from-Keeps :
    (t caller from to : Address) (money : ℤ)
    → Keeps AllInOrder (send_balance_from t caller from to money)
unfolding send_balance_from
send_from-Keeps t caller from to money = Keeps-call_token t _

pub ruleset members_rules = (
  keeps_rules, Keeps-on_erc, Keeps-on_pledge, Keeps-on_fs, Keeps-on_role, Keeps-update_group,
  Keeps-update_info, refl, get_info-Keeps, info-Keeps, group-Keeps, any_group-Keeps,
  open_group-Keeps, token-Keeps, get_erc_token-Keeps, get_pledge_pool-Keeps, get_role_mgr-Keeps,
  get_fs_mgr-Keeps, send-Keeps, send_from-Keeps, mint_order-Keeps,
)

-- ## The pool

pub settle_all-Keeps :
    (self : Address) (index : ℕ) (amount total : ℤ) (i : ℕ) (ts : List Address)
    → Keeps AllInOrder (settle_all self index amount total i ts)
unfolding settle_all
settle_all-Keeps self index amount total i [] = Keeps-pure tt
settle_all-Keeps self index amount total i (t ∷ ts) = Keeps-bind _ _ (Keeps-on_pledge self _) (λ ti.
    Keeps-bind _ _ (Keeps-gets _) (λ bal.
      Keeps-then _ _ (Keeps-on_pledge self _)
        (settle_all-Keeps self index amount total (suc i) ts)))

pub settle_some-Keeps :
    (self : Address) (index token : ℕ) (amount total : ℤ) (i : ℕ) (ts : List Address)
    → Keeps AllInOrder (settle_some self index token amount total i ts)
unfolding settle_some
settle_some-Keeps self index token amount total i [] = Keeps-pure tt
settle_some-Keeps self index token amount total i (t ∷ ts) =
    Keeps-then _ _
      (Keeps-if _ _ _ (Keeps-pure tt) (
        Keeps-bind _ _ (Keeps-on_pledge self _)
          (λ ti. Keeps-bind _ _ (Keeps-gets _) (λ bal. Keeps-on_pledge self _))))
      (settle_some-Keeps self index token amount total (suc i) ts)

pub owed_all-Keeps :
    (self : Address) (index : ℕ) (amount : ℤ) (i : ℕ) (ts : List Address)
    → Keeps AllInOrder (owed_all self index amount i ts)
unfolding owed_all
owed_all-Keeps self index amount i [] = Keeps-pure []
owed_all-Keeps self index amount i (t ∷ ts) = Keeps-bind _ _ (Keeps-on_pledge self _) (λ ti.
    Keeps-bind _ _ (Keeps-gets _) (λ bal.
      Keeps-bind _ _ (Keeps-on_pledge self _) (λ val.
        Keeps-bind _ _ (owed_all-Keeps self index amount (suc i) ts) (λ rest. Keeps-pure _))))

pub owed_to-Keeps :
    (self : Address) (index : ℕ) (ts : List Address) (o : Option RewardInfo)
    → Keeps AllInOrder (owed_to self index ts o)
unfolding owed_to
owed_to-Keeps self index ts none = Keeps-pure []
owed_to-Keeps self index ts (some p) = owed_all-Keeps self index p.last_reward 0 ts

pub balance-Keeps : (self : Address) (index : ℕ) → Keeps AllInOrder (Pool.get_balance self index)
unfolding Pool.get_balance
balance-Keeps self index = search (members_rules, owed_to-Keeps) depth 40

pub pool_pledge-Keeps :
    (self caller addr : Address) (index : ℕ) (money : ℤ)
    → Keeps AllInOrder (Pool.pledge self caller addr index money)
unfolding Pool.pledge
pool_pledge-Keeps self caller addr index money = search (members_rules, settle_all-Keeps) depth 60

pub pool_withdraw-Keeps :
    (self caller : Address) (index token : ℕ) (money lock : ℤ)
    → Keeps AllInOrder (Pool.withdraw self caller index token money lock)
unfolding Pool.withdraw settle_if pay_out
pool_withdraw-Keeps self caller index token money lock =
    search (members_rules, settle_some-Keeps) depth 60
