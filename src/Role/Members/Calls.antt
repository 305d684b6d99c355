-- ===== src/Role/Members/Calls.antt =====
-- The calls of server/contract/role.go, one by one.
use mefs_go_settlement.Base.{ℕ, arith, false, List, [], ◌∷◌, ◌++◌, ℤ, nat_eq, insert, modify}
use mefs_go_settlement.Base.Keeps.{Keeps, Keeps-modify, keeps_rules}
use mefs_go_settlement.Utils.Key.{Address, Crypto}
use mefs_go_settlement.Fs.{FsMgr}
use mefs_go_settlement.Fs.Orders.{create_fs}
use mefs_go_settlement.Fs.Calls as Group
use mefs_go_settlement.Fs.Calls.{share_if_keeper, new_fs_mgr}
use mefs_go_settlement.Pledge.Calls.{add_token}
use mefs_go_settlement.Role.{BaseInfo}
use mefs_go_settlement.Role.Groups
use mefs_go_settlement.Role.Groups.{require_pledge, open_group, new_group}
use mefs_go_settlement.Role.Funds
use mefs_go_settlement.Role.Funds.{payer, group_contract}
use mefs_go_settlement.World.{fs_mgr, store}
use mefs_go_settlement.Role.Registry.{IsRegistry}
use mefs_go_settlement.Role.Members.{AllInOrder, stored}
use mefs_go_settlement.Role.Members.Steps.{
  members_rules, balance-Keeps, pool_pledge-Keeps, pool_withdraw-Keeps,
}

-- ## The groups' contracts

pub share-Keeps : (self : Address) (ki : BaseInfo) → Keeps AllInOrder (share_if_keeper self ki)
unfolding share_if_keeper
share-Keeps self ki = search members_rules depth 40

pub group_withdraw-Keeps :
    (self caller : Address) (index token : ℕ) (amount : ℤ)
    → Keeps AllInOrder (Group.withdraw self caller index token amount)
unfolding Group.withdraw
group_withdraw-Keeps self caller index token amount = search (members_rules, share-Keeps) depth 60

pub group_pro_withdraw-Keeps :
    (self caller : Address) (pro token : ℕ) (pay lost : ℤ)
    → Keeps AllInOrder (Group.pro_withdraw self caller pro token pay lost)
unfolding Group.pro_withdraw
group_pro_withdraw-Keeps self caller pro token pay lost = search members_rules depth 60

pub group_recharge-Keeps :
    (self caller addr : Address) (index token : ℕ) (money : ℤ)
    → Keeps AllInOrder (Group.recharge self caller addr index token money)
unfolding Group.recharge
group_recharge-Keeps self caller addr index token money = search members_rules depth 60

-- ## The registry's calls

pub payer-Keeps :
    (self caller addr spender : Address) (token : ℕ) (money : ℤ)
    → Keeps AllInOrder (payer self caller addr spender token money)
unfolding payer
payer-Keeps self caller addr spender token money = search members_rules depth 60

pub contract-Keeps :
    (self : Address) (index token : ℕ) → Keeps AllInOrder (group_contract self index token)
unfolding group_contract
contract-Keeps self index token = search members_rules depth 60

pub pledge-Keeps :
    (self caller : Address) (index : ℕ) (money : ℤ)
    → Keeps AllInOrder (Funds.pledge self caller index money)
unfolding Funds.pledge
pledge-Keeps self caller index money =
    search (members_rules, payer-Keeps, pool_pledge-Keeps) depth 60

pub withdraw-Keeps :
    (self caller : Address) (index token : ℕ) (money : ℤ)
    → Keeps AllInOrder (Funds.withdraw self caller index token money)
unfolding Funds.withdraw
withdraw-Keeps self caller index token money = search (members_rules, pool_withdraw-Keeps) depth 60

pub recharge-Keeps :
    (self caller : Address) (index token : ℕ) (money : ℤ)
    → Keeps AllInOrder (Funds.recharge self caller index token money)
unfolding Funds.recharge
recharge-Keeps self caller index token money =
    search (members_rules, contract-Keeps, payer-Keeps, group_recharge-Keeps) depth 60

pub withdraw_from_fs-Keeps :
    (self caller : Address) (index token : ℕ) (amount : ℤ)
    → Keeps AllInOrder (Funds.withdraw_from_fs self caller index token amount)
unfolding Funds.withdraw_from_fs
withdraw_from_fs-Keeps self caller index token amount =
    search (members_rules, contract-Keeps, group_withdraw-Keeps) depth 60

pub require-Keeps : (need : ℤ) (vals : List ℤ) → Keeps AllInOrder (require_pledge need vals)
unfolding require_pledge
require-Keeps need [] = search keeps_rules depth 10
require-Keeps need (v ∷ vs) = search keeps_rules depth 10

pub register_keeper-Keeps :
    (self caller : Address) (index : ℕ) (bls_key : List ℕ)
    → Keeps AllInOrder (Groups.register_keeper self caller index bls_key)
unfolding Groups.register_keeper
register_keeper-Keeps self caller index bls_key =
    search (members_rules, balance-Keeps, require-Keeps) depth 60

pub register_provider-Keeps :
    (self caller : Address) (index : ℕ)
    → Keeps AllInOrder (Groups.register_provider self caller index)
unfolding Groups.register_provider
register_provider-Keeps self caller index =
    search (members_rules, balance-Keeps, require-Keeps) depth 60

pub add_keeper_to_group-Keeps :
    (self caller : Address) (index g_index : ℕ)
    → Keeps AllInOrder (Groups.add_keeper_to_group self caller index g_index)
unfolding Groups.add_keeper_to_group
add_keeper_to_group-Keeps self caller index g_index = search members_rules depth 60

pub store_fs-Keeps : (a : Address) (f : FsMgr) → Keeps AllInOrder (modify (store a (fs_mgr f)))
store_fs-Keeps a f = Keeps-modify _ (λ w h. stored a (fs_mgr f) w (λ r at. ground (arith, at)) h)

pub new_fs_mgr-Keeps :
    (c : Crypto) (caller : Address) (founder g_index : ℕ)
    → Keeps AllInOrder (new_fs_mgr c caller founder g_index)
unfolding new_fs_mgr
new_fs_mgr-Keeps c caller founder g_index = search (members_rules, store_fs-Keeps) depth 60

pub new_group-Keeps :
    (level : ℕ)
    → Keeps IsRegistry (modify (λ r. record r { groups = r.groups ++ new_group level ∷ [] }))
new_group-Keeps level = Keeps-modify _ (λ r h. h)

pub create_group-Keeps :
    (c : Crypto) (self caller : Address) (level : ℕ)
    → Keeps AllInOrder (Groups.create_group c self caller level)
unfolding Groups.create_group
create_group-Keeps c self caller level =
    search (members_rules, new_fs_mgr-Keeps, new_group-Keeps) depth 60

pub register_user-Keeps :
    (self caller : Address) (index g_index : ℕ) (bls_key : List ℕ)
    → Keeps AllInOrder (Groups.register_user self caller index g_index bls_key)
unfolding Groups.register_user create_fs
register_user-Keeps self caller index g_index bls_key = search members_rules depth 60

pub new_token-Keeps :
    (taddr : Address) (index : ℕ)
    → Keeps IsRegistry (
        modify (λ r. record r {
          tokens = r.tokens ++ taddr ∷ [];
          t_info = insert taddr (record { is_banned = false; index = index }) r.t_info;
        }))
new_token-Keeps taddr index = Keeps-modify _ (λ r h. h)

pub add_token-Keeps :
    (self caller taddr : Address) (token : ℕ) → Keeps AllInOrder (add_token self caller taddr token)
unfolding add_token
add_token-Keeps self caller taddr token = search members_rules depth 60

pub register_token-Keeps :
    (self caller taddr : Address) → Keeps AllInOrder (Groups.register_token self caller taddr)
unfolding Groups.register_token
register_token-Keeps self caller taddr =
    search (members_rules, new_token-Keeps, add_token-Keeps) depth 60
