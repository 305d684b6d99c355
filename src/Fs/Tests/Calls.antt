-- ===== src/Fs/Tests/Calls.antt =====
-- Calls of a group's storage contract, on concrete worlds.
use mefs_go_settlement.Base.{
  ℕ, zero, suc, subst, get_elem?, true, false, ◌≡◌, refl, arith, some, pos, ◌+ℤ◌, ◌-ℤ◌, ◌*ℤ◌, ◌/ℤ◌,
  ◌≤ℤ◌, methods, nat_eq, lookup, insert, ok, [], ◌∷◌,
}
use mefs_go_settlement.Keys.{key, multi_key_eq}
use mefs_go_settlement.Fs.Orders.{meet_token, credit}
use mefs_go_settlement.Fs.Liability.{liability, balances_in, accounts_in}
use mefs_go_settlement.Fs.History.Sound.{IsSound}
use mefs_go_settlement.Fs.History.Start.{new_fs_mgr-IsSound}
use mefs_go_settlement.Utils.Key.{
  Address, Crypto, to_address, bytes_to_address, number, bytes, get_contract_address,
}
use mefs_go_settlement.Fs.{FsMgr}
use mefs_go_settlement.Fs.Tests.{group, profit-known}
use mefs_go_settlement.Erc.{ErcToken, balance_of, transfer_from, two_key_eq}
use mefs_go_settlement.Role.{BaseInfo, RoleMgr, get_token_address, get_info_addr, address_at}
use mefs_go_settlement.Role.Groups.{new_account, new_group}
use mefs_go_settlement.World.{
  World, erc_token, fs_mgr, role_mgr, find_erc, find_fs, find_role, on_fs, on_role, on_erc,
  get_role_mgr, call_token, send_balance_from,
}
use mefs_go_settlement.Fs.Calls.{new_fs_mgr, fs_method, decimal, recharge, withdraw, pro_withdraw}
use mefs_go_settlement.Fs.Covered.{IsCovered, Holds}
use mefs_go_settlement.Fs.Liquid.{IsOwing}
use mefs_go_settlement.Fs.Liveness.{withdraw_succeeds}
use mefs_go_settlement.Settlement.{Settlement, new_settlement}
use mefs_go_settlement.Fs.Kept.{FsAt}
use mefs_go_settlement.Fs.Payable.{IsPayable}
use mefs_go_settlement.Fs.Accounts.{IsFair, Within, put_aside}
use mefs_go_settlement.Fs.Withdrawals.{PayableAt, withdraw-IsPayable}
use mefs_go_settlement.Fs.Providers.{FairAt, pro_withdraw-IsFair}

-- The group's token at 1, of which the contract at 20 holds 2000, and the registry at 9 with the
-- provider 5 at 15 and the user 6 at 16, who lets the contract spend 50.
abbrev token : ErcToken
token = record {
  local = 1;
  admin = 7;
  total_supply = pos 2100;
  money = (20, pos 2000) ∷ (16, pos 100) ∷ [];
  allowed = (record { owner = 16; spender = 20 }, pos 50) ∷ [];
}

abbrev account : BaseInfo
account = record (new_account 0) { is_active = true }

abbrev registry : RoleMgr
registry = record {
  local = 9;
  admin = 7;
  pledge = 4;
  foundation = 10;
  addrs = 10 ∷ 11 ∷ 12 ∷ 13 ∷ 14 ∷ 15 ∷ 16 ∷ [];
  info = (15, account) ∷ (16, account) ∷ [];
  groups = [];
  tokens = 1 ∷ [];
  t_info = (1, record { is_banned = false; index = 0 }) ∷ [];
  pledge_keeper = pos 0;
  pledge_pro = pos 0;
  total_pledge = pos 0;
  mint_level = 0;
  mint = [];
  last_mint = 0;
  start = 0;
  size = pos 0;
  price = pos 0;
  space_time = pos 0;
  total_paid = pos 0;
  total_pay = pos 0;
  sub_p_map = [];
  sub_s_map = [];
}

abbrev world : World
world = record {
  objects = (1, erc_token token) ∷ (9, role_mgr registry) ∷ (20, fs_mgr group) ∷ [];
  gtime = 50;
  real_time = false;
  clock = 0;
}

first_only : (t : ℕ) → get_elem? registry.tokens t ≡ some 1 → t ≡ 0
first_only zero e = refl
first_only (suc t) e = ground (arith, e)

world-Holds : {X : FsMgr → Type 0} → X group → Holds 20 9 1 0 X (pos 513) world
unfolding find_fs find_role find_erc lookup liability balances_in accounts_in balance_of ◌+ℤ◌ ◌-ℤ◌
world-Holds x = record {
  fs = group;
  role = registry;
  erc = token;
  fs_at = refl;
  role_at = refl;
  erc_at = refl;
  owned = refl;
  listed = (refl, first_only);
  covered = ground arith;
  also = x;
}

world-IsCovered : IsCovered 20 9 1 0 (pos 513) world
world-IsCovered = world-Holds tt

recharge-result : (recharge 20 9 16 6 0 (pos 40) world).0 ≡ ok tt
unfolding recharge on_fs on_role get_role_mgr send_balance_from call_token on_erc transfer_from
    get_token_address meet_token credit find_fs find_role find_erc lookup insert methods ◌+ℤ◌ ◌-ℤ◌
recharge-result = refl

-- What holds of the contract at 20.
of_group : (P : FsMgr → Type 0) → P group → FsAt P 20 world
unfolding find_fs
of_group P h = record {
  kept = λ f at.
      let here : find_fs 20 world ≡ some group = unfold lookup in refl in
      let is : group ≡ f = cc (here, at) in subst P is h;
}

group-IsOwing : IsOwing group
unfolding lookup ◌+ℤ◌ ◌-ℤ◌
group-IsOwing = record {
  balances = ground arith;
  profit = λ t. ground arith;
  accounts = ground arith;
}

-- The user 6 takes 400 of the 1000.
withdraw_succeeds_example :
    ((withdraw 20 9 6 0 (pos 400) world).0 ≡ ok tt)
    × IsCovered 20 9 1 0 (pos 513) (withdraw 20 9 6 0 (pos 400) world).1
withdraw_succeeds_example =
    withdraw_succeeds 20 9 1 9 16 0 6 (pos 513) (pos 400) (pos 1000) registry account world
      (world-Holds (unfold lookup in refl, group-IsOwing)) (ground arith) (ground arith)
      (ground arith) (unfold find_role lookup in refl)
      (unfold get_info_addr address_at lookup methods in refl) refl

group-IsPayable : IsPayable group
unfolding lookup
group-IsPayable = (group-IsOwing, (ground arith, ground arith))

-- The user 6 takes 400.
withdraw-IsPayable_example :
    IsCovered 20 9 1 0 (pos 513) (withdraw 20 9 6 0 (pos 400) world).1
    × PayableAt 20 (withdraw 20 9 6 0 (pos 400) world).1
withdraw-IsPayable_example =
    withdraw-IsPayable 20 9 1 9 0 6 0 (pos 513) (pos 400) world world-IsCovered
      (of_group (λ f. IsPayable f) group-IsPayable)

group-IsFair : IsFair group
group-IsFair = record {
  owing = group-IsOwing;
  sound = (record { price_nonneg = ground arith; covered = ground arith }, tt);
}

-- The account of the provider 5.
abbrev account_5 : Settlement
account_5 = record new_settlement {
  time = 40;
  price = pos 5;
  max_pay = pos 370;
  manage_pay = pos 14;
  can_pay = pos 110;
}

-- 160 in all, of the 384 that were put aside.
group-Within : Within (key 5 0) (pos 160) group
unfolding lookup ◌+ℤ◌ ◌-ℤ◌ ◌*ℤ◌ ◌/ℤ◌
group-Within se at =
    let is : account_5 ≡ se = ground (arith, at) in
    subst
      (λ (x : Settlement).
        (pos 160 +ℤ pos 160 /ℤ pos 100 *ℤ pos 4 ≤ℤ put_aside x)
        × (pos 160 +ℤ x.linear_paid ≤ℤ put_aside x))
      is (ground arith, ground arith)

pro_withdraw-IsFair_example :
    IsCovered 20 9 1 0 (pos 513) (pro_withdraw 20 9 5 0 (pos 160) (pos 0) world).1
    × FairAt 20 (pro_withdraw 20 9 5 0 (pos 160) (pos 0) world).1
pro_withdraw-IsFair_example =
    pro_withdraw-IsFair 20 9 1 9 0 5 0 (pos 513) (pos 160) (pos 0) world
      (world-Holds (λ known. profit-known))
      (of_group (λ f. IsFair f × Within (key 5 0) (pos 160) f) (group-IsFair, group-Within))

-- ## A new contract

abbrev plain : Crypto
plain = record { sum256 = λ m. m; sum512 = λ m. m; recover_pubkey = λ m sig. some sig }

-- The address of the contract that the registry at 9 makes for the group 0.
abbrev made_at : Address
made_at = get_contract_address plain 9 (fs_method plain 0)

made_at-lies : made_at ≡ 2610735824204336
unfolding get_contract_address to_address bytes_to_address number bytes fs_method decimal
made_at-lies = refl

-- A registry with one group, whose keepers are 1 and 2.
abbrev grouped : RoleMgr
grouped = record registry { groups = record (new_group 4) { keepers = 1 ∷ 2 ∷ [] } ∷ [] }

abbrev before : World
before = record {
  objects = (1, erc_token token) ∷ (9, role_mgr grouped) ∷ [];
  gtime = 50;
  real_time = false;
  clock = 0;
}

new_fs_mgr-IsSound_example :
    IsSound made_at 9 1 0 (balance_of made_at token) (new_fs_mgr plain 9 0 0 before).1
new_fs_mgr-IsSound_example =
    new_fs_mgr-IsSound plain 9 1 0 0 0 grouped token (record (new_group 4) { keepers = 1 ∷ 2 ∷ [] })
      before (rw made_at-lies (unfold lookup in refl)) (unfold find_role lookup in refl)
      (unfold find_erc lookup in refl) (refl, first_only) refl
