-- ===== src/Role/Groups.antt =====
-- server/contract/role.go, lines 86 to 165 and 257 to 567: the constructor, the registration of
-- addresses, tokens and roles, and groups. `self` is the address of the contract, `r.local`.
use mefs_go_settlement.Base.{
  ℕ, ◌*◌, ◌^◌, ◌%◌, ◌==◌, ltb, leb, if◌then◌else◌, Bool, true, false, not, ◌||◌, List, [], ◌∷◌,
  ◌++◌, length, get_elem?, Option, none, some, ℤ, pos, ltb_ℤ, leb_ℤ, nat_eq, lookup, insert, M,
  pure, gets, or_crash, read_or_crash, throw_if, throw, modify, ◌>>=◌, ◌>>◌, err_input,
  err_permission, err_exist, err_role_type, err_balance_not_enough,
}
use mefs_go_settlement.Utils.Key.{Address, Crypto, get_contract_address}
use mefs_go_settlement.Role.{
  RoleMgr, BaseInfo, GroupInfo, MintInfo, role_user, role_provider, role_keeper, int, get_info,
  set_info, set_group,
}
use mefs_go_settlement.Fs.Orders.{create_fs, add_keeper}
use mefs_go_settlement.Fs.Calls.{new_fs_mgr}
use mefs_go_settlement.Pledge.Calls as Pool
use mefs_go_settlement.Pledge.Calls.{new_pledge_mgr}
use mefs_go_settlement.World.{
  World, role_mgr, get_time, get_pledge_pool, get_fs_mgr, on_role, on_fs, store,
}

abbrev pub new_account : (index : ℕ) → BaseInfo
new_account index = record {
  is_active = false;
  is_banned = false;
  role_type = 0;
  index = index;
  g_index = 0;
  extra = [];
}

-- The levels of issuance: 100 TB, 1 PB and 10 PB, each for 100 days.
abbrev pub mint_levels : List MintInfo
mint_levels =
    record { ratio = 100; size = 1; duration = 1 }
    ∷ record { ratio = 120; size = 100 * 1024 ^ 4; duration = 8640000 }
    ∷ record { ratio = 150; size = 1024 ^ 5; duration = 8640000 }
    ∷ record { ratio = 200; size = 10 * 1024 ^ 5; duration = 8640000 }
    ∷ []

unfoldable pub new_role :
    (local caller foundation token pledge : Address) (k_pledge p_pledge : ℤ) (now : ℕ) → RoleMgr
new_role local caller foundation token pledge k_pledge p_pledge now = record {
  local = local;
  admin = caller;
  pledge = pledge;
  foundation = foundation;
  addrs = foundation ∷ [];
  info = (foundation, new_account 0) ∷ [];
  groups = [];
  tokens = token ∷ [];
  t_info = (token, record { is_banned = false; index = 0 }) ∷ [];
  pledge_keeper = k_pledge;
  pledge_pro = p_pledge;
  total_pledge = pos 0;
  mint_level = 0;
  mint = mint_levels;
  last_mint = now;
  start = now;
  size = pos 0;
  price = pos 0;
  space_time = pos 0;
  total_paid = pos 0;
  total_pay = pos 0;
  sub_p_map = [];
  sub_s_map = [];
}

abbrev pub role_method : List ℕ
role_method = b'R' ∷ b'o' ∷ b'l' ∷ b'e' ∷ b'M' ∷ b'g' ∷ b'r' ∷ []

-- `NewRoleMgr`, which returns the address of the contract that it puts in the table.
unfoldable pub new_role_mgr :
    Crypto → (caller foundation token : Address) (k_pledge p_pledge : ℤ) → M World Address
unfolding new_role
new_role_mgr c caller foundation token k_pledge p_pledge = do
  let local = get_contract_address c caller role_method
  now ← gets get_time
  pool ← new_pledge_mgr c local token
  modify
      (store local (role_mgr (new_role local caller foundation token pool k_pledge p_pledge now)))
  pure local

-- The second result of a map lookup.
abbrev pub is_known {ℓ} : {A : Type ℓ} → Option A → Bool
is_known none = false
is_known (some a) = true

unfoldable pub register : (caller addr : Address) → M RoleMgr (Unit {0})
register caller addr = do
  throw_if (is_known (← gets (λ r. lookup addr r.info))) err_exist
  modify (λ r. record r {
    addrs = r.addrs ++ addr ∷ [];
    info = insert addr (new_account (length r.addrs)) r.info;
  })

unfoldable pub register_token : (self caller taddr : Address) → M World (Unit {0})
register_token self caller taddr = do
  throw_if (is_known (← on_role self (gets (λ r. lookup taddr r.t_info)))) err_exist
  pool ← on_role self (gets (λ r. r.pledge))
  get_pledge_pool pool
  index ← on_role self (gets (λ r. length r.tokens % 2 ^ 32))
  on_role self (
      modify (λ r. record r {
        tokens = r.tokens ++ taddr ∷ [];
        t_info = insert taddr (record { is_banned = false; index = index }) r.t_info;
      }))
  Pool.add_token pool self taddr index

-- A write through the pointer that `getInfo` returns for an index.
unfoldable pub update_info : (index : ℕ) → (BaseInfo → BaseInfo) → RoleMgr → RoleMgr
update_info index g r = elim (get_elem? r.addrs index) [
  | none ↦ r
  | some addr ↦ elim (lookup addr r.info) [ none ↦ r | some bi ↦ set_info addr (g bi) r ]
]

-- A write through the pointer to a group.
unfoldable pub update_group : (index : ℕ) → (GroupInfo → GroupInfo) → RoleMgr → RoleMgr
update_group index g r = elim (get_elem? r.groups index) [
  | none ↦ r
  | some gi ↦ set_group index (g gi) r
]

-- What `RegisterKeeper` and `RegisterProvider` ask of the pool: `vals[0]` is the pledge.
unfoldable pub require_pledge : (need : ℤ) → List ℤ → M World (Unit {0})
require_pledge need [] = throw err_balance_not_enough
require_pledge need (held ∷ rest) = throw_if (ltb_ℤ held need) err_balance_not_enough

unfoldable pub register_keeper :
    (self caller : Address) (index : ℕ) (bls_key : List ℕ) → M World (Unit {0})
unfolding require_pledge update_info
register_keeper self caller index bls_key = do
  bi ← on_role self (get_info index)
  throw_if (not (bi.role_type == 0)) err_role_type
  pool ← on_role self (gets (λ r. r.pledge))
  get_pledge_pool pool
  vals ← Pool.get_balance pool index
  need ← on_role self (gets (λ r. r.pledge_keeper))
  require_pledge need vals
  on_role self
      (modify (update_info index (λ b. record b { role_type = role_keeper; extra = bls_key })))

unfoldable pub register_provider : (self caller : Address) (index : ℕ) → M World (Unit {0})
unfolding require_pledge update_info
register_provider self caller index = do
  bi ← on_role self (get_info index)
  throw_if (not (bi.role_type == 0)) err_role_type
  pool ← on_role self (gets (λ r. r.pledge))
  get_pledge_pool pool
  vals ← Pool.get_balance pool index
  need ← on_role self (gets (λ r. r.pledge_pro))
  require_pledge need vals
  on_role self (modify (update_info index (λ b. record b { role_type = role_provider })))

-- The test on the group's index lets through the length itself, where the read is out of range.
unfoldable pub register_user :
    (self caller : Address) (index g_index : ℕ) (bls_key : List ℕ) → M World (Unit {0})
unfolding update_info
register_user self caller index g_index bls_key = do
  bi ← on_role self (get_info index)
  throw_if (not (bi.role_type == 0)) err_role_type
  throw_if (ltb (length (← on_role self (gets (λ r. r.groups)))) g_index) err_input
  gi ← on_role self (read_or_crash (λ r. get_elem? r.groups g_index))
  throw_if (not gi.is_active || gi.is_banned) err_permission
  get_fs_mgr gi.fs_addr
  on_fs gi.fs_addr (create_fs self index)
  on_role self (
      modify (
        update_info index
          (λ b. record b { role_type = role_user; g_index = g_index; extra = bls_key })))

abbrev pub new_group : (level : ℕ) → GroupInfo
new_group level = record {
  is_active = false;
  is_banned = false;
  is_ready = false;
  level = level;
  keepers = [];
  providers = [];
  size = pos 0;
  price = pos 0;
  fs_addr = 0;
}

unfoldable pub create_group : Crypto → (self caller : Address) (level : ℕ) → M World (Unit {0})
unfolding update_group
create_group c self caller level = do
  throw_if (not (caller == (← on_role self (gets (λ r. r.admin))))) err_permission
  g_index ← on_role self (gets (λ r. length r.groups))
  on_role self (modify (λ r. record r { groups = r.groups ++ new_group level ∷ [] }))
  fs_addr ← new_fs_mgr c self 0 g_index
  on_role self (modify (update_group g_index (λ g. record g { fs_addr = fs_addr })))

-- A group behind the test `len(r.groups) <= int(gIndex)`, and not banned.
unfoldable pub open_group : (g_index : ℕ) → M RoleMgr GroupInfo
open_group g_index = do
  throw_if (leb_ℤ (pos (length (← gets (λ r. r.groups)))) (int g_index)) err_input
  gi ← or_crash (← gets (λ r. get_elem? r.groups g_index))
  throw_if gi.is_banned err_permission
  pure gi

-- Of the keepers' signatures the source reads only how many there are.
unfoldable pub set_ready :
    (caller : Address) (g_index : ℕ) (ksigns : List (List ℕ)) → M RoleMgr (Unit {0})
unfolding open_group update_group
set_ready caller g_index ksigns = do
  gi ← open_group g_index
  throw_if gi.is_active err_permission
  throw_if (ltb (length ksigns) gi.level) err_permission
  modify (update_group g_index (λ g. record g { is_ready = true }))

abbrev pub join_keeper : (index : ℕ) → GroupInfo → GroupInfo
join_keeper index g =
    let ks = g.keepers ++ index ∷ [] in
    record g { keepers = ks; is_active = if leb g.level (length ks) then true else g.is_active }

unfoldable pub add_keeper_to_group :
    (self caller : Address) (index g_index : ℕ) → M World (Unit {0})
unfolding open_group update_group update_info
add_keeper_to_group self caller index g_index = do
  gi ← on_role self (open_group g_index)
  ki ← on_role self (get_info index)
  throw_if (not (ki.role_type == role_keeper)) err_role_type
  throw_if ki.is_active err_permission
  get_fs_mgr gi.fs_addr
  on_fs gi.fs_addr (add_keeper self index)
  on_role self (modify (update_group g_index (join_keeper index)))
  on_role self (modify (update_info index (λ b. record b { g_index = g_index; is_active = true })))

unfoldable pub add_provider_to_group : (caller : Address) (index g_index : ℕ) → M RoleMgr (Unit {0})
unfolding open_group update_group update_info
add_provider_to_group caller index g_index = do
  gi ← open_group g_index
  pi ← get_info index
  throw_if pi.is_active err_permission
  throw_if (not (pi.role_type == role_provider)) err_role_type
  modify (update_group g_index (λ g. record g { providers = g.providers ++ index ∷ [] }))
  modify (update_info index (λ b. record b { g_index = g_index; is_active = true }))

unfoldable pub set_pledge_money : (caller : Address) (k_pledge p_pledge : ℤ) → M RoleMgr (Unit {0})
set_pledge_money caller k_pledge p_pledge = do
  modify (λ r. record r { pledge_keeper = k_pledge; pledge_pro = p_pledge })
