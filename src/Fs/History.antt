-- ===== src/Fs/History.antt =====
-- Histories of a group's storage contract: the calls of server/contract/fs.go, in any order, among
-- whatever else happens to the table of contracts (server/contract/common.go).
pub mod Sound
pub mod Start
use mefs_go_settlement.Base.{
  ℕ, ◌≡◌, ◌≢◌, refl, sym, subst, ok, M, resume, insert, lookup-insert, lookup-insert_self,
  get_elem?, arith, none, some, ℤ, pos, ◌≤ℤ◌, int_laws, nat_eq, lookup, ◌∙◌, modify, methods,
}
use mefs_go_settlement.Base.Keeps.{Keeps, Keeps-modify, keeps_rules}
use mefs_go_settlement.Base.Triple.{Triple-always}
use mefs_go_settlement.Utils.Key.{Address, Crypto, get_contract_address}
use mefs_go_settlement.Keys.{key, multi_key_eq}
use mefs_go_settlement.Erc.{ErcToken, balance_of}
use mefs_go_settlement.World.{
  World, fs_mgr, role_mgr, on_fs, on_role, find_fs, find_role, find_erc, get_role_mgr, get_time,
  store,
}
use mefs_go_settlement.Role.{RoleMgr, GroupInfo, get_group_info_any}
use mefs_go_settlement.Fs.{FsMgr}
use mefs_go_settlement.Fs.Orders.{add_keeper, create_fs, open_fs, meet_token, add_order, sub_order}
use mefs_go_settlement.Fs.Repairs.{sub_repair}
use mefs_go_settlement.Fs.Calls.{recharge, withdraw, pro_withdraw, new_fs_mgr, new_fs, fs_method}
use mefs_go_settlement.Fs.Liability.{liability, balances_in, accounts_in, Served}
use mefs_go_settlement.Fs.Owned.{
  Owned, add_keeper-Owned, create_fs-Owned, add_order-Owned, sub_order-Owned, sub_repair-Owned,
}
use mefs_go_settlement.Fs.Books.{liability-meet_token, liability-add_order}
use mefs_go_settlement.Fs.Closings.{liability-sub_order, liability-sub_repair}
use mefs_go_settlement.Fs.Covered.{IsListed, Holds, IsCovered}
use mefs_go_settlement.Fs.Steps.{in_world, on_fs-Covered}
use mefs_go_settlement.Fs.Solvency.{recharge-IsCovered, withdraw-IsCovered, pro_withdraw-IsCovered}
use mefs_go_settlement.Fs.Met.{Met}
use mefs_go_settlement.Fs.Met.Methods.{
  add_keeper-Met, create_fs-Met, add_order-Met, sub_order-Met, sub_repair-Met,
}
use mefs_go_settlement.Fs.Met.Calls.{MetAt, recharge-MetAt, withdraw-MetAt, pro_withdraw-MetAt}

-- A change that is none of the contract's own: the contract and its registry stay as they are, and
-- what the contract holds of the token does not fall.
pub record Elsewhere (self owner taddr : Address) (w w' : World) : Type 0 where
  pub same_fs : find_fs self w' ≡ find_fs self w
  pub same_role : find_role owner w' ≡ find_role owner w
  pub holds :
      (e : ErcToken)
      → find_erc taddr w ≡ some e
      → (e' : ErcToken) × (find_erc taddr w' ≡ some e') × (balance_of self e ≤ℤ balance_of self e')

-- One step: a call of the contract, with any arguments and by anyone, that succeeds or fails, or a
-- change elsewhere. `AddRepair` is none of them.
pub data Step (self owner taddr : Address) : World → World → Type 0 where
  recharged :
      (w : World) (caller addr : Address) (index tok : ℕ) (money : ℤ)
      → addr ≢ self
      → Step self owner taddr w (recharge self caller addr index tok money w).1
  withdrawn :
      (w : World) (caller : Address) (index tok : ℕ) (amount : ℤ)
      → Step self owner taddr w (withdraw self caller index tok amount w).1
  pro_withdrawn :
      (w : World) (caller : Address) (pro tok : ℕ) (pay lost : ℤ)
      → Step self owner taddr w (pro_withdraw self caller pro tok pay lost w).1
  keeper_added :
      (w : World) (caller : Address) (kindex : ℕ)
      → Step self owner taddr w (on_fs self (add_keeper caller kindex) w).1
  fs_created :
      (w : World) (caller : Address) (user : ℕ)
      → Step self owner taddr w (on_fs self (create_fs caller user) w).1
  order_added :
      (w : World) (caller : Address) (kindex user pro start end size nonce tok : ℕ) (sprice : ℤ)
      → Step self owner taddr w
          (on_fs self (add_order caller kindex user pro start end size nonce tok sprice) w).1
  order_ended :
      (w : World) (now : ℕ) (caller : Address) (kindex user pro start end size nonce tok : ℕ)
      (sprice : ℤ)
      → Step self owner taddr w
          (on_fs self (sub_order now caller kindex user pro start end size nonce tok sprice) w).1
  repair_ended :
      (w : World) (now : ℕ) (caller : Address) (kindex pro newpro start end size nonce tok : ℕ)
      (sprice : ℤ)
      → Step self owner taddr w
          (on_fs self (sub_repair now caller kindex pro newpro start end size nonce tok sprice) w).1
  elsewhere : (w w' : World) → Elsewhere self owner taddr w w' → Step self owner taddr w w'

pub data Reach (self owner taddr : Address) (w : World) : World → Type 0 where
  here : Reach self owner taddr w w
  next :
      {w' w'' : World}
      → Reach self owner taddr w w'
      → Step self owner taddr w' w''
      → Reach self owner taddr w w''
