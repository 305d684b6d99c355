-- ===== src/Fs/History/Start.antt =====
-- How the history of a group's storage contract begins: `NewFsMgr` (server/contract/fs.go, line 186).
use mefs_go_settlement.Base.{
  ℕ, ◌≡◌, refl, subst, ok, resume, insert, lookup-insert, lookup-insert_self, get_elem?, arith,
  none, some, pos, int_laws, nat_eq, lookup, methods,
}
use mefs_go_settlement.Utils.Key.{Address, Crypto, get_contract_address}
use mefs_go_settlement.Keys.{multi_key_eq}
use mefs_go_settlement.Erc.{ErcToken, balance_of}
use mefs_go_settlement.World.{
  World, fs_mgr, role_mgr, on_role, find_fs, find_role, find_erc, get_role_mgr, get_time, store,
}
use mefs_go_settlement.Role.{RoleMgr, GroupInfo, get_group_info_any}
use mefs_go_settlement.Fs.{FsMgr}
use mefs_go_settlement.Fs.Calls.{new_fs_mgr, new_fs, fs_method}
use mefs_go_settlement.Fs.Liability.{liability, balances_in, accounts_in}
use mefs_go_settlement.Fs.Covered.{IsListed}
use mefs_go_settlement.Fs.Steps.{in_world}
use mefs_go_settlement.Fs.Met.{Met}
use mefs_go_settlement.Fs.History.Sound.{IsSound}

found-new :
    (local owner taddr : Address) (o : FsMgr) (r : RoleMgr) (e : ErcToken) (w : World)
    → lookup local w.objects ≡ none
    → find_role owner w ≡ some r
    → find_erc taddr w ≡ some e
    → let w' = store local (fs_mgr o) (store owner (role_mgr r) w) in
      (find_fs local w' ≡ some o) × (find_role owner w' ≡ some r) × (find_erc taddr w' ≡ some e)
unfolding find_fs find_role find_erc
found-new local owner taddr o r e w free hr he =
    let d = insert owner (role_mgr r) w.objects in
    (
      ground (arith, lookup-insert local local (fs_mgr o) d),
      ground (
        arith,
        free,
        lookup-insert local owner (fs_mgr o) d,
        lookup-insert_self owner (role_mgr r) w.objects,
      ),
      ground (
        arith,
        free,
        lookup-insert local taddr (fs_mgr o) d,
        lookup-insert owner taddr (role_mgr r) w.objects,
      ),
    )

group_found :
    (owner : Address) (g_index : ℕ) (r : RoleMgr) (gi : GroupInfo) (w : World)
    → find_role owner w ≡ some r
    → get_elem? r.groups g_index ≡ some gi
    → on_role owner (get_group_info_any g_index) w ≡ (ok gi, store owner (role_mgr r) w)
unfolding on_role get_group_info_any methods
group_found owner g_index r gi w hr group = ground (arith, hr, group)

made_by :
    (c : Crypto) (owner : Address) (founder g_index : ℕ) (r : RoleMgr) (gi : GroupInfo) (w : World)
    → find_role owner w ≡ some r
    → get_elem? r.groups g_index ≡ some gi
    → let local = get_contract_address c owner (fs_method c g_index) in
      let w' = store owner (role_mgr r) w in
      (new_fs_mgr c owner founder g_index w).1
      ≡ store local (fs_mgr (new_fs local owner founder g_index (get_time w') gi.keepers)) w'
unfolding new_fs_mgr get_role_mgr methods resume
made_by c owner founder g_index r gi w hr group =
    rw (hr, get_role_mgr) (rw (group_found owner g_index r gi w hr group) refl)

-- A storage contract that the registry makes for one of its groups, at an address where there was
-- nothing, is covered in each of the registry's tokens and has met the tokens of its accounts, with
-- all that its address held before as slack.
pub new_fs_mgr-IsSound :
    (c : Crypto) (owner taddr : Address) (token founder g_index : ℕ) (r : RoleMgr) (e : ErcToken)
    (gi : GroupInfo) (w : World)
    → let local = get_contract_address c owner (fs_method c g_index) in
      lookup local w.objects ≡ none
      → find_role owner w ≡ some r
      → find_erc taddr w ≡ some e
      → IsListed taddr token r.tokens
      → get_elem? r.groups g_index ≡ some gi
      → IsSound local owner taddr token
          (balance_of local e)
          (new_fs_mgr c owner founder g_index w).1
unfolding find_fs
new_fs_mgr-IsSound c owner taddr token founder g_index r e gi w free hr he listed group =
    let local = get_contract_address c owner (fs_method c g_index) in
    let made =
      new_fs local owner founder g_index (get_time (store owner (role_mgr r) w)) gi.keepers in
    let found = found-new local owner taddr made r e w free hr he in
    let w' = store local (fs_mgr made) (store owner (role_mgr r) w) in
    let nothing : liability token made ≡ pos 0 =
      unfold new_fs liability balances_in accounts_in lookup in grind int_laws in
    rw (made_by c owner founder g_index r gi w hr group) (
      in_world local owner taddr token w' made r e found (unfold new_fs in refl) listed
          (grind (int_laws, nothing)) tt,
      record {
        kept = λ f at.
            let is : made ≡ f = cc (found.0, at) in
            subst Met is (unfold new_fs lookup in λ k has. absurd (has refl));
      },
    )
