-- ===== src/Fs/Covered.antt =====
-- What a group's storage contract holds beyond what it owes, and the worlds that differ by one write
-- (server/contract/fs.go).
use mefs_go_settlement.Base.{
  ℕ, ◌≡◌, ◌≢◌, arith, List, some, ℤ, ◌+ℤ◌, ◌≤ℤ◌, nat_eq, lookup-insert, get_elem?,
}
use mefs_go_settlement.Utils.Key.{Address}
use mefs_go_settlement.Keys.{multi_key_eq}
use mefs_go_settlement.Erc.{ErcToken, balance_of}
use mefs_go_settlement.Role.{RoleMgr}
use mefs_go_settlement.World.{
  World, erc_token, fs_mgr, role_mgr, find_erc, find_fs, find_role, store,
}
use mefs_go_settlement.Fs.{FsMgr}
use mefs_go_settlement.Fs.Liability.{liability}

-- The list has the address `taddr` at the place `token`, and nowhere else.
abbrev pub IsListed : (taddr : Address) (token : ℕ) → List Address → Type 0
IsListed taddr token ts =
    (get_elem? ts token ≡ some taddr) × ((t : ℕ) → get_elem? ts t ≡ some taddr → t ≡ token)

-- The contract at `self`, of the registry at `owner`, holds at least `slack` more of the token at
-- `taddr`, which is the registry's token number `token` alone, than it owes in it; and `X` holds of it.
pub record Holds (self owner taddr : Address) (token : ℕ) (X : FsMgr → Type 0) (slack : ℤ)
    (w : World) : Type 0 where
  pub fs : FsMgr
  pub role : RoleMgr
  pub erc : ErcToken
  pub fs_at : find_fs self w ≡ some fs
  pub role_at : find_role owner w ≡ some role
  pub erc_at : find_erc taddr w ≡ some erc
  pub owned : fs.owner ≡ owner
  pub listed : IsListed taddr token role.tokens
  pub covered : liability token fs +ℤ slack ≤ℤ balance_of self erc
  pub also : X fs

-- The same, with nothing else.
abbrev pub IsCovered : (self owner taddr : Address) (token : ℕ) (slack : ℤ) (w : World) → Type 0
IsCovered self owner taddr token slack w = Holds self owner taddr token (λ f. Unit) slack w

module _ (self owner taddr : Address) (w : World) where
  pub find_fs-store :
      (old new : FsMgr) (r : RoleMgr) (e : ErcToken)
      → find_fs self w ≡ some old
      → find_role owner w ≡ some r
      → find_erc taddr w ≡ some e
      → (find_fs self (store self (fs_mgr new) w) ≡ some new)
        × (find_role owner (store self (fs_mgr new) w) ≡ some r)
        × (find_erc taddr (store self (fs_mgr new) w) ≡ some e)
  unfolding find_fs find_role find_erc
  find_fs-store old new r e hf hr he = (
    ground (arith, lookup-insert self self (fs_mgr new) w.objects),
    ground (arith, lookup-insert self owner (fs_mgr new) w.objects),
    ground (arith, lookup-insert self taddr (fs_mgr new) w.objects),
  )

  pub find_erc-store :
      (f : FsMgr) (r : RoleMgr) (old new : ErcToken)
      → find_fs self w ≡ some f
      → find_role owner w ≡ some r
      → find_erc taddr w ≡ some old
      → (find_fs self (store taddr (erc_token new) w) ≡ some f)
        × (find_role owner (store taddr (erc_token new) w) ≡ some r)
        × (find_erc taddr (store taddr (erc_token new) w) ≡ some new)
  unfolding find_fs find_role find_erc
  find_erc-store f r old new hf hr he = (
    ground (arith, lookup-insert taddr self (erc_token new) w.objects),
    ground (arith, lookup-insert taddr owner (erc_token new) w.objects),
    ground (arith, lookup-insert taddr taddr (erc_token new) w.objects),
  )

  pub find_role-store :
      (f : FsMgr) (r : RoleMgr) (e : ErcToken)
      → find_fs self w ≡ some f
      → find_role owner w ≡ some r
      → find_erc taddr w ≡ some e
      → (find_fs self (store owner (role_mgr r) w) ≡ some f)
        × (find_role owner (store owner (role_mgr r) w) ≡ some r)
        × (find_erc taddr (store owner (role_mgr r) w) ≡ some e)
  unfolding find_fs find_role find_erc
  find_role-store f r e hf hr he = (
    ground (arith, lookup-insert owner self (role_mgr r) w.objects),
    ground (arith, lookup-insert owner owner (role_mgr r) w.objects),
    ground (arith, lookup-insert owner taddr (role_mgr r) w.objects),
  )

  -- Another token is written.
  pub find_other-store :
      (a : Address) (old new : ErcToken) (f : FsMgr) (r : RoleMgr) (e : ErcToken)
      → find_erc a w ≡ some old
      → a ≢ taddr
      → find_fs self w ≡ some f
      → find_role owner w ≡ some r
      → find_erc taddr w ≡ some e
      → (find_fs self (store a (erc_token new) w) ≡ some f)
        × (find_role owner (store a (erc_token new) w) ≡ some r)
        × (find_erc taddr (store a (erc_token new) w) ≡ some e)
  unfolding find_fs find_role find_erc
  find_other-store a old new f r e ha other hf hr he = (
    ground (arith, lookup-insert a self (erc_token new) w.objects),
    ground (arith, lookup-insert a owner (erc_token new) w.objects),
    ground (arith, lookup-insert a taddr (erc_token new) w.objects, other),
  )
