-- ===== src/World.antt =====
-- server/contract/common.go: the table of contracts, through which they call one another, and the
-- clock. `clock` is the machine's time in seconds, which only the machine moves; it stands still
-- within a call.
pub mod Kept
use mefs_go_settlement.Base.{
  ℕ, ltb, if◌then◌else◌, Bool, Option, none, some, ℤ, pos, Dict, nat_eq, lookup, insert, M, err,
  panic, Error, gets, or_throw, modify, ◌>>=◌, err_empty, err_mis_type,
}
use mefs_go_settlement.Utils.Key.{Address}
use mefs_go_settlement.Erc
use mefs_go_settlement.Erc.{ErcToken}
use mefs_go_settlement.Fs.{FsMgr}
use mefs_go_settlement.Pledge.{PledgeMgr}
use mefs_go_settlement.Role.{RoleMgr}

pub data Object : Type 0 where
  erc_token : ErcToken → Object
  pledge_mgr : PledgeMgr → Object
  role_mgr : RoleMgr → Object
  fs_mgr : FsMgr → Object

pub record World : Type 0 where
  pub objects : Dict Address Object
  pub gtime : ℕ
  pub real_time : Bool
  pub clock : ℕ

unfoldable pub set_real_time : Bool → World → World
set_real_time flag w = record w { real_time = flag }

-- The source sets the time that is given, and then the machine's time in any case.
unfoldable pub set_time : ℕ → World → World
set_time t w =
    let w' = if ltb 0 t then record w { gtime = t } else w in record w' { gtime = w'.clock }

unfoldable pub get_time : World → ℕ
get_time w = if w.real_time then w.clock else w.gtime

abbrev pub as_erc : Option Object → Option ErcToken
as_erc (some (erc_token e)) = some e
as_erc _ = none

abbrev pub as_pledge : Option Object → Option PledgeMgr
as_pledge (some (pledge_mgr p)) = some p
as_pledge _ = none

abbrev pub as_role : Option Object → Option RoleMgr
as_role (some (role_mgr r)) = some r
as_role _ = none

abbrev pub as_fs : Option Object → Option FsMgr
as_fs (some (fs_mgr f)) = some f
as_fs _ = none

-- `getErcToken`, `GetPledgePool`, `getRoleMgr` and `GetFsMgr`: a contract of the right kind.
unfoldable pub find_erc : Address → World → Option ErcToken
find_erc addr w = as_erc (lookup addr w.objects)

unfoldable pub find_pledge : Address → World → Option PledgeMgr
find_pledge addr w = as_pledge (lookup addr w.objects)

unfoldable pub find_role : Address → World → Option RoleMgr
find_role addr w = as_role (lookup addr w.objects)

unfoldable pub find_fs : Address → World → Option FsMgr
find_fs addr w = as_fs (lookup addr w.objects)

unfoldable pub get_erc_token : Address → M World ErcToken
unfolding find_erc
get_erc_token addr = do or_throw (← gets (find_erc addr)) err_empty

unfoldable pub get_pledge_pool : Address → M World PledgeMgr
unfolding find_pledge
get_pledge_pool addr = do or_throw (← gets (find_pledge addr)) err_empty

unfoldable pub get_role_mgr : Address → M World RoleMgr
unfolding find_role
get_role_mgr addr = do or_throw (← gets (find_role addr)) err_empty

unfoldable pub get_fs_mgr : Address → M World FsMgr
unfolding find_fs
get_fs_mgr addr = do or_throw (← gets (find_fs addr)) err_empty

abbrev pub store : Address → Object → World → World
store addr o w = record w { objects = insert addr o w.objects }

-- A method on the contract at an address. The address stands for the pointer to the contract: a
-- method that has one is never called where the table has none.
module _ {A : Type 0} where
  unfoldable pub on_erc : Address → M ErcToken A → M World A
  unfolding find_erc
  on_erc addr m w = elim (find_erc addr w) [
    | none ↦ (panic, w)
    | some e ↦ let (r, e') = m e in (r, store addr (erc_token e') w)
  ]

  unfoldable pub on_pledge : Address → M PledgeMgr A → M World A
  unfolding find_pledge
  on_pledge addr m w = elim (find_pledge addr w) [
    | none ↦ (panic, w)
    | some p ↦ let (r, p') = m p in (r, store addr (pledge_mgr p') w)
  ]

  unfoldable pub on_role : Address → M RoleMgr A → M World A
  unfolding find_role
  on_role addr m w = elim (find_role addr w) [
    | none ↦ (panic, w)
    | some r ↦ let (x, r') = m r in (x, store addr (role_mgr r') w)
  ]

  unfoldable pub on_fs : Address → M FsMgr A → M World A
  unfolding find_fs
  on_fs addr m w = elim (find_fs addr w) [
    | none ↦ (panic, w)
    | some f ↦ let (r, f') = m f in (r, store addr (fs_mgr f') w)
  ]

-- server/contract/erc20.go, lines 225 to 279.

unfoldable pub get_token_balance : (taddr query : Address) → World → ℤ
unfolding find_erc
get_token_balance taddr query w = elim (find_erc taddr w) [
  | none ↦ pos 0
  | some e ↦ Erc.balance_of query e
]

-- What the helpers below say of an address that is no token.
no_token : Option Object → Error
no_token none = err_empty
no_token (some o) = err_mis_type

-- A call of the token at `taddr`.
unfoldable pub call_token : {A : Type 0} → Address → M ErcToken A → M World A
unfolding on_erc no_token
call_token taddr m w = elim (find_erc taddr w) [
  | none ↦ (err (no_token (lookup taddr w.objects)), w)
  | some e ↦ on_erc taddr m w
]

unfoldable pub send_balance : (taddr caller to : Address) (money : ℤ) → M World (Unit {0})
unfolding call_token
send_balance taddr caller to money = call_token taddr (Erc.transfer caller to money)

unfoldable pub send_balance_from : (taddr caller from to : Address) (money : ℤ) → M World (Unit {0})
unfolding call_token
send_balance_from taddr caller from to money =
    call_token taddr (Erc.transfer_from caller from to money)

unfoldable pub approve : (taddr caller spender : Address) (money : ℤ) → M World (Unit {0})
unfolding call_token
approve taddr caller spender money = call_token taddr (modify (Erc.approve caller spender money))
