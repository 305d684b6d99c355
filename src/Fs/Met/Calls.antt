-- ===== src/Fs/Met/Calls.antt =====
-- The calls of server/contract/fs.go that use other contracts, and the tokens that the storage
-- contract at an address has met.
use mefs_go_settlement.Base.{ℕ, ℤ, nat_eq}
use mefs_go_settlement.Base.Keeps.{Keeps, keeps_rules}
use mefs_go_settlement.Utils.Key.{Address}
use mefs_go_settlement.Fs.Calls.{recharge, withdraw, pro_withdraw, share_if_keeper}
use mefs_go_settlement.Role.{BaseInfo}
use mefs_go_settlement.World.{World}
use mefs_go_settlement.World.Kept.{get_role_mgr-KeptAt}
use mefs_go_settlement.Fs.Kept.{FsAt, Keeps-on_fs, Keeps-of_role, send-FsAt, send_from-FsAt}
use mefs_go_settlement.Fs.Met.{Met}
use mefs_go_settlement.Fs.Met.Methods.{
  Met-meet, Met-credit, Met-set_balance, share_profit-Met, pro_withdraw_due-Met,
}

-- The storage contract at `self`, if there is one, has met the tokens of its accounts.
abbrev pub MetAt : Address → World → Type 0
MetAt self = FsAt Met self

ruleset all_met_rules = (
  keeps_rules, Keeps-of_role, Keeps-on_fs, get_role_mgr-KeptAt, send-FsAt, send_from-FsAt, Met-meet,
  Met-credit, Met-set_balance, share_profit-Met, pro_withdraw_due-Met,
)

share-MetAt : (self : Address) (ki : BaseInfo) → Keeps (MetAt self) (share_if_keeper self ki)
unfolding share_if_keeper
share-MetAt self ki = search all_met_rules depth 40

pub recharge-MetAt :
    (self caller addr : Address) (index token : ℕ) (money : ℤ)
    → Keeps (MetAt self) (recharge self caller addr index token money)
unfolding recharge
recharge-MetAt self caller addr index token money = search all_met_rules depth 60

pub withdraw-MetAt :
    (self caller : Address) (index token : ℕ) (amount : ℤ)
    → Keeps (MetAt self) (withdraw self caller index token amount)
unfolding withdraw
withdraw-MetAt self caller index token amount = search (all_met_rules, share-MetAt) depth 60

pub pro_withdraw-MetAt :
    (self caller : Address) (pro token : ℕ) (pay lost : ℤ)
    → Keeps (MetAt self) (pro_withdraw self caller pro token pay lost)
unfolding pro_withdraw
pro_withdraw-MetAt self caller pro token pay lost = search all_met_rules depth 60
