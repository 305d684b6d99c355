-- ===== src/Pledge/History.antt =====
-- Histories of the pool: the calls of server/contract/pledge.go that go through, in any order, and what
-- happens to the table of contracts in between.
pub mod Fine
pub mod Start
use mefs_go_settlement.Base.{
  ℕ, ◌+◌, ◌%◌, ◌^◌, ◌<◌, ◌==◌, ◌≡◌, ◌≢◌, zero, suc, nat_eq, lookup, methods, refl, sym, ap, ◌∙◌,
  subst, arith, not, List, [], ◌∷◌, ◌++◌, length, get_elem?, none, some, ℤ, pos, ◌≤ℤ◌, false, Bool,
  ok, modify, gets,
}
use mefs_go_settlement.Base.Triple.{
  Triple, Triple-bind, Triple-then, Triple-guard, Triple-ok, Triple-given, Triple-when,
}
use mefs_go_settlement.Utils.Key.{Address, Crypto, get_contract_address}
use mefs_go_settlement.Pledge.{PledgeMgr}
use mefs_go_settlement.Pledge.Calls.{
  pledge, withdraw, add_token, new_pledge, new_pledge_mgr, pool_method,
}
use mefs_go_settlement.Pledge.Shares.{Once}
use mefs_go_settlement.Pledge.Held.{find_pledge-store, At, Anything, on_pledge-At, balance-At}
use mefs_go_settlement.Pledge.Sound.{Sound}
use mefs_go_settlement.Pledge.Solvency.{
  new_pledge_mgr-IsSolvent, IsSolvent, pledge-IsSolvent, withdraw-IsSolvent,
}
use mefs_go_settlement.Pledge.Receipts.{Sound-grown}
use mefs_go_settlement.Pledge.Priced.{IsPriced}
use mefs_go_settlement.Pledge.Priced.Calls.{PricedAt, pledge-PricedAt, withdraw-PricedAt}
use mefs_go_settlement.Pledge.Additions.{get_elem?-snoc, with_token, Sound-add, IsPriced-add}
use mefs_go_settlement.World.{pledge_mgr, World, find_pledge, get_token_balance, send_balance}

-- A change that is none of the pool's own: the pool stays as it is, and what it holds does not fall.
pub record Elsewhere (self : Address) (w w' : World) : Type 0 where
  pub same_pool : find_pledge self w' ≡ find_pledge self w
  pub holds : (a : Address) → get_token_balance a self w ≤ℤ get_token_balance a self w'

-- One step of a pool with the tokens `ts`, in which the roles `ps` pledge: a call that goes through, or
-- a change elsewhere. The registry adds a token once.
pub data Step (self : Address) (ps : List ℕ)
    : List Address → World → List Address → World → Type 0 where
  pledged :
      (ts : List Address) (w : World) (caller addr : Address) (index : ℕ) (money : ℤ)
      → Once index ps
      → addr ≢ self
      → (pledge self caller addr index money w).0 ≡ ok tt
      → Step self ps ts w ts (pledge self caller addr index money w).1
  withdrawn :
      (ts : List Address) (w : World) (caller : Address) (index token : ℕ) (money lock : ℤ)
      → Once index ps
      → pos 0 ≤ℤ lock
      → (withdraw self caller index token money lock w).0 ≡ ok tt
      → Step self ps ts w ts (withdraw self caller index token money lock w).1
  token_added :
      (ts : List Address) (w : World) (caller taddr : Address) (token : ℕ)
      → length ts + 1 < 2 ^ 32
      → pos 0 ≤ℤ get_token_balance taddr self w
      → ((j : ℕ) → get_elem? ts j ≢ some taddr)
      → (add_token self caller taddr token w).0 ≡ ok tt
      → Step self ps ts w (ts ++ taddr ∷ []) (add_token self caller taddr token w).1
  elsewhere : (ts : List Address) (w w' : World) → Elsewhere self w w' → Step self ps ts w ts w'

pub data Reach (self : Address) (ps : List ℕ) (ts : List Address) (w : World)
    : List Address → World → Type 0 where
  here : Reach self ps ts w ts w
  next :
      {ts' ts'' : List Address} {w' w'' : World}
      → Reach self ps ts w ts' w'
      → Step self ps ts' w' ts'' w''
      → Reach self ps ts w ts'' w''
