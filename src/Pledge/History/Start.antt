-- ===== src/Pledge/History/Start.antt =====
-- How the history of a pool begins: `NewPledgeMgr` (server/contract/pledge.go, lines 22 to 50).
use mefs_go_settlement.Base.{
  ℕ, ◌≡◌, zero, suc, nat_eq, lookup, methods, refl, subst, arith, List, [], ◌∷◌, none, ℤ, pos, ◌≤ℤ◌,
}
use mefs_go_settlement.Utils.Key.{Address, Crypto, get_contract_address}
use mefs_go_settlement.Pledge.Calls.{new_pledge, new_pledge_mgr, pool_method}
use mefs_go_settlement.Pledge.Held.{find_pledge-store}
use mefs_go_settlement.Pledge.Solvency.{new_pledge_mgr-IsSolvent}
use mefs_go_settlement.Pledge.Priced.{IsPriced}
use mefs_go_settlement.World.{pledge_mgr, World, find_pledge, get_token_balance}
use mefs_go_settlement.Pledge.History.Fine.{IsFine, IsDistinct}

new_pledge-IsPriced :
    (local caller ptoken : Address) (bal : ℤ) → IsPriced (new_pledge local caller ptoken bal)
unfolding new_pledge lookup
new_pledge-IsPriced local caller ptoken bal = record {
  priced = λ k has. absurd (has refl);
  first = λ e. ground (arith, e);
  numbered = refl;
}

-- Two places of a list of one are the same.
one-IsDistinct : (a : Address) → IsDistinct (a ∷ [])
one-IsDistinct a zero zero b at at' = refl
one-IsDistinct a zero (suc k) b at at' = ground (arith, at')
one-IsDistinct a (suc j) k b at at' = ground (arith, at)

-- A new pool, made at an address where there was nothing and which has nothing negative of the pledged
-- token, is solvent, whatever roles are counted; its rewards are in tokens that have a price, and these
-- are different.
pub new_pledge_mgr-IsFine :
    (c : Crypto) (caller ptoken : Address) (ps : List ℕ) (w : World)
    → let local = get_contract_address c caller pool_method in
      lookup local w.objects ≡ none
      → pos 0 ≤ℤ get_token_balance ptoken local w
      → IsFine local ps (ptoken ∷ []) (new_pledge_mgr c caller ptoken w).1
unfolding new_pledge_mgr find_pledge methods
new_pledge_mgr-IsFine c caller ptoken ps w free low =
    let local = get_contract_address c caller pool_method in
    let made = new_pledge local caller ptoken (get_token_balance ptoken local w) in
    let now = find_pledge-store local local (pledge_mgr made) w in
    (
      new_pledge_mgr-IsSolvent c caller ptoken ps w free low,
      record {
        kept = λ p at.
            let is : made ≡ p = ground (arith, now, at) in
            subst IsPriced is
              (new_pledge-IsPriced local caller ptoken (get_token_balance ptoken local w));
      },
      one-IsDistinct ptoken,
    )
