-- ===== src/Fs/Liquid.antt =====
-- A balance in a group's storage contract, against all that the contract owes and holds
-- (server/contract/fs.go, lines 641 to 722).
use mefs_go_settlement.Base.{
  ℕ, arith, [], ◌∷◌, ℤ, pos, ◌≤ℤ◌, int_laws, Dict, nat_eq, lookup, or_zero,
}
use mefs_go_settlement.Keys.{MultiKey, key, multi_key_eq, multi_key_beq_iff}
use mefs_go_settlement.Settlement.{Settlement}
use mefs_go_settlement.Fs.{FsMgr}
use mefs_go_settlement.Fs.Liability.{obligation, balances_in, accounts_in, liability}

abbrev pub Nonneg : Dict MultiKey ℤ → Type 0
Nonneg [] = Unit
Nonneg ((k, v) ∷ d) = (pos 0 ≤ℤ v) × Nonneg d

abbrev pub Owing : Dict MultiKey Settlement → Type 0
Owing [] = Unit
Owing ((k, se) ∷ d) = (pos 0 ≤ℤ obligation se) × Owing d

-- Nothing that the contract owes is negative.
pub record IsOwing (f : FsMgr) : Type 0 where
  pub balances : Nonneg f.balance
  pub profit : (t : ℕ) → pos 0 ≤ℤ or_zero (lookup t f.t_acc)
  pub accounts : Owing f.pro_info

balances_nonneg : (t : ℕ) (d : Dict MultiKey ℤ) → Nonneg d → pos 0 ≤ℤ balances_in t d
unfolding balances_in
balances_nonneg t [] h = omega arith
balances_nonneg t ((k, v) ∷ d) h = grind (int_laws, h.0, balances_nonneg t d h.1)

accounts_nonneg : (t : ℕ) (d : Dict MultiKey Settlement) → Owing d → pos 0 ≤ℤ accounts_in t d
unfolding accounts_in
accounts_nonneg t [] h = omega arith
accounts_nonneg t ((k, se) ∷ d) h = grind (int_laws, h.0, accounts_nonneg t d h.1)

one_of :
    (i t : ℕ) (d : Dict MultiKey ℤ) → Nonneg d → or_zero (lookup (key i t) d) ≤ℤ balances_in t d
unfolding balances_in lookup
one_of i t [] h = omega arith
one_of i t ((k, v) ∷ d) h =
    grind (int_laws, h.0, one_of i t d h.1, balances_nonneg t d h.1, multi_key_beq_iff k (key i t))

pub balance-liability :
    (i t : ℕ) (f : FsMgr) → IsOwing f → or_zero (lookup (key i t) f.balance) ≤ℤ liability t f
unfolding liability
balance-liability i t f h =
    grind (
      int_laws,
      one_of i t f.balance h.balances,
      h.profit t,
      accounts_nonneg t f.pro_info h.accounts,
    )
