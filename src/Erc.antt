-- ===== src/Erc.antt =====
-- server/contract/erc20.go: the token contract, operation by operation. A balance is the `*big.Int`
-- that the map holds; each is updated in place, so a transfer to oneself reads what it has written.
pub mod Balances
pub mod Supply
pub mod Solvency
pub mod Ledger
pub mod Shows
pub mod Draws
pub mod Refinement
mod Tests
use mefs_go_settlement.Base.{
  ℕ, ◌*◌, ◌^◌, ◌==◌, ◌≡◌, ◌↔◌, Bool, true, ◌&&◌, not, if◌then◌else◌, List, [], ◌∷◌, Option, none,
  some, arith, ℤ, pos, ◌+ℤ◌, ◌-ℤ◌, ltb_ℤ, MapKey, nat_eq, Dict, lookup, insert, or_zero, M, Result,
  ok, err, panic, pure, gets, or_throw, throw_if, modify, ignore, ◌>>=◌, ◌>>◌, err_value, err_empty,
  err_balance_not_enough, err_res, err_permission,
}
use mefs_go_settlement.Utils.Key.{Address}

pub record TwoKey : Type 0 where
  pub owner : Address
  pub spender : Address

abbrev pub two_key_beq : TwoKey → TwoKey → Bool
two_key_beq a b = a.owner == b.owner && a.spender == b.spender

pub two_key_beq_iff : (a b : TwoKey) → (two_key_beq a b ≡ true) ↔ (a ≡ b)
two_key_beq_iff a b = ground arith

instance abbrev pub two_key_eq : MapKey TwoKey
two_key_eq = record { beq = two_key_beq; beq_iff = two_key_beq_iff }

pub record ErcToken : Type 0 where
  pub local : Address
  pub admin : Address
  pub total_supply : ℤ
  pub money : Dict Address ℤ
  pub allowed : Dict TwoKey ℤ

abbrev pub initial_supply : ℤ
initial_supply = pos (10 ^ 18 * 10 ^ 10)

-- The contract that `NewErcToken` builds; its address is computed from the caller's.
unfoldable pub new_token : (local caller : Address) → ErcToken
new_token local caller = record {
  local = local;
  admin = caller;
  total_supply = initial_supply;
  money = (caller, initial_supply) ∷ [];
  allowed = [];
}

unfoldable pub balance_of : Address → ErcToken → ℤ
balance_of from e = or_zero (lookup from e.money)

unfoldable pub allowance : (owner spender : Address) → ErcToken → ℤ
allowance owner spender e = or_zero (lookup (record { owner = owner; spender = spender }) e.allowed)

-- `valto`: the balance of `to`, made if there is none, plus `value`.
credit : (to : Address) (value : ℤ) → ErcToken → ErcToken
credit to value e = record e { money = insert to (or_zero (lookup to e.money) +ℤ value) e.money }

abbrev pub set_money : Address → ℤ → ErcToken → ErcToken
set_money a v e = record e { money = insert a v e.money }

unfoldable pub transfer : (caller to : Address) (value : ℤ) → M ErcToken (Unit {0})
unfolding credit
transfer caller to value = do
  throw_if (ltb_ℤ value (pos 0)) err_value
  val ← or_throw (← gets (λ e. lookup caller e.money)) err_empty
  throw_if (ltb_ℤ val value) err_balance_not_enough
  modify (set_money caller (val -ℤ value))
  modify (credit to value)

unfoldable pub approve : (caller spender : Address) (value : ℤ) → ErcToken → ErcToken
approve caller spender value e =
    let key : TwoKey = record { owner = caller; spender = spender } in
    if ltb_ℤ (pos 0) value
    then record e { allowed = insert key (or_zero (lookup key e.allowed) +ℤ value) e.allowed }
    else e

unfoldable pub transfer_from : (caller from to : Address) (value : ℤ) → M ErcToken (Unit {0})
unfolding credit
transfer_from caller from to value = do
  let key : TwoKey = record { owner = from; spender = caller }
  throw_if (ltb_ℤ value (pos 0)) err_value
  val ← or_throw (← gets (λ e. lookup from e.money)) err_empty
  throw_if (ltb_ℤ val value) err_balance_not_enough
  aval ← or_throw (← gets (λ e. lookup key e.allowed)) err_res
  throw_if (ltb_ℤ aval value) err_permission
  modify (set_money from (val -ℤ value))
  modify (λ e. record e { allowed = insert key (aval -ℤ value) e.allowed })
  modify (credit to value)

unfoldable pub mint_token : (caller target : Address) (amount : ℤ) → M ErcToken (Unit {0})
unfolding credit
mint_token caller target amount = do
  throw_if (not (caller == (← gets (λ e. e.admin)))) err_permission
  modify (credit target amount)
  modify (λ e. record e { total_supply = e.total_supply +ℤ amount })

unfoldable pub burn : (caller : Address) (amount : ℤ) → M ErcToken (Unit {0})
burn caller amount = do
  throw_if (not (caller == (← gets (λ e. e.admin)))) err_permission
  bal ← or_throw (← gets (λ e. lookup caller e.money)) err_balance_not_enough
  throw_if (ltb_ℤ bal amount) err_balance_not_enough
  modify (set_money caller (bal -ℤ amount))
  modify (λ e. record e { total_supply = e.total_supply -ℤ amount })

-- The loop of `AirDrop`, which drops the error of each transfer.
unfoldable pub drop_each : (admin : Address) → List Address → (money : ℤ) → M ErcToken (Unit {0})
drop_each admin [] money = pure tt
drop_each admin (a ∷ rest) money = ignore (transfer admin a money) >> drop_each admin rest money

unfoldable pub air_drop : (caller : Address) → List Address → (money : ℤ) → M ErcToken (Unit {0})
unfolding drop_each
air_drop caller addrs money = do
  admin ← gets (λ e. e.admin)
  throw_if (not (caller == admin)) err_permission
  drop_each admin addrs money
