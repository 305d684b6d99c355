-- ===== src/Erc/Balances.antt =====
-- What each operation of the token does to the balance of every address, and to allowances
-- (server/contract/erc20.go).
use mefs_go_settlement.Base.{
  ◌≡◌, ◌≢◌, arith, ◌==◌, ◌&&◌, ltb_ℤ, if◌then◌else◌, none, ℤ, pos, ◌+ℤ◌, ◌-ℤ◌, ◌≤ℤ◌, int_laws,
  methods, nat_eq, lookup, lookup-insert, ok, err, Error,
}
use mefs_go_settlement.Utils.Key.{Address}
use mefs_go_settlement.Erc.{ErcToken, balance_of, allowance, transfer, transfer_from, approve}

-- What a transfer takes from `who` and gives to `who`.
abbrev pub moved : (from to : Address) (value : ℤ) (who : Address) (balance : ℤ) → ℤ
moved from to value who balance =
    (if from == who then balance -ℤ value else balance) +ℤ (if to == who then value else pos 0)

-- A transfer that succeeds takes `value` from the caller and gives it to `to`, leaves every other
-- balance alone, and takes nothing if the two are one.
pub balance_of-transfer :
    (caller to who : Address) (value : ℤ) (e : ErcToken)
    → (transfer caller to value e).0 ≡ ok tt
    → balance_of who (transfer caller to value e).1 ≡ moved caller to value who (balance_of who e)
unfolding transfer balance_of methods
balance_of-transfer caller to who value e h = grind (int_laws, lookup-insert)

-- A transfer that returns an error leaves the token as it was.
pub transfer_unchanged :
    (caller to : Address) (value : ℤ) (e : ErcToken) (x : Error)
    → (transfer caller to value e).0 ≡ err x
    → (transfer caller to value e).1 ≡ e
unfolding transfer methods
transfer_unchanged caller to value e x h = ground arith

-- So does a transfer on another's behalf.
pub transfer_from_unchanged :
    (caller from to : Address) (value : ℤ) (e : ErcToken) (x : Error)
    → (transfer_from caller from to value e).0 ≡ err x
    → (transfer_from caller from to value e).1 ≡ e
unfolding transfer_from methods
transfer_from_unchanged caller from to value e x h = ground arith

-- A transfer on another's behalf that succeeds moves `value` between the two balances as a transfer
-- does, was covered by the balance and by the allowance, and takes `value` off the allowance of the
-- caller from that owner and off no other.
pub transfer_from_lem :
    (caller from to who spender : Address) (value : ℤ) (e : ErcToken)
    → (transfer_from caller from to value e).0 ≡ ok tt
    → let e' = (transfer_from caller from to value e).1 in
      (pos 0 ≤ℤ value)
      × (value ≤ℤ balance_of from e)
      × (value ≤ℤ allowance from caller e)
      × (balance_of who e' ≡ moved from to value who (balance_of who e))
      × (allowance who spender e' ≡ (
          if from == who && caller == spender
          then allowance who spender e -ℤ value
          else allowance who spender e))
unfolding transfer_from balance_of allowance methods
transfer_from_lem caller from to who spender value e h = (
  grind int_laws,
  grind int_laws,
  grind int_laws,
  grind (int_laws, lookup-insert),
  grind (int_laws, lookup-insert),
)

-- `approve` adds a positive value to one allowance, changes no other, and does nothing with any
-- other value.
pub allowance-approve :
    (caller spender who other : Address) (value : ℤ) (e : ErcToken)
    → allowance who other (approve caller spender value e) ≡ (
        if caller == who && spender == other && ltb_ℤ (pos 0) value
        then allowance who other e +ℤ value
        else allowance who other e)
unfolding approve allowance
allowance-approve caller spender who other value e = grind (int_laws, lookup-insert)

-- A transfer of no more than the caller holds, and of no negative amount, succeeds where the
-- caller has a balance.
pub transfer_ok :
    (caller to : Address) (value : ℤ) (e : ErcToken)
    → lookup caller e.money ≢ none
    → pos 0 ≤ℤ value
    → value ≤ℤ balance_of caller e
    → (transfer caller to value e).0 ≡ ok tt
unfolding transfer balance_of methods
transfer_ok caller to value e known nonneg covered = grind int_laws
