-- ===== src/Erc/Supply.antt =====
-- The balances add up to the supply, whatever is called (server/contract/erc20.go).
use mefs_go_settlement.Base.{
  ◌≡◌, arith, List, [], ◌∷◌, ℤ, int_laws, methods, nat_eq, sum, sum-insert, lookup-insert,
}
use mefs_go_settlement.Utils.Key.{Address}
use mefs_go_settlement.Erc.{
  ErcToken, new_token, transfer, transfer_from, approve, mint_token, burn, drop_each, air_drop,
}

-- The balances add up to the total supply.
abbrev pub IsBacked : ErcToken → Type 0
IsBacked e = sum e.money ≡ e.total_supply

transfer-IsBacked :
    (caller to : Address) (value : ℤ) (e : ErcToken)
    → IsBacked e
    → IsBacked (transfer caller to value e).1
unfolding transfer methods
transfer-IsBacked caller to value e h = grind (int_laws, sum-insert, lookup-insert)

transfer_from-IsBacked :
    (caller from to : Address) (value : ℤ) (e : ErcToken)
    → IsBacked e
    → IsBacked (transfer_from caller from to value e).1
unfolding transfer_from methods
transfer_from-IsBacked caller from to value e h = grind (int_laws, sum-insert, lookup-insert)

mint_token-IsBacked :
    (caller target : Address) (amount : ℤ) (e : ErcToken)
    → IsBacked e
    → IsBacked (mint_token caller target amount e).1
unfolding mint_token methods
mint_token-IsBacked caller target amount e h = grind (int_laws, sum-insert)

burn-IsBacked :
    (caller : Address) (amount : ℤ) (e : ErcToken) → IsBacked e → IsBacked (burn caller amount e).1
unfolding burn methods
burn-IsBacked caller amount e h = grind (int_laws, sum-insert)

drop_each-IsBacked :
    (admin : Address) (addrs : List Address) (money : ℤ) (e : ErcToken)
    → IsBacked e
    → IsBacked (drop_each admin addrs money e).1
unfolding drop_each methods
drop_each-IsBacked admin [] money e h = h
drop_each-IsBacked admin (a ∷ rest) money e h = ground (
  arith,
  transfer-IsBacked admin a money e h,
  drop_each-IsBacked admin rest money (transfer admin a money e).1,
)

air_drop-IsBacked :
    (caller : Address) (addrs : List Address) (money : ℤ) (e : ErcToken)
    → IsBacked e
    → IsBacked (air_drop caller addrs money e).1
unfolding air_drop methods
air_drop-IsBacked caller addrs money e h =
    ground (arith, drop_each-IsBacked e.admin addrs money e h)

-- A call of the token, by whoever and with whatever arguments.
pub data Call : Type 0 where
  transfers : (caller to : Address) (value : ℤ) → Call
  approves : (caller spender : Address) (value : ℤ) → Call
  transfers_from : (caller from to : Address) (value : ℤ) → Call
  mints : (caller target : Address) (amount : ℤ) → Call
  burns : (caller : Address) (amount : ℤ) → Call
  drops : (caller : Address) (addrs : List Address) (money : ℤ) → Call

unfoldable pub after : Call → ErcToken → ErcToken
after (transfers caller to value) e = (transfer caller to value e).1
after (approves caller spender value) e = approve caller spender value e
after (transfers_from caller from to value) e = (transfer_from caller from to value e).1
after (mints caller target amount) e = (mint_token caller target amount e).1
after (burns caller amount) e = (burn caller amount e).1
after (drops caller addrs money) e = (air_drop caller addrs money e).1

unfoldable pub after_all : List Call → ErcToken → ErcToken
unfolding after
after_all [] e = e
after_all (c ∷ cs) e = after_all cs (after c e)

after-IsBacked : (c : Call) (e : ErcToken) → IsBacked e → IsBacked (after c e)
unfolding after
after-IsBacked (transfers caller to value) e h = transfer-IsBacked caller to value e h
after-IsBacked (approves caller spender value) e h = unfold approve in ground arith
after-IsBacked (transfers_from caller from to value) e h =
    transfer_from-IsBacked caller from to value e h
after-IsBacked (mints caller target amount) e h = mint_token-IsBacked caller target amount e h
after-IsBacked (burns caller amount) e h = burn-IsBacked caller amount e h
after-IsBacked (drops caller addrs money) e h = air_drop-IsBacked caller addrs money e h

after_all-IsBacked : (cs : List Call) (e : ErcToken) → IsBacked e → IsBacked (after_all cs e)
unfolding after_all
after_all-IsBacked [] e h = h
after_all-IsBacked (c ∷ cs) e h = after_all-IsBacked cs (after c e) (after-IsBacked c e h)

-- After any calls, by anyone, that succeed or fail, the balances of a new token add up to its total
-- supply.
pub balances_add_up :
    (local admin : Address) (cs : List Call) → IsBacked (after_all cs (new_token local admin))
unfolding new_token sum
balances_add_up local admin cs = after_all-IsBacked cs (new_token local admin) (grind int_laws)
