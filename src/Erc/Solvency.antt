-- ===== src/Erc/Solvency.antt =====
-- No balance becomes negative while no negative amount is minted (server/contract/erc20.go).
use mefs_go_settlement.Base.{
  ◌≡◌, arith, List, [], ◌∷◌, ℤ, pos, ◌-ℤ◌, ◌≤ℤ◌, ◌<ℤ◌, int_laws, methods, nat_eq, lookup,
  lookup-insert, ok,
}
use mefs_go_settlement.Utils.Key.{Address}
use mefs_go_settlement.Erc.{
  ErcToken, balance_of, new_token, transfer, transfer_from, approve, mint_token, burn, drop_each,
  air_drop,
}
use mefs_go_settlement.Erc.Supply.{
  Call, transfers, approves, transfers_from, mints, burns, drops, after, after_all,
}

-- No address has a negative balance.
abbrev pub IsSolvent : ErcToken → Type 0
IsSolvent e = (a : Address) → pos 0 ≤ℤ balance_of a e

transfer-IsSolvent :
    (caller to : Address) (value : ℤ) (e : ErcToken)
    → IsSolvent e
    → IsSolvent (transfer caller to value e).1
unfolding transfer balance_of methods
transfer-IsSolvent caller to value e h a = grind (int_laws, lookup-insert, h a, h to, h caller)

transfer_from-IsSolvent :
    (caller from to : Address) (value : ℤ) (e : ErcToken)
    → IsSolvent e
    → IsSolvent (transfer_from caller from to value e).1
unfolding transfer_from balance_of methods
transfer_from-IsSolvent caller from to value e h a =
    grind (int_laws, lookup-insert, h a, h to, h from)

mint_token-IsSolvent :
    (caller target : Address) (amount : ℤ) (e : ErcToken)
    → IsSolvent e
    → pos 0 ≤ℤ amount
    → IsSolvent (mint_token caller target amount e).1
unfolding mint_token balance_of methods
mint_token-IsSolvent caller target amount e h p a = grind (int_laws, lookup-insert, h a, h target)

burn-IsSolvent :
    (caller : Address) (amount : ℤ) (e : ErcToken)
    → IsSolvent e
    → IsSolvent (burn caller amount e).1
unfolding burn balance_of methods
burn-IsSolvent caller amount e h a = grind (int_laws, lookup-insert, h a, h caller)

approve-IsSolvent :
    (caller spender : Address) (value : ℤ) (e : ErcToken)
    → IsSolvent e
    → IsSolvent (approve caller spender value e)
unfolding approve balance_of
approve-IsSolvent caller spender value e h a = grind (int_laws, h a)

drop_each-IsSolvent :
    (admin : Address) (addrs : List Address) (money : ℤ) (e : ErcToken)
    → IsSolvent e
    → IsSolvent (drop_each admin addrs money e).1
unfolding drop_each methods
drop_each-IsSolvent admin [] money e h a = h a
drop_each-IsSolvent admin (x ∷ rest) money e h a = ground (
  arith,
  h a,
  transfer-IsSolvent admin x money e h a,
  drop_each-IsSolvent admin rest money (transfer admin x money e).1
      (transfer-IsSolvent admin x money e h) a,
)

air_drop-IsSolvent :
    (caller : Address) (addrs : List Address) (money : ℤ) (e : ErcToken)
    → IsSolvent e
    → IsSolvent (air_drop caller addrs money e).1
unfolding air_drop methods
air_drop-IsSolvent caller addrs money e h a =
    ground (arith, h a, drop_each-IsSolvent e.admin addrs money e h a)

-- No negative amount is minted.
abbrev pub MintsNonneg : List Call → Type 0
MintsNonneg [] = Unit
MintsNonneg (mints caller target amount ∷ cs) = (pos 0 ≤ℤ amount) × MintsNonneg cs
MintsNonneg (_ ∷ cs) = MintsNonneg cs

after_all-IsSolvent :
    (cs : List Call) (e : ErcToken) → MintsNonneg cs → IsSolvent e → IsSolvent (after_all cs e)
unfolding after_all after
after_all-IsSolvent [] e m h = h
after_all-IsSolvent (transfers caller to value ∷ cs) e m h =
    after_all-IsSolvent cs (transfer caller to value e).1 m (transfer-IsSolvent caller to value e h)
after_all-IsSolvent (approves caller spender value ∷ cs) e m h =
    after_all-IsSolvent cs (approve caller spender value e) m
      (approve-IsSolvent caller spender value e h)
after_all-IsSolvent (transfers_from caller from to value ∷ cs) e m h =
    after_all-IsSolvent cs (transfer_from caller from to value e).1 m
      (transfer_from-IsSolvent caller from to value e h)
after_all-IsSolvent (mints caller target amount ∷ cs) e m h =
    after_all-IsSolvent cs (mint_token caller target amount e).1 m.1
      (mint_token-IsSolvent caller target amount e h m.0)
after_all-IsSolvent (burns caller amount ∷ cs) e m h =
    after_all-IsSolvent cs (burn caller amount e).1 m (burn-IsSolvent caller amount e h)
after_all-IsSolvent (drops caller addrs money ∷ cs) e m h =
    after_all-IsSolvent cs (air_drop caller addrs money e).1 m
      (air_drop-IsSolvent caller addrs money e h)

-- After any calls of a new token, by anyone, in which no negative amount is minted, no balance is
-- negative.
pub balances_nonneg :
    (local admin : Address) (cs : List Call)
    → MintsNonneg cs
    → (a : Address) → pos 0 ≤ℤ balance_of a (after_all cs (new_token local admin))
balances_nonneg local admin cs m =
    after_all-IsSolvent cs (new_token local admin) m
      λ a. unfold new_token balance_of lookup in ground arith

-- The admin can mint a negative amount: the call succeeds, and it leaves the balance of the target
-- below zero where that was less than the amount.
pub mint_negative :
    (target : Address) (n : _) (e : ErcToken)
    → balance_of target e <ℤ pos n
    → let e' = (mint_token e.admin target (pos 0 -ℤ pos n) e).1 in
      ((mint_token e.admin target (pos 0 -ℤ pos n) e).0 ≡ ok tt) × (balance_of target e' <ℤ pos 0)
unfolding mint_token balance_of methods
mint_negative target n e h = grind (int_laws, lookup-insert)
