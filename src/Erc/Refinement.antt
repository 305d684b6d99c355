-- ===== src/Erc/Refinement.antt =====
-- The token and the abstract ledger over any calls (server/contract/erc20.go).
use mefs_go_settlement.Base.{
  ◌==◌, ◌≡◌, ◌≢◌, refl, sym, ap, ◌∙◌, arith, true, false, List, [], ◌∷◌, ℤ, pos, ◌+ℤ◌, ◌-ℤ◌, ltb_ℤ,
  leb_ℤ, int_laws, nat_eq, lookup, lookup-insert, methods, Option-cases, Bool-cases, inl, inr,
  subst, panic, pure, then-ignore,
}
use mefs_go_settlement.Utils.Key.{Address}
use mefs_go_settlement.Erc.{
  ErcToken, two_key_eq, new_token, balance_of, allowance, transfer, approve, mint_token, burn,
  drop_each, air_drop,
}
use mefs_go_settlement.Erc.Supply.{
  Call, transfers, approves, transfers_from, mints, burns, drops, after, after_all,
}
use mefs_go_settlement.Erc.Ledger.{Ledger, pay, pay_all, on_ledger, on_ledger_all, new_ledger}
use mefs_go_settlement.Erc.Shows.{Shows, pay-Shows}
use mefs_go_settlement.Erc.Draws.{draw-Shows}

approve-Shows :
    (caller spender : Address) (value : ℤ) (l : Ledger) (e : ErcToken)
    → Shows l e
    → Shows (on_ledger (approves caller spender value) l) (approve caller spender value e)
unfolding approve balance_of allowance
approve-Shows caller spender value l e h = elim (Bool-cases (ltb_ℤ (pos 0) value)) [
  | inl c ↦
      rw (c, approve)
        (record {
          admin = h.admin;
          supply = h.supply;
          money = h.money;
          allowed = λ o s. grind (int_laws, lookup-insert, h.allowed o s);
          account = h.account;
        })
  | inr c ↦ rw (c, approve) h
]

mint-Shows :
    (caller target : Address) (amount : ℤ) (l : Ledger) (e : ErcToken)
    → Shows l e
    → Shows (on_ledger (mints caller target amount) l) (mint_token caller target amount e).1
unfolding mint_token methods balance_of allowance
mint-Shows caller target amount l e h = elim (Bool-cases (caller == l.admin)) [
  | inl c ↦
      let c' : (caller == e.admin) ≡ true = ap (λ x. caller == x) (sym h.admin) ∙ c in
      rw (c, c', mint_token)
        (record {
          admin = h.admin;
          supply = ap (λ x. x +ℤ amount) h.supply;
          money = λ a. grind (int_laws, lookup-insert, h.money a);
          allowed = h.allowed;
          account = λ n. grind (arith, lookup-insert, h.account, n);
        })
  | inr c ↦
      let c' : (caller == e.admin) ≡ false = ap (λ x. caller == x) (sym h.admin) ∙ c in
      rw (c, c', mint_token) h
]

burn-Shows :
    (caller : Address) (amount : ℤ) (l : Ledger) (e : ErcToken)
    → Shows l e
    → Shows (on_ledger (burns caller amount) l) (burn caller amount e).1
unfolding burn methods balance_of allowance
burn-Shows caller amount l e h = elim (Bool-cases (caller == l.admin)) [
  | inl c ↦
      let c' : (caller == e.admin) ≡ true = ap (λ x. caller == x) (sym h.admin) ∙ c in
      elim (Option-cases (lookup caller e.money)) [
        | inl n ↦ absurd (h.account (ap (λ x. lookup x e.money) (sym (admin_is c')) ∙ n))
        | inr (bal, at) ↦ elim (Bool-cases (leb_ℤ amount (l.money caller))) [
          | inl m ↦
              let m' : ltb_ℤ bal amount ≡ false = grind (int_laws, m, h.money caller, at) in
              rw (c, m, c', at, m', burn)
                (record {
                  admin = h.admin;
                  supply = ap (λ x. x -ℤ amount) h.supply;
                  money = λ a. grind (int_laws, lookup-insert, h.money a, at);
                  allowed = h.allowed;
                  account = λ n. grind (arith, lookup-insert, h.account, n);
                })
          | inr m ↦
              let m' : ltb_ℤ bal amount ≡ true = grind (int_laws, m, h.money caller, at) in
              rw (c, m, c', at, m', burn) h
        ]
      ]
  | inr c ↦
      let c' : (caller == e.admin) ≡ false = ap (λ x. caller == x) (sym h.admin) ∙ c in
      rw (c, c', burn) h
]
  where
    admin_is : (caller == e.admin) ≡ true → caller ≡ e.admin
    admin_is q = ground (arith, q)

no_panic : (caller to : Address) (value : ℤ) (e : ErcToken) → (transfer caller to value e).0 ≢ panic
unfolding transfer methods
no_panic caller to value e h = ground (arith, h)

drop_each-Shows :
    (addrs : List Address) (admin : Address) (money : ℤ) (l : Ledger) (e : ErcToken)
    → Shows l e
    → Shows (pay_all admin addrs money l) (drop_each admin addrs money e).1
unfolding drop_each pure
drop_each-Shows [] admin money l e h = h
drop_each-Shows (a ∷ rest) admin money l e h =
    subst (Shows (pay_all admin rest money (pay admin a money l)))
      (sym (
        then-ignore (drop_each admin rest money) (transfer admin a money) e
          (no_panic admin a money e)))
      (drop_each-Shows rest admin money (pay admin a money l) (transfer admin a money e).1
        (pay-Shows admin a money l e h))

air_drop-Shows :
    (caller : Address) (addrs : List Address) (money : ℤ) (l : Ledger) (e : ErcToken)
    → Shows l e
    → Shows (on_ledger (drops caller addrs money) l) (air_drop caller addrs money e).1
unfolding air_drop methods
air_drop-Shows caller addrs money l e h = elim (Bool-cases (caller == l.admin)) [
  | inl c ↦
      let c' : (caller == e.admin) ≡ true = ap (λ x. caller == x) (sym h.admin) ∙ c in
      rw (c, c', air_drop)
        (subst (λ x. Shows (pay_all l.admin addrs money l) (drop_each x addrs money e).1) h.admin
          (drop_each-Shows addrs l.admin money l e h))
  | inr c ↦
      let c' : (caller == e.admin) ≡ false = ap (λ x. caller == x) (sym h.admin) ∙ c in
      rw (c, c', air_drop) h
]

-- ## All calls

after-Shows : (c : Call) (l : Ledger) (e : ErcToken) → Shows l e → Shows (on_ledger c l) (after c e)
unfolding after
after-Shows (transfers caller to value) l e h = pay-Shows caller to value l e h
after-Shows (approves caller spender value) l e h = approve-Shows caller spender value l e h
after-Shows (transfers_from caller from to value) l e h = draw-Shows caller from to value e l h
after-Shows (mints caller target amount) l e h = mint-Shows caller target amount l e h
after-Shows (burns caller amount) l e h = burn-Shows caller amount l e h
after-Shows (drops caller addrs money) l e h = air_drop-Shows caller addrs money l e h

after_all-Shows :
    (cs : List Call) (l : Ledger) (e : ErcToken)
    → Shows l e
    → Shows (on_ledger_all cs l) (after_all cs e)
unfolding after_all
after_all-Shows [] l e h = h
after_all-Shows (c ∷ cs) l e h =
    after_all-Shows cs (on_ledger c l) (after c e) (after-Shows c l e h)

new_token-Shows : (local admin : Address) → Shows (new_ledger admin) (new_token local admin)
unfolding new_token balance_of allowance lookup
new_token-Shows local admin = record {
  admin = refl;
  supply = refl;
  money = λ a. ground arith;
  allowed = λ o s. refl;
  account = λ n. ground (arith, n);
}

-- After any calls, by anyone, that succeed or fail, a new token shows what the same calls make of the
-- abstract ledger: its admin, its supply, every balance and every allowance.
pub refines_ledger :
    (local admin : Address) (cs : List Call)
    → Shows (on_ledger_all cs (new_ledger admin)) (after_all cs (new_token local admin))
refines_ledger local admin cs =
    after_all-Shows cs (new_ledger admin) (new_token local admin) (new_token-Shows local admin)
