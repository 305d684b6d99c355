-- ===== src/Erc/Ledger.antt =====
-- An abstract ledger, with balances and allowances as functions, to compare the token of
-- server/contract/erc20.go with.
use mefs_go_settlement.Base.{
  ◌==◌, if◌then◌else◌, ◌&&◌, List, [], ◌∷◌, ℤ, pos, ◌+ℤ◌, ◌-ℤ◌, ltb_ℤ, leb_ℤ, nat_eq,
}
use mefs_go_settlement.Utils.Key.{Address}
use mefs_go_settlement.Erc.{two_key_eq, initial_supply}
use mefs_go_settlement.Erc.Balances.{moved}
use mefs_go_settlement.Erc.Supply.{Call, transfers, approves, transfers_from, mints, burns, drops}

pub record Ledger : Type 0 where
  pub admin : Address
  pub supply : ℤ
  pub money : Address → ℤ
  pub allowed : (owner spender : Address) → ℤ

-- A payment, if there is enough for it.
abbrev pub pay : (from to : Address) (value : ℤ) → Ledger → Ledger
pay from to value l =
    if leb_ℤ (pos 0) value && leb_ℤ value (l.money from)
    then record l { money = λ a. moved from to value a (l.money a) }
    else l

abbrev pub pay_all : (from : Address) → List Address → (money : ℤ) → Ledger → Ledger
pay_all from [] money l = l
pay_all from (a ∷ rest) money l = pay_all from rest money (pay from a money l)

-- What each call does.
abbrev pub on_ledger : Call → Ledger → Ledger
on_ledger (transfers caller to value) l = pay caller to value l
on_ledger (approves caller spender value) l =
    if ltb_ℤ (pos 0) value
    then record l {
      allowed =
          λ o s. if caller == o && spender == s then l.allowed o s +ℤ value else l.allowed o s;
    }
    else l
on_ledger (transfers_from caller from to value) l =
    if leb_ℤ (pos 0) value && leb_ℤ value (l.money from) && leb_ℤ value (l.allowed from caller)
    then record l {
      money = λ a. moved from to value a (l.money a);
      allowed = λ o s. if from == o && caller == s then l.allowed o s -ℤ value else l.allowed o s;
    }
    else l
on_ledger (mints caller target amount) l =
    if caller == l.admin
    then record l {
      supply = l.supply +ℤ amount;
      money = λ a. if target == a then l.money a +ℤ amount else l.money a;
    }
    else l
on_ledger (burns caller amount) l =
    if caller == l.admin && leb_ℤ amount (l.money caller)
    then record l {
      supply = l.supply -ℤ amount;
      money = λ a. if caller == a then l.money a -ℤ amount else l.money a;
    }
    else l
on_ledger (drops caller addrs money) l =
    if caller == l.admin then pay_all l.admin addrs money l else l

abbrev pub on_ledger_all : List Call → Ledger → Ledger
on_ledger_all [] l = l
on_ledger_all (c ∷ cs) l = on_ledger_all cs (on_ledger c l)

-- The admin has everything.
abbrev pub new_ledger : (admin : Address) → Ledger
new_ledger admin = record {
  admin = admin;
  supply = initial_supply;
  money = λ a. if admin == a then initial_supply else pos 0;
  allowed = λ o s. pos 0;
}
