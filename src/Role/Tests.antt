-- ===== src/Role/Tests.antt =====
-- The registry on concrete states.
use mefs_go_settlement.Base.{
  [], ◌∷◌, nat_eq, lookup, refl, ◌≡◌, ◌+ℤ◌, ◌-ℤ◌, ◌*ℤ◌, ◌/ℤ◌, arith, pos, Option, ℤ, ok, some,
  methods, insert, false,
}
use mefs_go_settlement.Role.{RoleMgr}
use mefs_go_settlement.Role.Groups.{new_role}
use mefs_go_settlement.Erc.{ErcToken}
use mefs_go_settlement.Erc
use mefs_go_settlement.World.{
  World, erc_token, role_mgr, find_role, find_erc, on_role, on_erc, call_token, send_balance,
  get_time,
}
use mefs_go_settlement.Role.Groups.{update_group}
use mefs_go_settlement.Role.Orders.{issue, send_reward}
use mefs_go_settlement.Role.Issuance.Sent.{issue-Counts}
use mefs_go_settlement.Role.Mint.{
  mint_order, mint_until, midnight, paid_until, book_totals, raise_level, reward_of, reward_for,
}
use mefs_go_settlement.Role.Issuance.{Order}
use mefs_go_settlement.Role.Issuance.Counted.{Counts, IsLevel, remembered, mint_order-Counts}

abbrev registry : RoleMgr
registry = new_role 3 3 7 1 5 (pos 0) (pos 0) 0

-- ## The issuance

-- An order at 3 for the rest of the first day, that was added at the time 100.
abbrev first : Order
first = record { since = 100; last_day = 1; price = pos 3 }

abbrev after_first : RoleMgr
after_first = record registry {
  last_mint = 100;
  price = pos 3;
  size = pos 10;
  sub_p_map = (86400, pos 3) ∷ [];
  sub_s_map = (86400, pos 10) ∷ [];
}

first_counted : Counts (first ∷ []) after_first
unfolding new_role lookup ◌+ℤ◌ ◌*ℤ◌
first_counted = record {
  price = refl;
  ends = λ d later. ground (arith, later);
  paid = refl;
  dated = ((omega arith, omega arith), tt);
}

after_first-IsLevel : IsLevel after_first
unfolding new_role
after_first-IsLevel = λ e. ground (arith, e)

-- One at 5 for the whole of the second day, whose settlement crosses the midnight.
until-second : mint_until 86450 100 ≡ 86450
unfolding mint_until
until-second = refl

mint_order-Counts_example :
    (reward : Option ℤ) × ((mint_order 86450 0 86400 172800 20 (pos 5) after_first).0
      ≡ ok (reward, mint_until 86450 100))
    × ((remembered reward
          (mint_until 86450 100)
          (mint_order 86450 0 86400 172800 20 (pos 5) after_first).1).last_mint
        ≡ mint_until 86450 100)
    × Counts (record { since = mint_until 86450 100; last_day = 2; price = pos 5 } ∷ first ∷ []) (
        remembered reward
          (mint_until 86450 100)
          (mint_order 86450 0 86400 172800 20 (pos 5) after_first).1)
mint_order-Counts_example =
    mint_order-Counts (first ∷ []) 86450 0 86400 2 20 (pos 5) after_first first_counted
      (omega arith) (omega arith) after_first-IsLevel (rw until-second (omega arith))

-- The registry at 9, with the pool at 5, at the time 86450, and the first token, at 1, of which it holds 1000.
abbrev issuing : RoleMgr
issuing = record after_first { tokens = 1 ∷ []; pledge = 5 }

abbrev market : World
market = record {
  objects =
      (
        1,
        erc_token (record {
          local = 1;
          admin = 7;
          total_supply = pos 1000000;
          money = (9, pos 1000000) ∷ [];
          allowed = [];
        }),
      )
      ∷ (9, role_mgr issuing)
      ∷ [];
  gtime = 86450;
  real_time = false;
  clock = 0;
}

issuing_counted : Counts (first ∷ []) issuing
issuing_counted = record {
  price = first_counted.price;
  ends = first_counted.ends;
  paid = first_counted.paid;
  dated = first_counted.dated;
}

issue-result : (issue 9 0 86400 172800 20 0 (pos 5) market).0 ≡ ok tt
unfolding issue mint_order mint_until midnight paid_until book_totals raise_level reward_of
    reward_for update_group send_reward send_balance call_token on_erc on_role find_erc find_role
    Erc.transfer lookup insert methods new_role ◌+ℤ◌ ◌-ℤ◌ ◌*ℤ◌ ◌/ℤ◌ get_time
issue-result = refl

issue-Counts_example :
    (r' : RoleMgr) × (find_role 9 (issue 9 0 86400 172800 20 0 (pos 5) market).1 ≡ some r')
    × (r'.last_mint ≡ mint_until 86450 100)
    × Counts (record { since = mint_until 86450 100; last_day = 2; price = pos 5 } ∷ first ∷ []) r'
unfolding get_time
issue-Counts_example =
    issue-Counts 9 (first ∷ []) 0 86400 2 20 (pos 5) issuing market
      (unfold find_role lookup in refl) issuing_counted after_first-IsLevel (omega arith)
      (omega arith) (rw until-second (omega arith)) issue-result
