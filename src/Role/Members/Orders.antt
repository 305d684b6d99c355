-- ===== src/Role/Members/Orders.antt =====
-- The calls of server/contract/role.go for payments to providers and for orders.
use mefs_go_settlement.Base.{
  ℕ, ◌==◌, if◌then◌else◌, Option, none, some, ℤ, ◌+ℤ◌, ◌-ℤ◌, nat_eq, modify,
}
use mefs_go_settlement.Base.Keeps.{Keeps, Keeps-modify, Keeps-pure}
use mefs_go_settlement.Utils.Key.{Address}
use mefs_go_settlement.Role.Funds
use mefs_go_settlement.Role.Funds.{payer, group_contract}
use mefs_go_settlement.Role.Orders
use mefs_go_settlement.Role.Orders.{issue, send_reward}
use mefs_go_settlement.Role.Registry.{IsRegistry, either_way}
use mefs_go_settlement.Role.Members.{AllInOrder}
use mefs_go_settlement.Role.Members.Steps.{members_rules}
use mefs_go_settlement.Role.Members.Calls.{contract-Keeps, group_pro_withdraw-Keeps}

pub paid-Keeps :
    (token : ℕ) (lost blost : ℤ)
    → Keeps IsRegistry (
        modify
          (λ r. if token == 0 then record r { total_paid = r.total_paid +ℤ lost -ℤ blost } else r))
paid-Keeps token lost blost = Keeps-modify _ (λ r h. either_way (token == 0) _ r h h)

pub pro_withdraw-Keeps :
    (self caller : Address) (pro token : ℕ) (pay lost : ℤ)
    → Keeps AllInOrder (Funds.pro_withdraw self caller pro token pay lost)
unfolding Funds.pro_withdraw
pro_withdraw-Keeps self caller pro token pay lost =
    search (members_rules, contract-Keeps, group_pro_withdraw-Keeps, paid-Keeps) depth 60

pub sent-Keeps : (ntime : ℕ) → Keeps IsRegistry (modify (λ r. record r { last_mint = ntime }))
sent-Keeps ntime = Keeps-modify _ (λ r h. h)

pub send_reward-Keeps :
    (self : Address) (ntime : ℕ) (reward : Option ℤ)
    → Keeps AllInOrder (send_reward self ntime reward)
unfolding send_reward
send_reward-Keeps self ntime none = Keeps-pure tt
send_reward-Keeps self ntime (some reward) = search (members_rules, sent-Keeps) depth 60

pub issue-Keeps :
    (self : Address) (g_index start end size token : ℕ) (sprice : ℤ)
    → Keeps AllInOrder (issue self g_index start end size token sprice)
unfolding issue
issue-Keeps self g_index start end size token sprice =
    search (members_rules, send_reward-Keeps) depth 60

pub add_order-Keeps :
    (self caller : Address) (user pro start end size nonce token : ℕ) (sprice : ℤ)
    → Keeps AllInOrder (Orders.add_order self caller user pro start end size nonce token sprice)
unfolding Orders.add_order
add_order-Keeps self caller user pro start end size nonce token sprice =
    search (members_rules, issue-Keeps) depth 80

pub sub_order-Keeps :
    (self caller : Address) (user pro start end size nonce token : ℕ) (sprice : ℤ)
    → Keeps AllInOrder (Orders.sub_order self caller user pro start end size nonce token sprice)
unfolding Orders.sub_order
sub_order-Keeps self caller user pro start end size nonce token sprice =
    search members_rules depth 80
