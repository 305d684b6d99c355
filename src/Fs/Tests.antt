-- ===== src/Fs/Tests.antt =====
-- A group's storage contract on concrete calls.
mod Calls
use mefs_go_settlement.Base.{
  inl, inr, or_zero, resume, ◌==◌, if◌then◌else◌, true, false, ◌≡◌, ◌≢◌, refl, arith, none, pos,
  ◌+ℤ◌, ◌-ℤ◌, ◌*ℤ◌, ◌/ℤ◌, methods, nat_eq, lookup, insert, ok, [], ◌∷◌,
}
use mefs_go_settlement.Keys.{key, multi_key_eq}
use mefs_go_settlement.Settlement.{new_settlement}
use mefs_go_settlement.Fs.{AggOrder, FsMgr, new_fs_info}
use mefs_go_settlement.Fs.Orders.{
  get_fs_info, meet_token, meet_provider, credit, add_order, settle_end, sub_order, share_of,
  pay_of,
}
use mefs_go_settlement.Fs.Funds.{
  get_balance, with_profit, locked, share_tokens, pay_keepers, pay_keeper, pro_withdraw_due,
  share_token, share_profit,
}
use mefs_go_settlement.Fs.Promise.Tokens.{keeper_has_avail}
use mefs_go_settlement.Fs.Liability.{liability, balances_in, accounts_in}
use mefs_go_settlement.Fs.Books.{liability-add_order}
use mefs_go_settlement.Fs.Closings.{liability-sub_order, liability-sub_repair}
use mefs_go_settlement.Fs.Losses.{liability-add_repair}
use mefs_go_settlement.Fs.Repairs.{add_repair, sub_repair, meet_repairer, book_repair, pay_loss}
use mefs_go_settlement.Erc.{ErcToken, balance_of, transfer_from, two_key_eq}
use mefs_go_settlement.Role.{BaseInfo, RoleMgr, get_token_address}
use mefs_go_settlement.Role.Groups.{new_account}
use mefs_go_settlement.World.{
  World, erc_token, fs_mgr, role_mgr, find_erc, find_fs, find_role, on_fs, on_role, on_erc,
  get_role_mgr, call_token, send_balance_from,
}
use mefs_go_settlement.Fs.Calls.{recharge, withdraw, pro_withdraw}
use mefs_go_settlement.Fs.Covered.{IsCovered, Holds}
use mefs_go_settlement.Fs.Payouts.{liability-share_profit, liability-pro_withdraw_due}

-- An open order of the size 10 at the price 3.
abbrev orders : AggOrder
orders = record {
  nonce = 1;
  sub_nonce = 0;
  s_info = (0, record { time = 40; size = 10; price = pos 3 }) ∷ [];
  channel = [];
}

-- The keepers 1 and 2 with 3 and 5 calls, the user 6 with 1000 in the token 0, and the provider 5,
-- which has earned 110 up to 40 and is to be paid 370 in all.
abbrev pub group : FsMgr
group = record {
  local = 20;
  owner = 9;
  manage_rate = 4;
  tax_rate = 1;
  g_index = 0;
  foundation = 0;
  balance = (key 6 0, pos 1000) ∷ [];
  penalty = [];
  users = [];
  fs = (6, record new_fs_info { providers = 5 ∷ []; ao = (5, orders) ∷ [] }) ∷ [];
  repair_fs = new_fs_info;
  keepers = 1 ∷ 2 ∷ [];
  period = 1;
  last_time = 0;
  t_acc = (0, pos 103) ∷ [];
  total_count = 8;
  count = (1, 3) ∷ (2, 5) ∷ [];
  providers = 5 ∷ [];
  pro_info =
      (
        key 5 0,
        record new_settlement {
          time = 40;
          price = pos 5;
          max_pay = pos 370;
          manage_pay = pos 14;
          can_pay = pos 110;
        },
      )
      ∷ [];
  tokens = 0 ∷ [];
}

group-liability : liability 0 group ≡ pos 1487
unfolding liability balances_in accounts_in lookup ◌+ℤ◌ ◌-ℤ◌
group-liability = refl

-- An order of 100 seconds at 3, which takes 315 from the user.
liability-add_order_example :
    liability 0 (add_order 9 1 6 5 50 150 10 1 0 (pos 3) group).1 ≡ liability 0 group
liability-add_order_example = liability-add_order 0 9 1 6 5 50 150 10 1 0 (pos 3) group

add_order-result : (add_order 9 1 6 5 50 150 10 1 0 (pos 3) group).0 ≡ ok tt
unfolding add_order get_fs_info meet_provider meet_token lookup insert methods ◌+ℤ◌ ◌*ℤ◌ ◌/ℤ◌
add_order-result = refl

sub_order-result : (sub_order 200 9 1 6 5 50 150 10 0 0 (pos 3) group).0 ≡ ok tt
unfolding sub_order get_fs_info settle_end lookup insert methods ◌+ℤ◌ ◌*ℤ◌ ◌/ℤ◌
sub_order-result = refl

pub profit-known : lookup 0 group.t_acc ≢ none
profit-known = unfold lookup in λ e. ground arith

liability-sub_order_example :
    liability 0 (sub_order 200 9 1 6 5 50 150 10 0 0 (pos 3) group).1 ≡ liability 0 group
liability-sub_order_example =
    liability-sub_order 0 200 9 1 6 5 50 150 10 0 0 (pos 3) group (λ known. profit-known)

liability-share_profit_example : liability 0 (share_profit 90 group).1 ≡ liability 0 group
liability-share_profit_example = liability-share_profit 0 90 group

-- The provider 5 has lost what the provider 7 repairs: 100 seconds at 3, of which the keepers' share
-- is 12.
abbrev damaged : FsMgr
damaged = record group {
  pro_info =
      (key 5 0, record new_settlement { max_pay = pos 370; lost = pos 300 })
      ∷ (key 7 0, record new_settlement { max_pay = pos 20 })
      ∷ [];
}

add_repair-result : (add_repair 9 1 5 7 50 150 10 0 0 (pos 3) damaged).0 ≡ ok tt
unfolding add_repair meet_repairer lookup insert methods ◌+ℤ◌ ◌-ℤ◌ ◌*ℤ◌ ◌/ℤ◌
add_repair-result = refl

damaged-known : lookup (key 5 0) damaged.pro_info ≢ none
damaged-known = unfold lookup in λ e. ground arith

repairer-known : lookup (key 7 0) damaged.pro_info ≢ none
repairer-known = unfold lookup in λ e. ground arith

liability-add_repair_example :
    liability 0 (add_repair 9 1 5 7 50 150 10 0 0 (pos 3) damaged).1
    ≡ liability 0 damaged +ℤ (if 0 == 0 then share_of 4 (pay_of 50 150 (pos 3)) else pos 0)
liability-add_repair_example =
    liability-add_repair 0 9 1 5 7 50 150 10 0 0 (pos 3) damaged damaged-known repairer-known
      add_repair-result

-- The keeper 2 is told, at 90, that 60 of the profit of 103 are its own.
told-result : (get_balance 90 2 0 group).0 ≡ ok (pos 60, pos 0)
unfolding get_balance with_profit locked lookup methods resume ◌+ℤ◌ ◌-ℤ◌ ◌*ℤ◌ ◌/ℤ◌
told-result = refl

shared-result : (share_profit 90 group).0 ≡ ok tt
unfolding share_profit share_tokens share_token pay_keepers pay_keeper credit lookup insert methods
    resume ◌+ℤ◌ ◌-ℤ◌ ◌*ℤ◌ ◌/ℤ◌
shared-result = refl

keeper_has_avail_example : or_zero (lookup (key 2 0) (share_profit 90 group).1.balance) ≡ pos 60
keeper_has_avail_example =
    keeper_has_avail 90 2 0 5 (pos 60) (pos 0) group
      (inr ((λ e. ground (arith, e)), inl (refl, tt))) (inl (refl, tt)) (unfold lookup in refl)
      (ground arith) told-result shared-result
