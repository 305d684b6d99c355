-- ===== src/Settlement/Tests.antt =====
-- The account of one provider on concrete orders.
use mefs_go_settlement.Base.{
  ◌/◌, ◌≡◌, arith, word, pos, ◌+ℤ◌, ◌-ℤ◌, ◌*ℤ◌, ◌≤ℤ◌, ok, err, err_res, List, [], ◌∷◌,
}
use mefs_go_settlement.Settlement.{Settlement, new_settlement, sub, calc}
use mefs_go_settlement.Settlement.Accrual.{
  Event, open_order, close_order, withdraw, accrued, apply_all, accrued-eq-earned,
}
use mefs_go_settlement.Settlement.Payment.{calc-pays, calc-refuses}
use mefs_go_settlement.Settlement.Faults.{size-stays_zero, sub-late_overpays}

-- Two orders, a payment between them, and the first order's end.
abbrev events : List Event
events =
    open_order 10 5 (pos 3) (pos 270) (pos 10)
    ∷ withdraw 20 (pos 25) (pos 0)
    ∷ open_order 30 7 (pos 2) (pos 100) (pos 4)
    ∷ close_order 10 100 5 (pos 3)
    ∷ []

-- 90 seconds of the first order, and 80 of the second.
accrued-eq-earned_example : accrued (apply_all events new_settlement) 110 ≡ pos 430
unfolding ◌+ℤ◌ ◌-ℤ◌ ◌*ℤ◌
accrued-eq-earned_example = accrued-eq-earned events 110 (ground arith) (ground arith)

abbrev half_way : Settlement
half_way = record new_settlement {
  time = 40;
  price = pos 5;
  max_pay = pos 370;
  can_pay = pos 110;
  has_paid = pos 25;
  lost = pos 2;
}

calc-pays_example :
    ((calc 50 (pos 160) (pos 2) half_way).0 ≡ ok (pos 135))
    × ((calc 50 (pos 160) (pos 2) half_way).1.has_paid ≡ pos 160)
    × ((calc 50 (pos 160) (pos 2) half_way).1.lost ≡ pos 2)
    × (pos 160 ≤ℤ (calc 50 (pos 160) (pos 2) half_way).1.can_pay)
unfolding ◌-ℤ◌
calc-pays_example =
    calc-pays 50 (pos 160) (pos 2) half_way (ground arith) (unfold ◌+ℤ◌ ◌*ℤ◌ in ground arith)

calc-refuses_example :
    ((calc 50 (pos 161) (pos 2) half_way).0 ≡ err err_res)
    × ((calc 50 (pos 161) (pos 2) half_way).1.has_paid ≡ pos 25)
calc-refuses_example =
    calc-refuses 50 (pos 161) (pos 2) half_way (ground arith)
      (unfold ◌+ℤ◌ ◌*ℤ◌ in λ h. ground arith)

size-stays_zero_example :
    (apply_all (open_order 10 5 (pos 3) (pos 270) (pos 10) ∷ []) new_settlement).size ≡ 0
size-stays_zero_example = size-stays_zero (open_order 10 5 (pos 3) (pos 270) (pos 10) ∷ []) tt

sub-late_overpays_example :
    half_way.can_pay +ℤ pos (word / 2) ≤ℤ (sub 10 39 5 (pos 3) half_way).can_pay
sub-late_overpays_example =
    sub-late_overpays 10 39 5 (pos 3) half_way (ground arith) (ground arith) (ground arith)
