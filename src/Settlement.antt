-- ===== src/Settlement.antt =====
-- server/contract/fs.go, lines 41 to 148: the account that a group keeps for one provider and one
-- token. `time` and `size` are uint64 and wrap; the other fields are `*big.Int`.
pub mod Accrual
pub mod Payment
pub mod Faults
mod Tests
use mefs_go_settlement.Base.{
  ℕ, ltb, add64, sub64, if◌then◌else◌, ℤ, pos, ◌+ℤ◌, ◌-ℤ◌, ◌*ℤ◌, ltb_ℤ, M, gets, pure, modify,
  throw_if, err_res, ◌>>=◌, ◌>>◌,
}

pub record Settlement : Type 0 where
  pub time : ℕ
  pub size : ℕ
  pub price : ℤ
  pub max_pay : ℤ
  pub has_paid : ℤ
  pub can_pay : ℤ
  pub lost : ℤ
  pub lost_paid : ℤ
  pub manage_pay : ℤ
  pub end_paid : ℤ
  pub linear_paid : ℤ

abbrev pub new_settlement : Settlement
new_settlement = record {
  time = 0;
  size = 0;
  price = pos 0;
  max_pay = pos 0;
  has_paid = pos 0;
  can_pay = pos 0;
  lost = pos 0;
  lost_paid = pos 0;
  manage_pay = pos 0;
  end_paid = pos 0;
  linear_paid = pos 0;
}

-- The seconds that `add` credits at the price before it. A `start` behind `time` counts forwards.
elapsed : ℕ → ℕ → ℕ
elapsed time start =
    if ltb time start then sub64 start time else if ltb start time then sub64 time start else 0

-- `s.Size += s.Size` is the source's.
unfoldable pub add : (start size : ℕ) (sprice pay manage : ℤ) → Settlement → Settlement
unfolding elapsed
add start size sprice pay manage s = record s {
  time = if ltb s.time start then start else s.time;
  can_pay = s.can_pay +ℤ pos (elapsed s.time start) *ℤ s.price;
  price = s.price +ℤ sprice;
  size = add64 s.size s.size;
  max_pay = s.max_pay +ℤ pay;
  manage_pay = s.manage_pay +ℤ manage;
}

-- `start` is a parameter of the source that it does not use.
unfoldable pub sub : (start end size : ℕ) (sprice : ℤ) → Settlement → Settlement
sub start end size sprice s = record s {
  can_pay = s.can_pay +ℤ pos (sub64 end s.time) *ℤ s.price;
  time = if ltb s.time end then end else s.time;
  price = s.price -ℤ sprice;
  size = sub64 s.size size;
}

-- What `calc` does between its guards: credit the time up to `now`.
accrue : (now : ℕ) → Settlement → Settlement
accrue now s =
    if ltb s.time now
    then record s { can_pay = s.can_pay +ℤ pos (sub64 now s.time) *ℤ s.price; time = now }
    else s

-- `now` is what `GetTime` returns.
unfoldable pub calc : (now : ℕ) (pay lost : ℤ) → M Settlement ℤ
unfolding accrue
calc now pay lost = do
  throw_if (ltb_ℤ pay (← gets (λ s. s.has_paid))) err_res
  throw_if (ltb_ℤ lost (← gets (λ s. s.lost))) err_res
  modify (λ s. record s { lost = lost })
  modify (accrue now)
  throw_if (ltb_ℤ (← gets (λ s. s.can_pay)) pay) err_res
  has_paid ← gets (λ s. s.has_paid)
  throw_if (ltb_ℤ pay has_paid) err_res
  modify (λ s. record s { has_paid = pay })
  pure (pay -ℤ has_paid)
