-- ===== src/Settlement/Payment.antt =====
-- `calc` (server/contract/fs.go, lines 115 to 148): when it pays, and how much; and the totals that
-- it keeps.
use mefs_go_settlement.Base.{
  ℕ, ◌-◌, ◌<◌, ◌≡◌, inl, inr, word, sub64, ltb, Bool-cases, ℤ, pos, ◌+ℤ◌, ◌-ℤ◌, ◌*ℤ◌, ◌≤ℤ◌,
  int_laws, methods, *ℤ_nonneg, *ℤ_parts, ok, err, err_res, List, [], ◌∷◌,
}
use mefs_go_settlement.Settlement.{Settlement, elapsed, add, sub, accrue, calc}
use mefs_go_settlement.Settlement.Accrual.{
  Event, apply, apply_all, open_order, close_order, withdraw,
}

-- A request to be paid up to `pay` in all is accepted.
abbrev pub Accepts : ℕ → ℤ → ℤ → Settlement → Type 0
Accepts now pay lost s =
    (s.has_paid ≤ℤ pay) × (s.lost ≤ℤ lost) × (pay ≤ℤ s.can_pay +ℤ pos (now - s.time) *ℤ s.price)

accrue_lem :
    (now : ℕ) (s : Settlement)
    → now < word
    → (accrue now s).can_pay ≡ s.can_pay +ℤ pos (now - s.time) *ℤ s.price
unfolding accrue
accrue_lem now s w = elim (Bool-cases (ltb s.time now)) [
  | inl late ↦ grind (int_laws, *ℤ_parts (pos (now - s.time)) s.price)
  | inr early ↦ grind (int_laws, *ℤ_parts (pos (now - s.time)) s.price)
]

-- At a time below 2 ^ 64, where the total asked for is no less than what was paid, the loss
-- reported no less than the loss known, and the total covered by what has been earned up to that
-- time, `calc` returns the difference, remembers the total and the loss, and leaves the total
-- covered.
pub calc-pays :
    (now : ℕ) (pay lost : ℤ) (s : Settlement)
    → now < word
    → Accepts now pay lost s
    → ((calc now pay lost s).0 ≡ ok (pay -ℤ s.has_paid))
      × ((calc now pay lost s).1.has_paid ≡ pay)
      × ((calc now pay lost s).1.lost ≡ lost)
      × (pay ≤ℤ (calc now pay lost s).1.can_pay)
unfolding calc methods
calc-pays now pay lost s w h = grind (int_laws, accrue_lem now s w)

-- At a time below 2 ^ 64, where the total asked for is less than what was paid, or the loss
-- reported less than the loss known, or the total not covered by what has been earned up to that
-- time, `calc` returns an error and pays nothing.
pub calc-refuses :
    (now : ℕ) (pay lost : ℤ) (s : Settlement)
    → now < word
    → ¬ Accepts now pay lost s
    → ((calc now pay lost s).0 ≡ err err_res) × ((calc now pay lost s).1.has_paid ≡ s.has_paid)
unfolding calc methods
calc-refuses now pay lost s w h = grind (int_laws, accrue_lem now s w)

-- What one event pays out.
unfoldable pub paid_by : Event → Settlement → ℤ
paid_by (open_order start size sprice pay manage) s = pos 0
paid_by (close_order start end size sprice) s = pos 0
paid_by (withdraw now pay lost) s = elim ((calc now pay lost s).0) [ ok paid ↦ paid | _ ↦ pos 0 ]

unfoldable pub paid_out : List Event → Settlement → ℤ
unfolding paid_by apply
paid_out [] s = pos 0
paid_out (e ∷ es) s = paid_by e s +ℤ paid_out es (apply e s)

has_paid-apply : (e : Event) (s : Settlement) → (apply e s).has_paid ≡ s.has_paid +ℤ paid_by e s
unfolding apply paid_by add sub calc accrue methods
has_paid-apply (open_order start size sprice pay manage) s = grind int_laws
has_paid-apply (close_order start end size sprice) s = grind int_laws
has_paid-apply (withdraw now pay lost) s = grind int_laws

-- Whatever happens to an account, in whatever order, `has_paid` grows by exactly what was paid out.
pub has_paid-apply_all :
    (es : List Event) (s : Settlement) → (apply_all es s).has_paid ≡ s.has_paid +ℤ paid_out es s
unfolding apply_all paid_out
has_paid-apply_all [] s = grind int_laws
has_paid-apply_all (e ∷ es) s =
    grind (int_laws, has_paid-apply e s, has_paid-apply_all es (apply e s))

-- The prices of the open orders are not negative, and no more is paid than the account holds as earned.
pub record IsSound (s : Settlement) : Type 0 where
  pub price_nonneg : pos 0 ≤ℤ s.price
  pub covered : s.has_paid ≤ℤ s.can_pay

-- An event that a group may accept: no negative price is opened, and what is closed was open.
abbrev pub Fair : Event → Settlement → Type 0
Fair (open_order start size sprice pay manage) s = pos 0 ≤ℤ sprice
Fair (close_order start end size sprice) s = sprice ≤ℤ s.price
Fair (withdraw now pay lost) s = Unit

abbrev pub AllFair : List Event → Settlement → Type 0
AllFair [] s = Unit
AllFair (e ∷ es) s = Fair e s × AllFair es (apply e s)

add-IsSound :
    (start size : ℕ) (sprice pay manage : ℤ) (s : Settlement)
    → IsSound s
    → pos 0 ≤ℤ sprice
    → IsSound (add start size sprice pay manage s)
unfolding add
add-IsSound start size sprice pay manage s v h =
    grind (int_laws, *ℤ_nonneg (elapsed s.time start) s.price v.price_nonneg)

sub-IsSound :
    (start end size : ℕ) (sprice : ℤ) (s : Settlement)
    → IsSound s
    → sprice ≤ℤ s.price
    → IsSound (sub start end size sprice s)
unfolding sub
sub-IsSound start end size sprice s v h =
    grind (int_laws, *ℤ_nonneg (sub64 end s.time) s.price v.price_nonneg)

pub calc-IsSound :
    (now : ℕ) (pay lost : ℤ) (s : Settlement) → IsSound s → IsSound (calc now pay lost s).1
unfolding calc methods
calc-IsSound now pay lost s v =
    grind (int_laws, *ℤ_nonneg (sub64 now s.time) s.price v.price_nonneg)

apply-IsSound : (e : Event) (s : Settlement) → IsSound s → Fair e s → IsSound (apply e s)
unfolding apply
apply-IsSound (open_order start size sprice pay manage) s v h =
    add-IsSound start size sprice pay manage s v h
apply-IsSound (close_order start end size sprice) s v h = sub-IsSound start end size sprice s v h
apply-IsSound (withdraw now pay lost) s v h = calc-IsSound now pay lost s v

-- A sound account, whose price is not negative and which has paid no more than it holds as earned,
-- stays sound through any events that open no negative price and close no more of the price than
-- is open.
pub apply_all-IsSound :
    (es : List Event) (s : Settlement) → IsSound s → AllFair es s → IsSound (apply_all es s)
unfolding apply_all
apply_all-IsSound [] s v h = v
apply_all-IsSound (e ∷ es) s v h = apply_all-IsSound es (apply e s) (apply-IsSound e s v h.0) h.1
