-- ===== src/Settlement/Accrual.antt =====
-- What a provider has earned by a time, against the orders that it serves
-- (server/contract/fs.go, lines 73 to 148).
use mefs_go_settlement.Base.{
  ℕ, ◌+◌, ◌-◌, ◌≤◌, ◌<◌, ◌≡◌, arith, word, List, [], ◌∷◌, ℤ, pos, ◌+ℤ◌, ◌-ℤ◌, ◌*ℤ◌, int_laws,
  methods, *ℤ-add, *ℤ-sub, *ℤ-add_left, *ℤ-zero,
}
use mefs_go_settlement.Settlement.{Settlement, new_settlement, add, sub, calc}

-- The money that has become payable by `t`, paid or not.
abbrev pub accrued : Settlement → ℕ → ℤ
accrued s t = s.can_pay +ℤ pos (t - s.time) *ℤ s.price

-- A span of time cut in two.
*ℤ-split :
    (a b c : ℕ) (p : ℤ) → a ≤ b → b ≤ c → pos (c - a) *ℤ p ≡ pos (b - a) *ℤ p +ℤ pos (c - b) *ℤ p
*ℤ-split a b c p h k =
    let whole : c - a ≡ (b - a) + (c - b) = omega arith in rw whole (*ℤ-add_left (b - a) (c - b) p)

accrued-add :
    (start size : ℕ) (sprice pay manage : ℤ) (s : Settlement) (t : ℕ)
    → s.time ≤ start
    → start ≤ t
    → t < word
    → accrued (add start size sprice pay manage s) t ≡ accrued s t +ℤ pos (t - start) *ℤ sprice
unfolding add
accrued-add start size sprice pay manage s t h k w =
    grind (int_laws, *ℤ-add (t - start) s.price sprice, *ℤ-split s.time start t s.price)

accrued-sub :
    (start end size : ℕ) (sprice : ℤ) (s : Settlement) (t : ℕ)
    → s.time ≤ end
    → end ≤ t
    → t < word
    → accrued (sub start end size sprice s) t ≡ accrued s t -ℤ pos (t - end) *ℤ sprice
unfolding sub
accrued-sub start end size sprice s t h k w =
    grind (int_laws, *ℤ-sub (t - end) s.price sprice, *ℤ-split s.time end t s.price)

-- Neither a payment nor its refusal changes what has been earned.
accrued-calc :
    (now : ℕ) (pay lost : ℤ) (s : Settlement) (t : ℕ)
    → s.time ≤ now
    → now ≤ t
    → t < word
    → accrued (calc now pay lost s).1 t ≡ accrued s t
unfolding calc methods
accrued-calc now pay lost s t h k w = grind (int_laws, *ℤ-split s.time now t s.price)

time-add :
    (start size : ℕ) (sprice pay manage : ℤ) (s : Settlement)
    → s.time ≤ start
    → (add start size sprice pay manage s).time ≤ start
unfolding add
time-add start size sprice pay manage s h = ground arith

time-sub :
    (start end size : ℕ) (sprice : ℤ) (s : Settlement)
    → s.time ≤ end
    → (sub start end size sprice s).time ≤ end
unfolding sub
time-sub start end size sprice s h = ground arith

time-calc :
    (now : ℕ) (pay lost : ℤ) (s : Settlement) → s.time ≤ now → (calc now pay lost s).1.time ≤ now
unfolding calc methods
time-calc now pay lost s h = ground arith

-- What a group does with the account of one provider.
pub data Event : Type 0 where
  open_order : (start size : ℕ) (sprice pay manage : ℤ) → Event
  close_order : (start end size : ℕ) (sprice : ℤ) → Event
  withdraw : (now : ℕ) (pay lost : ℤ) → Event

unfoldable pub apply : Event → Settlement → Settlement
apply (open_order start size sprice pay manage) s = add start size sprice pay manage s
apply (close_order start end size sprice) s = sub start end size sprice s
apply (withdraw now pay lost) s = (calc now pay lost s).1

unfoldable pub apply_all : List Event → Settlement → Settlement
unfolding apply
apply_all [] s = s
apply_all (e ∷ es) s = apply_all es (apply e s)

-- The time at which an event counts.
abbrev pub time_of : Event → ℕ
time_of (open_order start size sprice pay manage) = start
time_of (close_order start end size sprice) = end
time_of (withdraw now pay lost) = now

-- The events come in the order of their times, none before `now` and none after `t`.
abbrev pub InOrder : ℕ → ℕ → List Event → Type 0
InOrder now t [] = now ≤ t
InOrder now t (e ∷ es) = (now ≤ time_of e) × (time_of e ≤ t) × InOrder (time_of e) t es

-- What the orders themselves say: each earns its price a second from its start up to its end.
abbrev pub earned : List Event → ℕ → ℤ
earned [] t = pos 0
earned (open_order start size sprice pay manage ∷ es) t = pos (t - start) *ℤ sprice +ℤ earned es t
earned (close_order start end size sprice ∷ es) t = earned es t -ℤ pos (t - end) *ℤ sprice
earned (withdraw now pay lost ∷ es) t = earned es t

accrued-apply_all :
    (es : List Event) (s : Settlement) (now t : ℕ)
    → s.time ≤ now
    → InOrder now t es
    → t < word
    → accrued (apply_all es s) t ≡ accrued s t +ℤ earned es t
unfolding apply_all
accrued-apply_all [] s now t h o w = grind int_laws
accrued-apply_all (open_order start size sprice pay manage ∷ es) s now t h o w = grind (
  int_laws,
  time-add start size sprice pay manage s,
  accrued-add start size sprice pay manage s t,
  accrued-apply_all es (add start size sprice pay manage s) start t,
)
accrued-apply_all (close_order start end size sprice ∷ es) s now t h o w = grind (
  int_laws,
  time-sub start end size sprice s,
  accrued-sub start end size sprice s t,
  accrued-apply_all es (sub start end size sprice s) end t,
)
accrued-apply_all (withdraw wnow pay lost ∷ es) s now t h o w = grind (
  int_laws,
  time-calc wnow pay lost s,
  accrued-calc wnow pay lost s t,
  accrued-apply_all es (calc wnow pay lost s).1 wnow t,
)

-- A new account through which orders are opened, closed and paid in the order of their times has
-- accrued, at any later time below 2 ^ 64, what the orders themselves say that they earn.
pub accrued-eq-earned :
    (es : List Event) (t : ℕ)
    → InOrder 0 t es
    → t < word
    → accrued (apply_all es new_settlement) t ≡ earned es t
accrued-eq-earned es t o w =
    grind (int_laws, *ℤ-zero (t - 0), accrued-apply_all es new_settlement 0 t)
