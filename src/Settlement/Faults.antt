-- ===== src/Settlement/Faults.antt =====
-- Two faults of the account (server/contract/fs.go, lines 74 to 112).
use mefs_go_settlement.Base.{
  ℕ, ◌/◌, ◌<◌, ◌≡◌, refl, arith, word, sub64, ℤ, pos, ◌+ℤ◌, ◌≤ℤ◌, int_laws, *ℤ_mono, *ℤ-one, List,
  [], ◌∷◌,
}
use mefs_go_settlement.Settlement.{Settlement, new_settlement, add, sub}
use mefs_go_settlement.Settlement.Accrual.{
  Event, apply, apply_all, open_order, close_order, withdraw,
}

-- The events are orders opened.
abbrev pub AllOpen : List Event → Type 0
AllOpen [] = Unit
AllOpen (open_order start size sprice pay manage ∷ es) = AllOpen es
AllOpen (_ ∷ es) = ⊥

size-apply_all :
    (es : List Event) (s : Settlement) → AllOpen es → s.size ≡ 0 → (apply_all es s).size ≡ 0
unfolding apply_all apply
size-apply_all [] s h z = z
size-apply_all (open_order start size sprice pay manage ∷ es) s h z =
    size-apply_all es (add start size sprice pay manage s) h (unfold add in omega arith)
size-apply_all (close_order start end size sprice ∷ es) s h z = absurd h
size-apply_all (withdraw now pay lost ∷ es) s h z = absurd h

-- However many orders are opened on a new account, and of whatever size, its size stays 0.
pub size-stays_zero : (es : List Event) → AllOpen es → (apply_all es new_settlement).size ≡ 0
size-stays_zero es h = size-apply_all es new_settlement h refl

-- Where the account's time is past the end of an order and below 2 ^ 63, and its price is
-- positive, closing the order credits the provider with 2 ^ 63 or more: the difference wraps.
pub sub-late_overpays :
    (start end size : ℕ) (sprice : ℤ) (s : Settlement)
    → end < s.time
    → s.time < word / 2
    → pos 1 ≤ℤ s.price
    → s.can_pay +ℤ pos (word / 2) ≤ℤ (sub start end size sprice s).can_pay
unfolding sub
sub-late_overpays start end size sprice s h w p =
    grind (int_laws, *ℤ-one (sub64 end s.time), *ℤ_mono (sub64 end s.time) (pos 1) s.price p)
