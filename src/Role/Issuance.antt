-- ===== src/Role/Issuance.antt =====
-- What the registry has counted as paid, against the orders that it was told of
-- (server/contract/role.go, lines 796 to 852).
pub mod Counted
pub mod Sent
use mefs_go_settlement.Base.{
  ℕ, ◌+◌, ◌-◌, ◌*◌, ◌/◌, ◌≤◌, ◌<◌, ◌==◌, ltb, ◌≡◌, ◌≢◌, refl, sym, ap, ◌∙◌, arith, if◌then◌else◌,
  Bool, true, false, Bool-cases, inl, inr, ◌⊎◌, List, [], ◌∷◌, ℤ, pos, ◌+ℤ◌, ◌-ℤ◌, ◌*ℤ◌, int_laws,
}
use mefs_go_settlement.Base.Product.{+ℤ-mul, -ℤ-mul, mul-+ℤ, zero-mul}

-- An order that has been counted since a time, up to its end at a midnight, at a price.
pub record Order : Type 0 where
  pub since : ℕ
  pub last_day : ℕ
  pub price : ℤ

abbrev pub end_of : Order → ℕ
end_of o = o.last_day * 86400

-- The time that an order has run by `t`.
abbrev pub lived : (t : ℕ) → Order → ℕ
lived t o = (if ltb (end_of o) t then end_of o else t) - o.since

-- The price of an order that is open at `t`, and of one that ends then.
abbrev pub open_at : (t : ℕ) → Order → ℤ
open_at t o = if ltb t (end_of o) then o.price else pos 0

abbrev pub ends_at : (t : ℕ) → Order → ℤ
ends_at t o = if end_of o == t then o.price else pos 0

abbrev pub sum : (Order → ℤ) → List Order → ℤ
sum f [] = pos 0
sum f (o ∷ os) = f o +ℤ sum f os

-- What the orders cost by `t`.
abbrev pub cost : (t : ℕ) → List Order → ℤ
cost t os = sum (λ o. o.price *ℤ pos (lived t o)) os

-- The last midnight, and whether it lies behind `t`.
abbrev pub last_midnight : (n : ℕ) → ℕ
last_midnight n = n / 86400 * 86400

abbrev crosses : (t n : ℕ) → Bool
crosses t n = ltb (t / 86400) (n / 86400)

-- What is taken off for the orders that ended at the midnight.
abbrev pub cut : (t n : ℕ) (ending : ℤ) → ℤ
cut t n ending = if crosses t n then ending else pos 0

-- An order that runs at `t` or has run before.
abbrev pub Dated : (t : ℕ) → Order → Type 0
Dated t o = (o.since ≤ t) × (o.since < end_of o)

-- A span of time cut in two.
span-split : (p : ℤ) (a b c : ℕ) → a ≡ b + c → p *ℤ pos a ≡ p *ℤ pos b +ℤ p *ℤ pos c
span-split p a b c e =
    let whole : pos a ≡ pos b +ℤ pos c = grind (int_laws, e) in
    rw (whole, mul-+ℤ p (pos b) (pos c)) refl

module _ (t n : ℕ) (later : t ≤ n) (day_at_most : n ≤ t + 86400) (o : Order)
    (dated : Dated t o) where
  -- An order that ends in between ends at the midnight.
  at_midnight : t < end_of o → end_of o ≤ n → (crosses t n ≡ true) × (end_of o ≡ last_midnight n)
  at_midnight h k = (ground (arith, quotients.0), rw quotients.1 refl)
    where
      quotients : (t / 86400 < n / 86400) × (o.last_day ≡ n / 86400)
      quotients = (omega (arith, h, k, day_at_most), omega (arith, h, k, day_at_most))

  -- The midnight is not the end of an order that is over, or that still runs.
  not_midnight :
      (end_of o ≤ t) ⊎ (n < end_of o) → (crosses t n ≡ false) ⊎ (end_of o ≢ last_midnight n)
  not_midnight h = elim (Bool-cases (crosses t n)) [
    | inl e ↦ inr (λ same. apart (ground (arith, e)) same h)
    | inr e ↦ inl e
  ]
    where
      apart :
          t / 86400 < n / 86400 → end_of o ≡ last_midnight n → (end_of o ≤ t) ⊎ (n < end_of o) → ⊥
      apart c same (inl over) = omega (arith, c, same, over)
      apart c same (inr runs) = omega (arith, c, same, runs)

  no_cut : (end_of o ≤ t) ⊎ (n < end_of o) → cut t n (ends_at (last_midnight n) o) ≡ pos 0
  no_cut h = elim (not_midnight h) [ inl e ↦ rw e refl | inr apart ↦ ground (arith, apart) ]

  full_cut : t < end_of o → end_of o ≤ n → cut t n (ends_at (last_midnight n) o) ≡ o.price
  full_cut h k = let m = at_midnight h k in ground (arith, m.0, m.1)

  closed : end_of o ≤ t → open_at t o ≡ pos 0
  closed h = ground (arith, h)

  still_open : t < end_of o → open_at t o ≡ o.price
  still_open h = ground (arith, h)

  -- Over by `t`, over by `n`, or still running.
  by_end : (end_of o ≤ t) ⊎ (((t < end_of o) × (end_of o ≤ n)) ⊎ (n < end_of o))
  by_end = elim (Bool-cases (ltb t (end_of o))) [
    | inr e ↦ inl (ground (arith, e))
    | inl e ↦ elim (Bool-cases (ltb n (end_of o))) [
      | inl e' ↦ inr (inr (ground (arith, e')))
      | inr e' ↦ inr (inl (ground (arith, e), ground (arith, e')))
    ]
  ]

  -- And so the prices of the orders that are open.
  order_open : open_at n o ≡ open_at t o -ℤ cut t n (ends_at (last_midnight n) o)
  order_open = elim by_end [
    | inl over ↦
        let shut : open_at n o ≡ pos 0 = ground (arith, over, later) in
        rw (no_cut (inl over), closed over, shut) (grind int_laws)
    | inr (inl (h, k)) ↦ rw (full_cut h k, still_open h) (grind (arith, int_laws, k))
    | inr (inr runs) ↦
        rw (no_cut (inr runs), still_open (ground (arith, runs, later)))
          (grind (arith, int_laws, runs))
  ]

  -- What an order costs by `n`, from what it costs by `t`.
  order_cost :
      o.price *ℤ pos (lived n o)
      ≡ o.price *ℤ pos (lived t o)
        +ℤ open_at t o *ℤ pos (n - t)
        -ℤ cut t n (ends_at (last_midnight n) o) *ℤ pos (n - last_midnight n)
  order_cost = elim by_end [
    | inl over ↦
        let same : lived n o ≡ lived t o = ground (arith, over, later) in
        rw (same, no_cut (inl over), closed over, zero-mul (pos (n - t)))
          (rw (zero-mul (pos (n - last_midnight n))) (grind int_laws))
    | inr (inl (h, k)) ↦
        let upto : lived t o ≡ t - o.since = ground (arith, h) in
        let all : lived n o ≡ end_of o - o.since = ground (arith, k) in
        rw (upto, all, full_cut h k, still_open h)
          (grind (
            int_laws,
            span-split o.price (end_of o - o.since) (t - o.since) (end_of o - t)
                (omega (arith, dated, h)),
            span-split o.price (n - t) (end_of o - t) (n - end_of o) (omega (arith, h, k)),
            (at_midnight h k).1,
          ))
    | inr (inr runs) ↦
        let upto : lived t o ≡ t - o.since = ground (arith, runs, later) in
        let all : lived n o ≡ n - o.since = ground (arith, runs) in
        rw (upto, all, no_cut (inr runs), still_open (ground (arith, runs, later)))
          (rw (zero-mul (pos (n - last_midnight n))) (
            grind (
              int_laws,
              span-split o.price (n - o.since) (t - o.since) (n - t) (omega (arith, dated, later)),
            )))
  ]

-- ## All orders

abbrev pub AllDated : (t : ℕ) → List Order → Type 0
AllDated t [] = Unit
AllDated t (o ∷ os) = Dated t o × AllDated t os

pub AllDated-later : (t n : ℕ) (os : List Order) → t ≤ n → AllDated t os → AllDated n os
AllDated-later t n [] h d = tt
AllDated-later t n (o ∷ os) h d = ((omega (arith, h, d.0.0), d.0.1), AllDated-later t n os h d.1)

cut_zero : (t n : ℕ) → cut t n (pos 0) ≡ pos 0
cut_zero t n = ground arith

cut_sum : (t n : ℕ) (a b : ℤ) → cut t n (a +ℤ b) ≡ cut t n a +ℤ cut t n b
cut_sum t n a b = elim (Bool-cases (crosses t n)) [
  | inl e ↦ rw e refl
  | inr e ↦ rw e (grind int_laws)
]

module _ (t n : ℕ) (later : t ≤ n) (day_at_most : n ≤ t + 86400) where
  -- The prices of the orders that are open at `n`: those of the orders that are open at `t`, less what is
  -- taken off at the midnight.
  pub open_later :
      (os : List Order)
      → AllDated t os
      → sum (open_at n) os ≡ sum (open_at t) os -ℤ cut t n (sum (ends_at (last_midnight n)) os)
  open_later [] d = rw (cut_zero t n) (grind int_laws)
  open_later (o ∷ os) d =
      rw (cut_sum t n (ends_at (last_midnight n) o) (sum (ends_at (last_midnight n)) os))
        (grind (int_laws, order_open t n later day_at_most o d.0, open_later os d.1))

  -- What the orders cost by `n`, from what they cost by `t`.
  pub cost_later :
      (os : List Order)
      → AllDated t os
      → cost n os
        ≡ cost t os
          +ℤ sum (open_at t) os *ℤ pos (n - t)
          -ℤ cut t n (sum (ends_at (last_midnight n)) os) *ℤ pos (n - last_midnight n)
  cost_later [] d =
      rw (cut_zero t n, zero-mul (pos (n - t)), zero-mul (pos (n - last_midnight n)))
        (grind int_laws)
  cost_later (o ∷ os) d =
      let mid = last_midnight n in
      rw (cut_sum t n (ends_at mid o) (sum (ends_at mid) os)) (
        grind (
          int_laws,
          order_cost t n later day_at_most o d.0,
          cost_later os d.1,
          +ℤ-mul (open_at t o) (sum (open_at t) os) (pos (n - t)),
          +ℤ-mul (cut t n (ends_at mid o)) (cut t n (sum (ends_at mid) os)) (pos (n - mid)),
        ))
