-- ===== src/Role/Issuance/Counted.antt =====
-- The issuance of rewards counts every order (server/contract/role.go, lines 796 to 852).
use mefs_go_settlement.Base.{
  ℕ, zero, suc, ◌+◌, ◌-◌, ◌*◌, ◌/◌, ◌≤◌, ◌<◌, ◌==◌, ltb, sub64, word, ◌≡◌, ◌≢◌, refl, sym, subst,
  ap, ◌∙◌, arith, if◌then◌else◌, Bool, true, false, Bool-cases, inl, inr, Option, none, some, ok,
  Option-cases, List, ◌∷◌, get_elem?, length, ℤ, pos, ◌+ℤ◌, ◌-ℤ◌, ◌*ℤ◌, int_laws, leb_ℤ, Dict,
  nat_eq, lookup, lookup-insert, or_zero, methods, resume,
}
use mefs_go_settlement.Base.Product.{mul-zero, zero-mul}
use mefs_go_settlement.Role.{RoleMgr, GroupInfo, MintInfo}
use mefs_go_settlement.Role.Groups.{update_group}
use mefs_go_settlement.Role.Levels.{divided}
use mefs_go_settlement.Role.Mint.{
  add_at, mint_until, midnight, ended, paid_until, book_totals, raise_level, reward_of, reward_for,
  mint_order,
}
use mefs_go_settlement.Role.Issuance.{
  Order, lived, open_at, ends_at, sum, cost, cut, last_midnight, AllDated, AllDated-later,
  open_later, cost_later,
}

-- The registry's books of the orders `os`: the price of those that are open, what ends at each midnight
-- to come, and what they have cost by the last settlement.
pub record Counts (os : List Order) (r : RoleMgr) : Type 0 where
  pub price : r.price ≡ sum (open_at r.last_mint) os
  pub ends : (d : ℕ) → r.last_mint < d → or_zero (lookup d r.sub_p_map) ≡ sum (ends_at d) os
  pub paid : r.total_paid ≡ cost r.last_mint os
  pub dated : AllDated r.last_mint os

-- ## What is written

abbrev Books : Type 0
Books = ℤ × Dict ℕ ℤ × ℤ

-- What the books are about.
abbrev books : RoleMgr → Books
books r = (r.price, r.sub_p_map, r.total_paid)

books-if :
    (c : Bool) (x y : RoleMgr) (b : Books)
    → books x ≡ b
    → books y ≡ b
    → books (if c then x else y) ≡ b
books-if true x y b h k = h
books-if false x y b h k = k

books-raise_level : (k i : ℕ) (r : RoleMgr) → books (raise_level k i r) ≡ books r
unfolding raise_level
books-raise_level zero i r = refl
books-raise_level (suc k) i r = elim (Option-cases (get_elem? r.mint i)) [
  | inl e ↦ rw (e, raise_level) refl
  | inr (mi, e) ↦
      rw (e, raise_level)
        (books-if (leb_ℤ (pos mi.duration) (divided mi r).space_time) _ (divided mi r) (books r)
          (books-raise_level k (suc i) (record (divided mi r) { mint_level = i })) refl)
]

books-reward_for : (n : ℕ) (p : ℤ) (r : RoleMgr) → books (reward_for n p r).1 ≡ books r
unfolding reward_for methods resume
books-reward_for n p r = elim (Bool-cases (leb_ℤ p (pos 0))) [
  | inl e ↦ rw e refl
  | inr e ↦
      let q = raise_level (length r.mint - suc r.mint_level) (suc r.mint_level) r in
      rw e (elim (Option-cases (get_elem? q.mint q.mint_level)) [
        | inl none_at ↦ rw none_at (books-raise_level _ _ r)
        | inr (mi, at) ↦ rw at (books-raise_level _ _ r)
      ])
]

-- The level of issuance is one of the table's.
abbrev pub IsLevel : RoleMgr → Type 0
IsLevel r = get_elem? r.mint r.mint_level ≢ none

-- The table, and the level.
abbrev table : RoleMgr → List MintInfo × ℕ
table r = (r.mint, r.mint_level)

IsLevel-if : (c : Bool) (x y : RoleMgr) → IsLevel x → IsLevel y → IsLevel (if c then x else y)
IsLevel-if true x y h k = h
IsLevel-if false x y h k = k

raise_level-IsLevel : (k i : ℕ) (r : RoleMgr) → IsLevel r → IsLevel (raise_level k i r)
unfolding raise_level
raise_level-IsLevel zero i r h = h
raise_level-IsLevel (suc k) i r h = elim (Option-cases (get_elem? r.mint i)) [
  | inl e ↦ rw (e, raise_level) h
  | inr (mi, e) ↦
      rw (e, raise_level)
        (IsLevel-if (leb_ℤ (pos mi.duration) (divided mi r).space_time) _ (divided mi r)
          (raise_level-IsLevel k (suc i) (record (divided mi r) { mint_level = i })
            (λ absent. ground (arith, e, absent)))
          h)
]

table-update_group :
    (g : ℕ) (f : GroupInfo → GroupInfo) (r : RoleMgr) → table (update_group g f r) ≡ table r
unfolding update_group
table-update_group g f r = elim (Option-cases (get_elem? r.groups g)) [
  | inl e ↦ rw (e, update_group) refl
  | inr (gi, e) ↦ rw (e, update_group) refl
]

table-book_totals :
    (n g start end size : ℕ) (sprice : ℤ) (r : RoleMgr)
    → table (book_totals n g start end size sprice r) ≡ table r
unfolding book_totals
table-book_totals n g start end size sprice r = table-update_group g _ r

-- The registry once the reward, if there is one, has been sent and the time remembered.
abbrev pub remembered : (reward : Option ℤ) (n : ℕ) → RoleMgr → RoleMgr
remembered none n r = r
remembered (some rw) n r = record r { last_mint = n }

-- The settlement has a result, with the time that is remembered in the end.
reward_for_lem :
    (n : ℕ) (p : ℤ) (r : RoleMgr)
    → IsLevel r
    → (reward : Option ℤ) × ((reward_for n p r).0 ≡ ok (reward, n))
      × ((remembered reward n (reward_for n p r).1).last_mint ≡ n)
unfolding reward_for methods resume
reward_for_lem n p r h = elim (Bool-cases (leb_ℤ p (pos 0))) [
  | inl e ↦ rw e (none, refl, refl)
  | inr e ↦
      let q = raise_level (length r.mint - suc r.mint_level) (suc r.mint_level) r in
      rw e (elim (Option-cases (get_elem? q.mint q.mint_level)) [
        | inl none_at ↦ absurd (raise_level-IsLevel _ _ r h none_at)
        | inr (mi, at) ↦ rw at (some (reward_of p mi.ratio), refl, refl)
      ])
]

-- What is taken off at the midnight.
ended_lem :
    (t n : ℕ) (m : Dict ℕ ℤ)
    → ended (midnight n t) m ≡ cut t n (or_zero (lookup (last_midnight n) m))
unfolding midnight
ended_lem t n m = ground arith

paid_until_lem :
    (n : ℕ) (r : RoleMgr)
    → r.last_mint ≤ n
    → n < word
    → paid_until n r
      ≡ r.price *ℤ pos (n - r.last_mint)
        -ℤ cut r.last_mint n (or_zero (lookup (last_midnight n) r.sub_p_map))
          *ℤ pos (n - last_midnight n)
unfolding paid_until midnight
paid_until_lem n r h w =
    let mid = last_midnight n in
    let whole : sub64 n r.last_mint ≡ n - r.last_mint = omega (arith, h, w) in
    let tail : sub64 n mid ≡ n - mid = omega (arith, w) in
    elim (Bool-cases (ltb (r.last_mint / 86400) (n / 86400))) [
      | inl e ↦ rw (e, whole, tail) refl
      | inr e ↦ rw (e, whole) (rw (zero-mul (pos 0), zero-mul (pos (n - mid))) refl)
    ]

books-update_group :
    (g : ℕ) (f : GroupInfo → GroupInfo) (r : RoleMgr) → books (update_group g f r) ≡ books r
unfolding update_group
books-update_group g f r = elim (Option-cases (get_elem? r.groups g)) [
  | inl e ↦ rw (e, update_group) refl
  | inr (gi, e) ↦ rw (e, update_group) refl
]

books-book_totals :
    (n g start end size : ℕ) (sprice : ℤ) (r : RoleMgr)
    → books (book_totals n g start end size sprice r) ≡ (
      r.price -ℤ cut r.last_mint n (or_zero (lookup (last_midnight n) r.sub_p_map)) +ℤ sprice,
      r.sub_p_map,
      r.total_paid +ℤ paid_until n r,
    )
unfolding book_totals
books-book_totals n g start end size sprice r =
    let f : GroupInfo → GroupInfo =
      λ i. record i { size = i.size +ℤ pos size; price = i.price +ℤ sprice } in
    ap
      (λ (b : Books).
        (b.0 -ℤ ended (midnight n r.last_mint) r.sub_p_map +ℤ sprice, b.1, b.2 +ℤ paid_until n r))
      (books-update_group g f r)
    ∙ rw (ended_lem r.last_mint n r.sub_p_map) refl

-- ## The times

until_range :
    (now t : ℕ)
    → t ≤ now
    → now < word
    → (t ≤ mint_until now t) × (mint_until now t ≤ t + 86400) × (mint_until now t < word)
unfolding mint_until
until_range now t h w =
    let gone : sub64 now t ≡ now - t = omega (arith, h, w) in
    elim (Bool-cases (ltb 86400 (now - t))) [
      | inl e ↦
          let far : 86400 < now - t = ground (arith, e) in
          rw (gone, e) (omega (arith, far, w), omega (arith, far, w), omega (arith, far, w))
      | inr e ↦
          let near : now - t ≤ 86400 = ground (arith, e) in
          rw (gone, e) (h, omega (arith, near, h), w)
    ]

cut_same : (t n : ℕ) (a b : ℤ) → (t / 86400 < n / 86400 → a ≡ b) → cut t n a ≡ cut t n b
cut_same t n a b same = elim (Bool-cases (ltb (t / 86400) (n / 86400))) [
  | inl e ↦ rw (e, same (ground (arith, e))) refl
  | inr e ↦ rw e refl
]

-- ## An order

module _ (os : List Order) (now g start k size : ℕ) (sprice : ℤ) (r : RoleMgr) (h : Counts os r)
    (before : r.last_mint ≤ now) (small : now < word) where
  abbrev n : ℕ
  n = mint_until now r.last_mint

  abbrev end : ℕ
  end = k * 86400

  abbrev mid : ℕ
  mid = last_midnight n

  -- The registry with the order's end, and its books once the order is settled.
  abbrev noted : RoleMgr
  noted = record r {
    sub_p_map = add_at end sprice r.sub_p_map;
    sub_s_map = add_at end (pos size) r.sub_s_map;
  }

  lookup-noted :
      (d : ℕ)
      → or_zero (lookup d noted.sub_p_map)
        ≡ (if end == d then sprice else pos 0) +ℤ or_zero (lookup d r.sub_p_map)
  lookup-noted d =
      grind (int_laws, lookup-insert end d (or_zero (lookup end r.sub_p_map) +ℤ sprice) r.sub_p_map)

  abbrev counted : Order
  counted = record { since = n; last_day = k; price = sprice }

  abbrev settled : RoleMgr
  settled = (mint_order now g start end size sprice r).1

  books-after : books settled ≡ (
    r.price -ℤ cut r.last_mint n (or_zero (lookup mid noted.sub_p_map)) +ℤ sprice,
    noted.sub_p_map,
    r.total_paid +ℤ paid_until n noted,
  )
  unfolding mint_order methods resume
  books-after =
      books-reward_for n (paid_until n noted) (book_totals n g start end size sprice noted)
      ∙ books-book_totals n g start end size sprice noted

  books-remembered : (reward : Option ℤ) → books (remembered reward n settled) ≡ books settled
  books-remembered none = refl
  books-remembered (some a) = refl

  module _ (reward : Option ℤ) (in_time : (remembered reward n settled).last_mint ≡ n)
      (open_still : n < end) where
    abbrev after : RoleMgr
    after = remembered reward n settled

    range : (r.last_mint ≤ n) × (n ≤ r.last_mint + 86400) × (n < word)
    range = until_range now r.last_mint before small

    -- What is taken off at the midnight is what ends there.
    taken_off :
        cut r.last_mint n (or_zero (lookup mid noted.sub_p_map))
        ≡ cut r.last_mint n (sum (ends_at mid) os)
    taken_off = cut_same r.last_mint n _ _ (λ crosses.
        let past : mid < end = omega (arith, open_still) in
        let unlike : (end == mid) ≡ false = ground (arith, past) in
        lookup-noted mid ∙ rw unlike (grind (int_laws, h.ends mid (omega (arith, crosses)))))

    new_price : after.price ≡ sum (open_at n) (counted ∷ os)
    new_price =
        ap (λ (b : Books). b.0) (books-remembered reward ∙ books-after)
        ∙ rw taken_off (
            grind
              (int_laws, h.price, open_later r.last_mint n range.0 range.1 os h.dated, open_still))

    new_ends : (d : ℕ) → n < d → or_zero (lookup d after.sub_p_map) ≡ sum (ends_at d) (counted ∷ os)
    new_ends d later =
        ap (λ (b : Books). or_zero (lookup d b.1)) (books-remembered reward ∙ books-after)
        ∙ lookup-noted d
        ∙ grind (int_laws, h.ends d (omega (arith, later, range.0)))

    new_paid : after.total_paid ≡ cost n (counted ∷ os)
    new_paid =
        let fresh : lived n counted ≡ 0 = ground (arith, open_still) in
        ap (λ (b : Books). b.2) (books-remembered reward ∙ books-after)
        ∙ rw (paid_until_lem n noted range.0 range.2, taken_off, fresh)
            (grind (
              int_laws,
              mul-zero sprice,
              h.paid,
              h.price,
              cost_later r.last_mint n range.0 range.1 os h.dated,
            ))

    counts : Counts (counted ∷ os) after
    counts = record {
      price = new_price ∙ ap (λ t. sum (open_at t) (counted ∷ os)) (sym in_time);
      ends = λ d later. new_ends d (subst (λ t. t < d) in_time later);
      paid = new_paid ∙ ap (λ t. cost t (counted ∷ os)) (sym in_time);
      dated =
          subst (λ t. AllDated t (counted ∷ os)) (sym in_time)
            ((omega arith, open_still), AllDated-later r.last_mint n os range.0 h.dated);
    }

  -- Where the registry counts some orders as they are, its level of issuance is one of the table's, the
  -- times do not wrap, and the new order ends at a midnight after the time up to which `AddOrder`
  -- settles, the settlement has a result, and not a panic: a reward, or none, and that time. The registry
  -- counts these orders and the new one once it has settled, at the time that it then has as the last
  -- settlement if there is no reward, and that it remembers with the sending of the reward if there is
  -- one: its price is that of the orders that are open, what ends at each later midnight is the price of
  -- the orders that end there, and its total is what all orders have cost, each from when it was added to
  -- its end.
  pub mint_order-Counts :
      IsLevel r
      → n < end
      → (reward : Option ℤ) × ((mint_order now g start end size sprice r).0 ≡ ok (reward, n))
        × ((remembered reward n settled).last_mint ≡ n)
        × Counts (counted ∷ os) (remembered reward n settled)
  unfolding mint_order methods resume
  mint_order-Counts level open_still =
      let booked = book_totals n g start end size sprice noted in
      let same : table booked ≡ table r = table-book_totals n g start end size sprice noted in
      let (reward, done, in_time) =
        reward_for_lem n (paid_until n noted) booked
          (subst (λ (t : List MintInfo × ℕ). get_elem? t.0 t.1 ≢ none) (sym same) level) in
      (reward, done, in_time, counts reward in_time open_still)
