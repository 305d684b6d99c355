-- ===== src/Pledge/Bookings.antt =====
-- Money that comes into the pool and goes out of it, in its own books (server/contract/pledge.go,
-- lines 204 to 209 and 304 to 322).
use mefs_go_settlement.Base.{
  ℕ, ◌==◌, ◌≡◌, ◌≢◌, refl, ap, subst, ◌∙◌, arith, if◌then◌else◌, Bool, true, List, some, ℤ, pos,
  ◌+ℤ◌, ◌-ℤ◌, ◌≤ℤ◌, int_laws, nat_eq, lookup, insert, lookup-insert, inl, inr, Bool-cases,
}
use mefs_go_settlement.Base.Product.{mul-same}
use mefs_go_settlement.Keys.{key, multi_key_eq}
use mefs_go_settlement.Pledge.{RewardInfo, PledgeMgr}
use mefs_go_settlement.Pledge.Shares.{entry, due, total_same, total-change, Once}
use mefs_go_settlement.Pledge.Ledger.{Covers, Books, Covers-same, entry-insert}

-- The role has been settled in every token.
abbrev pub Settled : (index : ℕ) → PledgeMgr → Type 0
Settled index p =
    (j : ℕ) (ti : RewardInfo)
    → lookup j p.t_info ≡ some ti
    → (entry p.amount index j).reward_accum ≡ ti.reward_accum

-- Once a role has been settled in every token, what it has in the pool may change.
pub Books-stakes :
    (ps : List ℕ) (s s' : ℕ → ℤ) (index : ℕ) (p : PledgeMgr)
    → ((k : ℕ) → k ≢ index → s' k ≡ s k)
    → Settled index p
    → Books ps s p
    → Books ps s' p
Books-stakes ps s s' index p others settled books j ti at =
    let b = books j ti at in
    record {
      low = b.low;
      high = b.high;
      held = b.held;
      covered = rw (total_same _ _ ps same) b.covered;
    }
  where
    same :
        (i : ℕ)
        → due ti.reward_accum (s' i) (entry p.amount i j)
          ≡ due ti.reward_accum (s i) (entry p.amount i j)
    same i = elim (Bool-cases (i == index)) [
      | inl e ↦
          let h : i ≡ index = ground (arith, e) in
          let even : (entry p.amount i j).reward_accum ≡ ti.reward_accum = rw h (settled j ti at) in
          rw even
            (grind (int_laws, mul-same ti.reward_accum (s' i), mul-same ti.reward_accum (s i)))
      | inr e ↦ rw (others i (λ h. ground (arith, e, h))) refl
    ]

-- An amount, which may be negative, is booked in token `j` for a role.
module _ (ps : List ℕ) (s : ℕ → ℤ) (index j : ℕ) (x : ℤ) (ti e : RewardInfo) (p : PledgeMgr)
    (once : Once index ps) (known : lookup j p.t_info ≡ some ti)
    (found : entry p.amount index j ≡ e) (enough : pos 0 ≤ℤ e.last_reward +ℤ x)
    (books : Books ps s p) where
  abbrev pub booked : RewardInfo → RewardInfo
  booked r = record r { last_reward = r.last_reward +ℤ x }

  abbrev pub book : PledgeMgr
  book = record p {
    t_info = insert j (booked ti) p.t_info;
    amount = insert (key index j) (booked e) p.amount;
  }

  entry_now :
      (i : ℕ) → entry book.amount i j ≡ (if index == i then booked e else entry p.amount i j)
  entry_now i = entry-insert index j i j (booked e) p.amount ∙ ground arith

  entry_other : (i k : ℕ) → j ≢ k → entry book.amount i k ≡ entry p.amount i k
  entry_other i k n = entry-insert index j i k (booked e) p.amount ∙ ground (arith, n)

  here : (i : ℕ) → (index == i) ≡ true → entry p.amount i j ≡ e
  here i h =
      let same : index ≡ i = ground (arith, h) in subst (λ k. entry p.amount k j ≡ e) same found

  abbrev after : ℕ → ℤ
  after i = due ti.reward_accum (s i) (entry book.amount i j)

  abbrev before : ℕ → ℤ
  before i = due ti.reward_accum (s i) (entry p.amount i j)

  unchanged : (k : ℕ) → k ≢ index → after k ≡ before k
  unchanged k n = ap (due ti.reward_accum (s k)) (entry_now k ∙ ground (arith, n))

  changed : after index -ℤ before index ≡ x
  changed =
      let now : entry book.amount index j ≡ booked e = entry_now index ∙ ground arith in
      rw (now, found) (grind int_laws)

  Covers-now : Covers ps s book.amount j (booked ti)
  Covers-now =
      let b = books j ti known in
      record {
        low = λ i. elim (Bool-cases (index == i)) [
          | inl h ↦ rw (entry_now i, h) (subst (λ r. pos 0 ≤ℤ r.reward_accum) (here i h) (b.low i))
          | inr h ↦ rw (entry_now i, h) (b.low i)
        ];
        high = λ i. elim (Bool-cases (index == i)) [
          | inl h ↦
              rw (entry_now i, h)
                (subst (λ (r : RewardInfo). r.reward_accum ≤ℤ ti.reward_accum) (here i h)
                  (b.high i))
          | inr h ↦ rw (entry_now i, h) (b.high i)
        ];
        held = λ i. elim (Bool-cases (index == i)) [
          | inl h ↦ rw (entry_now i, h) enough
          | inr h ↦ rw (entry_now i, h) (b.held i)
        ];
        covered =
            grind (int_laws, b.covered, total-change after before index ps unchanged once, changed);
      }

  pub Books-book : Books ps s book
  Books-book k tk at = elim (Bool-cases (j == k)) [
    | inl h ↦
        let same : j ≡ k = ground (arith, h) in
        let price : some (booked ti) ≡ some tk = cc (
          lookup-insert j k (booked ti) p.t_info,
          at,
          ap (λ (b : Bool). if b then some (booked ti) else lookup k p.t_info) h,
        ) in
        let price' : booked ti ≡ tk = cc price in
        subst (λ r. Covers ps s book.amount k r) price'
          (subst (λ n. Covers ps s book.amount n (booked ti)) same Covers-now)
    | inr h ↦
        let n : j ≢ k = λ q. ground (arith, h, q) in
        let same : lookup k p.t_info ≡ some tk = cc (
          lookup-insert j k (booked ti) p.t_info,
          at,
          ap (λ (b : Bool). if b then some (booked ti) else lookup k p.t_info) h,
        ) in
        Covers-same ps s p.amount book.amount k tk (λ i. entry_other i k n) (books k tk same)
  ]
