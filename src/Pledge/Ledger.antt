-- ===== src/Pledge/Ledger.antt =====
-- The settlement of rewards in the pool's own books (server/contract/pledge.go, lines 166 to 197 and
-- 249 to 283).
use mefs_go_settlement.Base.{
  ℕ, ◌==◌, ◌≡◌, ◌≢◌, refl, ap, subst, ◌∙◌, arith, if◌then◌else◌, Bool, ◌&&◌, List, some,
  Option-cases, Dict, ℤ, pos, ◌+ℤ◌, ◌-ℤ◌, ◌*ℤ◌, ◌≤ℤ◌, int_laws, nat_eq, lookup, insert,
  lookup-insert, inl, inr, Bool-cases,
}
use mefs_go_settlement.Base.Product.{ -ℤ-mul, mul_nonneg, mul-same}
use mefs_go_settlement.Keys.{MultiKey, key, multi_key_eq}
use mefs_go_settlement.Pledge.{RewardInfo, PledgeMgr}
use mefs_go_settlement.Pledge.Calls.{accum_at, or_fresh, settle}
use mefs_go_settlement.Pledge.Shares.{
  entry, due, total, total_mono, total_same, accum_lem, total_later,
}

-- The books of token `j`, when unit prices are `ti` and each role `i` has `s i` in the pool: no record
-- is ahead of the rate or negative, and what is due to the roles `ps` is there.
pub record Covers (ps : List ℕ) (s : ℕ → ℤ) (d : Dict MultiKey RewardInfo) (j : ℕ) (ti : RewardInfo)
    : Type 0 where
  pub low : (i : ℕ) → pos 0 ≤ℤ (entry d i j).reward_accum
  pub high : (i : ℕ) → (entry d i j).reward_accum ≤ℤ ti.reward_accum
  pub held : (i : ℕ) → pos 0 ≤ℤ (entry d i j).last_reward
  pub covered : total (λ i. due ti.reward_accum (s i) (entry d i j)) ps ≤ℤ ti.last_reward

-- The books of every token.
abbrev pub Books : (ps : List ℕ) (s : ℕ → ℤ) → PledgeMgr → Type 0
Books ps s p = (j : ℕ) (ti : RewardInfo) → lookup j p.t_info ≡ some ti → Covers ps s p.amount j ti

-- The record of a role in a token after a write.
pub entry-insert :
    (a b i k : ℕ) (e : RewardInfo) (d : Dict MultiKey RewardInfo)
    → entry (insert (key a b) e d) i k ≡ (if a == i && b == k then e else entry d i k)
entry-insert a b i k e d = rw (lookup-insert (key a b) (key i k) e d) (ground arith)

pub entry-settle :
    (index j : ℕ) (bal amount t : ℤ) (ti fresh : RewardInfo) (p : PledgeMgr) (i k : ℕ)
    → let accum = accum_at bal t ti in
      let rew = or_fresh fresh (lookup (key index j) p.amount) in
      entry (settle index j bal amount t ti fresh p).amount i k ≡ (
        if index == i && j == k
        then record {
          reward_accum = accum;
          last_reward = rew.last_reward +ℤ (accum -ℤ rew.reward_accum) *ℤ amount;
        }
        else entry p.amount i k)
unfolding settle
entry-settle index j bal amount t ti fresh p i k = entry-insert index j i k _ p.amount

pub t_info-settle :
    (index j : ℕ) (bal amount t : ℤ) (ti fresh : RewardInfo) (p : PledgeMgr) (k : ℕ)
    → lookup k (settle index j bal amount t ti fresh p).t_info ≡ (
        if j == k
        then some (record { reward_accum = accum_at bal t ti; last_reward = bal })
        else lookup k p.t_info)
unfolding settle
t_info-settle index j bal amount t ti fresh p k = lookup-insert j k _ p.t_info

-- The books of a token whose records are the same, and its price.
pub Covers-same :
    (ps : List ℕ) (s : ℕ → ℤ) (p q : Dict MultiKey RewardInfo) (j : ℕ) (ti : RewardInfo)
    → ((i : ℕ) → entry q i j ≡ entry p i j)
    → Covers ps s p j ti
    → Covers ps s q j ti
Covers-same ps s p q j ti same b = record {
  low = λ i. rw (same i) (b.low i);
  high = λ i. rw (same i) (b.high i);
  held = λ i. rw (same i) (b.held i);
  covered =
      rw
        (total_same (λ i. due ti.reward_accum (s i) (entry q i j))
          (λ i. due ti.reward_accum (s i) (entry p i j)) ps
          (λ i. ap (due ti.reward_accum (s i)) (same i)))
        b.covered;
}

-- A settlement of token `j` for a role, with the amount that the role has in the pool.
module _ (ps : List ℕ) (s : ℕ → ℤ) (index j : ℕ) (bal t : ℤ) (ti fresh : RewardInfo) (p : PledgeMgr)
    (nonneg : (i : ℕ) → pos 0 ≤ℤ s i) (whole : total s ps ≡ t) (known : lookup j p.t_info ≡ some ti)
    (more : ti.last_reward ≤ℤ bal) (fresh_low : pos 0 ≤ℤ fresh.reward_accum)
    (fresh_high : fresh.reward_accum ≤ℤ ti.reward_accum) (fresh_empty : fresh.last_reward ≡ pos 0)
    (books : Books ps s p) where
  abbrev after : PledgeMgr
  after = settle index j bal (s index) t ti fresh p

  abbrev now : RewardInfo
  now = record { reward_accum = accum_at bal t ti; last_reward = bal }

  abbrev settled : RewardInfo → RewardInfo
  settled rew = record {
    reward_accum = accum_at bal t ti;
    last_reward = rew.last_reward +ℤ (accum_at bal t ti -ℤ rew.reward_accum) *ℤ s index;
  }

  abbrev rew : RewardInfo
  rew = or_fresh fresh (lookup (key index j) p.amount)

  -- The record that is settled is no worse for the pool than that of the role.
  rew_lem :
      (pos 0 ≤ℤ rew.reward_accum)
      × (rew.reward_accum ≤ℤ ti.reward_accum)
      × (pos 0 ≤ℤ rew.last_reward)
      × (rew.last_reward ≡ (entry p.amount index j).last_reward)
      × ((entry p.amount index j).reward_accum ≤ℤ rew.reward_accum)
  rew_lem =
      let b = books j ti known in
      elim (Option-cases (lookup (key index j) p.amount)) [
        | inl e ↦ rw e (fresh_low, fresh_high, ground (arith, fresh_empty), fresh_empty, fresh_low)
        | inr (r, e) ↦ rw e (
          ground (arith, b.low index, e),
          ground (arith, b.high index, e),
          ground (arith, b.held index, e),
          refl,
          ground arith,
        )
      ]

  -- It gets what is due, and no more.
  settled_due :
      (settled rew).last_reward ≤ℤ due (accum_at bal t ti) (s index) (entry p.amount index j)
  settled_due =
      let l = rew_lem in
      let e = entry p.amount index j in
      let accum = accum_at bal t ti in
      grind (
        int_laws,
        l.3,
        l.4,
        mul_nonneg (rew.reward_accum -ℤ e.reward_accum) (s index) (grind (int_laws, l.4))
            (nonneg index),
        -ℤ-mul rew.reward_accum e.reward_accum (s index),
        -ℤ-mul accum rew.reward_accum (s index),
        -ℤ-mul accum e.reward_accum (s index),
      )

  -- The record of each role in the token, afterwards.
  entry_now :
      (i : ℕ) → entry after.amount i j ≡ (if index == i then settled rew else entry p.amount i j)
  entry_now i = entry-settle index j bal (s index) t ti fresh p i j ∙ ground arith

  due_now :
      (i : ℕ)
      → due (accum_at bal t ti) (s i) (entry after.amount i j)
        ≤ℤ due (accum_at bal t ti) (s i) (entry p.amount i j)
  due_now i = elim (Bool-cases (index == i)) [
    | inl e ↦
        let same : index ≡ i = ground (arith, e) in
        rw (entry_now i, e)
          (grind (
            int_laws,
            subst
                (λ k.
                  (settled rew).last_reward ≤ℤ due (accum_at bal t ti) (s k) (entry p.amount k j))
                same settled_due,
            mul-same (accum_at bal t ti) (s i),
          ))
    | inr e ↦ rw (entry_now i, e) (omega arith)
  ]

  earned_nonneg : pos 0 ≤ℤ (accum_at bal t ti -ℤ rew.reward_accum) *ℤ s index
  earned_nonneg =
      mul_nonneg _ _ (grind (int_laws, rew_lem.1, (accum_lem bal t ti more).0)) (nonneg index)

  Covers-now : Covers ps s after.amount j now
  Covers-now =
      let b = books j ti known in
      let l = rew_lem in
      let rate = accum_lem bal t ti more in
      record {
        low = λ i. elim (Bool-cases (index == i)) [
          | inl e ↦ rw (entry_now i, e) (grind (int_laws, l.0, l.1, rate.0))
          | inr e ↦ rw (entry_now i, e) (b.low i)
        ];
        high = λ i. elim (Bool-cases (index == i)) [
          | inl e ↦ rw (entry_now i, e) (omega arith)
          | inr e ↦ rw (entry_now i, e) (grind (int_laws, b.high i, rate.0))
        ];
        held = λ i. elim (Bool-cases (index == i)) [
          | inl e ↦ rw (entry_now i, e) (grind (int_laws, l.2, earned_nonneg))
          | inr e ↦ rw (entry_now i, e) (b.held i)
        ];
        covered = grind (
          int_laws,
          total_mono (λ i. due (accum_at bal t ti) (s i) (entry after.amount i j))
              (λ i. due (accum_at bal t ti) (s i) (entry p.amount i j)) ps due_now,
          total_later ti.reward_accum (accum_at bal t ti) s (λ i. entry p.amount i j) ps,
          b.covered,
          rate.1,
          whole,
        );
      }

  entry_other : (i k : ℕ) → j ≢ k → entry after.amount i k ≡ entry p.amount i k
  entry_other i k n = entry-settle index j bal (s index) t ti fresh p i k ∙ ground (arith, n)

  pub Books-settle : Books ps s after
  Books-settle k tk at = elim (Bool-cases (j == k)) [
    | inl e ↦
        let same : j ≡ k = ground (arith, e) in
        let found : some now ≡ some tk = cc (
          t_info-settle index j bal (s index) t ti fresh p k,
          at,
          ap (λ (b : Bool). if b then some now else lookup k p.t_info) e,
        ) in
        let price : now ≡ tk = cc found in
        subst (λ x. Covers ps s after.amount k x) price
          (subst (λ x. Covers ps s after.amount x now) same Covers-now)
    | inr e ↦
        let n : j ≢ k = λ h. ground (arith, e, h) in
        let found : lookup k p.t_info ≡ some tk = cc (
          t_info-settle index j bal (s index) t ti fresh p k,
          at,
          ap (λ (b : Bool). if b then some now else lookup k p.t_info) e,
        ) in
        Covers-same ps s p.amount after.amount k tk (λ i. entry_other i k n) (books k tk found)
  ]
