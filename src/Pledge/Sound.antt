-- ===== src/Pledge/Sound.antt =====
-- When the books of the pool are sound (server/contract/pledge.go), and how a call starts from there and
-- ends there.
use mefs_go_settlement.Base.{
  ℕ, ◌==◌, ◌≡◌, ◌≢◌, sym, ap, subst, arith, List, get_elem?, none, some, ℤ, pos, ◌+ℤ◌, ◌-ℤ◌, ◌≤ℤ◌,
  int_laws, nat_eq, lookup, ◌⊎◌, inl, inr, Bool-cases,
}
use mefs_go_settlement.Utils.Key.{Address}
use mefs_go_settlement.Keys.{multi_key_eq}
use mefs_go_settlement.Pledge.{RewardInfo, PledgeMgr}
use mefs_go_settlement.Pledge.Shares.{entry, stake, due, total, total_same, total-change, Once}
use mefs_go_settlement.Pledge.Ledger.{Books}
use mefs_go_settlement.Pledge.Bookings.{Settled, Books-stakes}
use mefs_go_settlement.Pledge.Rewards.{Kept}

-- The total is what the roles `ps` have in the pool, which is nothing negative. In each of the tokens
-- `ts`, what is due to them is covered by what is booked for it, and the pool, which has `b`, has that.
pub record Sound (ps : List ℕ) (ts : List Address) (b : Address → ℤ) (p : PledgeMgr) : Type 0 where
  pub tokens : p.tokens ≡ ts
  pub whole : total (stake p.amount) ps ≡ p.total_pledge
  pub nonneg : (i : ℕ) → pos 0 ≤ℤ stake p.amount i
  pub books : Books ps (stake p.amount) p
  pub listed : (j : ℕ) (ti : RewardInfo) → lookup j p.t_info ≡ some ti → get_elem? ts j ≢ none
  pub backed :
      (j : ℕ) (ti : RewardInfo) (a : Address)
      → lookup j p.t_info ≡ some ti
      → get_elem? ts j ≡ some a
      → ti.last_reward ≤ℤ b a

module _ (ps : List ℕ) (ts : List Address) (s : ℕ → ℤ) (index : ℕ) (t : ℤ) (Fixed : Type 0)
    (Done : ℕ → Type 0) where
  -- The start of a call, where no role has been settled.
  pub start :
      (b : Address → ℤ) (p : PledgeMgr)
      → s ≡ stake p.amount
      → t ≡ p.total_pledge
      → ((j : ℕ) → ¬ Done j)
      → Sound ps ts b p
      → Kept ps ts s index t Fixed Done b p
  start b p es et nothing h = record {
    tokens = h.tokens;
    sum = sym et;
    books = subst (λ f. Books ps f p) (sym es) h.books;
    others = λ k n. ap (λ f. f k) (sym es);
    fixed = λ f. ap (λ f. f index) (sym es);
    low = h.nonneg index;
    settled = λ j ti e d. absurd (nothing j d);
    listed = h.listed;
    backed = h.backed;
  }

  -- The end of a call, when the total is written.
  pub finish :
      (b : Address → ℤ) (q : PledgeMgr) (t' : ℤ)
      → Once index ps
      → ((i : ℕ) → pos 0 ≤ℤ s i)
      → total s ps ≡ t
      → t' ≡ t -ℤ s index +ℤ stake q.amount index
      → Settled index q ⊎ (stake q.amount index ≡ s index)
      → Kept ps ts s index t Fixed Done b q
      → Sound ps ts b (record q { total_pledge = t' })
  finish b q t' once nonneg whole et even h = record {
    tokens = h.tokens;
    whole = grind (int_laws, total-change (stake q.amount) s index ps h.others once, whole, et);
    nonneg = λ i. elim (Bool-cases (i == index)) [
      | inl e ↦
          let same : index ≡ i = ground (arith, e) in
          subst (λ k. pos 0 ≤ℤ stake q.amount k) same h.low
      | inr e ↦ rw (h.others i (λ n. ground (arith, e, n))) (nonneg i)
    ];
    books = λ j ti at. elim even [
      | inl settled ↦ Books-stakes ps s (stake q.amount) index q h.others settled h.books j ti at
      | inr same ↦ unmoved same j ti at
    ];
    listed = h.listed;
    backed = h.backed;
  }
    where
      unmoved : stake q.amount index ≡ s index → Books ps (stake q.amount) q
      unmoved same j ti at =
          let c = h.books j ti at in
          record {
            low = c.low;
            high = c.high;
            held = c.held;
            covered =
                rw
                  (total_same (λ i. due ti.reward_accum (stake q.amount i) (entry q.amount i j))
                    (λ i. due ti.reward_accum (s i) (entry q.amount i j)) ps
                    (λ i. ap (λ x. due ti.reward_accum x (entry q.amount i j)) (all i)))
                  c.covered;
          }
        where
          all : (i : ℕ) → stake q.amount i ≡ s i
          all i = elim (Bool-cases (i == index)) [
            | inl e ↦ let here : i ≡ index = ground (arith, e) in rw here same
            | inr e ↦ h.others i (λ n. ground (arith, e, n))
          ]
