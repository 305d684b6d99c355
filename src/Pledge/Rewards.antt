-- ===== src/Pledge/Rewards.antt =====
-- The pool while the rewards of a role are settled (server/contract/pledge.go, lines 166 to 197 and 249 to
-- 283).
use mefs_go_settlement.Base.{
  ℕ, ◌==◌, ◌≡◌, ◌≢◌, sym, ap, subst, ◌∙◌, arith, if◌then◌else◌, Bool, List, get_elem?, none, some,
  ℤ, pos, ◌≤ℤ◌, nat_eq, lookup, ◌⊎◌, inl, inr, Bool-cases,
}
use mefs_go_settlement.Utils.Key.{Address}
use mefs_go_settlement.Pledge.{RewardInfo, PledgeMgr}
use mefs_go_settlement.Pledge.Calls.{accum_at, settle}
use mefs_go_settlement.Pledge.Shares.{entry, stake, total}
use mefs_go_settlement.Pledge.Ledger.{Books, Books-settle, entry-settle, t_info-settle}

-- The pool while the role `index` is settled. `s` is what each role had in the pool before, `Done` says
-- of which tokens the role has been settled in, `Fixed` when what it has in the pool is still the same,
-- and the pool holds what its books say it does.
pub record Kept (ps : List ℕ) (ts : List Address) (s : ℕ → ℤ) (index : ℕ) (t : ℤ) (Fixed : Type 0)
    (Done : ℕ → Type 0) (b : Address → ℤ) (p : PledgeMgr) : Type 0 where
  pub tokens : p.tokens ≡ ts
  pub sum : p.total_pledge ≡ t
  pub books : Books ps s p
  pub others : (k : ℕ) → k ≢ index → stake p.amount k ≡ s k
  pub fixed : Fixed → stake p.amount index ≡ s index
  pub low : pos 0 ≤ℤ stake p.amount index
  pub settled :
      (j : ℕ) (ti : RewardInfo)
      → lookup j p.t_info ≡ some ti
      → Done j
      → (entry p.amount index j).reward_accum ≡ ti.reward_accum
  pub listed : (j : ℕ) (ti : RewardInfo) → lookup j p.t_info ≡ some ti → get_elem? ts j ≢ none
  pub backed :
      (j : ℕ) (ti : RewardInfo) (a : Address)
      → lookup j p.t_info ≡ some ti
      → get_elem? ts j ≡ some a
      → ti.last_reward ≤ℤ b a

module _ (ps : List ℕ) (ts : List Address) (s : ℕ → ℤ) (index : ℕ) (t : ℤ) (Fixed : Type 0)
    (nonneg : (i : ℕ) → pos 0 ≤ℤ s i) (whole : total s ps ≡ t) where
  module _ (Done Done' : ℕ → Type 0) (b : Address → ℤ) (p : PledgeMgr) (j : ℕ) (taddr : Address)
      (ti fresh : RewardInfo) (step : (k : ℕ) → Done' k → j ≢ k → Done k) (moves : Fixed → j ≢ 0)
      (at : get_elem? ts j ≡ some taddr) (known : lookup j p.t_info ≡ some ti)
      (low : pos 0 ≤ℤ fresh.reward_accum) (high : fresh.reward_accum ≤ℤ ti.reward_accum)
      (empty : fresh.last_reward ≡ pos 0) (h : Kept ps ts s index t Fixed Done b p) where
    abbrev after : PledgeMgr
    after = settle index j (b taddr) (s index) t ti fresh p

    abbrev now : RewardInfo
    now = record { reward_accum = accum_at (b taddr) t ti; last_reward = b taddr }

    -- A token whose price is known afterwards is the one that was settled, or was known before.
    priced :
        (k : ℕ) (tk : RewardInfo)
        → lookup k after.t_info ≡ some tk
        → ((j ≡ k) × (now ≡ tk)) ⊎ ((j ≢ k) × (lookup k p.t_info ≡ some tk))
    priced k tk e =
        let written = t_info-settle index j (b taddr) (s index) t ti fresh p k in
        elim (Bool-cases (j == k)) [
          | inl q ↦
              let same : some now ≡ some tk =
                cc (written, e, ap (λ (c : Bool). if c then some now else lookup k p.t_info) q) in
              inl (ground (arith, q), cc same)
          | inr q ↦
              let same : lookup k p.t_info ≡ some tk =
                cc (written, e, ap (λ (c : Bool). if c then some now else lookup k p.t_info) q) in
              inr (λ z. ground (arith, q, z), same)
        ]

    books_after : Books ps s after
    books_after =
        Books-settle ps s index j (b taddr) t ti fresh p nonneg whole known
          (h.backed j ti taddr known at) low high empty h.books

    low_after : pos 0 ≤ℤ stake after.amount index
    low_after = elim (Bool-cases (j == 0)) [
      | inl q ↦
          let first : j ≡ 0 = ground (arith, q) in
          let price : lookup j after.t_info ≡ some now =
            t_info-settle index j (b taddr) (s index) t ti fresh p j ∙ ground arith in
          subst (λ k. pos 0 ≤ℤ (entry after.amount index k).last_reward) first
            ((books_after j now price).held index)
      | inr q ↦
          let same : entry after.amount index 0 ≡ entry p.amount index 0 =
            entry-settle index j (b taddr) (s index) t ti fresh p index 0 ∙ ground (arith, q) in
          subst (λ (r : RewardInfo). pos 0 ≤ℤ r.last_reward) (sym same) h.low
    ]

    pub settle-Kept : Kept ps ts s index t Fixed Done' b after
    settle-Kept = record {
      tokens = unfold settle in h.tokens;
      sum = unfold settle in h.sum;
      books = books_after;
      low = low_after;
      others = λ k n.
          let same : entry after.amount k 0 ≡ entry p.amount k 0 =
            entry-settle index j (b taddr) (s index) t ti fresh p k 0 ∙ ground (arith, n) in
          ap (λ (r : RewardInfo). r.last_reward) same ∙ h.others k n;
      fixed = λ f.
          let same : entry after.amount index 0 ≡ entry p.amount index 0 =
            entry-settle index j (b taddr) (s index) t ti fresh p index 0
            ∙ ground (arith, moves f) in
          ap (λ (r : RewardInfo). r.last_reward) same ∙ h.fixed f;
      settled = λ k tk e d. elim (priced k tk e) [
        | inl (q, same) ↦
            let here : (entry after.amount index k).reward_accum ≡ now.reward_accum =
              rw (entry-settle index j (b taddr) (s index) t ti fresh p index k)
                (ground (arith, q)) in
            here ∙ ap (λ (r : RewardInfo). r.reward_accum) same
        | inr (n, old) ↦
            let same : entry after.amount index k ≡ entry p.amount index k =
              entry-settle index j (b taddr) (s index) t ti fresh p index k ∙ ground (arith, n) in
            ap (λ (r : RewardInfo). r.reward_accum) same ∙ h.settled k tk old (step k d n)
      ];
      listed = λ k tk e. elim (priced k tk e) [
        | inl (q, same) ↦ subst (λ x. get_elem? ts x ≢ none) q (h.listed j ti known)
        | inr (n, old) ↦ h.listed k tk old
      ];
      backed = λ k tk a e found. elim (priced k tk e) [
        | inl (q, same) ↦
            let found' : some taddr ≡ some a = cc (at, found, ap (get_elem? ts) q) in
            let here : taddr ≡ a = cc found' in
            subst (λ (r : RewardInfo). r.last_reward ≤ℤ b a) same
              (subst (λ x. b taddr ≤ℤ b x) here (omega arith))
        | inr (n, old) ↦ h.backed k tk a old found
      ];
    }
