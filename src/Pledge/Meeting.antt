-- ===== src/Pledge/Meeting.antt =====
-- The first lines of `Pledge`, where a role that has no record of its pledge gets one
-- (server/contract/pledge.go, lines 154 to 161).
use mefs_go_settlement.Base.{
  ℕ, ◌==◌, ◌≡◌, refl, sym, ap, subst, ◌∙◌, arith, if◌then◌else◌, ◌&&◌, List, none, some,
  Option-cases, ℤ, pos, ◌-ℤ◌, ◌≤ℤ◌, int_laws, nat_eq, lookup, insert, inl, inr, Bool-cases,
}
use mefs_go_settlement.Base.Product.{mul-zero}
use mefs_go_settlement.Utils.Key.{Address}
use mefs_go_settlement.Keys.{key, multi_key_eq}
use mefs_go_settlement.Pledge.{RewardInfo, PledgeMgr, no_reward}
use mefs_go_settlement.Pledge.Calls.{meet_pledger}
use mefs_go_settlement.Pledge.Shares.{entry, stake, due, total_same}
use mefs_go_settlement.Pledge.Ledger.{Covers, Covers-same, entry-insert}
use mefs_go_settlement.Pledge.Rewards.{Kept}

module _ (ps : List ℕ) (ts : List Address) (s : ℕ → ℤ) (index : ℕ) (t : ℤ) (Fixed : Type 0)
    (Done : ℕ → Type 0) where
  -- A role that has no record of its pledge gets one.
  module _ (b : Address → ℤ) (p : PledgeMgr) (t0 : RewardInfo) (fixed : Fixed)
      (nothing : (j : ℕ) → ¬ Done j) (known : lookup 0 p.t_info ≡ some t0)
      (missing : lookup (key index 0) p.amount ≡ none)
      (h : Kept ps ts s index t Fixed Done b p) where
    abbrev met : PledgeMgr
    met = record p {
      amount =
          insert (key index 0) (record { reward_accum = t0.reward_accum; last_reward = pos 0 })
            p.amount;
    }

    no_entry : entry p.amount index 0 ≡ no_reward
    no_entry = rw missing refl

    no_stake : s index ≡ pos 0
    no_stake = sym (h.fixed fixed) ∙ ap (λ (r : RewardInfo). r.last_reward) no_entry

    entry_met :
        (i k : ℕ)
        → entry met.amount i k ≡ (
            if index == i && 0 == k
            then record { reward_accum = t0.reward_accum; last_reward = pos 0 }
            else entry p.amount i k)
    entry_met i k = entry-insert index 0 i k _ p.amount

    stake_met : (i : ℕ) → stake met.amount i ≡ stake p.amount i
    stake_met i = elim (Bool-cases (index == i)) [
      | inl e ↦
          let same : index ≡ i = ground (arith, e) in
          let now : entry met.amount i 0
              ≡ record { reward_accum = t0.reward_accum; last_reward = pos 0 } =
            entry_met i 0 ∙ ground (arith, e) in
          let before : entry p.amount i 0 ≡ no_reward =
            subst (λ k. entry p.amount k 0 ≡ no_reward) same no_entry in
          ap (λ (r : RewardInfo). r.last_reward) now
          ∙ sym (ap (λ (r : RewardInfo). r.last_reward) before)
      | inr e ↦
          let now : entry met.amount i 0 ≡ entry p.amount i 0 = entry_met i 0 ∙ ground (arith, e) in
          ap (λ (r : RewardInfo). r.last_reward) now
    ]

    Covers-met : Covers ps s met.amount 0 t0
    Covers-met =
        let c = h.books 0 t0 known in
        record {
          low = λ i. elim (Bool-cases (index == i)) [
            | inl e ↦ rw (entry_met i 0, e) (grind (int_laws, c.low i, c.high i))
            | inr e ↦ rw (entry_met i 0, e) (c.low i)
          ];
          high = λ i. elim (Bool-cases (index == i)) [
            | inl e ↦ rw (entry_met i 0, e) (omega arith)
            | inr e ↦ rw (entry_met i 0, e) (c.high i)
          ];
          held = λ i. rw (stake_met i) (c.held i);
          covered =
              rw
                (total_same (λ i. due t0.reward_accum (s i) (entry met.amount i 0))
                  (λ i. due t0.reward_accum (s i) (entry p.amount i 0)) ps same)
                c.covered;
        }
      where
        same :
            (i : ℕ)
            → due t0.reward_accum (s i) (entry met.amount i 0)
              ≡ due t0.reward_accum (s i) (entry p.amount i 0)
        same i = elim (Bool-cases (index == i)) [
          | inl e ↦
              let at : index ≡ i = ground (arith, e) in
              let none_at : s i ≡ pos 0 = subst (λ k. s k ≡ pos 0) at no_stake in
              let here : (entry p.amount i 0).last_reward ≡ pos 0 =
                subst (λ k. stake p.amount k ≡ pos 0) at
                  (ap (λ (r : RewardInfo). r.last_reward) no_entry) in
              rw (entry_met i 0, e, none_at, here)
                (grind (
                  int_laws,
                  mul-zero (t0.reward_accum -ℤ t0.reward_accum),
                  mul-zero (t0.reward_accum -ℤ (entry p.amount i 0).reward_accum),
                ))
          | inr e ↦ rw (entry_met i 0, e) refl
        ]

    met-Kept : Kept ps ts s index t Fixed Done b met
    met-Kept = record {
      tokens = h.tokens;
      sum = h.sum;
      books = λ j ti at. elim (Bool-cases (0 == j)) [
        | inl e ↦
            let same : 0 ≡ j = ground (arith, e) in
            let price : some t0 ≡ some ti = cc (known, at, ap (λ k. lookup k p.t_info) same) in
            let price' : t0 ≡ ti = cc price in
            subst (λ k. Covers ps s met.amount k ti) same
              (subst (λ r. Covers ps s met.amount 0 r) price' Covers-met)
        | inr e ↦
            Covers-same ps s p.amount met.amount j ti (λ i. entry_met i j ∙ ground (arith, e))
              (h.books j ti at)
      ];
      others = λ k n. stake_met k ∙ h.others k n;
      fixed = λ f. stake_met index ∙ h.fixed f;
      low = subst (λ x. pos 0 ≤ℤ x) (sym (stake_met index)) h.low;
      settled = λ j ti at d. absurd (nothing j d);
      listed = h.listed;
      backed = h.backed;
    }

  pub meet-Kept :
      (b : Address → ℤ) (p : PledgeMgr) (t0 : RewardInfo)
      → Fixed
      → ((j : ℕ) → ¬ Done j)
      → lookup 0 p.t_info ≡ some t0
      → Kept ps ts s index t Fixed Done b p
      → Kept ps ts s index t Fixed Done b (meet_pledger index t0 p)
  unfolding meet_pledger
  meet-Kept b p t0 fixed nothing known h = elim (Option-cases (lookup (key index 0) p.amount)) [
    | inl e ↦ rw (e, meet_pledger) (met-Kept b p t0 fixed nothing known e h)
    | inr (r, e) ↦ rw (e, meet_pledger) h
  ]
