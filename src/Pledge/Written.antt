-- ===== src/Pledge/Written.antt =====
-- What `Pledge` and `Withdraw` book (server/contract/pledge.go, lines 204 to 209 and 304 to 322).
use mefs_go_settlement.Base.{
  ℕ, ◌==◌, ◌≡◌, ◌≢◌, sym, ap, subst, ◌∙◌, arith, if◌then◌else◌, Bool, ◌&&◌, List, get_elem?, none,
  some, ℤ, pos, ◌+ℤ◌, ◌≤ℤ◌, nat_eq, lookup, lookup-insert, ◌⊎◌, inl, inr, Bool-cases,
}
use mefs_go_settlement.Utils.Key.{Address}
use mefs_go_settlement.Keys.{multi_key_eq}
use mefs_go_settlement.Pledge.{RewardInfo, PledgeMgr}
use mefs_go_settlement.Pledge.Shares.{entry, Once}
use mefs_go_settlement.Pledge.Ledger.{entry-insert}
use mefs_go_settlement.Pledge.Bookings.{Books-book, book}
use mefs_go_settlement.Pledge.Rewards.{Kept}

module _ (ps : List ℕ) (ts : List Address) (s : ℕ → ℤ) (index : ℕ) (t : ℤ) (Fixed : Type 0)
    (Done : ℕ → Type 0) where
  -- An amount is booked for the role in one token.
  module _ (b b' : Address → ℤ) (p : PledgeMgr) (j : ℕ) (x : ℤ) (ti e : RewardInfo)
      (once : Once index ps) (known : lookup j p.t_info ≡ some ti)
      (found : entry p.amount index j ≡ e) (enough : pos 0 ≤ℤ e.last_reward +ℤ x)
      (moves : Fixed → j ≢ 0)
      (here : (a : Address) → get_elem? ts j ≡ some a → ti.last_reward +ℤ x ≤ℤ b' a)
      (others : (k : ℕ) (tk : RewardInfo) (a : Address)
        → j ≢ k
        → lookup k p.t_info ≡ some tk
        → get_elem? ts k ≡ some a
        → tk.last_reward ≤ℤ b' a)
      (h : Kept ps ts s index t Fixed Done b p) where
    abbrev after : PledgeMgr
    after = book ps s index j x ti e p once known found enough h.books

    abbrev now : RewardInfo
    now = record ti { last_reward = ti.last_reward +ℤ x }

    entry_now :
        (i k : ℕ)
        → entry after.amount i k ≡ (
            if index == i && j == k
            then record e { last_reward = e.last_reward +ℤ x }
            else entry p.amount i k)
    entry_now i k = entry-insert index j i k _ p.amount

    accum_now :
        (k : ℕ) → (entry after.amount index k).reward_accum ≡ (entry p.amount index k).reward_accum
    accum_now k = elim (Bool-cases (j == k)) [
      | inl q ↦
          let same : j ≡ k = ground (arith, q) in
          rw (entry_now index k) (
            subst
              (λ i.
                (if index == index && j == i
                  then record e { last_reward = e.last_reward +ℤ x }
                  else entry p.amount index i).reward_accum
                ≡ (entry p.amount index i).reward_accum)
              same (rw found (ground arith)))
      | inr q ↦
          let same : entry after.amount index k ≡ entry p.amount index k =
            entry_now index k ∙ ground (arith, q) in
          ap (λ (r : RewardInfo). r.reward_accum) same
    ]

    priced :
        (k : ℕ) (tk : RewardInfo)
        → lookup k after.t_info ≡ some tk
        → ((j ≡ k) × (now ≡ tk)) ⊎ ((j ≢ k) × (lookup k p.t_info ≡ some tk))
    priced k tk at =
        let written : lookup k after.t_info ≡ (if j == k then some now else lookup k p.t_info) =
          lookup-insert j k now p.t_info in
        elim (Bool-cases (j == k)) [
          | inl q ↦
              let same : some now ≡ some tk =
                cc (written, at, ap (λ (c : Bool). if c then some now else lookup k p.t_info) q) in
              inl (ground (arith, q), cc same)
          | inr q ↦
              let same : lookup k p.t_info ≡ some tk =
                cc (written, at, ap (λ (c : Bool). if c then some now else lookup k p.t_info) q) in
              inr (λ z. ground (arith, q, z), same)
        ]

    pub book-Kept : Kept ps ts s index t Fixed Done b' after
    book-Kept = record {
      tokens = h.tokens;
      sum = h.sum;
      books = Books-book ps s index j x ti e p once known found enough h.books;
      others = λ k n.
          let same : entry after.amount k 0 ≡ entry p.amount k 0 =
            entry_now k 0 ∙ ground (arith, n) in
          ap (λ (r : RewardInfo). r.last_reward) same ∙ h.others k n;
      fixed = λ f.
          let same : entry after.amount index 0 ≡ entry p.amount index 0 =
            entry_now index 0 ∙ ground (arith, moves f) in
          ap (λ (r : RewardInfo). r.last_reward) same ∙ h.fixed f;
      low = elim (Bool-cases (j == 0)) [
        | inl q ↦
            let first : j ≡ 0 = ground (arith, q) in
            let same : entry after.amount index j ≡ record e { last_reward = e.last_reward +ℤ x } =
              entry_now index j ∙ ground arith in
            subst (λ k. pos 0 ≤ℤ (entry after.amount index k).last_reward) first
              (subst (λ (r : RewardInfo). pos 0 ≤ℤ r.last_reward) (sym same) enough)
        | inr q ↦
            let same : entry after.amount index 0 ≡ entry p.amount index 0 =
              entry_now index 0 ∙ ground (arith, q) in
            subst (λ (r : RewardInfo). pos 0 ≤ℤ r.last_reward) (sym same) h.low
      ];
      settled = λ k tk at d. elim (priced k tk at) [
        | inl (q, same) ↦ rw (accum_now k) (
            subst (λ i. (entry p.amount index i).reward_accum ≡ tk.reward_accum) q
              (h.settled j ti known (subst Done (sym q) d)
                ∙ ap (λ (r : RewardInfo). r.reward_accum) same))
        | inr (n, old) ↦ rw (accum_now k) (h.settled k tk old d)
      ];
      listed = λ k tk at. elim (priced k tk at) [
        | inl (q, same) ↦ subst (λ i. get_elem? ts i ≢ none) q (h.listed j ti known)
        | inr (n, old) ↦ h.listed k tk old
      ];
      backed = λ k tk a at is. elim (priced k tk at) [
        | inl (q, same) ↦
            subst (λ (r : RewardInfo). r.last_reward ≤ℤ b' a) same
              (here a (ap (get_elem? ts) q ∙ is))
        | inr (n, old) ↦ others k tk a n old is
      ];
    }
