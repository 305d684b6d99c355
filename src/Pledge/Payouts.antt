-- ===== src/Pledge/Payouts.antt =====
-- What `Withdraw` pays out and books (server/contract/pledge.go, lines 296 to 317).
use mefs_go_settlement.Base.{
  ℕ, ◌≡◌, ◌≢◌, sym, ap, subst, ◌∙◌, List, get_elem?, some, Option-cases, ℤ, pos, ◌-ℤ◌, ◌≤ℤ◌, ◌<ℤ◌,
  ltb_ℤ, int_laws, nat_eq, lookup, insert, inl, inr, methods,
}
use mefs_go_settlement.Base.Product.{minus}
use mefs_go_settlement.Base.Triple.{
  After, Triple, Triple-then, Triple-or_crash, Triple-if_known, Triple-pure,
}
use mefs_go_settlement.Utils.Key.{Address}
use mefs_go_settlement.Keys.{key, multi_key_eq}
use mefs_go_settlement.Pledge.{RewardInfo, PledgeMgr, no_reward}
use mefs_go_settlement.Pledge.Calls.{payout, pay_out, book_payout, or_fresh}
use mefs_go_settlement.Pledge.Shares.{entry, total, total_part, Once}
use mefs_go_settlement.Pledge.Held.{At, Anything, on_pledge-At, send-At}
use mefs_go_settlement.Pledge.Rewards.{Kept}
use mefs_go_settlement.Pledge.Written.{book-Kept}
use mefs_go_settlement.Pledge.Steps.{from-At}

module _ (self : Address) (ps : List ℕ) (ts : List Address) (s : ℕ → ℤ) (index token : ℕ) (t : ℤ)
    (nonneg : (i : ℕ) → pos 0 ≤ℤ s i) (whole : total s ps ≡ t) (once : Once index ps)
    (distinct : (j k : ℕ) (a : Address)
      → get_elem? ts j ≡ some a
      → get_elem? ts k ≡ some a
      → j ≡ k) where
  -- Rewards are settled in the pledged token only with all others, and only while there is a pledge.
  abbrev Full : Type 0
  Full = (token ≡ 0) × (pos 0 <ℤ t)

  abbrev Opened : (Address → ℤ) → PledgeMgr → Type 0
  Opened = Kept ps ts s index t Unit (λ _. ⊥)

  abbrev Closed : (Address → ℤ) → PledgeMgr → Type 0
  Closed = Kept ps ts s index t (¬ Full) (λ _. Full)

  -- What `Withdraw` pays is there.
  pub payout_lem : (held money lock : ℤ) → pos 0 ≤ℤ lock → payout token held money lock ≤ℤ held
  unfolding payout
  payout_lem held money lock low = grind (int_laws, low)

  -- Money has gone out since.
  record Went (paid : ℤ) (b : Address → ℤ) (p : PledgeMgr) : Type 0 where
    before : Address → ℤ
    kept : Closed before p
    others : (k : ℕ) (a : Address) → token ≢ k → get_elem? ts k ≡ some a → before a ≤ℤ b a
    in_hand : (a : Address) → get_elem? ts token ≡ some a → before a -ℤ paid ≤ℤ b a

  went :
      (paid : ℤ) (taddr : Address) (b b' : Address → ℤ) (p : PledgeMgr)
      → get_elem? ts token ≡ some taddr
      → Closed b p
      → ((a : Address) → a ≢ taddr → b' a ≡ b a)
      → b taddr -ℤ paid ≤ℤ b' taddr
      → Went paid b' p
  went paid taddr b b' p at h same moved = record {
    before = b;
    kept = h;
    others = λ k a n is. rw_same (same a (λ z. n (distinct token k a (at ∙ ap some (sym z)) is)));
    in_hand = λ a e.
        let both : some taddr ≡ some a = sym at ∙ e in
        let here : taddr ≡ a = cc both in subst (λ x. b x -ℤ paid ≤ℤ b' x) here moved;
  }
    where
      rw_same : {x y : ℤ} → y ≡ x → x ≤ℤ y
      rw_same e = grind (int_laws, e)

  -- It is booked.
  module _ (paid : ℤ) (b : Address → ℤ) (p : PledgeMgr) (ti pi : RewardInfo)
      (some_money : pos 0 <ℤ paid) (h : Went paid b p)
      (enough : paid ≤ℤ (entry p.amount index token).last_reward)
      (known : lookup token p.t_info ≡ some ti)
      (found : lookup (key index token) p.amount ≡ some pi) where
    found' : entry p.amount index token ≡ pi
    found' = ap (λ o. or_fresh no_reward o) found

    -- A role that has nothing is paid nothing of the pledged token.
    moves : ¬ Full → token ≢ 0
    moves never z = never (
      z,
      grind (
        int_laws,
        some_money,
        enough,
        subst (λ k. (entry p.amount index k).last_reward ≡ s index) (sym z) (h.kept.fixed never),
        total_part s index ps nonneg once,
        whole,
      ),
    )

    booked_payout : PledgeMgr
    booked_payout = record p {
      t_info = insert token (record ti { last_reward = ti.last_reward -ℤ paid }) p.t_info;
      amount =
          insert (key index token) (record pi { last_reward = pi.last_reward -ℤ paid }) p.amount;
    }

    left : pos 0 ≤ℤ pi.last_reward -ℤ paid
    left = grind (int_laws, ap (λ (r : RewardInfo). r.last_reward) found', enough)

    booked-Closed : Closed b booked_payout
    unfolding booked_payout
    booked-Closed =
        rw (minus ti.last_reward paid, minus pi.last_reward paid)
          (book-Kept ps ts s index t (¬ Full) (λ _. Full) h.before b p token (pos 0 -ℤ paid) ti pi
            once known found' (subst (λ x. pos 0 ≤ℤ x) (minus pi.last_reward paid) left) moves
            (λ a at. grind (int_laws, h.kept.backed token ti a known at, h.in_hand a at))
            (λ k tk a n at is. grind (int_laws, h.kept.backed k tk a at is, h.others k a n is))
            h.kept)

  book :
      (paid : ℤ) (pi : RewardInfo)
      → paid ≤ℤ pi.last_reward
      → (b : Address → ℤ) (p : PledgeMgr) → pos 0 <ℤ paid
      → Went paid b p
      → lookup (key index token) p.amount ≡ some pi
      → After
          (λ (_ : Unit {0}) q. Closed b q)
          (λ _. Unit)
          (book_payout index token paid p).0
          (book_payout index token paid p).1
  unfolding book_payout methods booked_payout
  book paid pi enough b p more h found = elim (Option-cases (lookup token p.t_info)) [
    | inl e ↦ rw (e, book_payout) tt
    | inr (ti, e) ↦
        rw (e, found, book_payout)
          (booked-Closed paid b p ti pi more h
            (subst (λ (r : RewardInfo). paid ≤ℤ r.last_reward)
              (sym (ap (λ o. or_fresh no_reward o) found)) enough)
            e found)
  ]

  -- The money and the booking.
  pub pay-At :
      (to : Address) (paid : ℤ) (pi : RewardInfo)
      → paid ≤ℤ pi.last_reward
      → Triple
          (At self (λ b p. Closed b p × (lookup (key index token) p.amount ≡ some pi)))
          (pay_out self to ts index token paid)
          (λ _ w. At self Closed w)
          (Anything self)
  unfolding pay_out
  pay-At to paid pi enough =
      Triple-if_known (ltb_ℤ (pos 0) paid) _ _
        (λ more.
          Triple-or_crash (λ w h. tt) _ _
            (λ taddr at.
              Triple-then _ _
                (send-At self
                  {C' = λ b p. Went paid b p × (lookup (key index token) p.amount ≡ some pi)} taddr
                  to paid (grind (int_laws, more))
                  (λ b b' p (h, found) same moved. (went paid taddr b b' p at h same moved, found)))
                (on_pledge-At self (λ _ b p. Closed b p) _
                  (λ b p (h, found). book paid pi enough b p (grind (int_laws, more)) h found))))
        (λ no_money. from-At self _ _ (λ b p h. h.0) (Triple-pure tt))
