-- ===== src/Pledge/Withdrawals.antt =====
-- The books of the pool through a call of `Withdraw` (server/contract/pledge.go, lines 215 to 325).
use mefs_go_settlement.Base.{
  ℕ, ◌==◌, ◌≡◌, refl, ap, subst, ◌∙◌, arith, List, get_elem?, some, Option-cases, ℤ, pos, ◌+ℤ◌,
  ◌-ℤ◌, ◌≤ℤ◌, ◌<ℤ◌, ltb_ℤ, int_laws, nat_eq, lookup, ◌⊎◌, inl, inr, Bool-cases, read_or_throw,
  methods, err_empty, ◌>>=◌, ◌>>◌,
}
use mefs_go_settlement.Base.Triple.{After, Triple, Triple-bind, Triple-then, Triple-guard}
use mefs_go_settlement.Utils.Key.{Address}
use mefs_go_settlement.Keys.{key, multi_key_eq}
use mefs_go_settlement.Pledge.{RewardInfo, PledgeMgr, no_reward}
use mefs_go_settlement.Pledge.Calls.{withdraw, payout, pay_out, book_total, settle_if, or_fresh}
use mefs_go_settlement.Pledge.Shares.{entry, stake, total, Once}
use mefs_go_settlement.Pledge.Held.{At, Anything, on_pledge-At, on_role-At}
use mefs_go_settlement.Pledge.Rewards.{Kept}
use mefs_go_settlement.Pledge.Bookings.{Settled}
use mefs_go_settlement.Pledge.Sound.{Sound, finish}
use mefs_go_settlement.Pledge.Steps.{seek-At, role-At, from-At, given-At, learn-At}
use mefs_go_settlement.Role.{RoleMgr, get_info_addr}
use mefs_go_settlement.World.{on_pledge}
use mefs_go_settlement.Pledge.Settling.{settle_if-At}
use mefs_go_settlement.Pledge.Payouts.{pay-At, payout_lem}

module _ (self : Address) (ps : List ℕ) (ts : List Address) (s : ℕ → ℤ) (index token : ℕ) (t : ℤ)
    (nonneg : (i : ℕ) → pos 0 ≤ℤ s i) (whole : total s ps ≡ t) (once : Once index ps)
    (distinct : (j k : ℕ) (a : Address)
      → get_elem? ts j ≡ some a
      → get_elem? ts k ≡ some a
      → j ≡ k) where
  -- Rewards are settled in the pledged token only with all others, and only while there is a pledge.
  abbrev Full : Type 0
  Full = (token ≡ 0) × (pos 0 <ℤ t)

  abbrev Opened : (Address → ℤ) → PledgeMgr → Type 0
  Opened = Kept ps ts s index t Unit (λ _. ⊥)

  abbrev Closed : (Address → ℤ) → PledgeMgr → Type 0
  Closed = Kept ps ts s index t (¬ Full) (λ _. Full)

  full : Full ⊎ (¬ Full)
  full = elim (Bool-cases (ltb_ℤ (pos 0) t)) [
    | inl m ↦ elim (Bool-cases (token == 0)) [
      | inl z ↦ inl (ground (arith, z), grind (int_laws, m))
      | inr n ↦ inr (λ f. ground (arith, n, f.0))
    ]
    | inr l ↦ inr (λ f. grind (int_laws, l, f.1))
  ]

  either :
      (b : Address → ℤ) (p : PledgeMgr)
      → Closed b p
      → Settled index p ⊎ (stake p.amount index ≡ s index)
  either b p h = elim full [
    | inl f ↦ inl (λ j ti at. h.settled j ti at f)
    | inr n ↦ inr (h.fixed n)
  ]

  write :
      (b : Address → ℤ) (p : PledgeMgr)
      → Closed b p
      → After
          (λ (_ : Unit {0}) q. Sound ps ts b q)
          (λ _. Unit)
          (book_total index token (s index) p).0
          (book_total index token (s index) p).1
  unfolding book_total methods
  write b p h = elim (Bool-cases (token == 0)) [
    | inl z ↦
        let zero_token : token ≡ 0 = ground (arith, z) in
        elim (Option-cases (lookup (key index token) p.amount)) [
          | inl e ↦ rw (z, e, book_total) tt
          | inr (pi, e) ↦
              let found : (entry p.amount index token).last_reward ≡ pi.last_reward =
                ap (λ o. (or_fresh no_reward o).last_reward) e in
              rw (z, e, book_total)
                (finish ps ts s index t (¬ Full) (λ _. Full) b p
                  (p.total_pledge -ℤ s index +ℤ pi.last_reward) once nonneg whole
                  (grind (
                    int_laws,
                    h.sum,
                    subst (λ k. (entry p.amount index k).last_reward ≡ pi.last_reward) zero_token
                        found,
                  ))
                  (either b p h) h)
        ]
    | inr n ↦
        let same : stake p.amount index ≡ s index = h.fixed (λ f. ground (arith, n, f.0)) in
        rw (n, book_total)
          (finish ps ts s index t (¬ Full) (λ _. Full) b p p.total_pledge once nonneg whole
            (grind (int_laws, h.sum, same)) (inr same) h)
  ]

  -- The total is written for the pledged token only.
  total-At :
      Triple
        (At self Closed)
        (on_pledge self (book_total index token (s index)))
        (λ _ w. At self (Sound ps ts) w)
        (Anything self)
  total-At = on_pledge-At self (λ _ b p. Sound ps ts b p) _ (λ b p h. write b p h)

  -- What is left to do once all has been read.
  close-At :
      (to : Address) (money lock amount total : ℤ) (tokens : List Address)
      → pos 0 ≤ℤ lock
      → amount ≡ s index
      → total ≡ t
      → tokens ≡ ts
      → Triple
          (At self Opened)
          (settle_if self index token amount total tokens
            >> (on_pledge self (read_or_throw (λ p. lookup (key index token) p.amount) err_empty)
                >>= (λ pi.
                    pay_out self to tokens index token (payout token pi.last_reward money lock)
                    >> on_pledge self (book_total index token amount))))
          (λ _ w. At self (Sound ps ts) w)
          (Anything self)
  close-At to money lock amount total tokens low ea et ek =
      rw (ea, et, ek)
        (Triple-then _ _ (settle_if-At self ps ts s index token t nonneg whole) (
          Triple-bind _ _ (seek-At self Closed (λ p. lookup (key index token) p.amount) err_empty)
            (λ pi.
              Triple-then _ _
                (pay-At self ps ts s index token t nonneg whole once distinct to
                  (payout token pi.last_reward money lock) pi
                  (payout_lem self ps ts s index token t nonneg whole once distinct pi.last_reward
                    money lock low))
                total-At)))

  reads_only : (r : RoleMgr) → (get_info_addr index r).1 ≡ r
  unfolding get_info_addr methods
  reads_only r = ground arith

  stake-known :
      (b : Address → ℤ) (p : PledgeMgr) (p0 : RewardInfo)
      → Opened b p
      → lookup (key index 0) p.amount ≡ some p0
      → p0.last_reward ≡ s index
  stake-known b p p0 h found =
      let read : p0 ≡ entry p.amount index 0 = rw found refl in
      ap (λ (r : RewardInfo). r.last_reward) read ∙ h.fixed tt

  pub withdraw-At :
      (caller : Address) (money lock : ℤ)
      → pos 0 ≤ℤ lock
      → Triple
          (At self Opened)
          (withdraw self caller index token money lock)
          (λ _ w. At self (Sound ps ts) w)
          (Anything self)
  unfolding withdraw
  withdraw-At caller money lock low =
      Triple-guard (λ w h. tt) _ _ _
        (λ _.
          learn-At self Opened (λ x. x ≡ ts) _ _ (λ b p h. h.tokens)
            (λ tokens ek.
              Triple-guard (λ w h. tt) _ _ _
                (λ _.
                  learn-At self Opened (λ _. Unit) _ _ (λ b p h. tt)
                    (λ owner _. Triple-then _ _ (role-At self Opened owner) (
                      Triple-bind _ _ (on_role-At self owner (get_info_addr index) reads_only)
                        (λ found.
                          Triple-bind _ _
                            (seek-At self Opened (λ p. lookup (key index 0) p.amount) err_empty)
                            (λ p0.
                              given-At self _ _ (λ b p (h, at). stake-known b p p0 h at)
                                (λ ea.
                                  from-At self _ _ (λ b p h. h.0)
                                    (learn-At self Opened (λ x. x ≡ t) _ _ (λ b p h. h.sum)
                                      (λ total et.
                                        close-At found.1 money lock p0.last_reward total tokens low
                                          ea et ek))))))))))
