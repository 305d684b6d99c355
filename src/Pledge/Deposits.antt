-- ===== src/Pledge/Deposits.antt =====
-- The books of the pool through a call of `Pledge` (server/contract/pledge.go, lines 138 to 212).
use mefs_go_settlement.Base.{
  ℕ, ◌<◌, ◌==◌, ◌≡◌, ◌≢◌, refl, sym, ap, subst, ◌∙◌, arith, List, get_elem?, some, ℤ, pos, ◌+ℤ◌,
  ◌≤ℤ◌, int_laws, nat_eq, lookup, inl, inr, Bool-cases, modify, or_crash, read_or_crash, ◌>>=◌,
  ◌>>◌,
}
use mefs_go_settlement.Base.Triple.{Triple, Triple-bind, Triple-then, Triple-guard, Triple-or_crash}
use mefs_go_settlement.Utils.Key.{Address}
use mefs_go_settlement.Keys.{key, multi_key_eq}
use mefs_go_settlement.Pledge.{RewardInfo, PledgeMgr}
use mefs_go_settlement.Pledge.Calls.{pledge, meet_pledger, book_pledge, settle_all}
use mefs_go_settlement.Pledge.Shares.{entry, stake, total, Once}
use mefs_go_settlement.Pledge.Ledger.{entry-insert}
use mefs_go_settlement.Pledge.Held.{At, Anything, receive-At}
use mefs_go_settlement.Pledge.Rewards.{Kept}
use mefs_go_settlement.Pledge.Loops.{settle_all-At}
use mefs_go_settlement.Pledge.Sound.{Sound, finish}
use mefs_go_settlement.Pledge.Written.{book-Kept}
use mefs_go_settlement.Pledge.Meeting.{meet-Kept}
use mefs_go_settlement.World.{on_pledge, send_balance_from}
use mefs_go_settlement.Pledge.Steps.{must-At, write-At, from-At, given-At, learn-At}

module _ (self : Address) (ps : List ℕ) (ts : List Address) (s : ℕ → ℤ) (index : ℕ) (t : ℤ)
    (nonneg : (i : ℕ) → pos 0 ≤ℤ s i) (whole : total s ps ≡ t) (once : Once index ps) where
  abbrev pub Opened : (Address → ℤ) → PledgeMgr → Type 0
  Opened = Kept ps ts s index t Unit (λ _. ⊥)

  -- All of it has been settled, and what the role has may change.
  abbrev Closed : (Address → ℤ) → PledgeMgr → Type 0
  Closed = Kept ps ts s index t ⊥ (λ _. Unit)

  -- The money has come in since.
  record Came (money : ℤ) (b : Address → ℤ) (p : PledgeMgr) : Type 0 where
    before : Address → ℤ
    kept : Closed before p
    more : (a : Address) → before a ≤ℤ b a
    in_hand : (a : Address) → get_elem? ts 0 ≡ some a → before a +ℤ money ≤ℤ b a

  came :
      (money : ℤ) (t0 : Address) (b b' : Address → ℤ) (p : PledgeMgr)
      → pos 0 ≤ℤ money
      → get_elem? ts 0 ≡ some t0
      → Closed b p
      → ((a : Address) → a ≢ t0 → b' a ≡ b a)
      → b t0 +ℤ money ≤ℤ b' t0
      → Came money b' p
  came money t0 b b' p low at h same moved = record {
    before = b;
    kept = h;
    more = λ a. elim (Bool-cases (a == t0)) [
      | inl e ↦
          let here : t0 ≡ a = ground (arith, e) in
          subst (λ x. b x ≤ℤ b' x) here (grind (int_laws, low, moved))
      | inr e ↦ rw (same a (λ z. ground (arith, e, z))) (omega arith)
    ];
    in_hand = λ a e.
        let both : some t0 ≡ some a = sym at ∙ e in
        let here : t0 ≡ a = cc both in subst (λ x. b x +ℤ money ≤ℤ b' x) here moved;
  }

  booked-Sound :
      (money : ℤ) (t0 p0 : RewardInfo) (b : Address → ℤ) (p : PledgeMgr)
      → pos 0 ≤ℤ money
      → lookup 0 p.t_info ≡ some t0
      → lookup (key index 0) p.amount ≡ some p0
      → Came money b p
      → Sound ps ts b (book_pledge index (s index) money t0 p0 p)
  unfolding book_pledge
  booked-Sound money t0 p0 b p low known found h =
      let found' : entry p.amount index 0 ≡ p0 = rw found refl in
      let enough : pos 0 ≤ℤ p0.last_reward +ℤ money = grind (
        int_laws,
        low,
        (h.kept.books 0 t0 known).held index,
        ap (λ (r : RewardInfo). r.last_reward) found',
      ) in
      let kept =
        book-Kept ps ts s index t ⊥ (λ _. Unit) h.before b p 0 money t0 p0 once known found' enough
          (λ f. absurd f) (λ a at. grind (int_laws, h.kept.backed 0 t0 a known at, h.in_hand a at))
          (λ k tk a n at is. grind (int_laws, h.kept.backed k tk a at is, h.more a)) h.kept in
      let written : entry (book_pledge index (s index) money t0 p0 p).amount index 0
          ≡ record p0 { last_reward = p0.last_reward +ℤ money } =
        entry-insert index 0 index 0 _ p.amount ∙ ground arith in
      let now : stake (book_pledge index (s index) money t0 p0 p).amount index
          ≡ p0.last_reward +ℤ money =
        ap (λ (r : RewardInfo). r.last_reward) written in
      finish ps ts s index t ⊥ (λ _. Unit) b _ _ once nonneg whole
        (grind (int_laws, now, h.kept.sum)) (inl (λ j ti at. kept.settled j ti at tt)) kept

  enter :
      (token : ℕ) (b : Address → ℤ) (p : PledgeMgr)
      → Opened b p
      → Kept ps ts s index t ⊥ (λ j. j < 0) b p
  enter token b p h = record {
    tokens = h.tokens;
    sum = h.sum;
    books = h.books;
    others = h.others;
    fixed = λ f. absurd f;
    low = h.low;
    settled = λ j ti at d. absurd (omega (arith, d));
    listed = h.listed;
    backed = h.backed;
  }

  receipt-At :
      (addr t0 : Address) (money : ℤ)
      → addr ≢ self
      → pos 0 ≤ℤ money
      → get_elem? ts 0 ≡ some t0
      → Triple
          (At self Closed)
          (send_balance_from t0 self addr self money
            >> (on_pledge self (read_or_crash (λ p. lookup 0 p.t_info)) >>= (λ ti.
                on_pledge self (read_or_crash (λ p. lookup (key index 0) p.amount))
                >>= (λ p0. on_pledge self (modify (book_pledge index (s index) money ti p0))))))
          (λ _ w. At self (Sound ps ts) w)
          (Anything self)
  receipt-At addr t0 money other low at =
      Triple-then _ _
        (receive-At self t0 addr money other
          (λ b b' p h same moved. came money t0 b b' p low at h same moved))
        (Triple-bind _ _ (must-At self (Came money) (λ p. lookup 0 p.t_info)) (λ ti.
          Triple-bind _ _
            (must-At self (λ b p. Came money b p × (lookup 0 p.t_info ≡ some ti))
              (λ p. lookup (key index 0) p.amount))
            (λ p0.
              write-At self _ _
                (λ b p ((h, known), found). booked-Sound money ti p0 b p low known found h))))

  settled-At :
      (addr : Address) (money : ℤ)
      → addr ≢ self
      → pos 0 ≤ℤ money
      → Triple
          (At self Opened)
          (settle_all self index (s index) t 0 ts
            >> (or_crash (get_elem? ts 0) >>= (λ t0.
                send_balance_from t0 self addr self money
                >> (on_pledge self (read_or_crash (λ p. lookup 0 p.t_info)) >>= (λ ti.
                    on_pledge self (read_or_crash (λ p. lookup (key index 0) p.amount)) >>= (λ p0.
                      on_pledge self (modify (book_pledge index (s index) money ti p0))))))))
          (λ _ w. At self (Sound ps ts) w)
          (Anything self)
  settled-At addr money other low =
      Triple-then _ _
        (from-At self Opened _ (enter 0) (
          settle_all-At ps ts s index t ⊥ nonneg whole self 0 ts
            (λ k. ap (get_elem? ts) (omega arith)) (λ f. f)))
        (Triple-or_crash (λ w h. tt) (get_elem? ts 0) _
          (λ t0 at. receipt-At addr t0 money other low at))

  -- The same, with what was read before.
  read_settled-At :
      (addr : Address) (money amount total : ℤ) (tokens : List Address)
      → addr ≢ self
      → pos 0 ≤ℤ money
      → amount ≡ s index
      → total ≡ t
      → tokens ≡ ts
      → Triple
          (At self Opened)
          (settle_all self index amount total 0 tokens
            >> (or_crash (get_elem? tokens 0) >>= (λ t0.
                send_balance_from t0 self addr self money
                >> (on_pledge self (read_or_crash (λ p. lookup 0 p.t_info)) >>= (λ ti.
                    on_pledge self (read_or_crash (λ p. lookup (key index 0) p.amount))
                    >>= (λ p0. on_pledge self (modify (book_pledge index amount money ti p0))))))))
          (λ _ w. At self (Sound ps ts) w)
          (Anything self)
  read_settled-At addr money amount total tokens other low ea et ek =
      rw (ea, et, ek) (settled-At addr money other low)

  stake-known :
      (b : Address → ℤ) (p : PledgeMgr) (p0 : RewardInfo)
      → Opened b p
      → lookup (key index 0) p.amount ≡ some p0
      → p0.last_reward ≡ s index
  stake-known b p p0 h found =
      let read : p0 ≡ entry p.amount index 0 = rw found refl in
      ap (λ (r : RewardInfo). r.last_reward) read ∙ h.fixed tt

  pub pledge-At :
      (caller addr : Address) (money : ℤ)
      → addr ≢ self
      → Triple
          (At self Opened)
          (pledge self caller addr index money)
          (λ _ w. At self (Sound ps ts) w)
          (Anything self)
  unfolding pledge
  pledge-At caller addr money other =
      learn-At self Opened (λ _. Unit) _ _ (λ b p h. tt)
        (λ owner _.
          Triple-guard (λ w h. tt) _ _ _
            (λ _.
              Triple-guard (λ w h. tt) _ _ _
                (λ go.
                  let low : pos 0 ≤ℤ money = grind (int_laws, go) in
                  Triple-bind _ _ (must-At self Opened (λ p. lookup 0 p.t_info)) (λ t0.
                    Triple-then _ _
                      (write-At self _ (meet_pledger index t0) (λ b p (h, known).
                        meet-Kept ps ts s index t Unit (λ _. ⊥) b p t0 tt (λ j d. d) known h))
                      (Triple-bind _ _ (must-At self Opened (λ p. lookup (key index 0) p.amount))
                        (λ p0.
                          given-At self _ _ (λ b p (h, found). stake-known b p p0 h found)
                            (λ ea.
                              from-At self _ _ (λ b p h. h.0)
                                (learn-At self Opened (λ x. x ≡ t) _ _ (λ b p h. h.sum)
                                  (λ total et.
                                    learn-At self Opened (λ x. x ≡ ts) _ _ (λ b p h. h.tokens)
                                      (λ tokens ek.
                                        read_settled-At addr money p0.last_reward total tokens other
                                          low ea et ek))))))))))
