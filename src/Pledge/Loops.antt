-- ===== src/Pledge/Loops.antt =====
-- The loops of `Pledge` and `Withdraw` that settle the rewards of a role (server/contract/pledge.go,
-- lines 166 to 197 and 249 to 283).
use native.Mathlib.Decide.{dec_lt}
use mefs_go_settlement.Base.{
  ◌-◌, ℕ, suc, ◌+◌, ◌<◌, ◌≡◌, ◌≢◌, refl, sym, ap, subst, ◌∙◌, arith, List, [], ◌∷◌, get_elem?, none,
  some, Option-cases, ℤ, pos, ◌≤ℤ◌, int_laws, nat_eq, lookup, inl, inr, modify, gets, pure,
  read_or_crash, methods, ◌>>=◌,
}
use mefs_go_settlement.Base.Triple.{After, Triple, Triple-bind, Triple-then, Triple-if_known}
use mefs_go_settlement.Utils.Key.{Address}
use mefs_go_settlement.Pledge.{RewardInfo, PledgeMgr, no_reward}
use mefs_go_settlement.Pledge.Calls.{settle, settle_all, settle_some}
use mefs_go_settlement.Pledge.Shares.{total}
use mefs_go_settlement.Pledge.Held.{At, Anything, balances, on_pledge-At, balance-At}
use mefs_go_settlement.World.{World, on_pledge, get_token_balance}
use mefs_go_settlement.Pledge.Rewards.{Kept, settle-Kept}

module _ (ps : List ℕ) (ts : List Address) (s : ℕ → ℤ) (index : ℕ) (t : ℤ) (Fixed : Type 0)
    (nonneg : (i : ℕ) → pos 0 ≤ℤ s i) (whole : total s ps ≡ t) where
  abbrev pub K : (Done : ℕ → Type 0) → (Address → ℤ) → PledgeMgr → Type 0
  K Done b p = Kept ps ts s index t Fixed Done b p

  abbrev pub Priced : (j : ℕ) (ti : RewardInfo) → PledgeMgr → Type 0
  Priced j ti p = lookup j p.t_info ≡ some ti

  pub price-At :
      (self : Address) (Done : ℕ → Type 0) (j : ℕ)
      → Triple
          (At self (K Done))
          (on_pledge self (read_or_crash (λ p. lookup j p.t_info)))
          (λ ti w. At self (λ b p. K Done b p × Priced j ti p) w)
          (Anything self)
  unfolding methods
  price-At self Done j = on_pledge-At self (λ ti b p. K Done b p × Priced j ti p) _ read
    where
      read :
          (b : Address → ℤ) (p : PledgeMgr)
          → K Done b p
          → After
              (λ ti q. K Done b q × Priced j ti q)
              (λ _. Unit)
              (read_or_crash (λ p. lookup j p.t_info) p).0
              (read_or_crash (λ p. lookup j p.t_info) p).1
      read b p h = elim (Option-cases (lookup j p.t_info)) [
        | inl e ↦ rw e tt
        | inr (ti, e) ↦ rw e (h, e)
      ]

  settle-At :
      (self : Address) (Done Done' : ℕ → Type 0) (j : ℕ) (taddr : Address) (bal : ℤ)
      (ti fresh : RewardInfo)
      → ((k : ℕ) → Done' k → j ≢ k → Done k)
      → (Fixed → j ≢ 0)
      → get_elem? ts j ≡ some taddr
      → fresh.last_reward ≡ pos 0
      → ((b : Address → ℤ) (p : PledgeMgr)
          → K Done b p
          → Priced j ti p
          → (pos 0 ≤ℤ fresh.reward_accum) × (fresh.reward_accum ≤ℤ ti.reward_accum))
      → Triple
          (At self (λ b p. (K Done b p × Priced j ti p) × (bal ≡ b taddr)))
          (on_pledge self (modify (settle index j bal (s index) t ti fresh)))
          (λ _ w. At self (K Done') w)
          (Anything self)
  unfolding methods
  settle-At self Done Done' j taddr bal ti fresh step moves at empty fair =
      on_pledge-At self (λ _ b p. K Done' b p) _ write
    where
      write :
          (b : Address → ℤ) (p : PledgeMgr)
          → (K Done b p × Priced j ti p) × (bal ≡ b taddr)
          → After
              (λ (_ : Unit {0}) q. K Done' b q)
              (λ _. Unit)
              (modify (settle index j bal (s index) t ti fresh) p).0
              (modify (settle index j bal (s index) t ti fresh) p).1
      write b p ((h, known), e) = rw e (
          settle-Kept ps ts s index t Fixed nonneg whole Done Done' b p j taddr ti fresh step moves
            at known (fair b p h known).0 (fair b p h known).1 empty h)

  -- No record is ahead of the price.
  pub price_nonneg :
      (Done : ℕ → Type 0) (b : Address → ℤ) (p : PledgeMgr) (j : ℕ) (ti : RewardInfo)
      → K Done b p
      → Priced j ti p
      → pos 0 ≤ℤ ti.reward_accum
  price_nonneg Done b p j ti h known =
      let c = h.books j ti known in grind (int_laws, c.low 0, c.high 0)

  -- All tokens from `i` on, which are the tokens of the pool from there on.
  abbrev pub From : ℕ → List Address → Type 0
  From i tl = (k : ℕ) → get_elem? tl k ≡ get_elem? ts (k + i)

  abbrev pub Every : ℕ → Type 0
  Every j = Unit

  -- Settled in fewer tokens.
  pub K-fewer :
      (Done Done' : ℕ → Type 0) (b : Address → ℤ) (p : PledgeMgr)
      → ((j : ℕ) (ti : RewardInfo)
          → lookup j p.t_info ≡ some ti
          → get_elem? ts j ≢ none
          → Done' j
          → Done j)
      → K Done b p
      → K Done' b p
  K-fewer Done Done' b p fewer h = record {
    tokens = h.tokens;
    sum = h.sum;
    books = h.books;
    others = h.others;
    fixed = h.fixed;
    low = h.low;
    settled = λ j ti e d. h.settled j ti e (fewer j ti e (h.listed j ti e) d);
    listed = h.listed;
    backed = h.backed;
  }

  fewer-At :
      {self : Address} {E : World → Type 0} (Done Done' : ℕ → Type 0)
      → ((j : ℕ) → get_elem? ts j ≢ none → Done' j → Done j)
      → Triple (At self (K Done)) (pure tt) (λ _ w. At self (K Done') w) E
  unfolding pure
  fewer-At {self = self} Done Done' fewer = record {
    at = λ w h. record {
      pool = h.pool;
      pool_at = h.pool_at;
      holds =
          K-fewer Done Done' (balances self w) h.pool (λ j ti e found d. fewer j found d) h.holds;
    };
  }

  -- The tokens of an empty rest lie below `i`.
  below : (i : ℕ) → From i [] → (j : ℕ) → get_elem? ts j ≢ none → j < i
  below i from j found = elim (dec_lt j i) [
    | yes l ↦ l
    | no g ↦ absurd (found (subst (λ x. get_elem? ts x ≡ none) (past g) (sym (from (j - i)))))
  ]
    where
      past : ¬ (j < i) → j - i + i ≡ j
      past g = omega arith

  first :
      (i : ℕ) (taddr : Address) (tl : List Address)
      → From i (taddr ∷ tl)
      → get_elem? ts i ≡ some taddr
  first i taddr tl from = ap (get_elem? ts) (omega arith) ∙ sym (from 0)

  next : (i : ℕ) (taddr : Address) (tl : List Address) → From i (taddr ∷ tl) → From (suc i) tl
  next i taddr tl from k = from (suc k) ∙ ap (get_elem? ts) (omega arith)

  pub settle_all-At :
      (self : Address) (i : ℕ) (tl : List Address)
      → From i tl
      → ¬ Fixed
      → Triple
          (At self (K (λ j. j < i)))
          (settle_all self index (s index) t i tl)
          (λ _ w. At self (K Every) w)
          (Anything self)
  unfolding settle_all pure
  settle_all-At self i [] from free =
      fewer-At (λ j. j < i) Every (λ j found d. below i from j found)
  settle_all-At self i (taddr ∷ tl) from free =
      Triple-bind _ _ (price-At self (λ j. j < i) i) (λ ti.
        Triple-bind _ _ (balance-At self taddr) (λ bal.
          Triple-then _ _
            (settle-At self (λ j. j < i) (λ j. j < suc i) i taddr bal ti
              (record { reward_accum = ti.reward_accum; last_reward = pos 0 })
              (λ k d n. ground (arith, d, n)) (λ f. absurd (free f)) (first i taddr tl from) refl
              (λ b p h known. (price_nonneg (λ j. j < i) b p i ti h known, omega arith)))
            (settle_all-At self (suc i) tl (next i taddr tl from) free)))

  -- `Withdraw` settles every token for token 0, and one token otherwise.
  abbrev pub Upto : (token i j : ℕ) → Type 0
  Upto token i j = (token ≡ 0) × (j < i)

  abbrev pub AllOf : (token j : ℕ) → Type 0
  AllOf token j = token ≡ 0

  one-At :
      (self : Address) (token i : ℕ) (taddr : Address)
      → (Fixed → i ≢ 0)
      → get_elem? ts i ≡ some taddr
      → Triple
          (At self (K (Upto token i)))
          (on_pledge self (read_or_crash (λ p. lookup i p.t_info)) >>= (λ ti.
            gets (get_token_balance taddr self)
            >>= (λ bal. on_pledge self (modify (settle index i bal (s index) t ti no_reward)))))
          (λ _ w. At self (K (Upto token (suc i))) w)
          (Anything self)
  one-At self token i taddr moves at = Triple-bind _ _ (price-At self (Upto token i) i) (λ ti.
      Triple-bind _ _ (balance-At self taddr) (λ bal.
        settle-At self (Upto token i) (Upto token (suc i)) i taddr bal ti no_reward
          (λ k d n. (d.0, ground (arith, d.1, n))) moves at refl
          (λ b p h known. (omega arith, price_nonneg (Upto token i) b p i ti h known))))

  pub settle_some-At :
      (self : Address) (token i : ℕ) (tl : List Address)
      → From i tl
      → (Fixed → token ≢ 0)
      → Triple
          (At self (K (Upto token i)))
          (settle_some self index token (s index) t i tl)
          (λ _ w. At self (K (AllOf token)) w)
          (Anything self)
  unfolding settle_some
  settle_some-At self token i [] from other =
      fewer-At (Upto token i) (AllOf token) (λ j found d. (d, below i from j found))
  settle_some-At self token i (taddr ∷ tl) from other =
      Triple-then _ _
        (Triple-if_known _ _ _
          (λ skip.
            fewer-At (Upto token i) (Upto token (suc i)) (λ j found d. ground (arith, skip, d)))
          (λ go.
            one-At self token i taddr (λ f z. ground (arith, go, other f, z))
              (first i taddr tl from)))
        (settle_some-At self token (suc i) tl (next i taddr tl from) other)
