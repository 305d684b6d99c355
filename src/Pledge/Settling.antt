-- ===== src/Pledge/Settling.antt =====
-- The settlement of rewards in `Withdraw` (server/contract/pledge.go, lines 245 to 284).
use mefs_go_settlement.Base.{
  ℕ, ◌<◌, ◌≡◌, ap, arith, List, get_elem?, ℤ, pos, ◌≤ℤ◌, ◌<ℤ◌, ltb_ℤ, int_laws, nat_eq, pure,
}
use mefs_go_settlement.Base.Triple.{Triple, Triple-if_known, Triple-so}
use mefs_go_settlement.Utils.Key.{Address}
use mefs_go_settlement.Keys.{multi_key_eq}
use mefs_go_settlement.Pledge.{PledgeMgr}
use mefs_go_settlement.Pledge.Calls.{settle_if}
use mefs_go_settlement.Pledge.Shares.{total}
use mefs_go_settlement.Pledge.Held.{At, Anything, balances}
use mefs_go_settlement.Pledge.Rewards.{Kept}
use mefs_go_settlement.Pledge.Loops.{K-fewer, settle_some-At}
use mefs_go_settlement.Pledge.Steps.{from-At}
use mefs_go_settlement.World.{World}

module _ (self : Address) (ps : List ℕ) (ts : List Address) (s : ℕ → ℤ) (index token : ℕ) (t : ℤ)
    (nonneg : (i : ℕ) → pos 0 ≤ℤ s i) (whole : total s ps ≡ t) where
  -- Rewards are settled in the pledged token only with all others, and only while there is a pledge.
  abbrev pub Full : Type 0
  Full = (token ≡ 0) × (pos 0 <ℤ t)

  abbrev pub Opened : (Address → ℤ) → PledgeMgr → Type 0
  Opened = Kept ps ts s index t Unit (λ _. ⊥)

  abbrev pub Closed : (Address → ℤ) → PledgeMgr → Type 0
  Closed = Kept ps ts s index t (¬ Full) (λ _. Full)

  enter :
      (b : Address → ℤ) (p : PledgeMgr)
      → Opened b p
      → Kept ps ts s index t (¬ Full) (λ j. (token ≡ 0) × (j < 0)) b p
  enter b p h = record {
    tokens = h.tokens;
    sum = h.sum;
    books = h.books;
    others = h.others;
    fixed = λ f. h.fixed tt;
    low = h.low;
    settled = λ j ti at d. absurd (omega (arith, d.1));
    listed = h.listed;
    backed = h.backed;
  }

  unsettled : ¬ Full → (b : Address → ℤ) (p : PledgeMgr) → Opened b p → Closed b p
  unsettled never b p h = record {
    tokens = h.tokens;
    sum = h.sum;
    books = h.books;
    others = h.others;
    fixed = λ f. h.fixed tt;
    low = h.low;
    settled = λ j ti at d. absurd (never d);
    listed = h.listed;
    backed = h.backed;
  }

  closed :
      (w : World)
      → pos 0 <ℤ t
      → At self (Kept ps ts s index t (¬ Full) (λ _. token ≡ 0)) w
      → At self Closed w
  closed w more h = record {
    pool = h.pool;
    pool_at = h.pool_at;
    holds =
        K-fewer ps ts s index t (¬ Full) nonneg whole (λ _. token ≡ 0) (λ _. Full) (balances self w)
          h.pool (λ j ti e found d. d.0) h.holds;
  }

  pub settle_if-At :
      Triple
        (At self Opened)
        (settle_if self index token (s index) t ts)
        (λ _ w. At self Closed w)
        (Anything self)
  unfolding settle_if pure
  settle_if-At =
      Triple-if_known (ltb_ℤ (pos 0) t) _ _
        (λ some. from-At self Opened _ enter (
          Triple-so (Anything self)
            (λ _ w. At self (Kept ps ts s index t (¬ Full) (λ _. token ≡ 0)) w)
            (λ _ w. At self Closed w) _ (λ _ w h. closed w (grind (int_laws, some)) h)
            (settle_some-At ps ts s index t (¬ Full) nonneg whole self token 0 ts
              (λ k. ap (get_elem? ts) (omega arith)) (λ f z. f (z, grind (int_laws, some))))))
        (λ none. record {
          at = λ w h. record {
            pool = h.pool;
            pool_at = h.pool_at;
            holds = unsettled (λ f. grind (int_laws, none, f.1)) (balances self w) h.pool h.holds;
          };
        })
