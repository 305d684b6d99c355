-- ===== src/Pledge/Solvency.antt =====
-- What the pool owes and what it holds, over its calls (server/contract/pledge.go, lines 22 to 50, 68 to
-- 113 and 138 to 325).
use mefs_go_settlement.Base.{
  ℕ, ◌≡◌, ◌≢◌, refl, sym, ap, ◌∙◌, if◌then◌else◌, List, [], ◌∷◌, get_elem?, none, some,
  Option-cases, ℤ, pos, ◌≤ℤ◌, int_laws, nat_eq, lookup, inl, inr, ok, methods, arith, subst, Bool,
  Bool-cases, ◌==◌,
}
use mefs_go_settlement.Base.Triple.{Triple-ok}
use mefs_go_settlement.Base.Product.{ -ℤ-mul, zero-mul, mul-same}
use mefs_go_settlement.Utils.Key.{Address, Crypto, get_contract_address}
use mefs_go_settlement.Keys.{key, multi_key_eq}
use mefs_go_settlement.Pledge.{RewardInfo, PledgeMgr, no_reward}
use mefs_go_settlement.Pledge.Calls.{
  new_pledge, new_pledge_mgr, pool_method, pledge, withdraw, owed, accum_at,
}
use mefs_go_settlement.Pledge.Ledger.{Covers}
use mefs_go_settlement.Pledge.Shares.{
  entry, stake, due, total, total_same, total_later, accum_lem, Once,
}
use mefs_go_settlement.Pledge.Held.{At, Anything, balances, find_pledge-store, balances-store}
use mefs_go_settlement.Pledge.Rewards.{Kept}
use mefs_go_settlement.Pledge.Sound.{Sound, start}
use mefs_go_settlement.Pledge.Deposits.{pledge-At}
use mefs_go_settlement.Pledge.Withdrawals.{withdraw-At}
use mefs_go_settlement.World.{World, find_pledge, pledge_mgr, find_erc, get_token_balance}

-- The pool at `self` has the tokens `ts`, its total is what the roles `ps` have in it, and it holds, in
-- each token, what it owes to them.
abbrev pub IsSolvent : (self : Address) (ps : List ℕ) (ts : List Address) → World → Type 0
IsSolvent self ps ts w = At self (Sound ps ts) w

module _ (ps : List ℕ) (local caller ptoken : Address) (b : Address → ℤ)
    (low : pos 0 ≤ℤ b ptoken) where
  -- The only price of a new pool.
  abbrev price : RewardInfo
  price = record { reward_accum = pos 0; last_reward = b ptoken }

  only :
      (j : ℕ) (ti : RewardInfo)
      → lookup j (new_pledge local caller ptoken (b ptoken)).t_info ≡ some ti
      → (0 ≡ j) × (price ≡ ti)
  unfolding new_pledge lookup
  only j ti at = elim (Bool-cases (0 == j)) [
    | inl e ↦
        let same : some price ≡ some ti =
          cc (at, ap (λ (c : Bool). if c then some price else none) e) in
        (ground (arith, e), cc same)
    | inr e ↦
        let never : none ≡ some ti = cc (at, ap (λ (c : Bool). if c then some price else none) e) in
        absurd (cc never)
  ]

  nothing_due : (is : List ℕ) → total (λ i. due (pos 0) (pos 0) no_reward) is ≡ pos 0
  nothing_due [] = refl
  nothing_due (i ∷ is) = grind (int_laws, nothing_due is, mul-same (pos 0) (pos 0))

  total_zero : (is : List ℕ) → total (λ i. pos 0) is ≡ pos 0
  total_zero [] = refl
  total_zero (i ∷ is) = grind (int_laws, total_zero is)

  first_books : Covers ps (λ i. pos 0) [] 0 price
  unfolding lookup
  first_books = record {
    low = λ i. omega arith;
    high = λ i. omega arith;
    held = λ i. omega arith;
    covered = grind (int_laws, nothing_due ps, low);
  }

  new_pledge-Sound : Sound ps (ptoken ∷ []) b (new_pledge local caller ptoken (b ptoken))
  unfolding new_pledge lookup
  new_pledge-Sound = record {
    tokens = refl;
    whole = total_zero ps;
    nonneg = λ i. omega arith;
    books = λ j ti at.
        let (e, same) = only j ti at in
        subst (λ k. Covers ps (λ i. pos 0) [] k ti) e
          (subst (λ r. Covers ps (λ i. pos 0) [] 0 r) same first_books);
    listed = λ j ti at.
        let (e, same) = only j ti at in subst (λ k. get_elem? (ptoken ∷ []) k ≢ none) e (λ z. cc z);
    backed = λ j ti a at is.
        let (e, same) = only j ti at in
        let here : some ptoken ≡ some a = ap (get_elem? (ptoken ∷ [])) e ∙ is in
        let here' : ptoken ≡ a = cc here in
        subst (λ (r : RewardInfo). r.last_reward ≤ℤ b a) same
          (subst (λ x. b ptoken ≤ℤ b x) here' (omega arith));
  }

-- A new pool is solvent, whatever roles are counted, when nothing is at its address before and what that
-- address has of the token is not negative.
pub new_pledge_mgr-IsSolvent :
    (c : Crypto) (caller ptoken : Address) (ps : List ℕ) (w : World)
    → let local = get_contract_address c caller pool_method in
      lookup local w.objects ≡ none
      → pos 0 ≤ℤ get_token_balance ptoken local w
      → IsSolvent local ps (ptoken ∷ []) (new_pledge_mgr c caller ptoken w).1
unfolding new_pledge_mgr methods
new_pledge_mgr-IsSolvent c caller ptoken ps w free low =
    let local = get_contract_address c caller pool_method in
    let p = new_pledge local caller ptoken (get_token_balance ptoken local w) in
    record {
      pool = p;
      pool_at = find_pledge-store local local (pledge_mgr p) w ∙ ground arith;
      holds =
          subst (λ b. Sound ps (ptoken ∷ []) b p)
            (sym
              (balances-store local local (pledge_mgr p) w refl (unfold find_erc in rw free refl)))
            (new_pledge-Sound ps local caller ptoken (balances local w) low);
    }

begin :
    (self : Address) (ps : List ℕ) (ts : List Address) (index : ℕ) (w : World)
    (h : IsSolvent self ps ts w)
    → At self (Kept ps ts (stake h.pool.amount) index h.pool.total_pledge Unit (λ _. ⊥)) w
begin self ps ts index w h = record {
  pool = h.pool;
  pool_at = h.pool_at;
  holds =
      start ps ts (stake h.pool.amount) index h.pool.total_pledge Unit (λ _. ⊥) (balances self w)
        h.pool refl refl (λ j d. d) h.holds;
}

-- A pledge that goes through keeps the pool solvent, when the role is one of those counted, once, and
-- the money comes from another address than the pool's own.
pub pledge-IsSolvent :
    (self caller addr : Address) (ps : List ℕ) (ts : List Address) (index : ℕ) (money : ℤ)
    (w : World)
    → Once index ps
    → addr ≢ self
    → IsSolvent self ps ts w
    → (pledge self caller addr index money w).0 ≡ ok tt
    → IsSolvent self ps ts (pledge self caller addr index money w).1
pledge-IsSolvent self caller addr ps ts index money w once other h done =
    Triple-ok (IsSolvent self ps ts) (Anything self) (pledge self caller addr index money) tt
      (pledge-At self ps ts (stake h.pool.amount) index h.pool.total_pledge h.holds.nonneg
        h.holds.whole once caller addr money other)
      w (begin self ps ts index w h) done

-- A withdrawal that goes through keeps the pool solvent, when the role is one of those counted, once,
-- the tokens of the pool are at different addresses, and the pledge that is locked is not negative.
pub withdraw-IsSolvent :
    (self caller : Address) (ps : List ℕ) (ts : List Address) (index token : ℕ) (money lock : ℤ)
    (w : World)
    → Once index ps
    → ((j k : ℕ) (a : Address) → get_elem? ts j ≡ some a → get_elem? ts k ≡ some a → j ≡ k)
    → pos 0 ≤ℤ lock
    → IsSolvent self ps ts w
    → (withdraw self caller index token money lock w).0 ≡ ok tt
    → IsSolvent self ps ts (withdraw self caller index token money lock w).1
withdraw-IsSolvent self caller ps ts index token money lock w once distinct low h done =
    Triple-ok (IsSolvent self ps ts) (Anything self) (withdraw self caller index token money lock)
      tt
      (withdraw-At self ps ts (stake h.pool.amount) index token h.pool.total_pledge h.holds.nonneg
        h.holds.whole once distinct caller money lock low)
      w (begin self ps ts index w h) done

owed-due :
    (i j : ℕ) (bal amount t : ℤ) (ti : RewardInfo) (p : PledgeMgr)
    → owed i j bal amount t ti p ≡ due (accum_at bal t ti) amount (entry p.amount i j)
unfolding owed
owed-due i j bal amount t ti p = elim (Option-cases (lookup (key i j) p.amount)) [
  | inl e ↦
      rw (e, owed) (grind (int_laws, -ℤ-mul (accum_at bal t ti) (pos 0) amount, zero-mul amount))
  | inr (r, e) ↦ rw (e, owed) (grind int_laws)
]

Sound-owed :
    (ps : List ℕ) (ts : List Address) (j : ℕ) (ti : RewardInfo) (a : Address) (b : Address → ℤ)
    (p : PledgeMgr) (h : Sound ps ts b p)
    → lookup j p.t_info ≡ some ti
    → get_elem? ts j ≡ some a
    → total (λ i. owed i j (b a) (stake p.amount i) p.total_pledge ti p) ps ≤ℤ b a
Sound-owed ps ts j ti a b p h known at =
    let accum = accum_at (b a) p.total_pledge ti in
    rw
      (total_same (λ i. owed i j (b a) (stake p.amount i) p.total_pledge ti p)
        (λ i. due accum (stake p.amount i) (entry p.amount i j)) ps
        (λ i. owed-due i j (b a) (stake p.amount i) p.total_pledge ti p))
      (grind (
        int_laws,
        total_later ti.reward_accum accum (stake p.amount) (λ i. entry p.amount i j) ps,
        (h.books j ti known).covered,
        (accum_lem (b a) p.total_pledge ti (h.backed j ti a known at)).1,
        h.whole,
      ))

-- In a solvent pool, what `GetBalance` says that the roles have in a token comes to no more, in sum, than
-- what the pool has of the token.
pub total-owed :
    (self : Address) (ps : List ℕ) (ts : List Address) (j : ℕ) (ti : RewardInfo) (a : Address)
    (p : PledgeMgr) (w : World)
    → IsSolvent self ps ts w
    → find_pledge self w ≡ some p
    → lookup j p.t_info ≡ some ti
    → get_elem? ts j ≡ some a
    → total (λ i. owed i j (get_token_balance a self w) (stake p.amount i) p.total_pledge ti p) ps
      ≤ℤ get_token_balance a self w
total-owed self ps ts j ti a p w h found known at =
    let both : some h.pool ≡ some p = sym h.pool_at ∙ found in
    let same : h.pool ≡ p = cc both in
    Sound-owed ps ts j ti a (balances self w) p (subst (Sound ps ts (balances self w)) same h.holds)
      known at
