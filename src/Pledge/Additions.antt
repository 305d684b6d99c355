-- ===== src/Pledge/Additions.antt =====
-- A token is added to the pool (server/contract/pledge.go, lines 115 to 136).
use mefs_go_settlement.Base.{
  ℕ, zero, suc, ◌+◌, ◌==◌, ◌≡◌, ◌≢◌, refl, sym, ap, ◌∙◌, subst, arith, if◌then◌else◌, List, [], ◌∷◌,
  ◌++◌, length, length-append, get_elem?, none, some, Option-cases, ℤ, pos, ◌≤ℤ◌, int_laws, nat_eq,
  lookup, insert, lookup-insert, ◌⊎◌, inl, inr, Bool, Bool-cases,
}
use mefs_go_settlement.Base.Product.{mul-same}
use mefs_go_settlement.Utils.Key.{Address}
use mefs_go_settlement.Keys.{key, multi_key_eq}
use mefs_go_settlement.Pledge.{RewardInfo, PledgeMgr, no_reward}
use mefs_go_settlement.Pledge.Shares.{entry, stake, due, total}
use mefs_go_settlement.Pledge.Ledger.{Covers}
use mefs_go_settlement.Pledge.Sound.{Sound}
use mefs_go_settlement.Pledge.Priced.{IsPriced}

module _ {A : Type 0} where
  pub get_elem?-length : (xs : List A) → get_elem? xs (length xs) ≡ none
  get_elem?-length [] = refl
  get_elem?-length (x ∷ xs) = get_elem?-length xs

  pub get_elem?-snoc :
      (xs : List A) (x : A) (j : ℕ)
      → get_elem? (xs ++ x ∷ []) j ≡ (if length xs == j then some x else get_elem? xs j)
  get_elem?-snoc [] x zero = ground arith
  get_elem?-snoc [] x (suc j) = ground arith
  get_elem?-snoc (y ∷ xs) x zero = ground arith
  get_elem?-snoc (y ∷ xs) x (suc j) = ground (arith, get_elem?-snoc xs x j)

-- The pool with one more token, of which it has `bal`.
abbrev pub with_token : (taddr : Address) (bal : ℤ) (token next : ℕ) → PledgeMgr → PledgeMgr
with_token taddr bal token next p = record p {
  t_info = insert token (record { reward_accum = pos 0; last_reward = bal }) p.t_info;
  tokens = p.tokens ++ taddr ∷ [];
  token = next;
}

module _ (ps : List ℕ) (ts : List Address) (taddr : Address) (b : Address → ℤ) (p : PledgeMgr)
    (h : Sound ps ts b p) (r : IsPriced p) (low : pos 0 ≤ℤ b taddr) where
  -- No price yet, and no reward.
  no_price : lookup (length ts) p.t_info ≡ none
  no_price = elim (Option-cases (lookup (length ts) p.t_info)) [
    | inl e ↦ e
    | inr (ti, e) ↦ absurd (h.listed (length ts) ti e (get_elem?-length ts))
  ]

  blank : (i : ℕ) → entry p.amount i (length ts) ≡ no_reward
  blank i = elim (Option-cases (lookup (key i (length ts)) p.amount)) [
    | inl e ↦ rw e refl
    | inr (rew, e) ↦ absurd (r.priced (key i (length ts)) (λ n. cc) no_price)
  ]

  nothing_due :
      (is : List ℕ)
      → total (λ i. due (pos 0) (stake p.amount i) (entry p.amount i (length ts))) is ≡ pos 0
  nothing_due [] = refl
  nothing_due (i ∷ is) =
      rw (blank i) (grind (int_laws, nothing_due is, mul-same (pos 0) (stake p.amount i)))

  abbrev added : RewardInfo
  added = record { reward_accum = pos 0; last_reward = b taddr }

  new_books : Covers ps (stake p.amount) p.amount (length ts) added
  new_books = record {
    low = λ i. rw (blank i) (omega arith);
    high = λ i. rw (blank i) (omega arith);
    held = λ i. rw (blank i) (omega arith);
    covered = rw (nothing_due ps) low;
  }

  -- The price of a token is the new one, or one that was there.
  by_token :
      (j : ℕ) (ti : RewardInfo)
      → lookup j (insert (length ts) added p.t_info) ≡ some ti
      → ((length ts ≡ j) × (added ≡ ti)) ⊎ ((length ts ≢ j) × (lookup j p.t_info ≡ some ti))
  by_token j ti at =
      let found = sym (lookup-insert (length ts) j added p.t_info) ∙ at in
      let read = λ (c : Bool). if c then some added else lookup j p.t_info in
      elim (Bool-cases (length ts == j)) [
        | inl e ↦
            let same : some added ≡ some ti = cc (found, ap read e) in
            inl (ground (arith, e), cc same)
        | inr e ↦ inr (λ same. ground (arith, e, same), cc (found, ap read e))
      ]

  pub Sound-add :
      (next : ℕ) → Sound ps (ts ++ taddr ∷ []) b (with_token taddr (b taddr) (length ts) next p)
  Sound-add next = record {
    tokens = ap (λ xs. xs ++ taddr ∷ []) h.tokens;
    whole = h.whole;
    nonneg = h.nonneg;
    books = λ j ti at. elim (by_token j ti at) [
      | inl (e, same) ↦
          subst (λ k. Covers ps (stake p.amount) p.amount k ti) e
            (subst (λ (x : RewardInfo). Covers ps (stake p.amount) p.amount (length ts) x) same
              new_books)
      | inr (n, old) ↦ h.books j ti old
    ];
    listed = λ j ti at. elim (by_token j ti at) [
      | inl (e, same) ↦ ground (arith, get_elem?-snoc ts taddr j, e)
      | inr (n, old) ↦ ground (arith, get_elem?-snoc ts taddr j, n, h.listed j ti old)
    ];
    backed = λ j ti a at is. elim (by_token j ti at) [
      | inl (e, same) ↦
          let here : taddr ≡ a = ground (arith, get_elem?-snoc ts taddr j, e, is) in
          subst (λ (x : RewardInfo). x.last_reward ≤ℤ b a) same
            (subst (λ x. b taddr ≤ℤ b x) here (omega arith))
      | inr (n, old) ↦ h.backed j ti a old (ground (arith, get_elem?-snoc ts taddr j, n, is))
    ];
  }

  pub IsPriced-add :
      (next : ℕ) → next ≡ length ts + 1 → IsPriced (with_token taddr (b taddr) (length ts) next p)
  IsPriced-add next e = record {
    priced = λ k has.
        ground (arith, r.priced k has, lookup-insert (length ts) k.token_index added p.t_info);
    first = ground (arith, r.first, lookup-insert (length ts) 0 added p.t_info);
    numbered = e ∙ rw (length-append p.tokens (taddr ∷ []), h.tokens) (omega arith);
  }
