-- ===== src/Pledge/Priced.antt =====
-- The rewards that the pool records, and the tokens that it has a price for (server/contract/pledge.go).
pub mod Calls
use mefs_go_settlement.Base.{
  ℕ, ◌==◌, ◌≡◌, ◌≢◌, refl, ap, arith, subst, List, [], ◌∷◌, length, Option, none, some,
  Option-cases, inl, inr, ℤ, nat_eq, lookup, insert, lookup-insert, lookup-insert_self, M, modify,
  methods, resume,
}
use mefs_go_settlement.Base.Keeps.{Keeps, Keeps-modify, keeps_rules}
use mefs_go_settlement.Keys.{MultiKey, key, multi_key_eq}
use mefs_go_settlement.Pledge.{PledgeMgr, RewardInfo}
use mefs_go_settlement.Pledge.Calls.{
  settle, meet_pledger, book_pledge, book_payout, book_total, token_info,
}

-- Every reward is in a token with a price, the pledged token has one, and the next token's number is
-- the number of tokens.
pub record IsPriced (p : PledgeMgr) : Type 0 where
  pub priced : (k : MultiKey) → lookup k p.amount ≢ none → lookup k.token_index p.t_info ≢ none
  pub first : lookup 0 p.t_info ≢ none
  pub numbered : p.token ≡ length p.tokens

-- A price is written, and a reward in that token.
IsPriced-write :
    (index j : ℕ) (e ti : RewardInfo) (p : PledgeMgr) (t : ℤ)
    → IsPriced p
    → IsPriced (record p {
      t_info = insert j ti p.t_info;
      amount = insert (key index j) e p.amount;
      total_pledge = t;
    })
IsPriced-write index j e ti p t h = record {
  priced = λ k has. ground (
    arith,
    has,
    h.priced k,
    lookup-insert j k.token_index ti p.t_info,
    lookup-insert (key index j) k e p.amount,
  );
  first = ground (arith, h.first, lookup-insert j 0 ti p.t_info);
  numbered = h.numbered;
}

pub settle-IsPriced :
    (index i : ℕ) (bal amount total : ℤ) (ti fresh : RewardInfo)
    → Keeps IsPriced (modify (settle index i bal amount total ti fresh))
unfolding settle
settle-IsPriced index i bal amount total ti fresh =
    Keeps-modify _ (λ p h. IsPriced-write index i _ _ p p.total_pledge h)

-- A reward is written, in a token that has a price.
IsPriced-reward :
    (index j : ℕ) (e : RewardInfo) (p : PledgeMgr)
    → lookup j p.t_info ≢ none
    → IsPriced p
    → IsPriced (record p { amount = insert (key index j) e p.amount })
IsPriced-reward index j e p known h = record {
  priced =
      λ k has. ground (arith, has, known, h.priced k, lookup-insert (key index j) k e p.amount);
  first = h.first;
  numbered = h.numbered;
}

pub meet_pledger-IsPriced :
    (index : ℕ) (t0 : RewardInfo) → Keeps IsPriced (modify (meet_pledger index t0))
unfolding meet_pledger
meet_pledger-IsPriced index t0 = Keeps-modify _ (λ p h.
    elim (Option-cases (lookup (key index 0) p.amount)) [
      | inl e ↦ rw (e, meet_pledger) (IsPriced-reward index 0 _ p h.first h)
      | inr (rew, e) ↦ rw (e, meet_pledger) h
    ])

pub book_pledge-IsPriced :
    (index : ℕ) (amount money : ℤ) (t0 p0 : RewardInfo)
    → Keeps IsPriced (modify (book_pledge index amount money t0 p0))
unfolding book_pledge
book_pledge-IsPriced index amount money t0 p0 =
    Keeps-modify _ (λ p h. IsPriced-write index 0 _ _ p _ h)

-- A price is written.
IsPriced-price :
    (j : ℕ) (ti : RewardInfo) (p : PledgeMgr)
    → IsPriced p
    → IsPriced (record p { t_info = insert j ti p.t_info })
IsPriced-price j ti p h = record {
  priced = λ k has. ground (arith, h.priced k has, lookup-insert j k.token_index ti p.t_info);
  first = ground (arith, h.first, lookup-insert j 0 ti p.t_info);
  numbered = h.numbered;
}

pub book_payout-IsPriced :
    (index token : ℕ) (paid : ℤ) → Keeps IsPriced (book_payout index token paid)
unfolding book_payout methods resume
book_payout-IsPriced index token paid = record { at = λ p h. booked p h }
  where
    booked : (p : PledgeMgr) → IsPriced p → IsPriced (book_payout index token paid p).1
    booked p h = elim (Option-cases (lookup token p.t_info)) [
      | inl e ↦ rw e h
      | inr (ti, e) ↦ elim (Option-cases (lookup (key index token) p.amount)) [
        | inl e' ↦ rw (e, e') (IsPriced-price token _ p h)
        | inr (pi, e') ↦ rw (e, e') (IsPriced-write index token _ _ p p.total_pledge h)
      ]
    ]

pub book_total-IsPriced :
    (index token : ℕ) (amount : ℤ) → Keeps IsPriced (book_total index token amount)
unfolding book_total
book_total-IsPriced index token amount = search (keeps_rules, total-IsPriced) depth 20
  where
    total-IsPriced :
        (v : PledgeMgr → ℤ) → Keeps IsPriced (modify (λ p. record p { total_pledge = v p }))
    total-IsPriced v =
        Keeps-modify _ (λ p h. record { priced = h.priced; first = h.first; numbered = h.numbered })
