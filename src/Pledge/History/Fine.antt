-- ===== src/Pledge/History/Fine.antt =====
-- What the steps of the pool keep (server/contract/pledge.go).
use mefs_go_settlement.Base.{
  ℕ, ◌+◌, ◌%◌, ◌^◌, ◌<◌, ◌≡◌, ◌≢◌, nat_eq, refl, sym, ap, ◌∙◌, subst, arith, List, [], ◌∷◌, ◌++◌,
  length, get_elem?, some, ℤ, pos, ◌≤ℤ◌, ok, modify, gets,
}
use mefs_go_settlement.Base.Triple.{Triple, Triple-bind, Triple-guard, Triple-ok}
use mefs_go_settlement.Utils.Key.{Address}
use mefs_go_settlement.Pledge.{PledgeMgr}
use mefs_go_settlement.Pledge.Calls.{add_token}
use mefs_go_settlement.Pledge.Held.{At, Anything, on_pledge-At, balance-At}
use mefs_go_settlement.Pledge.Sound.{Sound}
use mefs_go_settlement.Pledge.Solvency.{IsSolvent, pledge-IsSolvent, withdraw-IsSolvent}
use mefs_go_settlement.Pledge.Receipts.{Sound-grown}
use mefs_go_settlement.Pledge.Priced.{IsPriced}
use mefs_go_settlement.Pledge.Priced.Calls.{PricedAt, pledge-PricedAt, withdraw-PricedAt}
use mefs_go_settlement.Pledge.Additions.{get_elem?-snoc, with_token, Sound-add, IsPriced-add}
use mefs_go_settlement.World.{World, find_pledge, get_token_balance}
use mefs_go_settlement.Pledge.History.{
  Elsewhere, Step, Reach, pledged, withdrawn, token_added, elsewhere, here, next,
}

-- The tokens are at different addresses.
abbrev pub IsDistinct : List Address → Type 0
IsDistinct ts = (j k : ℕ) (a : Address) → get_elem? ts j ≡ some a → get_elem? ts k ≡ some a → j ≡ k

module _ (self : Address) (ps : List ℕ) where
  -- The books of a pool are sound, and every reward is in a token that has a price.
  abbrev Kept : List Address → (Address → ℤ) → PledgeMgr → Type 0
  Kept ts b p = Sound ps ts b p × IsPriced p

  abbrev pub IsKept : List Address → World → Type 0
  IsKept ts w = At self (Kept ts) w

  module _ (ts : List Address) (taddr : Address) where
    abbrev Ready : (Address → ℤ) → PledgeMgr → Type 0
    Ready b p = Kept ts b p × (pos 0 ≤ℤ b taddr)

    next_number : (token : ℕ) → token + 1 < 2 ^ 32 → (token + 1) % 2 ^ 32 ≡ token + 1
    next_number token small = omega (arith, small)

    add_token-At :
        (caller : Address) (token : ℕ)
        → length ts + 1 < 2 ^ 32
        → Triple
            (At self Ready)
            (add_token self caller taddr token)
            (λ _ w. IsKept (ts ++ taddr ∷ []) w)
            (Anything self)
    unfolding add_token gets modify
    add_token-At caller token small =
        Triple-bind _ _ (on_pledge-At self (λ o b p. Ready b p) _ (λ b p h. h)) (λ owner.
          Triple-guard (λ w h. tt) _ _ _
            (λ allowed.
              Triple-bind _ _
                (on_pledge-At self (λ n b p. Ready b p × (p.token ≡ n)) _ (λ b p h. (h, refl)))
                (λ n.
                  Triple-guard (λ w h. tt) _ _ _
                    (λ same. Triple-bind _ _ (balance-At self taddr) (λ bal.
                      on_pledge-At self (λ _ b p. Kept (ts ++ taddr ∷ []) b p) _
                        (λ b p h. added b p token bal n h (ground (arith, same))))))))
      where
        added :
            (b : Address → ℤ) (p : PledgeMgr) (token : ℕ) (bal : ℤ) (n : ℕ)
            → (Ready b p × (p.token ≡ n)) × (bal ≡ b taddr)
            → n ≡ token
            → Kept (ts ++ taddr ∷ []) b (with_token taddr bal token ((token + 1) % 2 ^ 32) p)
        added b p token bal n h same =
            let sound = h.0.0.0.0 in
            let priced = h.0.0.0.1 in
            let number : length ts ≡ token =
              ap length (sym sound.tokens) ∙ sym priced.numbered ∙ h.0.1 ∙ same in
            rw (h.1, sym number)
              (
                Sound-add ps ts taddr b p sound priced h.0.0.1 _,
                IsPriced-add ps ts taddr b p sound priced h.0.0.1 _ (next_number (length ts) small),
              )

  -- ## Every step

  -- The pool is solvent, its rewards are in tokens that have a price, and these are different.
  abbrev pub IsFine : List Address → World → Type 0
  IsFine ts w = IsSolvent self ps ts w × PricedAt self w × IsDistinct ts

  IsDistinct-add :
      (ts : List Address) (taddr : Address)
      → ((j : ℕ) → get_elem? ts j ≢ some taddr)
      → IsDistinct ts
      → IsDistinct (ts ++ taddr ∷ [])
  IsDistinct-add ts taddr absent distinct j k a at at' = ground (
    arith,
    get_elem?-snoc ts taddr j,
    get_elem?-snoc ts taddr k,
    absent j,
    absent k,
    distinct j k a,
    at,
    at',
  )

  add_token-IsFine :
      (ts : List Address) (w : World) (caller taddr : Address) (token : ℕ)
      → length ts + 1 < 2 ^ 32
      → pos 0 ≤ℤ get_token_balance taddr self w
      → ((j : ℕ) → get_elem? ts j ≢ some taddr)
      → (add_token self caller taddr token w).0 ≡ ok tt
      → IsFine ts w
      → IsFine (ts ++ taddr ∷ []) (add_token self caller taddr token w).1
  unfolding find_pledge
  add_token-IsFine ts w caller taddr token small low absent done (h, k, distinct) =
      let ready : At self (Ready ts taddr) w = record {
        pool = h.pool;
        pool_at = h.pool_at;
        holds = ((h.holds, k.kept h.pool h.pool_at), low);
      } in
      let after =
        Triple-ok (IsKept (ts ++ taddr ∷ [])) (Anything self) (add_token self caller taddr token) tt
          (add_token-At ts taddr caller token small) w ready done in
      (
        record { pool = after.pool; pool_at = after.pool_at; holds = after.holds.0 },
        record {
          kept = λ p at.
              let is : after.pool ≡ p = cc (after.pool_at, at) in subst IsPriced is after.holds.1;
        },
        IsDistinct-add ts taddr absent distinct,
      )

  Elsewhere-IsFine :
      (ts : List Address) (w w' : World) → Elsewhere self w w' → IsFine ts w → IsFine ts w'
  unfolding find_pledge
  Elsewhere-IsFine ts w w' x (h, k, distinct) = (
    record {
      pool = h.pool;
      pool_at = x.same_pool ∙ h.pool_at;
      holds = Sound-grown ps ts _ _ h.pool h.holds x.holds;
    },
    record { kept = λ p at. k.kept p (sym x.same_pool ∙ at) },
    distinct,
  )

  Step-IsFine :
      {ts ts' : List Address} {w w' : World}
      → Step self ps ts w ts' w'
      → IsFine ts w
      → IsFine ts' w'
  Step-IsFine (pledged ts w caller addr index money once other done) (h, k, distinct) = (
    pledge-IsSolvent self caller addr ps ts index money w once other h done,
    (pledge-PricedAt self caller addr index money).at w k,
    distinct,
  )
  Step-IsFine (withdrawn ts w caller index token money lock once low done) (h, k, distinct) = (
    withdraw-IsSolvent self caller ps ts index token money lock w once distinct low h done,
    (withdraw-PricedAt self caller index token money lock).at w k,
    distinct,
  )
  Step-IsFine (token_added ts w caller taddr token small low absent done) h =
      add_token-IsFine ts w caller taddr token small low absent done h
  Step-IsFine (elsewhere ts w w' x) h = Elsewhere-IsFine ts w w' x h

  -- Whatever pledges, withdrawals and new tokens go through, in whatever order, and whatever happens in
  -- between that leaves the pool alone and takes none of its tokens: a pool that is solvent is solvent
  -- at the end, in all the tokens that it then has. The roles that pledge or withdraw are among those
  -- counted, once; no pledge comes from the pool itself; no locked pledge is negative; and a token is
  -- added once, with a balance of the pool that is not negative, while there are fewer than 2^32.
  pub Reach-IsFine :
      {ts : List Address} {w : World} {ts' : List Address} {w' : World}
      → Reach self ps ts w ts' w'
      → IsFine ts w
      → IsFine ts' w'
  Reach-IsFine here h = h
  Reach-IsFine (next r s) h = Step-IsFine s (Reach-IsFine r h)
