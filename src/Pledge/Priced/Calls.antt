-- ===== src/Pledge/Priced/Calls.antt =====
-- The calls of server/contract/pledge.go, and the prices and rewards of the pool at an address.
use mefs_go_settlement.Base.{
  ℕ, suc, ◌≡◌, refl, subst, List, [], ◌∷◌, Option-cases, inl, inr, ℤ, nat_eq, M,
}
use mefs_go_settlement.Base.Keeps.{
  Keeps, Keeps-pure, Keeps-then, Keeps-bind, Keeps-gets, keeps_rules,
}
use mefs_go_settlement.Utils.Key.{Address}
use mefs_go_settlement.Role.{RoleMgr}
use mefs_go_settlement.Pledge.{PledgeMgr}
use mefs_go_settlement.Pledge.Calls.{settle_all, settle_some, settle_if, pay_out, pledge, withdraw}
use mefs_go_settlement.Pledge.Priced.{
  IsPriced, settle-IsPriced, meet_pledger-IsPriced, book_pledge-IsPriced, book_payout-IsPriced,
  book_total-IsPriced,
}
use mefs_go_settlement.World.{
  World, as_pledge, find_pledge, on_pledge, on_role, send_balance, send_balance_from,
}
use mefs_go_settlement.World.Kept.{
  KeptAt, stored, Keeps-on_role, Keeps-call_token, get_role_mgr-KeptAt,
}

-- The pool at `self`, if there is one, is priced.
abbrev pub PricedAt : Address → World → Type 0
PricedAt self = KeptAt as_pledge IsPriced self

module _ (self : Address) where
  on_pledge-PricedAt :
      {A : Type 0} (m : M PledgeMgr A) → Keeps IsPriced m → Keeps (PricedAt self) (on_pledge self m)
  unfolding on_pledge find_pledge
  on_pledge-PricedAt m k = record {
    at = λ w h. elim (Option-cases (find_pledge self w)) [
      | inl e ↦ rw (e, on_pledge) h
      | inr (p, e) ↦
          rw (e, on_pledge)
            (stored as_pledge IsPriced self self _ w
              (λ q same at. let is : (m p).1 ≡ q = cc at in subst IsPriced is (k.at p (h.kept p e)))
              h)
    ];
  }

  on_role-PricedAt :
      {A : Type 0} (a : Address) (m : M RoleMgr A) → Keeps (PricedAt self) (on_role a m)
  on_role-PricedAt a m = Keeps-on_role as_pledge IsPriced self a m (λ r. refl)

  send-PricedAt :
      (t caller to : Address) (money : ℤ) → Keeps (PricedAt self) (send_balance t caller to money)
  unfolding send_balance
  send-PricedAt t caller to money = Keeps-call_token as_pledge IsPriced self t _ (λ e. refl)

  send_from-PricedAt :
      (t caller from to : Address) (money : ℤ)
      → Keeps (PricedAt self) (send_balance_from t caller from to money)
  unfolding send_balance_from
  send_from-PricedAt t caller from to money =
      Keeps-call_token as_pledge IsPriced self t _ (λ e. refl)

  ruleset priced_rules = (
    keeps_rules, on_pledge-PricedAt, on_role-PricedAt, send-PricedAt, send_from-PricedAt,
    get_role_mgr-KeptAt, settle-IsPriced, meet_pledger-IsPriced, book_pledge-IsPriced,
    book_payout-IsPriced, book_total-IsPriced,
  )

  settle_all-PricedAt :
      (index : ℕ) (amount total : ℤ) (i : ℕ) (ts : List Address)
      → Keeps (PricedAt self) (settle_all self index amount total i ts)
  unfolding settle_all
  settle_all-PricedAt index amount total i [] = Keeps-pure tt
  settle_all-PricedAt index amount total i (t ∷ ts) =
      Keeps-bind _ _ (search priced_rules depth 10) (λ ti. Keeps-bind _ _ (Keeps-gets _) (λ bal.
        Keeps-then _ _ (on_pledge-PricedAt _ (settle-IsPriced index i bal amount total ti _))
          (settle_all-PricedAt index amount total (suc i) ts)))

  settle_some-PricedAt :
      (index token : ℕ) (amount total : ℤ) (i : ℕ) (ts : List Address)
      → Keeps (PricedAt self) (settle_some self index token amount total i ts)
  unfolding settle_some
  settle_some-PricedAt index token amount total i [] = Keeps-pure tt
  settle_some-PricedAt index token amount total i (t ∷ ts) =
      Keeps-then _ _ (search priced_rules depth 20)
        (settle_some-PricedAt index token amount total (suc i) ts)

  pub pledge-PricedAt :
      (caller addr : Address) (index : ℕ) (money : ℤ)
      → Keeps (PricedAt self) (pledge self caller addr index money)
  unfolding pledge
  pledge-PricedAt caller addr index money = search (priced_rules, settle_all-PricedAt) depth 60

  pub withdraw-PricedAt :
      (caller : Address) (index token : ℕ) (money lock : ℤ)
      → Keeps (PricedAt self) (withdraw self caller index token money lock)
  unfolding withdraw settle_if pay_out
  withdraw-PricedAt caller index token money lock =
      search (priced_rules, settle_some-PricedAt) depth 60
