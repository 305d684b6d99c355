-- ===== src/Role/Issuance/Sent.antt =====
-- The settlement of an order with the sending of its reward (server/contract/role.go, lines 796 to 886).
use mefs_go_settlement.Base.{
  ℕ, ◌*◌, ◌≤◌, ◌<◌, ◌≡◌, refl, sym, ap, ◌∙◌, arith, word, Option, none, some, Option-cases, inl,
  inr, List, ◌∷◌, ℤ, nat_eq, lookup-insert, lookup-insert_self, M, ok, gets, modify, read_or_crash,
  or_crash, resume, ◌>>=◌,
}
use mefs_go_settlement.Base.Triple.{
  Triple, Triple-any, Triple-weaken, Triple-pure, Triple-bind, Triple-then, Triple-ok,
}
use mefs_go_settlement.Utils.Key.{Address}
use mefs_go_settlement.Erc
use mefs_go_settlement.Erc.{ErcToken}
use mefs_go_settlement.Role.{RoleMgr}
use mefs_go_settlement.Role.Mint.{mint_until, mint_order}
use mefs_go_settlement.Role.Orders.{issue, send_reward}
use mefs_go_settlement.Role.Issuance.{Order}
use mefs_go_settlement.Role.Issuance.Counted.{Counts, IsLevel, remembered, mint_order-Counts}
use mefs_go_settlement.World.{
  World, role_mgr, erc_token, find_role, find_erc, on_role, on_erc, call_token, send_balance,
  get_time, store,
}

module _ (self : Address) where
  -- The registry at `self`.
  abbrev Is : RoleMgr → World → Type 0
  Is r w = find_role self w ≡ some r

  abbrev Anything : World → Type 0
  Anything w = Unit

  stored : (r : RoleMgr) (w : World) → Is r (store self (role_mgr r) w)
  unfolding find_role
  stored r w = rw (lookup-insert_self self (role_mgr r) w.objects) refl

  -- Whatever the result is, the registry is `r'` afterwards.
  always :
      {A : Type 0} (r r' : RoleMgr) (m : M World A)
      → ((w : World) → Is r w → Is r' (m w).1)
      → Triple (Is r) m (λ _ w. Is r' w) Anything
  always r r' m k = Triple-weaken _ (λ _ _. tt) (Triple-any _ k)

  on_role-Is :
      {A : Type 0} (r r' : RoleMgr) (m : M RoleMgr A)
      → (m r).1 ≡ r'
      → Triple (Is r) (on_role self m) (λ _ w. Is r' w) Anything
  unfolding on_role
  on_role-Is r r' m same = always r r' _ (λ w h. rw (h, on_role) (rw same (stored r' w)))

  -- A token is another contract.
  send-Is :
      (r : RoleMgr) (t caller to : Address) (money : ℤ)
      → Triple (Is r) (send_balance t caller to money) (λ _ w. Is r w) Anything
  unfolding send_balance call_token on_erc find_role find_erc
  send-Is r t caller to money = always r r _ (λ w h. elim (Option-cases (find_erc t w)) [
    | inl e ↦ rw (e, call_token) h
    | inr (x, e) ↦
        rw (e, call_token)
          (rw (e, on_erc)
            (ground (
              arith,
              h,
              e,
              lookup-insert t self (erc_token (Erc.transfer caller to money x).1) w.objects,
            )))
  ])

  read_same : {A : Type 0} (view : RoleMgr → Option A) (r : RoleMgr) → (read_or_crash view r).1 ≡ r
  unfolding read_or_crash or_crash
  read_same view r = elim (Option-cases (view r)) [ inl e ↦ rw e refl | inr (a, e) ↦ rw e refl ]

  send_reward-Is :
      (n : ℕ) (reward : Option ℤ) (r : RoleMgr)
      → Triple (Is r) (send_reward self n reward) (λ _ w. Is (remembered reward n r) w) Anything
  unfolding send_reward gets modify
  send_reward-Is n none r = Triple-pure tt
  send_reward-Is n (some a) r = Triple-bind _ _ (on_role-Is r r _ (read_same _ r)) (λ taddr.
      Triple-bind _ _ (on_role-Is r r _ refl) (λ pool.
        Triple-then _ _ (send-Is r taddr self pool a)
          (on_role-Is r (record r { last_mint = n }) _ refl)))

  issue_sends :
      (g start end size n : ℕ) (sprice : ℤ) (r : RoleMgr) (reward : Option ℤ) (w : World)
      → Is r w
      → (mint_order (get_time w) g start end size sprice r).0 ≡ ok (reward, n)
      → issue self g start end size 0 sprice w
        ≡ send_reward self n reward
            (store self (role_mgr (mint_order (get_time w) g start end size sprice r).1) w)
  unfolding issue on_role gets ◌>>=◌ resume
  issue_sends g start end size n sprice r reward w at done = rw (at, on_role) (rw done refl)

  -- The part of `AddOrder` for the first token, with the sending of the reward to the pool. Where the
  -- registry counts some orders as they are, its level of issuance is one of the table's, the times do
  -- not wrap, the new order ends at a midnight after the time up to which the order settles, and the call
  -- succeeds, the registry counts these orders and the new one afterwards, and has that time as the time
  -- of its last settlement.
  pub issue-Counts :
      (os : List Order) (g start k size : ℕ) (sprice : ℤ) (r : RoleMgr) (w : World)
      → find_role self w ≡ some r
      → Counts os r
      → IsLevel r
      → r.last_mint ≤ get_time w
      → get_time w < word
      → mint_until (get_time w) r.last_mint < k * 86400
      → (issue self g start (k * 86400) size 0 sprice w).0 ≡ ok tt
      → (r' : RoleMgr) × (find_role self (issue self g start (k * 86400) size 0 sprice w).1
          ≡ some r')
        × (r'.last_mint ≡ mint_until (get_time w) r.last_mint)
        × Counts
            (record { since = mint_until (get_time w) r.last_mint; last_day = k; price = sprice }
              ∷ os)
            r'
  issue-Counts os g start k size sprice r w at h level before small open_still sent =
      let n = mint_until (get_time w) r.last_mint in
      let settled = (mint_order (get_time w) g start (k * 86400) size sprice r).1 in
      let (reward, done, in_time, counts) =
        mint_order-Counts os (get_time w) g start k size sprice r h before small level open_still in
      let is = issue_sends g start (k * 86400) size n sprice r reward w at done in
      let w' = store self (role_mgr settled) w in
      (
        remembered reward n settled,
        rw is (
            Triple-ok (Is (remembered reward n settled)) Anything _ tt
              (send_reward-Is n reward settled) w' (stored settled w)
              (ap (λ x. x.0) (sym is) ∙ sent)),
        in_time,
        counts,
      )
