-- ===== src/Fs/Owned.antt =====
-- The methods of server/contract/fs.go, and the owner of the contract.
use mefs_go_settlement.Base.{ℕ, ◌≡◌, ◌∙◌, refl, arith, List, [], ◌∷◌, ℤ, nat_eq, modify, methods}
use mefs_go_settlement.Base.Keeps.{Keeps, Keeps-modify, Keeps-pure, Keeps-then, keeps_rules}
use mefs_go_settlement.Utils.Key.{Address}
use mefs_go_settlement.Keys.{MultiKey, multi_key_eq}
use mefs_go_settlement.Settlement.{Settlement}
use mefs_go_settlement.Fs.{FsMgr, FsInfo}
use mefs_go_settlement.Fs.Orders.{
  credit, set_balance, meet_token, open_fs, set_fs, count_call, book_order, settle_end, add_keeper,
  create_fs, add_order, sub_order, get_fs_info,
}
use mefs_go_settlement.Fs.Repairs.{set_repair, sub_repair}
use mefs_go_settlement.Fs.Funds.{
  pay_keeper, pay_keepers, share_token, share_tokens, share_profit, calc_at, linear_pay, due_after,
  pro_withdraw_due,
}

module _ (owner : Address) where
  abbrev pub Owned : FsMgr → Type 0
  Owned f = f.owner ≡ owner

  pay_keepers-owner :
      (token : ℕ) (per : ℤ) (ks : List ℕ) (f : FsMgr) → (pay_keepers token per ks f).owner ≡ f.owner
  unfolding pay_keepers pay_keeper credit
  pay_keepers-owner token per [] f = refl
  pay_keepers-owner token per (k ∷ ks) f =
      pay_keepers-owner token per ks (pay_keeper token per k f) ∙ ground arith

  Owned-pay_keepers :
      (token : ℕ) (per : ℤ) (ks : List ℕ) → Keeps Owned (modify (pay_keepers token per ks))
  Owned-pay_keepers token per ks = Keeps-modify _ (λ f h. pay_keepers-owner token per ks f ∙ h)

  Owned-last_time : (now : ℕ) → Keeps Owned (modify (λ f. record f { last_time = now }))
  Owned-last_time now = Keeps-modify _ (λ f h. h)

  share_tokens-Owned : (ts : List ℕ) → Keeps Owned (share_tokens ts)
  unfolding share_tokens share_token
  share_tokens-Owned [] = Keeps-pure tt
  share_tokens-Owned (token ∷ ts) =
      Keeps-then (share_token token) (share_tokens ts)
        (search (keeps_rules, Owned-pay_keepers) depth 20) (share_tokens-Owned ts)

  pub share_profit-Owned : (now : ℕ) → Keeps Owned (share_profit now)
  unfolding share_profit
  share_profit-Owned now = search (keeps_rules, share_tokens-Owned, Owned-last_time) depth 20

  calc_at-Owned :
      (now : ℕ) (k : MultiKey) (pay lost : ℤ) (se : Settlement)
      → Keeps Owned (calc_at now k pay lost se)
  unfolding calc_at
  calc_at-Owned now k pay lost se = record { at = λ f h. h }

  linear_pay-Owned :
      (token : ℕ) (k : MultiKey) (se : Settlement) → Keeps Owned (linear_pay token k se)
  unfolding linear_pay methods
  linear_pay-Owned token k se = record { at = λ f h. ground arith }

  Owned-set_balance : (k : MultiKey) (v : ℤ) → Keeps Owned (modify (set_balance k v))
  Owned-set_balance k v = Keeps-modify _ (λ f h. h)

  pub pro_withdraw_due-Owned :
      (now pro token : ℕ) (pay lost : ℤ) → Keeps Owned (pro_withdraw_due now pro token pay lost)
  unfolding pro_withdraw_due due_after
  pro_withdraw_due-Owned now pro token pay lost =
      search (keeps_rules, calc_at-Owned, linear_pay-Owned, Owned-set_balance) depth 20

  -- ## The orders

  Owned-meet_token : (token : ℕ) → Keeps Owned (modify (meet_token token))
  Owned-meet_token token = Keeps-modify _ (λ f h. unfold meet_token in ground (arith, h))

  Owned-open_fs : (user : ℕ) → Keeps Owned (modify (open_fs user))
  Owned-open_fs user = Keeps-modify _ (λ f h. unfold open_fs in ground (arith, h))

  Owned-set_fs : (user : ℕ) (fi : FsInfo) → Keeps Owned (modify (set_fs user fi))
  Owned-set_fs user fi = Keeps-modify _ (λ f h. h)

  Owned-set_repair : (fi : FsInfo) → Keeps Owned (modify (set_repair fi))
  Owned-set_repair fi = Keeps-modify _ (λ f h. h)

  count_call-owner : (kindex : ℕ) (f : FsMgr) → (count_call kindex f).owner ≡ f.owner
  unfolding count_call
  count_call-owner kindex f = ground arith

  Owned-count_call : (kindex : ℕ) → Keeps Owned (modify (count_call kindex))
  Owned-count_call kindex = Keeps-modify _ (λ f h. count_call-owner kindex f ∙ h)

  Owned-book_order :
      (kindex user pro start size token : ℕ) (sprice pay manage tax : ℤ)
      → Keeps Owned (modify (book_order kindex user pro start size token sprice pay manage tax))
  unfolding book_order credit
  Owned-book_order kindex user pro start size token sprice pay manage tax =
      Keeps-modify _ (λ f h. count_call-owner kindex _ ∙ h)

  settle_end-Owned :
      (pro start end size token : ℕ) (sprice : ℤ)
      → Keeps Owned (settle_end pro start end size token sprice)
  unfolding settle_end methods
  settle_end-Owned pro start end size token sprice = record { at = λ f h. ground (arith, h) }

  ruleset owned_rules = (
    keeps_rules, Owned-meet_token, Owned-open_fs, Owned-set_fs, Owned-set_repair, Owned-count_call,
    Owned-book_order, settle_end-Owned,
  )

  pub add_keeper-Owned : (caller : Address) (kindex : ℕ) → Keeps Owned (add_keeper caller kindex)
  unfolding add_keeper methods
  add_keeper-Owned caller kindex = record { at = λ f h. ground (arith, h) }

  pub create_fs-Owned : (caller : Address) (user : ℕ) → Keeps Owned (create_fs caller user)
  unfolding create_fs
  create_fs-Owned caller user = search owned_rules depth 20

  pub add_order-Owned :
      (caller : Address) (kindex user pro start end size nonce token : ℕ) (sprice : ℤ)
      → Keeps Owned (add_order caller kindex user pro start end size nonce token sprice)
  unfolding add_order get_fs_info
  add_order-Owned caller kindex user pro start end size nonce token sprice =
      search owned_rules depth 40

  pub sub_order-Owned :
      (now : ℕ) (caller : Address) (kindex user pro start end size nonce token : ℕ) (sprice : ℤ)
      → Keeps Owned (sub_order now caller kindex user pro start end size nonce token sprice)
  unfolding sub_order get_fs_info
  sub_order-Owned now caller kindex user pro start end size nonce token sprice =
      search owned_rules depth 40

  pub sub_repair-Owned :
      (now : ℕ) (caller : Address) (kindex pro newpro start end size nonce token : ℕ) (sprice : ℤ)
      → Keeps Owned (sub_repair now caller kindex pro newpro start end size nonce token sprice)
  unfolding sub_repair
  sub_repair-Owned now caller kindex pro newpro start end size nonce token sprice =
      search owned_rules depth 40
