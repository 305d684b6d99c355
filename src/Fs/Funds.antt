-- ===== src/Fs/Funds.antt =====
-- server/contract/fs.go, lines 548 to 785: balances and payments, as far as the contract's own state
-- goes. `World.Funds` joins them to the token contract.
use mefs_go_settlement.Base.{
  ℕ, ltb, leb, sub64, if◌then◌else◌, List, [], ◌∷◌, Option, none, some, ℤ, pos, ◌+ℤ◌, ◌-ℤ◌, ◌*ℤ◌,
  ◌/ℤ◌, ltb_ℤ, nat_eq, lookup, insert, or_zero, M, pure, gets, or_throw, or_crash, read_or_crash,
  read_or_throw, throw_if, modify, ◌>>=◌, ◌>>◌, err_empty, err_res,
}
use mefs_go_settlement.Keys.{MultiKey, key, multi_key_eq}
use mefs_go_settlement.Settlement
use mefs_go_settlement.Settlement.{Settlement}
use mefs_go_settlement.Fs.{FsMgr}
use mefs_go_settlement.Fs.Orders.{set_balance, credit, set_settlement}

-- `GetSettleInfo`; nil is `none`.
unfoldable pub get_settle_info : (index token : ℕ) → FsMgr → Option Settlement
get_settle_info index token f = lookup (key index token) f.pro_info

-- What `GetBalance` counts as locked for a provider.
unfoldable pub locked : (now : ℕ) → Option Settlement → ℤ
locked now none = pos 0
locked now (some se) =
    let can_pay = se.can_pay +ℤ pos (sub64 now se.time) *ℤ se.price in
    let hardlimit = se.max_pay -ℤ se.lost in
    (if ltb_ℤ hardlimit can_pay then hardlimit else can_pay) -ℤ se.has_paid

-- The part of `GetBalance` for a keeper, who has made `kc` of the `total` calls. The profit needs an
-- account for the token, whose absence is a nil dereference.
unfoldable pub with_profit : (now token total : ℕ) (avail lock : ℤ) → Option ℕ → M FsMgr (ℤ × ℤ)
with_profit now token total avail lock none = pure (avail, lock)
with_profit now token total avail lock (some kc) = do
  acc ← or_crash (← gets (λ f. lookup token f.t_acc))
  let pro = acc /ℤ pos total *ℤ pos kc
  due ← gets (λ f. leb f.period (sub64 now f.last_time))
  pure (if due then (avail +ℤ pro, lock) else (avail, lock +ℤ pro))

-- `GetBalance`: what is available, and what is locked.
unfoldable pub get_balance : (now index token : ℕ) → M FsMgr (ℤ × ℤ)
unfolding locked with_profit
get_balance now index token = do
  avail ← gets (λ f. or_zero (lookup (key index token) f.balance))
  lock ← gets (λ f. locked now (lookup (key index token) f.pro_info))
  total ← gets (λ f. f.total_count)
  kc ← gets (λ f. if leb total 0 then none else lookup index f.count)
  with_profit now token total avail lock kc

-- One keeper's part of the profit in one token.
unfoldable pub pay_keeper : (token : ℕ) (per : ℤ) (kindex : ℕ) → FsMgr → FsMgr
unfolding credit
pay_keeper token per kindex f = elim (lookup kindex f.count) [
  | none ↦ record f { count = insert kindex 1 f.count }
  | some kc ↦
      let pro = per *ℤ pos kc in
      let f' = credit (key kindex token) pro f in
      record f' { t_acc = insert token (or_zero (lookup token f'.t_acc) -ℤ pro) f'.t_acc }
]

unfoldable pub pay_keepers : (token : ℕ) (per : ℤ) → List ℕ → FsMgr → FsMgr
unfolding pay_keeper
pay_keepers token per [] f = f
pay_keepers token per (kindex ∷ ks) f = pay_keepers token per ks (pay_keeper token per kindex f)

-- The profit in one token.
unfoldable pub share_token : (token : ℕ) → M FsMgr (Unit {0})
share_token token = do
  acc ← or_throw (← gets (λ f. lookup token f.t_acc)) err_empty
  total ← gets (λ f. f.total_count)
  ks ← gets (λ f. f.keepers)
  modify (pay_keepers token (acc /ℤ pos total) ks)

unfoldable pub share_tokens : List ℕ → M FsMgr (Unit {0})
unfolding share_token
share_tokens [] = pure tt
share_tokens (token ∷ ts) = share_token token >> share_tokens ts

-- What `Withdraw` does first for a keeper: share the keepers' profit, once a period.
unfoldable pub share_profit : (now : ℕ) → M FsMgr (Unit {0})
share_profit now = do
  due ← gets (λ f. ltb f.period (sub64 now f.last_time))
  if due
      then (do
        throw_if (leb (← gets (λ f. f.total_count)) 0) err_res
        share_tokens (← gets (λ f. f.tokens))
        modify (λ f. record f { last_time = now }))
      else pure tt

-- The keepers' linear share of what a provider has been paid, in `ProWithdraw`.
unfoldable pub linear_pay : (token : ℕ) (k : MultiKey) (se : Settlement) → M FsMgr (Unit {0})
linear_pay token k se =
    let lpay = se.has_paid /ℤ pos 100 *ℤ pos 4 in
    if ltb_ℤ se.linear_paid lpay
    then (do
      let rest = lpay -ℤ se.linear_paid
      modify (set_settlement k (record se { linear_paid = se.linear_paid +ℤ rest }))
      acc ← or_crash (← gets (λ f. lookup token f.t_acc))
      modify (λ f. record f { t_acc = insert token (acc +ℤ rest) f.t_acc }))
    else pure tt

-- `se.calc`, on the account that the map holds.
unfoldable pub calc_at : (now : ℕ) (k : MultiKey) (pay lost : ℤ) (se : Settlement) → M FsMgr ℤ
calc_at now k pay lost se f =
    let (r, se') = Settlement.calc now pay lost se in (r, set_settlement k se' f)

-- `ProWithdraw` from the keepers' share on: `paid` is put on the provider's balance.
unfoldable pub due_after : (k : MultiKey) (paid : ℤ) → M FsMgr ℤ
due_after k paid = do
  linear_pay k.token_index k (← read_or_crash (λ f. lookup k f.pro_info))
  due ← gets (λ f. paid +ℤ or_zero (lookup k f.balance))
  modify (set_balance k due)
  pure due

-- `ProWithdraw` before it calls other contracts: what is due to the provider, which is put on its
-- balance.
unfoldable pub pro_withdraw_due : (now pro token : ℕ) (pay lost : ℤ) → M FsMgr ℤ
pro_withdraw_due now pro token pay lost = do
  let k = key pro token
  se ← read_or_throw (λ f. lookup k f.pro_info) err_empty
  paid ← calc_at now k pay lost se
  due_after k paid
