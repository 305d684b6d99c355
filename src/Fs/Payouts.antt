-- ===== src/Fs/Payouts.antt =====
-- Payments to providers and to keepers, inside a group's storage contract
-- (server/contract/fs.go, lines 641 to 785).
use mefs_go_settlement.Base.{
  ℕ, ◌+◌, ◌==◌, ◌≡◌, ◌≢◌, refl, arith, if◌then◌else◌, List, [], ◌∷◌, none, some, ℤ, pos, ◌+ℤ◌, ◌-ℤ◌,
  ◌*ℤ◌, ◌/ℤ◌, int_laws, Dict, nat_eq, lookup, lookup-insert, lookup-insert_self, or_zero, Result,
  ok, err, panic, ◌∙◌, modify, resume, methods, inl, inr, Option-cases,
}
use mefs_go_settlement.Base.Keeps.{Keeps, Keeps-modify, Keeps-pure, Keeps-then, keeps_rules}
use mefs_go_settlement.Keys.{MultiKey, key, multi_key_eq}
use mefs_go_settlement.Settlement
use mefs_go_settlement.Settlement.{Settlement}
use mefs_go_settlement.Fs.{FsMgr}
use mefs_go_settlement.Fs.Orders.{credit}
use mefs_go_settlement.Fs.Funds.{
  calc_at, linear_pay, pro_withdraw_due, pay_keeper, due_after, pay_keepers, share_token,
  share_tokens, share_profit,
}
use mefs_go_settlement.Fs.Liability.{obligation, liability, balances_in-insert, accounts_in-insert}

liability-pay_keeper :
    (t token : ℕ) (per : ℤ) (kindex : ℕ) (f : FsMgr)
    → liability t (pay_keeper token per kindex f) ≡ liability t f
unfolding liability pay_keeper credit
liability-pay_keeper t token per kindex f = elim (Option-cases (lookup kindex f.count)) [
  | inl e ↦ rw (e, pay_keeper) refl
  | inr (kc, e) ↦
      let pro = per *ℤ pos kc in
      rw (e, pay_keeper)
        (grind (
          int_laws,
          balances_in-insert t (key kindex token)
              (or_zero (lookup (key kindex token) f.balance) +ℤ pro) f.balance,
          lookup-insert token t (or_zero (lookup token f.t_acc) -ℤ pro) f.t_acc,
        ))
]

liability-pay_keepers :
    (t token : ℕ) (per : ℤ) (ks : List ℕ) (f : FsMgr)
    → liability t (pay_keepers token per ks f) ≡ liability t f
unfolding pay_keepers
liability-pay_keepers t token per [] f = refl
liability-pay_keepers t token per (kindex ∷ ks) f =
    liability-pay_keepers t token per ks (pay_keeper token per kindex f)
    ∙ liability-pay_keeper t token per kindex f

module _ (t : ℕ) (owed : ℤ) where
  abbrev Owes : FsMgr → Type 0
  Owes f = liability t f ≡ owed

  Owes-pay_keepers :
      (token : ℕ) (per : ℤ) (ks : List ℕ) → Keeps Owes (modify (pay_keepers token per ks))
  Owes-pay_keepers token per ks = Keeps-modify _ (λ f h. liability-pay_keepers t token per ks f ∙ h)

  Owes-last_time : (now : ℕ) → Keeps Owes (modify (λ f. record f { last_time = now }))
  Owes-last_time now = Keeps-modify _ (λ f h. unfold liability in h)

  share_token-Owes : (token : ℕ) → Keeps Owes (share_token token)
  unfolding share_token
  share_token-Owes token = search (keeps_rules, Owes-pay_keepers) depth 20

  share_tokens-Owes : (ts : List ℕ) → Keeps Owes (share_tokens ts)
  unfolding share_tokens
  share_tokens-Owes [] = Keeps-pure tt
  share_tokens-Owes (token ∷ ts) =
      Keeps-then (share_token token) (share_tokens ts) (share_token-Owes token)
        (share_tokens-Owes ts)

  share_profit-Owes : (now : ℕ) → Keeps Owes (share_profit now)
  unfolding share_profit
  share_profit-Owes now = search (keeps_rules, share_tokens-Owes, Owes-last_time) depth 20

-- Sharing the keepers' profit moves what is owed from the profit to their balances, and changes
-- nothing of the sum in any token, on success or on error.
pub liability-share_profit :
    (t now : ℕ) (f : FsMgr) → liability t (share_profit now f).1 ≡ liability t f
liability-share_profit t now f = (share_profit-Owes t (liability t f) now).at f refl

-- The calls that keepers have made.
abbrev pub calls : List ℕ → Dict ℕ ℕ → ℕ
calls [] count = 0
calls (kindex ∷ ks) count =
    (elim (lookup kindex count) [ none ↦ 0 | some kc ↦ kc ]) + calls ks count

-- Every keeper has a count.
abbrev pub AllCounted : List ℕ → Dict ℕ ℕ → Type 0
AllCounted [] count = Unit
AllCounted (kindex ∷ ks) count = (lookup kindex count ≢ none) × AllCounted ks count

-- What `calc` pays, and what it leaves to be paid.
abbrev pub paid_of : Result ℤ → ℤ
paid_of (ok paid) = paid
paid_of _ = pos 0

pub obligation-calc :
    (now : ℕ) (pay lost : ℤ) (se : Settlement)
    → obligation (Settlement.calc now pay lost se).1
      ≡ obligation se -ℤ paid_of (Settlement.calc now pay lost se).0
unfolding Settlement.calc methods
obligation-calc now pay lost se = grind int_laws

liability-calc_at :
    (t now : ℕ) (k : MultiKey) (pay lost : ℤ) (se : Settlement) (f : FsMgr)
    → lookup k f.pro_info ≡ some se
    → liability t (calc_at now k pay lost se f).1
      ≡ liability t f
        -ℤ (if k.token_index == t then paid_of (calc_at now k pay lost se f).0 else pos 0)
unfolding liability calc_at
liability-calc_at t now k pay lost se f known =
    let se' = (Settlement.calc now pay lost se).1 in
    grind (int_laws, accounts_in-insert t k se' f.pro_info, obligation-calc now pay lost se)

liability-linear_pay :
    (t : ℕ) (k : MultiKey) (se : Settlement) (f : FsMgr)
    → lookup k f.pro_info ≡ some se
    → lookup k.token_index f.t_acc ≢ none
    → liability t (linear_pay k.token_index k se f).1 ≡ liability t f
unfolding liability linear_pay methods
liability-linear_pay t k se f known met = elim (Option-cases (lookup k.token_index f.t_acc)) [
  | inl e ↦ absurd (met e)
  | inr (acc, e) ↦
      let rest = se.has_paid /ℤ pos 100 *ℤ pos 4 -ℤ se.linear_paid in
      grind (
        int_laws,
        accounts_in-insert t k (record se { linear_paid = se.linear_paid +ℤ rest }) f.pro_info,
        lookup-insert k.token_index t (acc +ℤ rest) f.t_acc,
      )
]

linear_pay_ok :
    (k : MultiKey) (se : Settlement) (f : FsMgr)
    → lookup k.token_index f.t_acc ≢ none
    → ((linear_pay k.token_index k se f).0 ≡ ok tt)
      × ((linear_pay k.token_index k se f).1.balance ≡ f.balance)
unfolding linear_pay methods
linear_pay_ok k se f met = elim (Option-cases (lookup k.token_index f.t_acc)) [
  | inl e ↦ absurd (met e)
  | inr (acc, e) ↦ ground arith
]

due_after_lem :
    (t : ℕ) (k : MultiKey) (paid : ℤ) (se : Settlement) (f : FsMgr)
    → lookup k f.pro_info ≡ some se
    → lookup k.token_index f.t_acc ≢ none
    → ((due_after k paid f).0 ≡ ok (paid +ℤ or_zero (lookup k f.balance)))
      × (liability t (due_after k paid f).1
          ≡ liability t f +ℤ (if k.token_index == t then paid else pos 0))
unfolding due_after methods
due_after_lem t k paid se f known met =
    let (done, same) = linear_pay_ok k se f met in
    rw (known, done)
      (
        rw same refl,
        unfold liability in
            (grind (
              int_laws,
              balances_in-insert t k (paid +ℤ or_zero (lookup k f.balance)) f.balance,
              liability-linear_pay t k se f known met,
              same,
            )),
      )

resume-due_after :
    (t : ℕ) (owed : ℤ) (k : MultiKey) (r : Result ℤ) (se : Settlement) (f : FsMgr)
    → liability t f ≡ owed -ℤ (if k.token_index == t then paid_of r else pos 0)
    → lookup k f.pro_info ≡ some se
    → lookup k.token_index f.t_acc ≢ none
    → liability t (resume r (due_after k) f).1 ≡ owed
unfolding resume
resume-due_after t owed k (ok paid) se f less known met =
    grind (int_laws, less, (due_after_lem t k paid se f known met).1)
resume-due_after t owed k (err e) se f less known met = grind int_laws
resume-due_after t owed k panic se f less known met = grind int_laws

-- Where the contract has an account for the keepers' profit in the token, `ProWithdraw` up to its
-- calls of other contracts changes nothing of what is owed in any token: what the provider is paid
-- goes from its account to its balance, and the keepers' share to their profit; and so it is where
-- the request is refused.
pub liability-pro_withdraw_due :
    (t now pro token : ℕ) (pay lost : ℤ) (f : FsMgr)
    → lookup token f.t_acc ≢ none
    → liability t (pro_withdraw_due now pro token pay lost f).1 ≡ liability t f
unfolding pro_withdraw_due methods
liability-pro_withdraw_due t now pro token pay lost f met =
    let k = key pro token in
    elim (Option-cases (lookup k f.pro_info)) [
      | inl e ↦ rw e refl
      | inr (se, e) ↦ rw e (
          resume-due_after t (liability t f) k (calc_at now k pay lost se f).0
            (Settlement.calc now pay lost se).1 (calc_at now k pay lost se f).1
            (liability-calc_at t now k pay lost se f e)
            (unfold calc_at in lookup-insert_self k _ f.pro_info) (unfold calc_at in met))
    ]
