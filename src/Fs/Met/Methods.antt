-- ===== src/Fs/Met/Methods.antt =====
-- The methods of server/contract/fs.go, and the tokens that a group's storage contract has met.
use mefs_go_settlement.Base.{
  ℕ, ◌≡◌, ◌≢◌, refl, arith, List, [], ◌∷◌, none, sub64, ℤ, pos, ◌+ℤ◌, ◌-ℤ◌, ◌*ℤ◌, ◌/ℤ◌, nat_eq,
  lookup, insert, M, resume, ◌>>=◌, ◌>>◌, modify, methods, inl, inr, Option-cases,
}
use mefs_go_settlement.Base.Keeps.{Keeps, Keeps-modify, Keeps-pure, Keeps-then, keeps_rules}
use mefs_go_settlement.Utils.Key.{Address}
use mefs_go_settlement.Keys.{MultiKey, key, multi_key_eq}
use mefs_go_settlement.Settlement
use mefs_go_settlement.Settlement.{Settlement}
use mefs_go_settlement.Fs.{FsMgr, FsInfo}
use mefs_go_settlement.Fs.Orders.{
  add_keeper, create_fs, open_fs, meet_token, credit, set_balance, set_settlement, count_call,
  book_order, set_fs, add_order, or_new_settlement, settle_end, sub_order, get_fs_info,
}
use mefs_go_settlement.Fs.Repairs.{set_repair, sub_repair}
use mefs_go_settlement.Fs.Funds.{
  pay_keepers, share_token, share_tokens, share_profit, calc_at, linear_pay, due_after,
  pro_withdraw_due,
}
use mefs_go_settlement.Fs.Met.{
  Met, Quiet, Met-same, Met-account, Met-meet_token, met-meet_token, known-insert, meet_token-Quiet,
  credit-Quiet, count_call-Quiet, open_fs-Quiet, pay_keepers-Quiet,
}

Met-Quiet : (g : FsMgr → FsMgr) → Quiet g → Keeps Met (modify g)
Met-Quiet g q = Keeps-modify g (λ f h. Met-same f (g f) (q f).0 (q f).1 h)

-- ## The operations

pub Met-meet : (token : ℕ) → Keeps Met (modify (meet_token token))
Met-meet token = Met-Quiet _ (meet_token-Quiet token)

Met-set_fs : (user : ℕ) (fi : FsInfo) → Keeps Met (modify (set_fs user fi))
Met-set_fs user fi = Met-Quiet _ (λ f. (refl, λ t h. h))

Met-set_repair : (fi : FsInfo) → Keeps Met (modify (set_repair fi))
Met-set_repair fi = Met-Quiet _ (λ f. (refl, λ t h. h))

pub Met-set_balance : (k : MultiKey) (v : ℤ) → Keeps Met (modify (set_balance k v))
Met-set_balance k v = Met-Quiet _ (λ f. (refl, λ t h. h))

pub Met-credit : (k : MultiKey) (v : ℤ) → Keeps Met (modify (credit k v))
Met-credit k v = Met-Quiet _ (credit-Quiet k v)

Met-count_call : (kindex : ℕ) → Keeps Met (modify (count_call kindex))
Met-count_call kindex = Met-Quiet _ (count_call-Quiet kindex)

Met-open_fs : (user : ℕ) → Keeps Met (modify (open_fs user))
Met-open_fs user = Met-Quiet _ (open_fs-Quiet user)

Met-pay_keepers :
    (token : ℕ) (per : ℤ) (ks : List ℕ) → Keeps Met (modify (pay_keepers token per ks))
Met-pay_keepers token per ks = Met-Quiet _ (pay_keepers-Quiet token per ks)

Met-last_time : (now : ℕ) → Keeps Met (modify (λ f. record f { last_time = now }))
Met-last_time now = Met-Quiet _ (λ f. (refl, λ t h. h))

ruleset met_rules = (
  keeps_rules, Met-meet, Met-set_fs, Met-set_repair, Met-set_balance, Met-credit, Met-count_call,
  Met-open_fs, Met-pay_keepers, Met-last_time,
)

pub add_keeper-Met : (caller : Address) (kindex : ℕ) → Keeps Met (add_keeper caller kindex)
unfolding add_keeper methods
add_keeper-Met caller kindex = record { at = λ f h. ground (arith, h) }

pub create_fs-Met : (caller : Address) (user : ℕ) → Keeps Met (create_fs caller user)
unfolding create_fs
create_fs-Met caller user = search met_rules depth 20

share_tokens-Met : (ts : List ℕ) → Keeps Met (share_tokens ts)
unfolding share_tokens share_token
share_tokens-Met [] = Keeps-pure tt
share_tokens-Met (token ∷ ts) =
    Keeps-then (share_token token) (share_tokens ts) (search met_rules depth 20)
      (share_tokens-Met ts)

pub share_profit-Met : (now : ℕ) → Keeps Met (share_profit now)
unfolding share_profit
share_profit-Met now = search (met_rules, share_tokens-Met) depth 20

-- ## The operations that write accounts

settle_end-Met :
    (pro start end size token : ℕ) (sprice : ℤ)
    → Keeps Met (settle_end pro start end size token sprice)
unfolding settle_end methods
settle_end-Met pro start end size token sprice = record { at = λ f h. kept f h }
  where
    kept : (f : FsMgr) → Met f → Met (settle_end pro start end size token sprice f).1
    kept f h = elim (Option-cases (lookup (key pro token) f.pro_info)) [
      | inl e ↦ rw e h
      | inr (se, e) ↦ elim (Option-cases (lookup token f.t_acc)) [
        | inl e' ↦ absurd (h (key pro token) (λ none_at. cc) e')
        | inr (acc, e') ↦
            let end_paid = sprice *ℤ pos (sub64 end start) /ℤ pos 100 in
            let se' = Settlement.sub start end size sprice se in
            let k = key pro token in
            let f' = set_settlement k (record se' { end_paid = se'.end_paid +ℤ end_paid }) f in
            rw (e, e')
              (Met-same f' (record f' { t_acc = insert token (acc +ℤ end_paid) f'.t_acc }) refl
                (λ t. known-insert t token (acc +ℤ end_paid) f.t_acc)
                (Met-account f k _ (λ none_at. cc) h))
      ]
    ]

pub sub_order-Met :
    (now : ℕ) (caller : Address) (kindex user pro start end size nonce token : ℕ) (sprice : ℤ)
    → Keeps Met (sub_order now caller kindex user pro start end size nonce token sprice)
unfolding sub_order get_fs_info
sub_order-Met now caller kindex user pro start end size nonce token sprice =
    search (met_rules, settle_end-Met) depth 40

pub sub_repair-Met :
    (now : ℕ) (caller : Address) (kindex pro newpro start end size nonce token : ℕ) (sprice : ℤ)
    → Keeps Met (sub_repair now caller kindex pro newpro start end size nonce token sprice)
unfolding sub_repair
sub_repair-Met now caller kindex pro newpro start end size nonce token sprice =
    search (met_rules, settle_end-Met) depth 40

module _ (token : ℕ) where
  -- And `token` has been met.
  abbrev MetToken : FsMgr → Type 0
  MetToken f = Met f × (lookup token f.t_acc ≢ none)

  Quiet-MetToken : (g : FsMgr → FsMgr) (f : FsMgr) → Quiet g → MetToken f → MetToken (g f)
  Quiet-MetToken g f q h = (Met-same f (g f) (q f).0 (q f).1 h.0, (q f).1 token h.1)

  MetToken-Quiet : (g : FsMgr → FsMgr) → Quiet g → Keeps MetToken (modify g)
  MetToken-Quiet g q = Keeps-modify g (λ f. Quiet-MetToken g f q)

  MetToken-set_fs : (user : ℕ) (fi : FsInfo) → Keeps MetToken (modify (set_fs user fi))
  MetToken-set_fs user fi = MetToken-Quiet _ (λ f. (refl, λ t h. h))

  MetToken-set_balance : (k : MultiKey) (v : ℤ) → Keeps MetToken (modify (set_balance k v))
  MetToken-set_balance k v = MetToken-Quiet _ (λ f. (refl, λ t h. h))

  MetToken-profit :
      (v : ℤ) → Keeps MetToken (modify (λ f. record f { t_acc = insert token v f.t_acc }))
  MetToken-profit v = MetToken-Quiet _ (λ f. (refl, λ t. known-insert t token v f.t_acc))

  MetToken-account :
      (k : MultiKey) (se : Settlement)
      → k.token_index ≡ token
      → Keeps MetToken (modify (set_settlement k se))
  MetToken-account k se same = Keeps-modify _ (λ f h. (Met-account f k se (rw same h.1) h.0, h.1))

  MetToken-calc_at :
      (now : ℕ) (pro : ℕ) (pay lost : ℤ) (se : Settlement)
      → Keeps MetToken (calc_at now (key pro token) pay lost se)
  unfolding calc_at
  MetToken-calc_at now pro pay lost se = record {
    at = λ f h. (Met-account f (key pro token) _ h.1 h.0, h.1);
  }

  MetToken-book_order :
      (kindex user pro start size : ℕ) (sprice pay manage tax : ℤ)
      → Keeps MetToken (modify (book_order kindex user pro start size token sprice pay manage tax))
  unfolding book_order
  MetToken-book_order kindex user pro start size sprice pay manage tax = Keeps-modify _ (λ f h.
      let se = or_new_settlement (lookup (key pro token) f.pro_info) in
      let se' = Settlement.add start size sprice pay manage se in
      let f₁ = set_settlement (key pro token) se' f in
      let f₂ = credit (key f.foundation token) tax f₁ in
      let paid = pos 0 -ℤ (pay +ℤ manage +ℤ tax) in
      let h₁ : MetToken f₁ = (Met-account f (key pro token) se' h.1 h.0, h.1) in
      let h₂ =
        Quiet-MetToken (credit (key f.foundation token) tax) f₁
          (credit-Quiet (key f.foundation token) tax) h₁ in
      let h₃ =
        Quiet-MetToken (credit (key user token) paid) f₂ (credit-Quiet (key user token) paid) h₂ in
      Quiet-MetToken (count_call kindex) (credit (key user token) paid f₂) (count_call-Quiet kindex)
        h₃)

  ruleset token_rules = (
    keeps_rules, MetToken-set_fs, MetToken-set_balance, MetToken-profit, MetToken-account, refl,
    MetToken-calc_at, MetToken-book_order,
  )

  meet-then :
      (m : M FsMgr (Unit {0})) → Keeps MetToken m → Keeps Met (modify (meet_token token) >> m)
  unfolding modify ◌>>◌ resume
  meet-then m k = record {
    at = λ f h. (k.at (meet_token token f) (Met-meet_token token f h, met-meet_token token f)).0;
  }

  pub add_order-Met :
      (caller : Address) (kindex user pro start end size nonce : ℕ) (sprice : ℤ)
      → Keeps Met (add_order caller kindex user pro start end size nonce token sprice)
  unfolding add_order get_fs_info
  add_order-Met caller kindex user pro start end size nonce sprice =
      search (meet-then, token_rules) depth 60

  due-MetToken :
      (now pro : ℕ) (pay lost : ℤ) (se : Settlement)
      → Keeps MetToken (calc_at now (key pro token) pay lost se >>= due_after (key pro token))
  unfolding due_after linear_pay
  due-MetToken now pro pay lost se = search token_rules depth 60

  pub pro_withdraw_due-Met :
      (now pro : ℕ) (pay lost : ℤ) → Keeps Met (pro_withdraw_due now pro token pay lost)
  unfolding pro_withdraw_due methods resume
  pro_withdraw_due-Met now pro pay lost = record { at = λ f h. kept f h }
    where
      kept : (f : FsMgr) → Met f → Met (pro_withdraw_due now pro token pay lost f).1
      kept f h = elim (Option-cases (lookup (key pro token) f.pro_info)) [
        | inl e ↦ rw e h
        | inr (se, e) ↦
            rw e ((due-MetToken now pro pay lost se).at f (h, h (key pro token) (λ none_at. cc))).0
      ]
