-- ===== src/Fs/Met.antt =====
-- The tokens of the accounts that providers have with a group's storage contract
-- (server/contract/fs.go): which of them have an account for the keepers' profit.
pub mod Methods
pub mod Calls
use mefs_go_settlement.Base.{
  ℕ, ◌≡◌, ◌≢◌, refl, sym, subst, ◌∙◌, arith, List, [], ◌∷◌, Option, none, some, sub64, ℤ, pos, ◌+ℤ◌,
  ◌-ℤ◌, ◌*ℤ◌, ◌/ℤ◌, Dict, nat_eq, lookup, insert, M, resume, ◌>>=◌, ◌>>◌, lookup-insert,
  lookup-insert_self, modify, methods, inl, inr, Option-cases,
}
use mefs_go_settlement.Base.Keeps.{Keeps, Keeps-modify, Keeps-pure, Keeps-then, keeps_rules}
use mefs_go_settlement.Base.Triple.{Triple, Triple-then, Triple-throw_if, Triple-any, Triple-always}
use mefs_go_settlement.Utils.Key.{Address}
use mefs_go_settlement.Keys.{MultiKey, key, multi_key_eq}
use mefs_go_settlement.Settlement
use mefs_go_settlement.Settlement.{Settlement}
use mefs_go_settlement.Fs.{FsMgr, FsInfo}
use mefs_go_settlement.Fs.Orders.{
  add_keeper, create_fs, open_fs, meet_token, credit, set_balance, set_settlement, count_call,
  book_order, set_fs, add_order, or_new_settlement, settle_end, sub_order, get_fs_info,
}
use mefs_go_settlement.Fs.Repairs.{set_repair, sub_repair}
use mefs_go_settlement.Fs.Funds.{
  pay_keeper, pay_keepers, share_token, share_tokens, share_profit, calc_at, linear_pay, due_after,
  pro_withdraw_due,
}

-- The token of every account has been met.
abbrev pub Met : FsMgr → Type 0
Met f = (k : MultiKey) → lookup k f.pro_info ≢ none → lookup k.token_index f.t_acc ≢ none

pub known-insert :
    {V : Type 0} (j k : ℕ) (v : V) (d : Dict ℕ V)
    → lookup j d ≢ none
    → lookup j (insert k v d) ≢ none
known-insert j k v d h = ground (arith, lookup-insert k j v d, h)

known-inserted : {V : Type 0} (k : ℕ) (v : V) (d : Dict ℕ V) → lookup k (insert k v d) ≢ none
known-inserted k v d e = cc (lookup-insert_self k v d)

-- ## The writes

-- A write that leaves the accounts alone and drops no token.
pub Met-same :
    (f g : FsMgr)
    → g.pro_info ≡ f.pro_info
    → ((t : ℕ) → lookup t f.t_acc ≢ none → lookup t g.t_acc ≢ none)
    → Met f
    → Met g
Met-same f g same more h k has = more k.token_index (h k (rw (sym same) has))

-- A write that gives an account to a token that has been met.
pub Met-account :
    (f : FsMgr) (k : MultiKey) (se : Settlement)
    → lookup k.token_index f.t_acc ≢ none
    → Met f
    → Met (set_settlement k se f)
Met-account f k se met h j has = ground (arith, lookup-insert k j se f.pro_info, met, h j, has)

kept-meet_token :
    (token t : ℕ) (f : FsMgr) → lookup t f.t_acc ≢ none → lookup t (meet_token token f).t_acc ≢ none
unfolding meet_token
kept-meet_token token t f h = ground (arith, lookup-insert token t (pos 0) f.t_acc, h)

pub Met-meet_token : (token : ℕ) (f : FsMgr) → Met f → Met (meet_token token f)
Met-meet_token token f h =
    Met-same f (meet_token token f) (unfold meet_token in ground arith)
      (λ t. kept-meet_token token t f) h

pub met-meet_token : (token : ℕ) (f : FsMgr) → lookup token (meet_token token f).t_acc ≢ none
unfolding meet_token
met-meet_token token f = ground (arith, lookup-insert_self token (pos 0) f.t_acc)

-- A write that leaves the accounts alone and drops no token.
abbrev pub Quiet : (FsMgr → FsMgr) → Type 0
Quiet g =
    (f : FsMgr)
    → ((g f).pro_info ≡ f.pro_info)
      × ((t : ℕ) → lookup t f.t_acc ≢ none → lookup t (g f).t_acc ≢ none)

pub meet_token-Quiet : (token : ℕ) → Quiet (meet_token token)
meet_token-Quiet token f = (unfold meet_token in ground arith, λ t. kept-meet_token token t f)

pub credit-Quiet : (k : MultiKey) (v : ℤ) → Quiet (credit k v)
unfolding credit
credit-Quiet k v f = (refl, λ t h. h)

pub count_call-Quiet : (kindex : ℕ) → Quiet (count_call kindex)
unfolding count_call
count_call-Quiet kindex f = (ground arith, λ t h. ground (arith, h))

pub open_fs-Quiet : (user : ℕ) → Quiet (open_fs user)
unfolding open_fs
open_fs-Quiet user f = (ground arith, λ t h. ground (arith, h))

pay_keeper-Quiet : (token : ℕ) (per : ℤ) (kindex : ℕ) → Quiet (pay_keeper token per kindex)
unfolding pay_keeper credit
pay_keeper-Quiet token per kindex f = elim (Option-cases (lookup kindex f.count)) [
  | inl e ↦ rw (e, pay_keeper) (refl, λ t h. h)
  | inr (kc, e) ↦ rw (e, pay_keeper) (refl, λ t. known-insert t token _ f.t_acc)
]

pub pay_keepers-Quiet : (token : ℕ) (per : ℤ) (ks : List ℕ) → Quiet (pay_keepers token per ks)
unfolding pay_keepers
pay_keepers-Quiet token per [] f = (refl, λ t h. h)
pay_keepers-Quiet token per (k ∷ ks) f =
    let first = pay_keeper-Quiet token per k f in
    let rest = pay_keepers-Quiet token per ks (pay_keeper token per k f) in
    (rest.0 ∙ first.0, λ t h. rest.1 t (first.1 t h))
