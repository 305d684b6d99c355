-- ===== src/Fs/Repairs.antt =====
-- server/contract/fs.go, lines 787 to 960: orders that repair what a provider has lost.
use mefs_go_settlement.Base.{
  ℕ, ◌==◌, ltb, leb, add64, not, [], ◌∷◌, ◌++◌, none, some, ℤ, ◌+ℤ◌, ◌-ℤ◌, ltb_ℤ, nat_eq, lookup,
  insert, M, gets, or_throw, or_crash, throw_if, modify, ◌>>=◌, ◌>>◌, err_empty, err_permission,
  err_balance_not_enough, err_nonce, err_input, err_res,
}
use mefs_go_settlement.Utils.Key.{Address}
use mefs_go_settlement.Keys.{MultiKey, key, multi_key_eq}
use mefs_go_settlement.Settlement
use mefs_go_settlement.Settlement.{Settlement, new_settlement}
use mefs_go_settlement.Fs.{FsMgr, FsInfo, AggOrder}
use mefs_go_settlement.Fs.Orders.{
  set_agg, or_new_store, add_store, sub_store, pay_of, share_of, set_settlement, count_call,
  settle_end,
}

-- The repairs by a provider, made if there are none; no channel is opened.
unfoldable pub meet_repairer : (pro : ℕ) → FsInfo → FsInfo
meet_repairer pro fi = elim (lookup pro fi.ao) [
  | some pi ↦ fi
  | none ↦ record fi {
    providers = fi.providers ++ pro ∷ [];
    ao = insert pro (record { nonce = 0; sub_nonce = 0; s_info = []; channel = [] }) fi.ao;
  }
]

abbrev pub set_repair : FsInfo → FsMgr → FsMgr
set_repair fi f = record f { repair_fs = fi }

-- `se.LostPaid.Add` on the account that the map holds.
unfoldable pub pay_loss : MultiKey → ℤ → FsMgr → FsMgr
pay_loss k pay f = elim (lookup k f.pro_info) [
  | none ↦ f
  | some se ↦ set_settlement k (record se { lost_paid = se.lost_paid +ℤ pay }) f
]

-- The accounts of both providers. A repairer with no account gets one, which the source stores under
-- the key `pKey` of the provider that lost the data; that provider's account is dropped, and what is
-- then added to its `LostPaid` with it.
unfoldable pub book_repair :
    (pro newpro start size token : ℕ) (sprice pay manage : ℤ) → FsMgr → FsMgr
unfolding pay_loss
book_repair pro newpro start size token sprice pay manage f =
    elim (lookup (key newpro token) f.pro_info) [
      | none ↦
          set_settlement (key pro token)
            (Settlement.add start size sprice pay manage new_settlement) f
      | some nse ↦
          pay_loss (key pro token) pay
            (set_settlement (key newpro token) (Settlement.add start size sprice pay manage nse) f)
    ]

unfoldable pub add_repair :
    (caller : Address) (kindex pro newpro start end size nonce token : ℕ) (sprice : ℤ)
    → M FsMgr (Unit {0})
unfolding meet_repairer
add_repair caller kindex pro newpro start end size nonce token sprice = do
  throw_if (not (caller == (← gets (λ f. f.owner)))) err_permission
  throw_if (leb size 0) err_input
  or_throw (← gets (λ f. lookup token f.t_acc)) err_empty
  se ← or_throw (← gets (λ f. lookup (key pro token) f.pro_info)) err_empty
  let pay = pay_of start end sprice
  manage ← gets (λ f. share_of f.manage_rate pay)
  throw_if (ltb_ℤ (se.lost -ℤ se.lost_paid) pay) err_balance_not_enough
  fi ← gets (λ f. meet_repairer newpro f.repair_fs)
  modify (set_repair fi)
  pi ← or_crash (lookup newpro fi.ao)
  throw_if (not (pi.nonce == nonce)) err_nonce
  let si = or_new_store (lookup token pi.s_info)
  let pi' : AggOrder = record pi {
    s_info = insert token (add_store size sprice si) pi.s_info;
    nonce = add64 pi.nonce 1;
  }
  modify (set_repair (set_agg newpro pi' fi))
  modify (book_repair pro newpro start size token sprice pay manage)
  modify (count_call kindex)

unfoldable pub sub_repair :
    (now : ℕ) (caller : Address) (kindex pro newpro start end size nonce token : ℕ) (sprice : ℤ)
    → M FsMgr (Unit {0})
sub_repair now caller kindex pro newpro start end size nonce token sprice = do
  throw_if (not (caller == (← gets (λ f. f.owner)))) err_permission
  throw_if (leb size 0) err_input
  throw_if (leb end start) err_input
  throw_if (ltb now end) err_res
  fi ← gets (λ f. f.repair_fs)
  pi ← or_throw (lookup newpro fi.ao) err_empty
  throw_if (not (pi.sub_nonce == nonce)) err_nonce
  si ← or_throw (lookup token pi.s_info) err_empty
  throw_if (ltb si.size size) err_res
  let pi' : AggOrder = record pi { s_info = insert token (sub_store size sprice si) pi.s_info }
  modify (set_repair (set_agg newpro pi' fi))
  settle_end newpro start end size token sprice
  modify (set_repair (set_agg newpro (record pi' { sub_nonce = add64 pi.sub_nonce 1 }) fi))
  modify (count_call kindex)
