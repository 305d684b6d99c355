-- ===== src/Fs/Orders.antt =====
-- server/contract/fs.go, lines 255 to 532: the operations that `roleMgr` calls for orders.
use mefs_go_settlement.Base.{
  ℕ, ◌==◌, ltb, leb, add64, sub64, Bool, true, false, not, [], ◌∷◌, ◌++◌, Option, none, some, ℤ,
  pos, ◌+ℤ◌, ◌-ℤ◌, ◌*ℤ◌, ◌/ℤ◌, ltb_ℤ, nat_eq, lookup, insert, or_zero, M, pure, gets, or_throw,
  or_crash, throw_if, modify, ◌>>=◌, ◌>>◌, err_empty, err_permission, err_exist,
  err_balance_not_enough, err_nonce, err_input, err_res,
}
use mefs_go_settlement.Utils.Key.{Address}
use mefs_go_settlement.Keys.{MultiKey, key, multi_key_eq}
use mefs_go_settlement.Settlement
use mefs_go_settlement.Settlement.{Settlement, new_settlement}
use mefs_go_settlement.Fs.{FsMgr, FsInfo, AggOrder, StoreInfo, new_store_info, new_fs_info}

unfoldable pub add_keeper : (caller : Address) (kindex : ℕ) → M FsMgr (Unit {0})
add_keeper caller kindex = do
  throw_if (not (caller == (← gets (λ f. f.owner)))) err_permission
  modify (λ f. record f {
    keepers = f.keepers ++ kindex ∷ [];
    count = insert kindex 1 f.count;
    total_count = add64 f.total_count 1;
  })

-- `getFsInfo`
unfoldable pub get_fs_info : (user : ℕ) → M FsMgr FsInfo
get_fs_info user = do
  fi ← or_throw (← gets (λ f. lookup user f.fs)) err_empty
  throw_if (not fi.is_active) err_permission
  pure fi

-- A token that the group has not met gets an account for the keepers' profit.
unfoldable pub meet_token : (token : ℕ) → FsMgr → FsMgr
meet_token token f = elim (lookup token f.t_acc) [
  | some acc ↦ f
  | none ↦ record f { t_acc = insert token (pos 0) f.t_acc; tokens = f.tokens ++ token ∷ [] }
]

abbrev pub set_fs : ℕ → FsInfo → FsMgr → FsMgr
set_fs user fi f = record f { fs = insert user fi f.fs }

-- The file system of `user`, made if there is none; its `isActive` is set below.
unfoldable pub open_fs : (user : ℕ) → FsMgr → FsMgr
open_fs user f = elim (lookup user f.fs) [
  | some fi ↦ set_fs user (record fi { is_active = true }) f
  | none ↦ record f { fs = insert user new_fs_info f.fs; users = f.users ++ user ∷ [] }
]

abbrev pub active : Option FsInfo → Bool
active none = false
active (some fi) = fi.is_active

unfoldable pub create_fs : (caller : Address) (user : ℕ) → M FsMgr (Unit {0})
unfolding open_fs meet_token
create_fs caller user = do
  throw_if (not (caller == (← gets (λ f. f.owner)))) err_permission
  throw_if (active (← gets (λ f. lookup user f.fs))) err_exist
  modify (open_fs user)
  modify (meet_token 0)

abbrev pub set_agg : ℕ → AggOrder → FsInfo → FsInfo
set_agg pro pi fi = record fi { ao = insert pro pi fi.ao }

-- The orders of a user with a provider, made if there are none.
unfoldable pub meet_provider : (pro token end : ℕ) → FsInfo → FsInfo
meet_provider pro token end fi = elim (lookup pro fi.ao) [
  | some pi ↦ fi
  | none ↦ record fi {
    providers = fi.providers ++ pro ∷ [];
    ao =
        insert pro
          (record {
            nonce = 0;
            sub_nonce = 0;
            s_info = [];
            channel = (token, record { amount = pos 0; nonce = 0; expire = end }) ∷ [];
          })
          fi.ao;
  }
]

abbrev pub or_new_store : Option StoreInfo → StoreInfo
or_new_store none = new_store_info
or_new_store (some si) = si

abbrev pub or_new_settlement : Option Settlement → Settlement
or_new_settlement none = new_settlement
or_new_settlement (some se) = se

abbrev pub add_store : (size : ℕ) (sprice : ℤ) → StoreInfo → StoreInfo
add_store size sprice si = record si { price = si.price +ℤ sprice; size = add64 si.size size }

abbrev pub sub_store : (size : ℕ) (sprice : ℤ) → StoreInfo → StoreInfo
sub_store size sprice si = record si { price = si.price -ℤ sprice; size = sub64 si.size size }

-- `pay`: what the order costs; and what is charged on top for the keepers and for the foundation.
abbrev pub pay_of : (start end : ℕ) (sprice : ℤ) → ℤ
pay_of start end sprice = pos (sub64 end start) *ℤ sprice

abbrev pub share_of : (rate : ℕ) (pay : ℤ) → ℤ
share_of rate pay = pay /ℤ pos 100 *ℤ pos rate

abbrev pub set_balance : MultiKey → ℤ → FsMgr → FsMgr
set_balance k v f = record f { balance = insert k v f.balance }

unfoldable pub credit : MultiKey → ℤ → FsMgr → FsMgr
credit k v f = set_balance k (or_zero (lookup k f.balance) +ℤ v) f

abbrev pub set_settlement : MultiKey → Settlement → FsMgr → FsMgr
set_settlement k se f = record f { pro_info = insert k se f.pro_info }

-- One more call by a keeper of the group.
unfoldable pub count_call : (kindex : ℕ) → FsMgr → FsMgr
count_call kindex f = elim (lookup kindex f.count) [
  | none ↦ f
  | some cnt ↦ record f {
    count = insert kindex (add64 cnt 1) f.count;
    total_count = add64 f.total_count 1;
  }
]

-- The end of `AddOrder`, from `se.add` on: the provider's account, the foundation's tax, the
-- user's payment and the keeper's call.
unfoldable pub book_order :
    (kindex user pro start size token : ℕ) (sprice pay manage tax : ℤ) → FsMgr → FsMgr
book_order kindex user pro start size token sprice pay manage tax f =
    let k = key pro token in
    let se = or_new_settlement (lookup k f.pro_info) in
    let f₁ = set_settlement k (Settlement.add start size sprice pay manage se) f in
    let f₂ = credit (key f.foundation token) tax f₁ in
    let f₃ = credit (key user token) (pos 0 -ℤ (pay +ℤ manage +ℤ tax)) f₂ in count_call kindex f₃

unfoldable pub add_order :
    (caller : Address) (kindex user pro start end size nonce token : ℕ) (sprice : ℤ)
    → M FsMgr (Unit {0})
unfolding get_fs_info meet_provider
add_order caller kindex user pro start end size nonce token sprice = do
  throw_if (not (caller == (← gets (λ f. f.owner)))) err_permission
  modify (meet_token token)
  ubal ← or_throw (← gets (λ f. lookup (key user token) f.balance)) err_balance_not_enough
  let pay = pay_of start end sprice
  manage ← gets (λ f. share_of f.manage_rate pay)
  tax ← gets (λ f. share_of f.tax_rate pay)
  throw_if (ltb_ℤ ubal (pay +ℤ manage +ℤ tax)) err_balance_not_enough
  fi₀ ← get_fs_info user
  let fi = meet_provider pro token end fi₀
  modify (set_fs user fi)
  pi ← or_crash (lookup pro fi.ao)
  throw_if (not (pi.nonce == nonce)) err_nonce
  let si = or_new_store (lookup token pi.s_info)
  modify (set_fs user (set_agg pro (record pi { s_info = insert token si pi.s_info }) fi))
  throw_if (ltb start si.time) err_input
  let pi' : AggOrder = record pi {
    s_info = insert token (add_store size sprice si) pi.s_info;
    nonce = add64 pi.nonce 1;
  }
  modify (set_fs user (set_agg pro pi' fi))
  modify (book_order kindex user pro start size token sprice pay manage tax)

-- What is left of `SubOrder` and `SubRepair` once the stored size and price are reduced: the
-- provider's account, and the keepers' 1% for an order that has ended.
unfoldable pub settle_end : (pro start end size token : ℕ) (sprice : ℤ) → M FsMgr (Unit {0})
settle_end pro start end size token sprice = do
  let k = key pro token
  se ← or_throw (← gets (λ f. lookup k f.pro_info)) err_empty
  let end_paid = sprice *ℤ pos (sub64 end start) /ℤ pos 100
  let se' = Settlement.sub start end size sprice se
  modify (set_settlement k (record se' { end_paid = se'.end_paid +ℤ end_paid }))
  acc ← or_crash (← gets (λ f. lookup token f.t_acc))
  modify (λ f. record f { t_acc = insert token (acc +ℤ end_paid) f.t_acc })

unfoldable pub sub_order :
    (now : ℕ) (caller : Address) (kindex user pro start end size nonce token : ℕ) (sprice : ℤ)
    → M FsMgr (Unit {0})
unfolding get_fs_info
sub_order now caller kindex user pro start end size nonce token sprice = do
  throw_if (not (caller == (← gets (λ f. f.owner)))) err_permission
  throw_if (leb size 0) err_input
  throw_if (leb end start) err_input
  throw_if (ltb now end) err_res
  fi ← get_fs_info user
  pi ← or_throw (lookup pro fi.ao) err_empty
  throw_if (not (pi.sub_nonce == nonce)) err_nonce
  si ← or_throw (lookup token pi.s_info) err_empty
  throw_if (ltb si.size size) err_res
  let pi' : AggOrder = record pi { s_info = insert token (sub_store size sprice si) pi.s_info }
  modify (set_fs user (set_agg pro pi' fi))
  settle_end pro start end size token sprice
  modify (set_fs user (set_agg pro (record pi' { sub_nonce = add64 pi.sub_nonce 1 }) fi))
  modify (count_call kindex)
