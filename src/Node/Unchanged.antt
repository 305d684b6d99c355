-- ===== src/Node/Unchanged.antt =====
-- The state of the server after a query (server/impl/node/node.go and erc.go).
use mefs_go_settlement.Base.{
  ℕ, suc, ℤ, pos, ◌≡◌, refl, sym, ap, subst, ◌∙◌, arith, Option, none, some, Option-cases, inl, inr,
  List, [], ◌∷◌, lookup, nat_eq, insert-same, M, gets, pure,
}
use mefs_go_settlement.Base.Keeps.{Keeps, Keeps-bind, keeps_rules}
use mefs_go_settlement.Utils.Key.{Address}
use mefs_go_settlement.Erc.{ErcToken}
use mefs_go_settlement.Fs.{FsMgr}
use mefs_go_settlement.Fs.Funds
use mefs_go_settlement.Fs.Funds.{with_profit}
use mefs_go_settlement.Pledge.{PledgeMgr, RewardInfo}
use mefs_go_settlement.Pledge.Calls
use mefs_go_settlement.Pledge.Calls.{owed_all, owed_to, get_pledge}
use mefs_go_settlement.Role.{
  RoleMgr, address_at, get_index, get_token_address, get_token_index, get_info_addr,
  get_group_info_any,
}
use mefs_go_settlement.World.{
  World, Object, erc_token, pledge_mgr, role_mgr, fs_mgr, find_erc, find_pledge, find_role, find_fs,
  store, on_erc, on_pledge, on_role, on_fs, get_pledge_pool, get_fs_mgr,
}
use mefs_go_settlement.Node.{Server, on_world, on_manager}
use mefs_go_settlement.Node.Queries.{
  Query, nonce_of, index_of, addr_of, info_of, token_index_of, token_address_of, group_info_of,
  balance_in_pool, settle_info, balance_in_fs, pledge_address, foundation, keeper_pledge,
  provider_pledge, pledge_balance, all_tokens, all_addrs, all_groups, supply_of, balance_of_owner,
  allowance_of, fs_of, settle_info_of, balance_in_fs_of, balance_at, pledge_balance_at, erc_view,
  ask,
}

-- `s` and no other state.
abbrev Still : {S : Type 0} → S → S → Type 0
Still s s' = s' ≡ s

store-same : (a : Address) (o : Object) (w : World) → lookup a w.objects ≡ some o → store a o w ≡ w
store-same a o w h = ap (λ d. record w { objects = d }) (insert-same a o w.objects h)

module _ {A : Type 0} (a : Address) (w : World) where
  on_role-Still :
      (m : M RoleMgr A) → ((x : RoleMgr) → Keeps (Still x) m) → Keeps (Still w) (on_role a m)
  unfolding on_role
  on_role-Still m k = record {
    at = λ w' e.
        subst (λ v. (on_role a m v).1 ≡ w) (sym e)
          (elim (Option-cases (find_role a w)) [
            | inl n ↦ rw (n, on_role) refl
            | inr (x, at) ↦
                rw (at, on_role)
                  (ap (λ y. store a (role_mgr y) w) ((k x).at x refl)
                    ∙ store-same a (role_mgr x) w (role_at x at))
          ]);
  }
    where
      role_at : (x : RoleMgr) → find_role a w ≡ some x → lookup a w.objects ≡ some (role_mgr x)
      role_at x at = unfold find_role in ground (arith, at)

  on_pledge-Still :
      (m : M PledgeMgr A) → ((x : PledgeMgr) → Keeps (Still x) m) → Keeps (Still w) (on_pledge a m)
  unfolding on_pledge
  on_pledge-Still m k = record {
    at = λ w' e.
        subst (λ v. (on_pledge a m v).1 ≡ w) (sym e)
          (elim (Option-cases (find_pledge a w)) [
            | inl n ↦ rw (n, on_pledge) refl
            | inr (x, at) ↦
                rw (at, on_pledge)
                  (ap (λ y. store a (pledge_mgr y) w) ((k x).at x refl)
                    ∙ store-same a (pledge_mgr x) w (pledge_at x at))
          ]);
  }
    where
      pledge_at :
          (x : PledgeMgr) → find_pledge a w ≡ some x → lookup a w.objects ≡ some (pledge_mgr x)
      pledge_at x at = unfold find_pledge in ground (arith, at)

  on_fs-Still : (m : M FsMgr A) → ((x : FsMgr) → Keeps (Still x) m) → Keeps (Still w) (on_fs a m)
  unfolding on_fs
  on_fs-Still m k = record {
    at = λ w' e.
        subst (λ v. (on_fs a m v).1 ≡ w) (sym e)
          (elim (Option-cases (find_fs a w)) [
            | inl n ↦ rw (n, on_fs) refl
            | inr (x, at) ↦
                rw (at, on_fs)
                  (ap (λ y. store a (fs_mgr y) w) ((k x).at x refl)
                    ∙ store-same a (fs_mgr x) w (fs_at x at))
          ]);
  }
    where
      fs_at : (x : FsMgr) → find_fs a w ≡ some x → lookup a w.objects ≡ some (fs_mgr x)
      fs_at x at = unfold find_fs in ground (arith, at)

  on_erc-Still :
      (m : M ErcToken A) → ((x : ErcToken) → Keeps (Still x) m) → Keeps (Still w) (on_erc a m)
  unfolding on_erc
  on_erc-Still m k = record {
    at = λ w' e.
        subst (λ v. (on_erc a m v).1 ≡ w) (sym e)
          (elim (Option-cases (find_erc a w)) [
            | inl n ↦ rw (n, on_erc) refl
            | inr (x, at) ↦
                rw (at, on_erc)
                  (ap (λ y. store a (erc_token y) w) ((k x).at x refl)
                    ∙ store-same a (erc_token x) w (erc_at x at))
          ]);
  }
    where
      erc_at : (x : ErcToken) → find_erc a w ≡ some x → lookup a w.objects ≡ some (erc_token x)
      erc_at x at = unfold find_erc in ground (arith, at)

-- ## The getters

module _ (r : RoleMgr) where
  get_index-Still : (addr : Address) → Keeps (Still r) (get_index addr)
  unfolding get_index
  get_index-Still addr = search keeps_rules depth 40

  get_info_addr-Still : (index : ℕ) → Keeps (Still r) (get_info_addr index)
  unfolding get_info_addr address_at
  get_info_addr-Still index = search keeps_rules depth 40

  get_token_index-Still : (addr : Address) → Keeps (Still r) (get_token_index addr)
  unfolding get_token_index
  get_token_index-Still addr = search keeps_rules depth 40

  get_token_address-Still : (index : ℕ) → Keeps (Still r) (get_token_address index)
  unfolding get_token_address
  get_token_address-Still index = search keeps_rules depth 40

  get_group_info-Still : (index : ℕ) → Keeps (Still r) (get_group_info_any index)
  unfolding get_group_info_any
  get_group_info-Still index = search keeps_rules depth 40

fs_balance-Still :
    (f : FsMgr) (now index token : ℕ) → Keeps (Still f) (Funds.get_balance now index token)
unfolding Funds.get_balance
fs_balance-Still f now index token = search (keeps_rules, profit) depth 40
  where
    profit :
        (total : ℕ) (avail lock : ℤ) (kc : Option ℕ)
        → Keeps (Still f) (with_profit now token total avail lock kc)
    profit total avail lock none = unfold with_profit in search keeps_rules depth 40
    profit total avail lock (some k) = unfold with_profit in search keeps_rules depth 40

ruleset still_rules = (
  keeps_rules, on_role-Still, on_pledge-Still, on_fs-Still, on_erc-Still, get_index-Still,
  get_info_addr-Still, get_token_index-Still, get_token_address-Still, get_group_info-Still,
  fs_balance-Still,
)

module _ (w : World) where
  pool_known : (a : Address) → Keeps (Still w) (get_pledge_pool a)
  unfolding get_pledge_pool
  pool_known a = search keeps_rules depth 40

  fs_known : (a : Address) → Keeps (Still w) (get_fs_mgr a)
  unfolding get_fs_mgr
  fs_known a = search keeps_rules depth 40

  fs_of-Still : (self : Address) (index : ℕ) → Keeps (Still w) (fs_of self index)
  unfolding fs_of
  fs_of-Still self index = search (still_rules, fs_known) depth 60

  settle_info_of-Still :
      (self : Address) (index token : ℕ) → Keeps (Still w) (settle_info_of self index token)
  unfolding settle_info_of
  settle_info_of-Still self index token = search (still_rules, fs_of-Still) depth 60

  balance_in_fs_of-Still :
      (self : Address) (index token : ℕ) → Keeps (Still w) (balance_in_fs_of self index token)
  unfolding balance_in_fs_of
  balance_in_fs_of-Still self index token = search (still_rules, fs_of-Still) depth 60

  owed_all-Still :
      (self : Address) (index : ℕ) (amount : ℤ) (i : ℕ) (ts : List Address)
      → Keeps (Still w) (owed_all self index amount i ts)
  unfolding owed_all
  owed_all-Still self index amount i [] = search still_rules depth 40
  owed_all-Still self index amount i (taddr ∷ ts) =
      Keeps-bind _ _ (search still_rules depth 40) (λ ti.
        Keeps-bind _ _ (search still_rules depth 40) (λ bal.
          Keeps-bind _ _ (search still_rules depth 40) (λ val.
            Keeps-bind _ _ (owed_all-Still self index amount (suc i) ts)
              (λ rest. search still_rules depth 40))))

  owed_to-Still :
      (self : Address) (index : ℕ) (ts : List Address) (p0 : Option RewardInfo)
      → Keeps (Still w) (owed_to self index ts p0)
  unfolding owed_to
  owed_to-Still self index ts none = search still_rules depth 40
  owed_to-Still self index ts (some p0) = owed_all-Still self index p0.last_reward 0 ts

  balance_at-Still : (self : Address) (index : ℕ) → Keeps (Still w) (balance_at self index)
  unfolding balance_at Calls.get_balance
  balance_at-Still self index = search (still_rules, pool_known, owed_to-Still) depth 60

  pledge_balance_at-Still : (self : Address) → Keeps (Still w) (pledge_balance_at self)
  unfolding pledge_balance_at
  pledge_balance_at-Still self = search (still_rules, answer) depth 60
    where
      answer :
          (pool : Address) (found : Option PledgeMgr)
          → Keeps {A = List ℤ}
              (Still w)
              (elim found [ none ↦ pure [] | some p ↦ gets (get_pledge pool p.tokens) ])
      answer pool none = search keeps_rules depth 40
      answer pool (some p) = search keeps_rules depth 40

module _ (s : Server) where
  on_world-Still :
      {A : Type 0} (m : M World A)
      → ((w : World) → Keeps (Still w) m)
      → Keeps (Still s) (on_world m)
  unfolding on_world
  on_world-Still m k = record {
    at = λ s' e.
        subst (λ v. (on_world m v).1 ≡ s) (sym e)
          (ap (λ w. record s { world = w }) ((k s.world).at s.world refl));
  }

  on_manager-Still :
      {A : Type 0} (m : Address → M World A)
      → ((self : Address) (w : World) → Keeps (Still w) (m self))
      → Keeps (Still s) (on_manager m)
  unfolding on_manager
  on_manager-Still m k = search (keeps_rules, on_world-Still, k) depth 40

  erc_view-Still : (taddr : Address) (view : ErcToken → ℤ) → Keeps (Still s) (erc_view taddr view)
  unfolding erc_view
  erc_view-Still taddr view = Keeps-bind _ _ (search keeps_rules depth 10) answer
    where
      answer :
          (found : Option Address)
          → Keeps {A = ℤ}
              (Still s)
              (elim found [ none ↦ pure (pos 0) | some a ↦ on_world (on_erc a (gets view)) ])
      answer none = search keeps_rules depth 10
      answer (some a) = search (still_rules, on_world-Still) depth 20

ask-Still : (q : Query) (s : Server) → Keeps (Still s) (ask q)
unfolding ask
ask-Still (nonce_of addr) s = search keeps_rules depth 10
ask-Still (index_of addr) s = on_manager-Still s _ (λ self w. search still_rules depth 30)
ask-Still (addr_of index) s = on_manager-Still s _ (λ self w. search still_rules depth 30)
ask-Still (info_of index) s = on_manager-Still s _ (λ self w. search still_rules depth 30)
ask-Still (token_index_of taddr) s = on_manager-Still s _ (λ self w. search still_rules depth 30)
ask-Still (token_address_of index) s = on_manager-Still s _ (λ self w. search still_rules depth 30)
ask-Still (group_info_of g_index) s = on_manager-Still s _ (λ self w. search still_rules depth 30)
ask-Still pledge_address s = on_manager-Still s _ (λ self w. search still_rules depth 30)
ask-Still foundation s = on_manager-Still s _ (λ self w. search still_rules depth 30)
ask-Still keeper_pledge s = on_manager-Still s _ (λ self w. search still_rules depth 30)
ask-Still provider_pledge s = on_manager-Still s _ (λ self w. search still_rules depth 30)
ask-Still all_tokens s = on_manager-Still s _ (λ self w. search still_rules depth 30)
ask-Still all_addrs s = on_manager-Still s _ (λ self w. search still_rules depth 30)
ask-Still all_groups s = on_manager-Still s _ (λ self w. search still_rules depth 30)
ask-Still (balance_in_pool index) s = on_manager-Still s _ (λ self w. balance_at-Still w self index)
ask-Still (settle_info index token) s =
    on_manager-Still s _ (λ self w. settle_info_of-Still w self index token)
ask-Still (balance_in_fs index token) s =
    on_manager-Still s _ (λ self w. balance_in_fs_of-Still w self index token)
ask-Still pledge_balance s = on_manager-Still s _ (λ self w. pledge_balance_at-Still w self)
ask-Still (supply_of taddr) s = erc_view-Still s taddr _
ask-Still (balance_of_owner taddr owner) s = erc_view-Still s taddr _
ask-Still (allowance_of taddr owner spender) s = erc_view-Still s taddr _

-- No query changes the node or a contract, whatever its result is.
pub ask_unchanged : (q : Query) (s : Server) → (ask q s).1 ≡ s
ask_unchanged q s = (ask-Still q s).at s refl
