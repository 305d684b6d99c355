-- ===== src/Fs/Calls.antt =====
-- server/contract/fs.go: the operations of a group's storage contract that call other contracts, and
-- its constructor. `self` is the address of the contract, `f.local`.
use mefs_go_settlement.Base.{
  ℕ, zero, suc, ◌+◌, ◌/◌, ◌%◌, ◌==◌, ltb, if◌then◌else◌, not, ◌||◌, List, [], ◌∷◌, ◌++◌, length, ℤ,
  pos, ◌-ℤ◌, ltb_ℤ, nat_eq, lookup, or_zero, M, pure, gets, throw_if, modify, ◌>>=◌, ◌>>◌,
  err_input, err_permission,
}
use mefs_go_settlement.Utils.Key.{Address, Crypto, get_contract_address}
use mefs_go_settlement.Keys.{key, multi_key_eq}
use mefs_go_settlement.Fs.{FsMgr, new_fs_info, count_keepers}
use mefs_go_settlement.Fs.Orders.{meet_token, set_balance, credit}
use mefs_go_settlement.Fs.Funds.{share_profit, pro_withdraw_due}
use mefs_go_settlement.Role.{
  BaseInfo, role_keeper, get_info_addr, get_token_address, get_group_info_any,
}
use mefs_go_settlement.World.{
  World, fs_mgr, get_time, get_role_mgr, on_role, on_fs, store, send_balance, send_balance_from,
}

-- `strconv.FormatUint(n, 10)`, as bytes. A uint64 has at most 20 digits.
unfoldable pub decimal : ℕ → ℕ → List ℕ
decimal zero n = []
decimal (suc k) n =
    let rest = decimal k (n / 10) in (if ltb n 10 then [] else rest) ++ (b'0' + n % 10) ∷ []

-- The bytes that tell the contract of one group from that of another.
unfoldable pub fs_method : Crypto → ℕ → List ℕ
unfolding decimal
fs_method c g_index = c.sum256 (b'F' ∷ b's' ∷ b'M' ∷ b'g' ∷ b'r' ∷ decimal 20 g_index)

unfoldable pub new_fs : (local caller : Address) (founder g_index now : ℕ) → List ℕ → FsMgr
unfolding count_keepers
new_fs local caller founder g_index now keepers = record {
  local = local;
  owner = caller;
  manage_rate = 4;
  tax_rate = 1;
  g_index = g_index;
  foundation = founder;
  balance = [];
  penalty = [];
  users = [];
  fs = [];
  repair_fs = new_fs_info;
  keepers = keepers;
  period = 1;
  last_time = now;
  t_acc = [];
  total_count = length keepers;
  count = count_keepers keepers [];
  providers = [];
  pro_info = [];
  tokens = [];
}

-- `NewFsMgr`, which returns the address of the contract that it puts in the table.
unfoldable pub new_fs_mgr : Crypto → (caller : Address) (founder g_index : ℕ) → M World Address
unfolding new_fs fs_method
new_fs_mgr c caller founder g_index = do
  get_role_mgr caller
  gi ← on_role caller (get_group_info_any g_index)
  let local = get_contract_address c caller (fs_method c g_index)
  now ← gets get_time
  modify (store local (fs_mgr (new_fs local caller founder g_index now gi.keepers)))
  pure local

unfoldable pub recharge :
    (self caller addr : Address) (index token : ℕ) (money : ℤ) → M World (Unit {0})
recharge self caller addr index token money = do
  owner ← on_fs self (gets (λ f. f.owner))
  throw_if (not (caller == owner)) err_permission
  get_role_mgr owner
  t_addr ← on_role owner (get_token_address token)
  on_fs self (modify (meet_token token))
  send_balance_from t_addr self addr self money
  on_fs self (modify (credit (key index token) money))

-- What a withdrawal of `amount` from `bal` takes: all of it, if nothing or too much is asked for.
abbrev pub taken : (amount bal : ℤ) → ℤ
taken amount bal =
    if not (ltb_ℤ amount (pos 0) || ltb_ℤ (pos 0) amount) || ltb_ℤ bal amount then bal else amount

unfoldable pub share_if_keeper : (self : Address) → BaseInfo → M World (Unit {0})
unfolding share_profit
share_if_keeper self ki =
    if ki.role_type == role_keeper
    then (do now ← gets get_time; on_fs self (share_profit now))
    else pure tt

unfoldable pub withdraw :
    (self caller : Address) (index token : ℕ) (amount : ℤ) → M World (Unit {0})
unfolding share_if_keeper
withdraw self caller index token amount = do
  throw_if (ltb_ℤ amount (pos 0)) err_input
  owner ← on_fs self (gets (λ f. f.owner))
  get_role_mgr owner
  found ← on_role owner (get_info_addr index)
  share_if_keeper self found.0
  let k = key index token
  bal ← on_fs self (gets (λ f. or_zero (lookup k f.balance)))
  on_fs self (modify (set_balance k bal))
  t_addr ← on_role owner (get_token_address token)
  send_balance t_addr self found.1 (taken amount bal)
  on_fs self (modify (set_balance k (bal -ℤ taken amount bal)))

unfoldable pub pro_withdraw :
    (self caller : Address) (pro token : ℕ) (pay lost : ℤ) → M World (Unit {0})
unfolding pro_withdraw_due
pro_withdraw self caller pro token pay lost = do
  now ← gets get_time
  this_pay ← on_fs self (pro_withdraw_due now pro token pay lost)
  owner ← on_fs self (gets (λ f. f.owner))
  get_role_mgr owner
  found ← on_role owner (get_info_addr pro)
  t_addr ← on_role owner (get_token_address token)
  send_balance t_addr self found.1 this_pay
  on_fs self (modify (credit (key pro token) (pos 0 -ℤ this_pay)))
