-- ===== src/Pledge/Tests.antt =====
-- The pool on concrete calls.
mod Histories
use mefs_go_settlement.Base.{
  ◌≡◌, refl, subst, arith, true, some, none, pos, ◌+ℤ◌, ◌-ℤ◌, ◌*ℤ◌, ◌/ℤ◌, ◌≤ℤ◌, ℕ, [], ◌∷◌,
  get_elem?, nat_eq, inl, ok, zero, suc, lookup, insert, methods,
}
use mefs_go_settlement.Utils.Key.{
  Address, Crypto, to_address, bytes_to_address, number, bytes, get_contract_address,
}
use mefs_go_settlement.Keys.{key, multi_key_eq}
use mefs_go_settlement.Erc
use mefs_go_settlement.Erc.{ErcToken, balance_of, two_key_eq}
use mefs_go_settlement.Role.{RoleMgr, get_info_addr}
use mefs_go_settlement.Role.Groups.{new_role, new_account}
use mefs_go_settlement.Pledge.{RewardInfo, PledgeMgr}
use mefs_go_settlement.Pledge.Calls.{
  new_pledge, new_pledge_mgr, pool_method, pledge, withdraw, owed,
}
use mefs_go_settlement.Pledge.Shares.{stake, total, Once}
use mefs_go_settlement.Pledge.Solvency.{
  IsSolvent, new_pledge_mgr-IsSolvent, pledge-IsSolvent, withdraw-IsSolvent, total-owed,
}
use mefs_go_settlement.Pledge.Receipts.{sent-IsSolvent}
use mefs_go_settlement.World.{
  World, erc_token, role_mgr, find_erc, find_pledge, find_role, on_role, get_role_mgr, send_balance,
  get_token_balance, on_erc, on_pledge, call_token, send_balance_from,
}

abbrev pub plain : Crypto
plain = record { sum256 = λ m. m; sum512 = λ m. m; recover_pubkey = λ m sig. some sig }

-- The address of the pool that the registry at the address 3 makes.
abbrev pub pool : Address
pool = 4006566331911600113413996

abbrev token : ErcToken
token = record {
  local = 1;
  admin = 7;
  total_supply = pos 42;
  money = (8, pos 42) ∷ [];
  allowed = (record { owner = 8; spender = pool }, pos 30) ∷ [];
}

pub pool-lies : get_contract_address plain 3 pool_method ≡ pool
unfolding get_contract_address to_address bytes_to_address number bytes
pool-lies = refl

-- The registry has a role 1 at the address 8 and a role 2 at the address 9.
abbrev registry : RoleMgr
registry = record (new_role 3 3 7 1 pool (pos 0) (pos 0) 0) {
  addrs = 7 ∷ 8 ∷ 9 ∷ [];
  info = (8, new_account 1) ∷ (9, new_account 2) ∷ [];
}

abbrev pub world : World
world = record {
  objects = (1, erc_token token) ∷ (3, role_mgr registry) ∷ [];
  gtime = 0;
  real_time = true;
  clock = 0;
}

abbrev pub made : World
made = (new_pledge_mgr plain 3 1 world).1

made-IsSolvent : IsSolvent pool (1 ∷ 2 ∷ []) (1 ∷ []) made
made-IsSolvent =
    subst (λ a. IsSolvent a (1 ∷ 2 ∷ []) (1 ∷ []) made) pool-lies
      (new_pledge_mgr-IsSolvent plain 3 1 (1 ∷ 2 ∷ []) world (rw pool-lies (unfold lookup in refl))
        (rw pool-lies (unfold get_token_balance find_erc balance_of lookup in omega arith)))

-- Role 1 pledges 10, from the address 8.
abbrev pub pledged : World
pledged = (pledge pool 3 8 1 (pos 10) made).1

pub pledged-result : (pledge pool 3 8 1 (pos 10) made).0 ≡ ok tt
unfolding pledge new_pledge_mgr new_pledge get_contract_address to_address bytes_to_address number
    bytes lookup insert methods on_pledge get_token_balance find_erc find_pledge balance_of
    send_balance_from call_token on_erc Erc.transfer_from ◌+ℤ◌ ◌-ℤ◌ ◌*ℤ◌
pledged-result = refl

pub role_1 : Once 1 (1 ∷ 2 ∷ [])
role_1 = inl (refl, ((λ e. ground (arith, e)), tt))

pledge-IsSolvent_example : IsSolvent pool (1 ∷ 2 ∷ []) (1 ∷ []) pledged
pledge-IsSolvent_example =
    pledge-IsSolvent pool 3 8 (1 ∷ 2 ∷ []) (1 ∷ []) 1 (pos 10) made role_1 (λ e. ground (arith, e))
      made-IsSolvent pledged-result

pledged-IsSolvent : IsSolvent pool (1 ∷ 2 ∷ []) (1 ∷ []) pledged
pledged-IsSolvent =
    pledge-IsSolvent pool 3 8 (1 ∷ 2 ∷ []) (1 ∷ []) 1 (pos 10) made role_1 (λ e. ground (arith, e))
      made-IsSolvent pledged-result

-- It withdraws 4 of these.
withdrawn-result : (withdraw pool 3 1 0 (pos 4) (pos 5) pledged).0 ≡ ok tt
unfolding pledge new_pledge_mgr new_pledge get_contract_address to_address bytes_to_address number
    bytes lookup insert methods on_pledge get_token_balance find_erc find_pledge balance_of
    send_balance_from call_token on_erc Erc.transfer_from ◌+ℤ◌ ◌-ℤ◌ ◌*ℤ◌ withdraw send_balance
    get_role_mgr find_role on_role get_info_addr Erc.transfer new_role
withdrawn-result = refl

distinct :
    (j k : ℕ) (a : Address) → get_elem? (1 ∷ []) j ≡ some a → get_elem? (1 ∷ []) k ≡ some a → j ≡ k
distinct zero zero a ej ek = refl
distinct zero (suc k) a ej ek = absurd (cc ek)
distinct (suc j) k a ej ek = absurd (cc ej)

withdraw-IsSolvent_example :
    IsSolvent pool (1 ∷ 2 ∷ []) (1 ∷ []) (withdraw pool 3 1 0 (pos 4) (pos 5) pledged).1
withdraw-IsSolvent_example =
    withdraw-IsSolvent pool 3 (1 ∷ 2 ∷ []) (1 ∷ []) 1 0 (pos 4) (pos 5) pledged role_1 distinct
      (omega arith) pledged-IsSolvent withdrawn-result

withdrawn-balance : get_token_balance 1 pool (withdraw pool 3 1 0 (pos 4) (pos 5) pledged).1 ≡ pos 6
unfolding pledge new_pledge_mgr new_pledge get_contract_address to_address bytes_to_address number
    bytes lookup insert methods on_pledge get_token_balance find_erc find_pledge balance_of
    send_balance_from call_token on_erc Erc.transfer_from ◌+ℤ◌ ◌-ℤ◌ ◌*ℤ◌ withdraw send_balance
    get_role_mgr find_role on_role get_info_addr Erc.transfer new_role
withdrawn-balance = refl

-- What the pool has in its books then.
abbrev price : RewardInfo
price = record { reward_accum = pos 0; last_reward = pos 10 }

abbrev books : PledgeMgr
books = record {
  owner = 3;
  local = pool;
  token = 1;
  tokens = 1 ∷ [];
  total_pledge = pos 10;
  amount = (key 1 0, price) ∷ [];
  t_info = (0, price) ∷ [];
}

pledged-books : find_pledge pool pledged ≡ some books
unfolding pledge new_pledge_mgr new_pledge get_contract_address to_address bytes_to_address number
    bytes lookup insert methods on_pledge get_token_balance find_erc find_pledge balance_of
    send_balance_from call_token on_erc Erc.transfer_from ◌+ℤ◌ ◌-ℤ◌ ◌*ℤ◌
pledged-books = refl

total-owed_example :
    total
      (λ i. owed i 0 (get_token_balance 1 pool pledged) (stake books.amount i) (pos 10) price books)
      (1 ∷ 2 ∷ [])
    ≤ℤ get_token_balance 1 pool pledged
total-owed_example =
    total-owed pool (1 ∷ 2 ∷ []) (1 ∷ []) 0 price 1 books pledged pledged-IsSolvent pledged-books
      (unfold lookup in refl) refl

-- Ten more come in.
sent-result : (send_balance 1 8 pool (pos 10) pledged).0 ≡ ok tt
unfolding pledge new_pledge_mgr new_pledge get_contract_address to_address bytes_to_address number
    bytes lookup insert methods on_pledge get_token_balance find_erc find_pledge balance_of
    send_balance_from call_token on_erc Erc.transfer_from ◌+ℤ◌ ◌-ℤ◌ ◌*ℤ◌ send_balance Erc.transfer
sent-result = refl

-- Role 1 then pledges more than the address 8 has left. The call returns an error, and
-- the role has 20 in the books, of a total of 10.
abbrev failed : World
failed = (pledge pool 3 8 1 (pos 25) (send_balance 1 8 pool (pos 10) pledged).1).1

abbrev books_failed : PledgeMgr
books_failed = record books {
  amount = (key 1 0, record { reward_accum = pos 1; last_reward = pos 20 }) ∷ [];
  t_info = (0, record { reward_accum = pos 1; last_reward = pos 20 }) ∷ [];
}

failed-books : find_pledge pool failed ≡ some books_failed
unfolding pledge new_pledge_mgr new_pledge get_contract_address to_address bytes_to_address number
    bytes lookup insert methods on_pledge get_token_balance find_erc find_pledge balance_of
    send_balance_from call_token on_erc Erc.transfer_from ◌+ℤ◌ ◌-ℤ◌ ◌*ℤ◌ ◌/ℤ◌ send_balance
    Erc.transfer
failed-books = refl
