-- ===== src/Node.antt =====
-- server/impl/node/: the server's node. Each transaction holds the node's lock from start to end, so
-- transactions are steps one after another. A pointer to a contract is its address.
pub mod Replay
pub mod Others
pub mod Members
pub mod Queries
pub mod Unchanged
mod Tests
use mefs_go_settlement.Base.{
  ℕ, zero, suc, ◌*◌, ◌/◌, ◌%◌, ◌==◌, not, add64, Bool, List, [], ◌∷◌, Option, none, some, ℤ, pos,
  ◌*ℤ◌, Dict, nat_eq, lookup, insert, M, pure, gets, or_throw, or_crash, throw_if, modify, ◌>>=◌,
  ◌>>◌, node_err_res, node_err_nonce,
}
use mefs_go_settlement.Utils.Key.{Address, Crypto, verify, get_contract_address}
use mefs_go_settlement.Erc
use mefs_go_settlement.Erc.{ErcToken, new_token}
use mefs_go_settlement.Role.Groups
use mefs_go_settlement.Role.Funds
use mefs_go_settlement.Role.Orders
use mefs_go_settlement.World.{World, erc_token, on_erc, on_role, store}

pub record Node : Type 0 where
  pub count : ℕ
  pub rm : Option Address
  pub erc_map : Dict Address Address
  pub nonce_map : Dict Address ℕ

-- The node and the contracts.
pub record Server : Type 0 where
  pub node : Node
  pub world : World

abbrev pub new_node : Node
new_node = record { count = 0; rm = none; erc_map = []; nonce_map = [] }

abbrev pub nonce_or_zero : Option ℕ → ℕ
nonce_or_zero none = 0
nonce_or_zero (some n) = n

-- `GetNonce`
unfoldable pub get_nonce : (addr : Address) → Node → ℕ
get_nonce addr n = nonce_or_zero (lookup addr n.nonce_map)

-- `getAndIncNonce`
unfoldable pub get_and_inc_nonce : (addr : Address) → M Server ℕ
unfolding get_nonce
get_and_inc_nonce addr = do
  non ← gets (λ s. get_nonce addr s.node)
  modify (λ s. record s {
    node = record s.node { nonce_map = insert addr (add64 non 1) s.node.nonce_map };
  })
  pure non

-- `n.count++`
unfoldable pub count_call : M Server (Unit {0})
count_call = modify (λ s. record s { node = record s.node { count = add64 s.node.count 1 } })

-- `binary.LittleEndian.PutUint64`
unfoldable pub little_endian : (bytes n : ℕ) → List ℕ
little_endian zero n = []
little_endian (suc k) n = n % 256 ∷ little_endian k (n / 256)

-- The test of the nonce, which uses it up in any case, and of the signature on it.
unfoldable pub authorise :
    Crypto → (uid : ℕ) (sig : List ℕ) (caller : Address) → M Server (Unit {0})
authorise c uid sig caller = do
  cn ← get_and_inc_nonce caller
  throw_if (not (cn == uid)) node_err_nonce
  throw_if (not (verify c caller (c.sum256 (little_endian 8 uid)) sig)) node_err_res

-- A call of contracts.
unfoldable pub on_world : {A : Type 0} → M World A → M Server A
on_world m s = let (r, w) = m s.world in (r, record s { world = w })

-- A call of `n.rm`, which is nil until `CreateRoleMgr`.
unfoldable pub on_manager : {A : Type 0} → (Address → M World A) → M Server A
on_manager m = do self ← or_crash (← gets (λ s. s.node.rm)); on_world (m self)

-- What a transaction to the registry of roles asks for.
pub data RoleCall : Type 0 where
  register : (addr : Address) → RoleCall
  register_token : (taddr : Address) → RoleCall
  register_keeper : (index : ℕ) (bls_key : List ℕ) → RoleCall
  register_provider : (index : ℕ) → RoleCall
  register_user : (index g_index : ℕ) (bls_key : List ℕ) → RoleCall
  pledge : (index : ℕ) (money : ℤ) → RoleCall
  withdraw : (index token : ℕ) (money : ℤ) → RoleCall
  create_group : (level : ℕ) → RoleCall
  add_keeper_to_group : (index g_index : ℕ) → RoleCall
  add_provider_to_group : (index g_index : ℕ) → RoleCall
  recharge : (user token : ℕ) (money : ℤ) → RoleCall
  pro_withdraw : (pro token : ℕ) (pay lost : ℤ) → RoleCall
  withdraw_from_fs : (index token : ℕ) (amount : ℤ) → RoleCall
  add_order sub_order : (user pro start end size nonce token : ℕ) (sprice : ℤ) → RoleCall

-- The call of the registry that each transaction makes.
unfoldable pub call_role : Crypto → (self caller : Address) → RoleCall → M World (Unit {0})
call_role c self caller (register addr) = on_role self (Groups.register caller addr)
call_role c self caller (register_token taddr) = Groups.register_token self caller taddr
call_role c self caller (register_keeper index bls_key) =
    Groups.register_keeper self caller index bls_key
call_role c self caller (register_provider index) = Groups.register_provider self caller index
call_role c self caller (register_user index g_index bls_key) =
    Groups.register_user self caller index g_index bls_key
call_role c self caller (pledge index money) = Funds.pledge self caller index money
call_role c self caller (withdraw index token money) = Funds.withdraw self caller index token money
call_role c self caller (create_group level) = Groups.create_group c self caller level
call_role c self caller (add_keeper_to_group index g_index) =
    Groups.add_keeper_to_group self caller index g_index
call_role c self caller (add_provider_to_group index g_index) =
    on_role self (Groups.add_provider_to_group caller index g_index)
call_role c self caller (recharge user token money) = Funds.recharge self caller user token money
call_role c self caller (pro_withdraw pro token pay lost) =
    Funds.pro_withdraw self caller pro token pay lost
call_role c self caller (withdraw_from_fs index token amount) =
    Funds.withdraw_from_fs self caller index token amount
call_role c self caller (add_order user pro start end size nonce token sprice) =
    Orders.add_order self caller user pro start end size nonce token sprice
call_role c self caller (sub_order user pro start end size nonce token sprice) =
    Orders.sub_order self caller user pro start end size nonce token sprice

-- The body that the transactions of node.go from `Register` to `SubOrder` share.
unfoldable pub transact_role :
    Crypto → (uid : ℕ) (sig : List ℕ) (caller : Address) → RoleCall → M Server (Unit {0})
transact_role c uid sig caller call = do
  count_call
  authorise c uid sig caller
  on_manager (λ self. call_role c self caller call)

abbrev pub keeper_deposit : ℤ
keeper_deposit = pos 100 *ℤ pos 1_000_000_000_000_000_000

abbrev pub provider_deposit : ℤ
provider_deposit = pos 1 *ℤ pos 1_000_000_000_000_000_000

-- `CreateRoleMgr`
unfoldable pub create_role_mgr :
    Crypto → (uid : ℕ) (sig : List ℕ) (caller founder token : Address) → M Server Address
create_role_mgr c uid sig caller founder token = do
  count_call
  authorise c uid sig caller
  rm ← on_world (Groups.new_role_mgr c caller founder token keeper_deposit provider_deposit)
  modify (λ s. record s { node = record s.node { rm = some rm } })
  pure rm

abbrev pub token_method : List ℕ
token_method = b'E' ∷ b'r' ∷ b'c' ∷ b'T' ∷ b'o' ∷ b'k' ∷ b'e' ∷ b'n' ∷ []

-- `NewErcToken`
unfoldable pub new_erc_token : Crypto → (caller : Address) → M World Address
new_erc_token c caller = do
  let local = get_contract_address c caller token_method
  modify (store local (erc_token (new_token local caller)))
  pure local

-- `CreateErcToken`
unfoldable pub create_erc_token :
    Crypto → (uid : ℕ) (sig : List ℕ) (caller : Address) → M Server Address
create_erc_token c uid sig caller = do
  count_call
  authorise c uid sig caller
  et ← on_world (new_erc_token c caller)
  modify (λ s. record s { node = record s.node { erc_map = insert et et s.node.erc_map } })
  pure et

-- What a transaction to a token asks for.
pub data ErcCall : Type 0 where
  approve : (spender : Address) (value : ℤ) → ErcCall
  transfer : (to : Address) (value : ℤ) → ErcCall
  transfer_from : (from to : Address) (value : ℤ) → ErcCall
  mint_token : (target : Address) (amount : ℤ) → ErcCall
  burn : (amount : ℤ) → ErcCall
  air_drop : (addrs : List Address) (money : ℤ) → ErcCall

unfoldable pub call_erc : (caller : Address) → ErcCall → M ErcToken (Unit {0})
call_erc caller (approve spender value) = modify (Erc.approve caller spender value)
call_erc caller (transfer to value) = Erc.transfer caller to value
call_erc caller (transfer_from from to value) = Erc.transfer_from caller from to value
call_erc caller (mint_token target amount) = Erc.mint_token caller target amount
call_erc caller (burn amount) = Erc.burn caller amount
call_erc caller (air_drop addrs money) = Erc.air_drop caller addrs money

-- The body that the transactions of erc.go from `Approve` to `AirDrop` share. A token that the node
-- does not know is refused before the nonce is used.
unfoldable pub transact_erc :
    Crypto → (uid : ℕ) (sig : List ℕ) (taddr caller : Address) → ErcCall → M Server (Unit {0})
transact_erc c uid sig taddr caller call = do
  count_call
  er ← or_throw (← gets (λ s. lookup taddr s.node.erc_map)) node_err_res
  authorise c uid sig caller
  on_world (on_erc er (call_erc caller call))

-- A transaction of any kind.
pub data Transaction : Type 0 where
  to_role : (uid : ℕ) (sig : List ℕ) (caller : Address) → RoleCall → Transaction
  to_erc : (uid : ℕ) (sig : List ℕ) (taddr caller : Address) → ErcCall → Transaction
  make_role : (uid : ℕ) (sig : List ℕ) (caller founder token : Address) → Transaction
  make_erc : (uid : ℕ) (sig : List ℕ) (caller : Address) → Transaction

abbrev pub uid_of : Transaction → ℕ
uid_of (to_role uid sig caller call) = uid
uid_of (to_erc uid sig taddr caller call) = uid
uid_of (make_role uid sig caller founder token) = uid
uid_of (make_erc uid sig caller) = uid

abbrev pub caller_of : Transaction → Address
caller_of (to_role uid sig caller call) = caller
caller_of (to_erc uid sig taddr caller call) = caller
caller_of (make_role uid sig caller founder token) = caller
caller_of (make_erc uid sig caller) = caller

-- The server after a transaction, and after several.
unfoldable pub serve : Crypto → Transaction → Server → Server
serve c (to_role uid sig caller call) s = (transact_role c uid sig caller call s).1
serve c (to_erc uid sig taddr caller call) s = (transact_erc c uid sig taddr caller call s).1
serve c (make_role uid sig caller founder token) s =
    (create_role_mgr c uid sig caller founder token s).1
serve c (make_erc uid sig caller) s = (create_erc_token c uid sig caller s).1

unfoldable pub serve_all : Crypto → List Transaction → Server → Server
unfolding serve
serve_all c [] s = s
serve_all c (tx ∷ txs) s = serve_all c txs (serve c tx s)
